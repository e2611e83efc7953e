-- ===== src/Examples/Commands.antt =====
-- src/bas/cli/cli_parser.c: a parser with one handler.
use bas_c.Common.{
  ℕ, ◌+◌, ◌≡◌, refl, inl, inr, true, false, Option, none, some, List, [], ◌∷◌, arith, Bytes, codes,
  pos, negsuc, if◌then◌else◌, length, replicate,
}
use bas_c.Base.CString.{isspace, str_eq}
use bas_c.Base.Str.{rtrim}
use bas_c.Cli.Args.Parse.Whole.{braced}
use bas_c.Cli.Args.Wildcard.{contains_wildcard}
use bas_c.Cli.Args.Word.Spelled.{Spells_same}
use bas_c.Util.PrefixMap.{PrefixMap}
use bas_c.Util.PrefixMap
use bas_c.Util.PrefixMap.Laws.{create_ex-IsValid}
use bas_c.Cli.CliParser.{World, Handler, CliParser, get_alias, set_alias, emit_error}
use bas_c.Cli.CliParser.Redirect.{
  Redirection, parse_redirections, take_output, take_part, trim_whitespace, strstr_any, strrchr,
  last_gt,
}
use bas_c.Cli.CliParser.Redirect.Parts.{parse_redirections-parts}
use bas_c.Cli.CliParser.Statement.{
  returned, overflow, execute_statement, cli_parser_parse_line, dispatch, expand_aliases,
  statements, first_word, args_text, run_line, skip_comments, run_statements, run_trimmed, run_text,
  run_command, named_command, with_args, parsed_args,
}
use bas_c.Cli.CliParser.Statement.Returns.{Returns, parse_line-Returns}
use bas_c.Cli.CliParser.Statement.Lines.{in_turn, parse_line-in_turn}
use bas_c.Cli.CliParser.Statement.Command.{
  execute_statement-dispatch, execute_statement-overflow, dispatch-first,
}
use bas_c.Cli.CliParser.Aliases.{
  HasAliases, get_alias-set_alias, expand_aliases-circular, expand_aliases-dispatch,
}
use bas_c.Base.Getline.{Answers}
use bas_c.Cli.Alloc.{Result, ok, failed, double_free, out_of_fuel}
use bas_c.Cli.CliParser.Default.{default_args_parser, Gets, UsesDefault, execute_statement-forms}

-- The handlers count their calls.
abbrev Count : Type 0
Count = World ℕ

abbrev counter : Handler ℕ
counter = record {
  can_handle = some (λ name argv w. (str_eq name (codes "ls"), w));
  handle = λ name argv redir w. (pos 0, record w { state = w.state + length argv });
}

-- Every text is one argument.
abbrev whole_text : Bytes → Count → Option (List Bytes) × Count
whole_text text w = (some (text ∷ []), w)

-- The aliases are `cd` for `ls` and `ll` for `cd`.
abbrev two_aliases : Bytes → Option Bytes
two_aliases name =
    if str_eq name (codes "ll")
    then some (codes "cd")
    else if str_eq name (codes "cd")
    then some (codes "ls")
    else none

abbrev parser : CliParser ℕ
parser = record {
  handlers = counter ∷ [];
  handlers_capacity = 16;
  alias_resolver = some two_aliases;
  args_parser = whole_text;
  error_callback = none;
}

abbrev fresh : Count
fresh = record { state = 0; alias_map = none; stderr = [] }

abbrev no_redirection : Redirection
no_redirection = record {
  output_file = none;
  input_file = none;
  pipe_command = none;
  append_mode = false;
}

parse_redirections_runs : parse_redirections (codes "sort -r|head <in >> out ") ≡ (
  codes "sort -r",
  record {
    output_file = some (codes "out");
    input_file = some (codes "in");
    pipe_command = some (codes "head");
    append_mode = true;
  },
)
unfolding parse_redirections take_output take_part strstr_any strrchr last_gt trim_whitespace
parse_redirections_runs = refl

parse_line_runs :
    cli_parser_parse_line parser (codes "ls -a > x; ls -b; no") fresh
    ≡ returned
        (negsuc 0)
        (record { state = 4; alias_map = none; stderr = codes "Invalid command: no" ∷ [] })
unfolding cli_parser_parse_line run_line skip_comments run_statements statements execute_statement
    run_trimmed trim_whitespace run_text run_command named_command first_word parse_redirections
    take_part strstr_any take_output strrchr with_args last_gt parsed_args args_text dispatch
    expand_aliases emit_error get_alias str_eq
parse_line_runs = refl

parse_line-Returns_example : Returns (cli_parser_parse_line parser (codes "ls -a; no") fresh)
parse_line-Returns_example =
    parse_line-Returns parser (λ text w. omega arith) (codes "ls -a; no") fresh

parse_line-in_turn_example :
    cli_parser_parse_line parser (codes "ls -a; no") fresh
    ≡ in_turn parser (codes "ls -a" ∷ codes " no" ∷ []) fresh
unfolding isspace
parse_line-in_turn_example =
    parse_line-in_turn parser (codes "ls -a") (codes " no" ∷ []) fresh (refl, omega arith)
      ((refl, omega arith), ((refl, omega arith), tt)) (omega arith)

parse_redirections-parts_example : parse_redirections (codes "sort -r | head < in >> out") ≡ (
  codes "sort -r",
  record {
    output_file = some (codes "out");
    input_file = some (codes "in");
    pipe_command = some (codes "head");
    append_mode = true;
  },
)
unfolding rtrim trim_whitespace
parse_redirections-parts_example =
    parse_redirections-parts (codes "sort -r") (some (codes "head")) (some (codes "in"))
      (some (true, codes "out")) (refl, refl, refl) (refl, refl, refl) (refl, refl, refl)
      (refl, refl, refl)

execute_statement-dispatch_example :
    execute_statement parser (codes "ls -a") fresh
    ≡ dispatch parser
        (counter ∷ [])
        (codes "ls")
        (codes "ls" ∷ codes "-a" ∷ [])
        (record { output_file = none; input_file = none; pipe_command = none; append_mode = false })
        fresh
unfolding isspace get_alias str_eq
execute_statement-dispatch_example =
    execute_statement-dispatch parser (codes "ls") (codes "-a") none none none (codes "-a" ∷ [])
      fresh fresh ((refl, omega arith), (refl, (refl, tt)), omega arith) (refl, refl)
      (refl, refl, refl) (refl, refl, refl) (refl, refl, refl) (refl, refl, refl) refl (omega arith)
      refl (omega arith) refl

-- A parser that returns 64 arguments for every text.
abbrev many : CliParser ℕ
many = record parser { args_parser = λ text w. (some (replicate 64 text), w) }

execute_statement-overflow_example : execute_statement many (codes "ls -a") fresh ≡ overflow
unfolding isspace
execute_statement-overflow_example =
    execute_statement-overflow many (codes "ls") (codes "-a") none none none
      (replicate 64 (codes "-a")) fresh fresh ((refl, omega arith), (refl, (refl, tt)), omega arith)
      (refl, refl) (refl, refl, refl) (refl, refl, refl) (refl, refl, refl) (refl, refl, refl) refl
      (omega arith) refl (omega arith)

dispatch-first_example :
    (dispatch parser
        (record counter { can_handle = none } ∷ counter ∷ [])
        (codes "ls")
        (codes "ls" ∷ [])
        no_redirection
        fresh
      ≡ returned (pos 0) (record fresh { state = 1 }))
    × (dispatch parser
          (record counter { can_handle = none } ∷ [])
          (codes "ls")
          (codes "ls" ∷ [])
          no_redirection
          fresh
        ≡ returned (negsuc 0) (emit_error parser (codes "Invalid command: ls") fresh))
unfolding str_eq
dispatch-first_example =
    dispatch-first parser (record counter { can_handle = none } ∷ []) [] counter (codes "ls")
      (codes "ls" ∷ []) no_redirection fresh fresh _ (inl refl, tt) refl refl

-- A parser with a table of aliases of its own.
abbrev own : Count
own = record { state = 0; alias_map = some (PrefixMap.create_ex true); stderr = [] }

own-HasAliases : HasAliases own
own-HasAliases = (PrefixMap.create_ex true, refl, (create_ex-IsValid true).0)

get_alias-set_alias_example :
    ((set_alias true true true own (codes "ll") (codes "ls -l")).0 ≡ true)
    × HasAliases (set_alias true true true own (codes "ll") (codes "ls -l")).1
    × (get_alias parser (set_alias true true true own (codes "ll") (codes "ls -l")).1 (codes "ll")
        ≡ (if str_eq (codes "ll") (codes "ll")
            then some (codes "ls -l")
            else get_alias parser own (codes "ll")))
get_alias-set_alias_example =
    get_alias-set_alias parser own (codes "ll") (codes "ll") (codes "ls -l") own-HasAliases

-- Every name is an alias.
abbrev endless : CliParser ℕ
endless = record parser { alias_resolver = some (λ name. some (codes "x")) }

expand_aliases-circular_example :
    expand_aliases endless 10 no_redirection (codes "x") [] (codes "x" ∷ []) fresh
    ≡ returned
        (negsuc 0)
        (emit_error endless (codes "Too many alias expansions (possible circular alias)") fresh)
unfolding get_alias
expand_aliases-circular_example =
    expand_aliases-circular endless (λ x. Unit) 10 no_redirection (codes "x") [] (codes "x" ∷ [])
      fresh (λ x u. (codes "x", refl, λ args. (_, [], refl, tt, omega arith))) tt

-- The text is split at its blanks, for two names at most.
abbrev two_words : Bytes → Count → Option (List Bytes) × Count
two_words text w =
    let (word, rest) = first_word text in
    (some (word ∷ elim (args_text rest) [ some t ↦ t ∷ [] | none ↦ [] ]), w)

abbrev splitting : CliParser ℕ
splitting = record parser { args_parser = two_words }

expand_aliases-dispatch_example :
    expand_aliases splitting 10 no_redirection
      (codes "cd")
      (codes "a" ∷ [])
      (codes "cd" ∷ codes "a" ∷ [])
      fresh
    ≡ dispatch splitting
        (counter ∷ [])
        (codes "ls")
        (codes "ls" ∷ codes "a" ∷ [])
        no_redirection
        fresh
unfolding get_alias str_eq first_word args_text
expand_aliases-dispatch_example =
    expand_aliases-dispatch splitting no_redirection (codes "cd") (codes "ls") (codes "ls")
      (codes "a" ∷ []) (codes "cd" ∷ codes "a" ∷ []) (codes "a" ∷ []) fresh fresh refl (omega arith)
      refl (omega arith) (omega arith) refl

-- A matcher for nothing, no directory, and memory; a call that has no result is an error here.
abbrev default_arguments : Result (List Bytes × Answers) → World ℕ → Option (List Bytes) × World ℕ
default_arguments (ok a) w = (some a.0, w)
default_arguments failed w = (none, w)
default_arguments double_free w = (none, w)
default_arguments out_of_fuel w = (none, w)

abbrev defaulted : CliParser ℕ
defaulted = record parser {
  args_parser =
      λ text w. default_arguments (default_args_parser (λ p s. false) none none text []) w;
}

default_arguments-Gets :
    (r : Result (List Bytes × Answers)) (w : World ℕ)
    → Gets (λ p s. false) none none (default_arguments r w) w r
default_arguments-Gets (ok a) w = refl
default_arguments-Gets failed w = refl
default_arguments-Gets double_free w = tt
default_arguments-Gets out_of_fuel w = tt

defaulted-UsesDefault : UsesDefault (λ p s. false) none none defaulted
defaulted-UsesDefault text w =
    default_arguments-Gets (default_args_parser (λ p s. false) none none text []) w

execute_statement-forms_example :
    execute_statement defaulted (codes "ls x{a,b} > f") fresh
    ≡ dispatch defaulted
        (counter ∷ [])
        (codes "ls")
        (codes "ls" ∷ codes "xa" ∷ codes "xb" ∷ [])
        (record no_redirection { output_file = some (codes "f") })
        fresh
unfolding isspace get_alias str_eq rtrim trim_whitespace contains_wildcard
execute_statement-forms_example =
    execute_statement-forms (λ p s. false) none none defaulted (codes "ls")
      (record { raw = codes "x{a,b}"; tok = codes "x{a,b}"; gap = [] } ∷ [])
      (braced (codes "x") (codes "a") (codes "b" ∷ []) [] ∷ []) none none (some (false, codes "f"))
      fresh ((refl, omega arith), (refl, (refl, tt)), omega arith) (refl, refl) tt
      (
        (
          refl,
          Spells_same (codes "x{a,b}") (
            (refl, omega arith, omega arith, omega arith),
            (
              (refl, omega arith, omega arith, omega arith),
              (
                (refl, omega arith, omega arith, omega arith),
                (
                  (refl, omega arith, omega arith, omega arith),
                  (
                    (refl, omega arith, omega arith, omega arith),
                    ((refl, omega arith, omega arith, omega arith), tt),
                  ),
                ),
              ),
            ),
          ),
        ),
        omega arith,
        tt,
        inr refl,
        tt,
      )
      refl
      (
        (
          (omega arith, tt),
          (refl, ((omega arith, omega arith, omega arith, omega arith), tt)),
          ((refl, ((omega arith, omega arith, omega arith, omega arith), tt)), tt),
        ),
        tt,
      )
      (refl, refl, refl) (refl, refl, refl) (refl, refl, refl) (refl, refl, refl) refl (omega arith)
      defaulted-UsesDefault (omega arith) refl
