-- ===== src/Cli/CliParser/Statement.antt =====
-- `execute_statement` and `cli_parser_parse_line` of src/bas/cli/cli_parser.c.
pub mod Slots
pub mod Returns
pub mod Lines
pub mod Command
use bas_c.Common.{
  ℕ, zero, suc, ◌+◌, ◌-◌, Option, none, some, List, [], ◌∷◌, ◌++◌, Bytes, codes, ℤ, pos, negsuc,
  ltb, ◌==◌, if◌then◌else◌, take,
}
use bas_c.Base.CString.{isspace}
use bas_c.Base.Str.{ltrim}
use bas_c.Cli.CliParser.{World, Handler, CliParser, emit_error, get_alias}
use bas_c.Cli.CliParser.Redirect.{Redirection, trim_whitespace, parse_redirections}

-- A call returns a number, or writes behind the 65 slots of `cmd_argv`.
pub data Ended (S : Type 0) : Type 0 where
  returned : ℤ → World S → Ended S
  overflow : Ended S

-- The text behind white space; `none` where it is a comment.
unfoldable pub skip_comments : Bytes → Option Bytes
unfolding ltrim
skip_comments line =
    let text = ltrim line in
    elim text [ [] ↦ some [] | c ∷ s ↦ if c == b'#' then none else some (c ∷ s) ]

-- The bytes up to the first white space, and the text from it on.
unfoldable pub first_word : Bytes → Bytes × Bytes
unfolding isspace
first_word [] = ([], [])
first_word (c ∷ s) =
    let (word, rest) = first_word s in if isspace c then ([], c ∷ s) else (c ∷ word, rest)

-- `args_str`, from the text at the end of the command name on.
unfoldable pub args_text : Bytes → Option Bytes
unfolding ltrim
args_text [] = none
args_text (c ∷ s) = let text = ltrim s in elim text [ [] ↦ none | d ∷ t ↦ some (d ∷ t) ]

-- A copy into a buffer of `size` bytes.
abbrev pub clip : ℕ → Bytes → Bytes
clip size s = take (size - 1) s

-- `strncat` of a blank and each argument.
unfoldable pub append_args : Bytes → List Bytes → Bytes
append_args cmd [] = cmd
append_args cmd (arg ∷ args) = append_args (clip 1024 (clip 1024 (cmd ++ b' ' ∷ []) ++ arg)) args

-- `expanded_cmd`
unfoldable pub expanded_cmd : Bytes → List Bytes → Bytes
unfolding append_args
expanded_cmd value args = append_args (clip 1024 value) args

-- `char* cmd_argv[65]`
abbrev pub argv_slots : ℕ
argv_slots = 65

-- The strings are written to `cmd_argv` from a slot on, and a NULL behind them: the strings that stand
-- there then, or `none` for a write behind the last slot.
unfoldable pub store : ℕ → List Bytes → Option (List Bytes)
store i [] = if ltb i argv_slots then some [] else none
store i (arg ∷ args) =
    let rest = store (i + 1) args in
    if ltb i argv_slots then elim rest [ none ↦ none | some more ↦ some (arg ∷ more) ] else none

-- The statements between the semicolons.
unfoldable pub statements : Bytes → List Bytes
statements [] = [] ∷ []
statements (c ∷ s) =
    let rest = statements s in
    if c == b';' then [] ∷ rest else elim rest [ [] ↦ (c ∷ []) ∷ [] | t ∷ ts ↦ (c ∷ t) ∷ ts ]

module _ {S : Type 0} where
  abbrev pub fail : CliParser S → Bytes → World S → Ended S
  fail parser message w = returned (negsuc 0) (emit_error parser message w)

  -- The handlers in order.
  unfoldable pub dispatch :
      CliParser S → List (Handler S) → Bytes → List Bytes → Redirection → World S → Ended S
  unfolding emit_error
  dispatch parser [] name argv redir w =
      fail parser (clip 512 (codes "Invalid command: " ++ name)) w
  dispatch parser (h ∷ hs) name argv redir w =
      let again : World S → Ended S = λ w'. dispatch parser hs name argv redir w' in
      elim h.can_handle [
        | none ↦ again w
        | some can ↦
            let (accepts, w') = can name argv w in
            if accepts
            then (let (result, w'') = h.handle name argv redir w' in returned result w'')
            else again w'
      ]

  -- What follows the re-parse of an expanded alias: an error, or the loop with the new command.
  unfoldable pub expanded :
      CliParser S
      → (Bytes → List Bytes → List Bytes → World S → Ended S)
      → Option (List Bytes) × World S
      → Ended S
  unfolding emit_error store
  expanded parser again (none, w) = fail parser (codes "Failed to parse expanded alias") w
  expanded parser again (some [], w) =
      fail parser (codes "Expanded alias resulted in empty command") w
  expanded parser again (some (arg ∷ args), w) = elim (store 0 (arg ∷ args)) [
    | none ↦ overflow
    | some argv ↦ again (clip 256 arg) (arg ∷ args) argv w
  ]

  -- `while (expansion_count < max_alias_expansions)` with the rounds left, and what follows: the
  -- command name, `parsed_argv` and `cmd_argv`.
  unfoldable pub expand_aliases :
      CliParser S → ℕ → Redirection → Bytes → List Bytes → List Bytes → World S → Ended S
  unfolding emit_error
  expand_aliases parser zero redir name parsed argv w =
      fail parser (codes "Too many alias expansions (possible circular alias)") w
  expand_aliases parser (suc n) redir name parsed argv w = elim (get_alias parser w name) [
    | none ↦ dispatch parser parser.handlers name argv redir w
    | some value ↦
        expanded parser (expand_aliases parser n redir)
          (parser.args_parser (expanded_cmd value parsed) w)
  ]

  -- With the arguments of the command, or `none` for an error of the argument parser.
  unfoldable pub with_args :
      CliParser S → Redirection → Bytes → Option (List Bytes) × World S → Ended S
  unfolding emit_error store
  with_args parser redir name (none, w) = fail parser (codes "Failed to parse command arguments") w
  with_args parser redir name (some parsed, w) = elim (store 0 (name ∷ parsed)) [
    | none ↦ overflow
    | some argv ↦ expand_aliases parser 10 redir name parsed argv w
  ]

  -- The arguments in the text; no arguments where there is none.
  unfoldable pub parsed_args : CliParser S → Option Bytes → World S → Option (List Bytes) × World S
  parsed_args parser none w = (some [], w)
  parsed_args parser (some text) w = parser.args_parser text w

  -- With the command name, in a buffer of 256 bytes, and what follows it.
  unfoldable pub named_command : CliParser S → Redirection → Bytes → Bytes → World S → Ended S
  named_command parser redir [] rest w = returned (pos 0) w
  named_command parser redir (c ∷ name) rest w =
      with_args parser redir (c ∷ name) (parsed_args parser (args_text rest) w)

  -- A command without its redirections.
  unfoldable pub run_command : CliParser S → Redirection → Bytes → World S → Ended S
  unfolding ltrim
  run_command parser redir cmd w =
      let (word, rest) = first_word (ltrim cmd) in named_command parser redir (clip 256 word) rest w

  -- A statement that is no comment, in a buffer of 1024 bytes.
  unfoldable pub run_text : CliParser S → Option Bytes → World S → Ended S
  run_text parser none w = returned (pos 0) w
  run_text parser (some text) w =
      let (cmd, redir) = parse_redirections (clip 1024 text) in run_command parser redir cmd w

  unfoldable pub run_trimmed : CliParser S → Bytes → World S → Ended S
  run_trimmed parser [] w = returned (pos 0) w
  run_trimmed parser (c ∷ s) w = run_text parser (skip_comments (c ∷ s)) w

  unfoldable pub execute_statement : CliParser S → Bytes → World S → Ended S
  execute_statement parser statement w = run_trimmed parser (trim_whitespace statement) w

  abbrev pub after_statement : (World S → Ended S) → Ended S → Ended S
  after_statement again overflow = overflow
  after_statement again (returned (pos zero) w) = again w
  after_statement again (returned (pos (suc n)) w) = returned (pos (suc n)) w
  after_statement again (returned (negsuc n) w) = returned (negsuc n) w

  -- The loop over the statements, each in a buffer of 1024 bytes, until one fails.
  unfoldable pub run_statements : CliParser S → List Bytes → World S → Ended S
  run_statements parser [] w = returned (pos 0) w
  run_statements parser (s ∷ ss) w =
      after_statement (λ w'. run_statements parser ss w') (execute_statement parser (clip 1024 s) w)

  -- A line that is no comment, in a buffer of 2048 bytes.
  unfoldable pub run_line : CliParser S → Option Bytes → World S → Ended S
  run_line parser none w = returned (pos 0) w
  run_line parser (some text) w = run_statements parser (statements (clip 2048 text)) w

  unfoldable pub cli_parser_parse_line : CliParser S → Bytes → World S → Ended S
  cli_parser_parse_line parser line w = run_line parser (skip_comments line) w
