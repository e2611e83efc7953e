-- ===== src/Cli/CliParser/Statement/Returns.antt =====
-- A line comes to an end inside the slots of `cmd_argv`, as long as there are not too many arguments.
use bas_c.Common.{
  ℕ, zero, suc, ◌<◌, ◌≡◌, refl, inl, inr, Bool, true, false, Option, none, some, List, [], ◌∷◌,
  arith, Bytes, ℤ, pos, negsuc, if◌then◌else◌, length, Option-cases,
}
use bas_c.Cli.CliParser.{World, Handler, CliParser, get_alias}
use bas_c.Cli.CliParser.Redirect.{Redirection, trim_whitespace, parse_redirections}
use bas_c.Cli.CliParser.Statement.{
  Ended, returned, overflow, clip, skip_comments, first_word, args_text, expanded_cmd, dispatch,
  expanded, expand_aliases, with_args, parsed_args, named_command, run_command, run_text,
  run_trimmed, run_line, execute_statement, statements, after_statement, run_statements,
  cli_parser_parse_line,
}
use bas_c.Cli.CliParser.Statement.Slots.{store_inside}
use bas_c.Base.Str.{ltrim}

abbrev pub Few : Option (List Bytes) → Type 0
Few none = Unit
Few (some args) = length args < 64

module _ {S : Type 0} where
  abbrev pub Returns : Ended S → Type 0
  Returns e = (result : ℤ) × (w : World S) × (e ≡ returned result w)

  accepts-Returns :
      (h : Handler S) (name : Bytes) (argv : List Bytes) (redir : Redirection) (yes? : Bool)
      (w' : World S) (other : Ended S)
      → Returns other
      → Returns (
          if yes?
          then (let (result, w'') = h.handle name argv redir w' in returned result w'')
          else other)
  accepts-Returns h name argv redir true w' other o = (_, _, refl)
  accepts-Returns h name argv redir false w' other o = o

  dispatch-Returns :
      (parser : CliParser S) (hs : List (Handler S)) (name : Bytes) (argv : List Bytes)
      (redir : Redirection) (w : World S)
      → Returns (dispatch parser hs name argv redir w)
  unfolding dispatch
  dispatch-Returns parser [] name argv redir w = (_, _, refl)
  dispatch-Returns parser (h ∷ hs) name argv redir w = elim (Option-cases h.can_handle) [
    | inl e ↦ rw (e, dispatch) (dispatch-Returns parser hs name argv redir w)
    | inr (can, e) ↦
        rw (e, dispatch)
          (accepts-Returns h name argv redir (can name argv w).0 (can name argv w).1 _
            (dispatch-Returns parser hs name argv redir (can name argv w).1))
  ]

  expanded-Returns :
      (parser : CliParser S) (again : Bytes → List Bytes → List Bytes → World S → Ended S)
      (r : Option (List Bytes) × World S)
      → Few r.0
      → ((name : Bytes) (parsed argv : List Bytes) (w : World S)
          → Returns (again name parsed argv w))
      → Returns (expanded parser again r)
  unfolding expanded
  expanded-Returns parser again (none, w) few k = (_, _, refl)
  expanded-Returns parser again (some [], w) few k = (_, _, refl)
  expanded-Returns parser again (some (arg ∷ args), w) few k =
      let inside = store_inside 0 (arg ∷ args) (omega (arith, few)) in
      rw inside (k (clip 256 arg) (arg ∷ args) (arg ∷ args) w)

  module _ (parser : CliParser S)
      (short : (text : Bytes) (w : World S) → Few (parser.args_parser text w).0) where
    expand_aliases-Returns :
        (n : ℕ) (redir : Redirection) (name : Bytes) (parsed argv : List Bytes) (w : World S)
        → Returns (expand_aliases parser n redir name parsed argv w)
    unfolding expand_aliases
    expand_aliases-Returns zero redir name parsed argv w = (_, _, refl)
    expand_aliases-Returns (suc n) redir name parsed argv w =
        elim (Option-cases (get_alias parser w name)) [
          | inl e ↦
              rw (e, expand_aliases) (dispatch-Returns parser parser.handlers name argv redir w)
          | inr (value, e) ↦
              rw (e, expand_aliases)
                (expanded-Returns parser (expand_aliases parser n redir) _
                  (short (expanded_cmd value parsed) w) (expand_aliases-Returns n redir))
        ]

    with_args-Returns :
        (redir : Redirection) (name : Bytes) (r : Option (List Bytes) × World S)
        → Few r.0
        → Returns (with_args parser redir name r)
    unfolding with_args
    with_args-Returns redir name (none, w) few = (_, _, refl)
    with_args-Returns redir name (some parsed, w) few =
        let inside = store_inside 0 (name ∷ parsed) (omega (arith, few)) in
        rw inside (expand_aliases-Returns 10 redir name parsed (name ∷ parsed) w)

    parsed_args-Few : (text : Option Bytes) (w : World S) → Few (parsed_args parser text w).0
    unfolding parsed_args
    parsed_args-Few none w = omega arith
    parsed_args-Few (some text) w = short text w

    named_command-Returns :
        (redir : Redirection) (name rest : Bytes) (w : World S)
        → Returns (named_command parser redir name rest w)
    unfolding named_command
    named_command-Returns redir [] rest w = (_, _, refl)
    named_command-Returns redir (c ∷ name) rest w =
        with_args-Returns redir (c ∷ name) _ (parsed_args-Few (args_text rest) w)

    run_command-Returns :
        (redir : Redirection) (cmd : Bytes) (w : World S) → Returns (run_command parser redir cmd w)
    unfolding run_command
    run_command-Returns redir cmd w =
        let parts = first_word (ltrim cmd) in
        named_command-Returns redir (clip 256 parts.0) parts.1 w

    run_text-Returns : (text : Option Bytes) (w : World S) → Returns (run_text parser text w)
    unfolding run_text
    run_text-Returns none w = (_, _, refl)
    run_text-Returns (some text) w =
        let parts = parse_redirections (clip 1024 text) in run_command-Returns parts.1 parts.0 w

    run_trimmed-Returns : (s : Bytes) (w : World S) → Returns (run_trimmed parser s w)
    unfolding run_trimmed
    run_trimmed-Returns [] w = (_, _, refl)
    run_trimmed-Returns (c ∷ s) w = run_text-Returns (skip_comments (c ∷ s)) w

    execute_statement-Returns :
        (statement : Bytes) (w : World S) → Returns (execute_statement parser statement w)
    unfolding execute_statement
    execute_statement-Returns statement w = run_trimmed-Returns (trim_whitespace statement) w

    after-Returns :
        (again : World S → Ended S) (e : Ended S)
        → ((w : World S) → Returns (again w))
        → Returns e
        → Returns (after_statement again e)
    after-Returns again overflow k (_, _, e) = absurd (cc e)
    after-Returns again (returned (pos zero) w) k r = k w
    after-Returns again (returned (pos (suc n)) w) k r = (_, _, refl)
    after-Returns again (returned (negsuc n) w) k r = (_, _, refl)

    run_statements-Returns : (ss : List Bytes) (w : World S) → Returns (run_statements parser ss w)
    unfolding run_statements
    run_statements-Returns [] w = (_, _, refl)
    run_statements-Returns (s ∷ ss) w =
        after-Returns _ _ (run_statements-Returns ss) (execute_statement-Returns (clip 1024 s) w)

    run_line-Returns : (text : Option Bytes) (w : World S) → Returns (run_line parser text w)
    unfolding run_line
    run_line-Returns none w = (_, _, refl)
    run_line-Returns (some text) w = run_statements-Returns (statements (clip 2048 text)) w

    -- Where the argument parser never returns more than 63 arguments, a line comes to an end with a
    -- number, whatever the aliases and the handlers are, and `cmd_argv` is never left.
    pub parse_line-Returns :
        (line : Bytes) (w : World S) → Returns (cli_parser_parse_line parser line w)
    unfolding cli_parser_parse_line
    parse_line-Returns line w = run_line-Returns (skip_comments line) w
