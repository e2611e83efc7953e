-- ===== src/Cli/CliParser/Statement/Command.antt =====
-- How `execute_statement` runs a command: its name, its arguments and its redirections.
use bas_c.Common.{
  ℕ, zero, suc, ◌≤◌, ◌<◌, ◌≡◌, refl, ap, ◌∙◌, subst, ◌⊎◌, inl, inr, Bool, true, false, Option, none,
  some, List, [], ◌∷◌, ◌++◌, append_assoc, arith, Bytes, codes, negsuc, length, get_or, All,
  take_more,
}
use bas_c.Base.CString.{isspace}
use bas_c.Base.Str.{ltrim, rtrim, rtrim_from}
use bas_c.Base.Str.Trim.{IsDark, StartsDark, Ends}
use bas_c.Cli.CliParser.{World, Handler, CliParser, get_alias, emit_error}
use bas_c.Cli.CliParser.Redirect.{Redirection, trim_whitespace, parse_redirections}
use bas_c.Cli.CliParser.Statement.{
  returned, overflow, clip, first_word, args_text, dispatch, expand_aliases, with_args, parsed_args,
  named_command, run_command, run_text, run_trimmed, execute_statement,
}
use bas_c.Cli.CliParser.Statement.Slots.{store_inside, store_outside}
use bas_c.Cli.CliParser.Statement.Lines.{StartsCommand, skip_comments-StartsCommand}
use bas_c.Cli.CliParser.Redirect.Parts.{
  part, written, IsPlain, text_of, out_file, trimmed, output_of, appends, parse_redirections-parts,
}

last-Ends : (n : ℕ) (s : Bytes) → length s ≡ suc n → Ends IsDark s → IsDark (get_or s n 0)
last-Ends n [] l h = absurd (omega arith)
last-Ends zero (c ∷ []) l h = h
last-Ends (suc n) (c ∷ []) l h = absurd (omega arith)
last-Ends zero (c ∷ d ∷ s) l h = absurd (omega arith)
last-Ends (suc n) (c ∷ d ∷ s) l h = last-Ends n (d ∷ s) (omega arith) h

rtrim_same : (n : ℕ) (s : Bytes) → length s ≡ n → Ends IsDark s → rtrim_from n s ≡ s
unfolding rtrim_from
rtrim_same zero s l h = refl
rtrim_same (suc n) s l h = rw (last-Ends n s l h) refl

ltrim_same : (s : Bytes) → StartsDark s → ltrim s ≡ s
unfolding ltrim
ltrim_same [] h = refl
ltrim_same (c ∷ s) h = rw h refl

trim_same : (s : Bytes) → StartsDark s → Ends IsDark s → trim_whitespace s ≡ s
unfolding trim_whitespace rtrim
trim_same s h h' = rw (ltrim_same s h) (rtrim_same (length s) s refl h')

-- A word: no white space in it, and it starts no comment.
abbrev pub IsName : Bytes → Type 0
IsName s = StartsCommand s × All IsDark s × (length s < 256)

-- A text that is not empty, without white space at its ends.
abbrev pub IsTight : Bytes → Type 0
IsTight [] = ⊥
IsTight (c ∷ s) = IsDark c × Ends IsDark (c ∷ s)

first_word-append :
    (name s : Bytes) → All IsDark name → first_word (name ++ b' ' ∷ s) ≡ (name, b' ' ∷ s)
unfolding first_word isspace
first_word-append [] s h = refl
first_word-append (c ∷ name) s (h, hs) = rw (h, first_word-append name s hs) refl

args_text-IsTight : (s : Bytes) → IsTight s → args_text (b' ' ∷ s) ≡ some s
unfolding args_text
args_text-IsTight [] h = absurd h
args_text-IsTight (c ∷ s) (h, e) = rw (ltrim_same (c ∷ s) h, args_text) refl

Ends-append : (a s : Bytes) → IsTight s → Ends IsDark (a ++ s)
Ends-append [] [] h = absurd h
Ends-append [] (c ∷ s) (d, e) = e
Ends-append (b ∷ []) [] h = absurd h
Ends-append (b ∷ []) (c ∷ s) (d, e) = e
Ends-append (b ∷ b' ∷ a) s h = Ends-append (b' ∷ a) s h

-- A statement: a command with arguments, a pipe, an input and an output, each between spaces or
-- missing.
abbrev pub statement_of :
    Bytes → Bytes → Option Bytes → Option Bytes → Option (Bool × Bytes) → Bytes
statement_of name args pipe inp out =
    (((name ++ b' ' ∷ args) ++ part (b'|' ∷ []) pipe) ++ part (b'<' ∷ []) inp) ++ written out

-- The redirection that it means.
abbrev pub redirection_of : Option Bytes → Option Bytes → Option (Bool × Bytes) → Redirection
redirection_of pipe inp out = record {
  output_file = output_of out;
  input_file = trimmed inp;
  pipe_command = trimmed pipe;
  append_mode = appends out;
}

StartsCommand-append : (a b : Bytes) → StartsCommand a → StartsCommand (a ++ b)
StartsCommand-append [] b h = absurd h
StartsCommand-append (c ∷ a) b h = h

StartsCommand-StartsDark : (s : Bytes) → StartsCommand s → StartsDark s
StartsCommand-StartsDark [] h = absurd h
StartsCommand-StartsDark (c ∷ s) (h, ne) = h

module _ {S : Type 0} where
  run_command_args :
      (parser : CliParser S) (redir : Redirection) (name args : Bytes) (w : World S)
      → IsName name
      → IsTight args
      → run_command parser redir (name ++ b' ' ∷ args) w
        ≡ with_args parser redir name (parser.args_parser args w)
  unfolding run_command named_command parsed_args
  run_command_args parser redir [] args w (h, d, l) ha = absurd h
  run_command_args parser redir (c ∷ name) args w ((dark, ne), d, l) ha =
      let whole : first_word (ltrim (c ∷ (name ++ b' ' ∷ args))) ≡ (c ∷ name, b' ' ∷ args) =
        ap first_word (ltrim_same (c ∷ (name ++ b' ' ∷ args)) dark)
        ∙ first_word-append (c ∷ name) args d in
      ap (λ (parts : Bytes × Bytes). named_command parser redir (clip 256 parts.0) parts.1 w) whole
      ∙ rw (take_more 255 (c ∷ name) (omega (arith, l)), args_text-IsTight args ha) refl

  run_trimmed-StartsCommand :
      (parser : CliParser S) (s : Bytes) (w : World S)
      → StartsCommand s
      → run_trimmed parser s w ≡ run_text parser (some s) w
  unfolding run_trimmed
  run_trimmed-StartsCommand parser [] w h = absurd h
  run_trimmed-StartsCommand parser (c ∷ s) w h =
      ap (λ text. run_text parser text w) (skip_comments-StartsCommand (c ∷ s) h)

  run_text-parts :
      (parser : CliParser S) (s cmd : Bytes) (redir : Redirection) (w : World S)
      → length s < 1024
      → parse_redirections s ≡ (cmd, redir)
      → run_text parser (some s) w ≡ run_command parser redir cmd w
  unfolding run_text
  run_text-parts parser s cmd redir w fits e =
      ap (λ (parts : Bytes × Redirection). run_command parser parts.1 parts.0 w)
        (ap parse_redirections (take_more 1023 s (omega (arith, fits))) ∙ e)

  execute_statement_args :
      (parser : CliParser S) (name args : Bytes) (pipe inp : Option Bytes)
      (out : Option (Bool × Bytes)) (w : World S)
      → IsName name
      → IsTight args
      → IsPlain (name ++ b' ' ∷ args)
      → IsPlain (text_of pipe)
      → IsPlain (text_of inp)
      → IsPlain (out_file out)
      → Ends IsDark (statement_of name args pipe inp out)
      → length (statement_of name args pipe inp out) < 1024
      → execute_statement parser (statement_of name args pipe inp out) w
        ≡ with_args parser (redirection_of pipe inp out) name (parser.args_parser args w)
  unfolding execute_statement rtrim
  execute_statement_args parser name args pipe inp out w n t pc pp pi po ends fits =
      let s = statement_of name args pipe inp out in
      let cmd = name ++ b' ' ∷ args in
      let starts : StartsCommand s = StartsCommand-append _ (written out) (
        StartsCommand-append _ (part (b'<' ∷ []) inp) (
          StartsCommand-append cmd (part (b'|' ∷ []) pipe)
            (StartsCommand-append name (b' ' ∷ args) n.0))) in
      let same : rtrim cmd ≡ cmd = rtrim_same (length cmd) cmd refl (
        subst (Ends IsDark) (append_assoc name (b' ' ∷ []) args)
          (Ends-append (name ++ b' ' ∷ []) args t)) in
      let parts : parse_redirections s ≡ (cmd, redirection_of pipe inp out) =
        parse_redirections-parts cmd pipe inp out pc pp pi po
        ∙ ap (λ (c : Bytes). (c, redirection_of pipe inp out)) same in
      ap (λ text. run_trimmed parser text w) (trim_same s (StartsCommand-StartsDark s starts) ends)
      ∙ (run_trimmed-StartsCommand parser s w starts
          ∙ (run_text-parts parser s cmd (redirection_of pipe inp out) w fits parts
              ∙ run_command_args parser (redirection_of pipe inp out) name args w n t))

  -- A statement of fewer than 1024 bytes whose command is no alias goes to the handlers, with the
  -- arguments that the argument parser makes of its text and with its redirections; no part of it
  -- holds an operator, and there are at most 63 arguments.
  pub execute_statement-dispatch :
      (parser : CliParser S) (name args : Bytes) (pipe inp : Option Bytes)
      (out : Option (Bool × Bytes)) (parsed : List Bytes) (w w' : World S)
      → IsName name
      → IsTight args
      → IsPlain (name ++ b' ' ∷ args)
      → IsPlain (text_of pipe)
      → IsPlain (text_of inp)
      → IsPlain (out_file out)
      → Ends IsDark (statement_of name args pipe inp out)
      → length (statement_of name args pipe inp out) < 1024
      → parser.args_parser args w ≡ (some parsed, w')
      → length parsed < 64
      → get_alias parser w' name ≡ none
      → execute_statement parser (statement_of name args pipe inp out) w
        ≡ dispatch parser parser.handlers name (name ∷ parsed) (redirection_of pipe inp out) w'
  unfolding with_args expand_aliases
  execute_statement-dispatch parser name args pipe inp out parsed w w' n t pc pp pi po ends fits run
        few free =
      let inside = store_inside 0 (name ∷ parsed) (omega (arith, few)) in
      execute_statement_args parser name args pipe inp out w n t pc pp pi po ends fits
      ∙ rw (run, inside, free, expand_aliases) refl

  -- Where the argument parser returns more than 63 arguments for a statement, the writes of the
  -- name, the arguments and the NULL leave the 65 slots of `cmd_argv`: the statement is shorter
  -- than 1024 bytes, has no white space at its ends and no operator in its parts, and its name is a
  -- word of fewer than 256 bytes.
  pub execute_statement-overflow :
      (parser : CliParser S) (name args : Bytes) (pipe inp : Option Bytes)
      (out : Option (Bool × Bytes)) (parsed : List Bytes) (w w' : World S)
      → IsName name
      → IsTight args
      → IsPlain (name ++ b' ' ∷ args)
      → IsPlain (text_of pipe)
      → IsPlain (text_of inp)
      → IsPlain (out_file out)
      → Ends IsDark (statement_of name args pipe inp out)
      → length (statement_of name args pipe inp out) < 1024
      → parser.args_parser args w ≡ (some parsed, w')
      → 64 ≤ length parsed
      → execute_statement parser (statement_of name args pipe inp out) w ≡ overflow
  unfolding with_args
  execute_statement-overflow parser name args pipe inp out parsed w w' n t pc pp pi po ends fits run
        many =
      let outside = store_outside 0 (name ∷ parsed) (omega (arith, many)) in
      execute_statement_args parser name args pipe inp out w n t pc pp pi po ends fits
      ∙ rw (run, outside) refl

  -- Handlers that refuse a command and change nothing.
  abbrev pub Refuse : Bytes → List Bytes → World S → List (Handler S) → Type 0
  Refuse name argv w = All (λ h.
      (h.can_handle ≡ none)
      ⊎ ((can : Bytes → List Bytes → World S → Bool × World S) × (h.can_handle ≡ some can)
          × (can name argv w ≡ (false, w))))

  -- The first handler that accepts a command, behind handlers that refuse it, handles it, and its
  -- result is the result; a command that all refuse is an error with a message.
  pub dispatch-first :
      (parser : CliParser S) (before after : List (Handler S)) (h : Handler S) (name : Bytes)
      (argv : List Bytes) (redir : Redirection) (w w' : World S)
      (can : Bytes → List Bytes → World S → Bool × World S)
      → Refuse name argv w before
      → h.can_handle ≡ some can
      → can name argv w ≡ (true, w')
      → (dispatch parser (before ++ h ∷ after) name argv redir w
          ≡ returned (h.handle name argv redir w').0 (h.handle name argv redir w').1)
        × (dispatch parser before name argv redir w
            ≡ returned
                (negsuc 0)
                (emit_error parser (clip 512 (codes "Invalid command: " ++ name)) w))
  unfolding dispatch
  dispatch-first parser [] after h name argv redir w w' can refuse e accepts =
      (rw (e, dispatch) (rw accepts refl), refl)
  dispatch-first parser (b ∷ before) after h name argv redir w w' can (inl none_there, rs) e
        accepts =
      let (found, none_left) =
        dispatch-first parser before after h name argv redir w w' can rs e accepts in
      (rw (none_there, dispatch) found, rw (none_there, dispatch) none_left)
  dispatch-first parser (b ∷ before) after h name argv redir w w' can
        (inr (other, there, denied), rs) e accepts =
      let (found, none_left) =
        dispatch-first parser before after h name argv redir w w' can rs e accepts in
      (rw (there, dispatch) (rw denied found), rw (there, dispatch) (rw denied none_left))
