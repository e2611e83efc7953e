-- ===== src/Cli/CliParser/Statement/Lines.antt =====
-- How `cli_parser_parse_line` splits a line.
use bas_c.Common.{
  ◌<◌, ◌≡◌, refl, ap, ◌∙◌, ◌≢◌, false, some, List, [], ◌∷◌, ◌++◌, arith, Bytes, pos, ◌==◌, length,
  All, take_more,
}
use bas_c.Base.CString.{isspace}
use bas_c.Base.Str.{ltrim}
use bas_c.Base.StringList.Join.{joined_by}
use bas_c.Cli.CliParser.{World, CliParser}
use bas_c.Cli.CliParser.Statement.{
  Ended, returned, skip_comments, execute_statement, statements, after_statement, run_statements,
  run_line, cli_parser_parse_line,
}
use bas_c.Cli.CliParser.Redirect.Parts.{count}

abbrev pub semicolon : Bytes
semicolon = b';' ∷ []

-- A statement without a semicolon, in the buffer for one.
abbrev pub IsStatement : Bytes → Type 0
IsStatement s = (count b';' s ≡ 0) × (length s < 1024)

-- A text that starts with neither white space nor `#`.
abbrev pub StartsCommand : Bytes → Type 0
StartsCommand [] = ⊥
StartsCommand (c ∷ s) = (isspace c ≡ false) × (c ≢ b'#')

statements-append : (a b : Bytes) → count b';' a ≡ 0 → statements (a ++ b';' ∷ b) ≡ a ∷ statements b
unfolding statements
statements-append [] b h = refl
statements-append (c ∷ a) b h =
    let other : (c == b';') ≡ false = ground (arith, h) in
    rw (other, statements-append a b (omega (arith, h))) refl

statements_one : (a : Bytes) → count b';' a ≡ 0 → statements a ≡ a ∷ []
unfolding statements
statements_one [] h = refl
statements_one (c ∷ a) h =
    let other : (c == b';') ≡ false = ground (arith, h) in
    rw (other, statements_one a (omega (arith, h))) refl

statements-joined_by :
    (x : Bytes) (xs : List Bytes)
    → IsStatement x
    → All IsStatement xs
    → statements (joined_by semicolon (x ∷ xs)) ≡ x ∷ xs
statements-joined_by x [] (h, l) hs = statements_one x h
statements-joined_by x (y ∷ ys) (h, l) (h', hs) =
    statements-append x (joined_by semicolon (y ∷ ys)) h
    ∙ ap (λ t. x ∷ t) (statements-joined_by y ys h' hs)

pub skip_comments-StartsCommand : (s : Bytes) → StartsCommand s → skip_comments s ≡ some s
unfolding skip_comments ltrim
skip_comments-StartsCommand [] h = absurd h
skip_comments-StartsCommand (c ∷ s) (dark, ne) =
    let other : (c == b'#') ≡ false = ground (arith, ne) in rw (dark, skip_comments) (rw other refl)

module _ {S : Type 0} where
  -- One statement after the other, until one fails.
  abbrev pub in_turn : CliParser S → List Bytes → World S → Ended S
  in_turn parser [] w = returned (pos 0) w
  in_turn parser (s ∷ ss) w =
      after_statement (λ w'. in_turn parser ss w') (execute_statement parser s w)

  run_statements-in_turn :
      (parser : CliParser S) (ss : List Bytes) (w : World S)
      → All IsStatement ss
      → run_statements parser ss w ≡ in_turn parser ss w
  unfolding run_statements
  run_statements-in_turn parser [] w h = refl
  run_statements-in_turn parser (s ∷ ss) w ((h, l), hs) = rw (take_more 1023 s (omega (arith, l))) (
      ap (λ (again : World S → Ended S). after_statement again (execute_statement parser s w))
        (λ i w'. run_statements-in_turn parser ss w' hs i))

  -- A line of fewer than 2048 bytes that starts with neither white space nor `#`, and whose statements
  -- are each shorter than 1024 bytes, is executed one statement after the other, until one returns
  -- something else than 0: the statements are those between its semicolons.
  pub parse_line-in_turn :
      (parser : CliParser S) (x : Bytes) (xs : List Bytes) (w : World S)
      → StartsCommand (joined_by semicolon (x ∷ xs))
      → All IsStatement (x ∷ xs)
      → length (joined_by semicolon (x ∷ xs)) < 2048
      → cli_parser_parse_line parser (joined_by semicolon (x ∷ xs)) w ≡ in_turn parser (x ∷ xs) w
  unfolding cli_parser_parse_line run_line
  parse_line-in_turn parser x xs w starts (h, hs) fits =
      let line = joined_by semicolon (x ∷ xs) in
      ap (λ text. run_line parser text w) (skip_comments-StartsCommand line starts)
      ∙ (ap (λ text. run_statements parser (statements text) w)
            (take_more 2047 line (omega (arith, fits)))
          ∙ (ap (λ ss. run_statements parser ss w) (statements-joined_by x xs h hs)
              ∙ run_statements-in_turn parser (x ∷ xs) w (h, hs)))
