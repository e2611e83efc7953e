-- ===== src/Examples/Args.antt =====
-- src/bas/cli/args.c: a line with a quoted text, a list in braces and a pattern.
use bas_c.Common.{
  ◌≡◌, refl, inl, inr, Bool, true, false, none, some, List, [], ◌∷◌, arith, Bytes, codes, ◌==◌,
  get_or,
}
use bas_c.Base.CString.{isspace}
use bas_c.Base.Tokens.Loop.{Item}
use bas_c.Cli.Alloc.{ok, double_free, IfOk}
use bas_c.Cli.Args.Word.{parse_arg, skip_whitespace}
use bas_c.Cli.Args.Word.Spelled.{Spells, Spells_same}
use bas_c.Cli.Args.Word.Room.{Inside, parse_arg-Inside}
use bas_c.Cli.Args.Brace.{
  expanded, expand_brace, split_at, copies, brace_items, brace_round, item_at,
}
use bas_c.Cli.Args.Wildcard.{
  Enum, before_wildcard, contains_wildcard, pattern_parts, split_last_slash, filename_of,
  result_path,
}
use bas_c.Cli.Args.Wildcard.Matches.{matching}
use bas_c.Cli.Args.Parse.{args_parse, add_arg}
use bas_c.Cli.Args.Parse.Whole.{braced, plain, args_parse-forms}
use bas_c.Cli.Args.Parse.Failure.{add_arg-double_free}

parse_arg_runs :
    parse_arg (codes " a\\ b'c \"d'e f") []
    ≡ ok (record { text = some (codes "a bc \"de"); capacity = 64; rest = codes " f" }, [])
unfolding parse_arg
parse_arg_runs = refl

expand_brace_runs :
    expand_brace (codes "x{a, 'b,c',d}.o") []
    ≡ ok (expanded (codes "xa.o" ∷ codes "x'b,c'.o" ∷ codes "xd.o" ∷ []), [])
unfolding expand_brace split_at copies brace_items brace_round skip_whitespace item_at
expand_brace_runs = refl

parse_arg-Inside_example : IfOk Inside (parse_arg (codes " a'b' c") (true ∷ false ∷ []))
parse_arg-Inside_example = parse_arg-Inside (codes " a'b' c") (true ∷ false ∷ []) (omega arith)

unclosed : Spells 0 (codes "a'b") b'\'' (codes "ab")
unfolding isspace
unclosed =
    Spells.plain b'a' (refl, omega arith, omega arith, omega arith)
      (Spells.open_quote b'\'' (inl refl)
        (Spells.plain b'b' (omega arith, omega arith) Spells.done))

add_arg-double_free_example :
    add_arg
      (λ p s. false)
      none
      none
      (record { args = []; capacity = 16 })
      (codes "x{a,b}.o")
      (true ∷ true ∷ true ∷ true ∷ false ∷ [])
    ≡ double_free
unfolding isspace
add_arg-double_free_example =
    add_arg-double_free (λ p s. false) none none (record { args = []; capacity = 16 }) b'x' []
      (codes ".o") (codes "a") (codes "b") [] [] (omega arith, tt)
      (refl, ((omega arith, omega arith, omega arith, omega arith), tt))
      ((refl, ((omega arith, omega arith, omega arith, omega arith), tt)), tt)

-- A directory with two files, and a matcher for names that end as the pattern does.
abbrev two_files : Enum
two_files dir prefix pattern = record {
  items = codes "d/a.c" ∷ codes "d/b.h" ∷ [];
  done = true;
  cancelled = false;
}

abbrev same_end : Bytes → Bytes → Bool
same_end pattern name = get_or pattern 2 0 == get_or name 2 0

abbrev parsed_line : List Item
parsed_line =
    record { raw = codes "d/*.c"; tok = codes "d/*.c"; gap = codes " " }
    ∷ record { raw = codes "x{a,b}"; tok = codes "x{a,b}"; gap = [] }
    ∷ []

args_parse-forms_example :
    args_parse same_end (some two_files) none (codes " d/*.c x{a,b}") []
    ≡ ok (codes "d/a.c" ∷ codes "xa" ∷ codes "xb" ∷ [], [])
unfolding isspace matching pattern_parts split_last_slash filename_of result_path contains_wildcard
    before_wildcard
args_parse-forms_example =
    args_parse-forms same_end (some two_files) none (codes " ") parsed_line
      (plain (codes "d/*.c") ∷ braced (codes "x") (codes "a") (codes "b" ∷ []) [] ∷ [])
      (λ text. omega arith) (refl, tt)
      (
        (
          refl,
          Spells_same (codes "d/*.c") (
            (refl, omega arith, omega arith, omega arith),
            (
              (refl, omega arith, omega arith, omega arith),
              (
                (refl, omega arith, omega arith, omega arith),
                (
                  (refl, omega arith, omega arith, omega arith),
                  ((refl, omega arith, omega arith, omega arith), tt),
                ),
              ),
            ),
          ),
        ),
        omega arith,
        (refl, tt),
        inl (omega arith),
        (
          (
            refl,
            Spells_same (codes "x{a,b}") (
              (refl, omega arith, omega arith, omega arith),
              (
                (refl, omega arith, omega arith, omega arith),
                (
                  (refl, omega arith, omega arith, omega arith),
                  (
                    (refl, omega arith, omega arith, omega arith),
                    (
                      (refl, omega arith, omega arith, omega arith),
                      ((refl, omega arith, omega arith, omega arith), tt),
                    ),
                  ),
                ),
              ),
            ),
          ),
          omega arith,
          tt,
          inr refl,
          tt,
        ),
      )
      refl
      (
        (omega arith, (omega arith, (omega arith, (omega arith, (omega arith, tt))))),
        (
          (
            (omega arith, tt),
            (refl, ((omega arith, omega arith, omega arith, omega arith), tt)),
            ((refl, ((omega arith, omega arith, omega arith, omega arith), tt)), tt),
          ),
          tt,
        ),
      )
