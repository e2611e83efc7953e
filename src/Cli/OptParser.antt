-- ===== src/Cli/OptParser.antt =====
-- src/bas/cli/opt_parser.c: the re-entrant option parser. `argv` is a list of strings, of which one
-- may be NULL; `current_arg`, a pointer to one of them, is its index. A text written into `argv`
-- while a call runs is restored before it returns, so `argv` is an input only. `optind` is not negative
-- here, and the parser, `argv` and `optstring` are not NULL.
pub mod Bounds
use bas_c.Common.{
  ℕ, ◌-◌, zero, suc, ◌+◌, Bool, true, false, not, ◌&&◌, Option, none, some, List, [], ◌∷◌, Bytes, ℤ,
  pos, negsuc, ltb, leb, ◌==◌, if◌then◌else◌, get_or, drop, ◌>>=◌,
}
use bas_c.Base.CString.{str_eq}

-- `opterr` is whether messages are printed.
pub record OptParser : Type 0 where
  pub optind : ℕ
  pub optopt : ℤ
  pub opterr : Bool
  pub optarg : Option Bytes
  pub short_opt_pos : ℕ
  pub current_arg : Option ℕ

-- `struct option`; `flag` is whether the pointer is set.
pub record LongOption : Type 0 where
  pub name : Bytes
  pub has_arg : ℕ
  pub flag : Bool
  pub val : ℤ

-- A byte as the `int` that a signed `char` is converted to.
abbrev pub char_int : ℕ → ℤ
char_int c = if ltb c 128 then pos c else negsuc (255 - c)

-- The messages on stderr.
pub data Message : Type 0 where
  requires_argument : Bytes → Message
  unrecognized : Bytes → Message
  requires_short : ℕ → Message
  invalid : ℕ → Message

-- What a call returns, stores through `longindex` and through the option's `flag`, and prints.
pub record Parsed : Type 0 where
  pub ret : ℤ
  pub parser : OptParser
  pub longindex : Option ℕ
  pub flagged : Option ℤ
  pub message : Option Message

abbrev pub over : OptParser → Parsed
over p = record { ret = negsuc 0; parser = p; longindex = none; flagged = none; message = none }

abbrev pub say : OptParser → Message → Option Message
say p m = if p.opterr then some m else none

abbrev pub init : OptParser
init = record {
  optind = 1;
  optopt = pos 0;
  opterr = true;
  optarg = none;
  short_opt_pos = 0;
  current_arg = none;
}

-- The index of the first option with the name.
unfoldable pub find_long_option : List LongOption → Bytes → Option (ℕ × LongOption)
find_long_option [] name = none
find_long_option (o ∷ os) name =
    let later = (do (i, found) ← find_long_option os name; some (i + 1, found)) in
    if str_eq o.name name then some (0, o) else later

-- 0, 1 or 2 for no, a required or an optional argument; `none` is -1.
unfoldable pub find_short_option : Bytes → ℕ → Option ℕ
find_short_option [] c = none
find_short_option (d ∷ s) c =
    if d == c
    then some (if get_or s 0 0 == b':' then (if get_or s 1 0 == b':' then 2 else 1) else 0)
    else find_short_option s c

-- `strchr(option_name, '=')`: the name, and the text behind the `=`.
unfoldable pub split_equals : Bytes → Bytes × Option Bytes
split_equals [] = ([], none)
split_equals (c ∷ s) =
    let (name, value) = split_equals s in if c == b'=' then ([], some s) else (c ∷ name, value)

-- Behind the argument of a short option: the next element of `argv` is up.
abbrev pub next_arg : OptParser → OptParser
next_arg p = record p { optind = p.optind + 1; current_arg = none; short_opt_pos = 0 }

abbrev pub finish_long : LongOption → ℕ → OptParser → Parsed
finish_long o i p = record {
  ret = if o.flag then pos 0 else o.val;
  parser = p;
  longindex = some i;
  flagged = if o.flag then some o.val else none;
  message = none;
}

-- `optarg` from the rest of the same string.
abbrev pub attached : OptParser → Bytes → OptParser
attached q arg = next_arg (record q { optarg = some (drop q.short_opt_pos arg) })

unfoldable pub bad_short : OptParser → Bytes → ℕ → Parsed
bad_short p arg c =
    let moved = record p { optopt = char_int c; short_opt_pos = p.short_opt_pos + 1 } in
    record (over (if get_or arg moved.short_opt_pos 0 == 0 then next_arg moved else moved)) {
      ret = pos b'?';
      message = say p (invalid c);
    }

-- Whether `current_arg` is the string at `optind`.
abbrev pub is_current : OptParser → Bool
is_current p = elim p.current_arg [ some i ↦ i == p.optind | none ↦ false ]

-- The parser at a string: where that is new, its first option letter is up.
abbrev pub at_arg : OptParser → OptParser
at_arg p = if is_current p then p else record p { current_arg = some p.optind; short_opt_pos = 1 }

module _ (argc : ℕ) (argv : List (Option Bytes)) where
  -- The branch for a long option that is found.
  unfoldable pub take_long : OptParser → Bytes → Option Bytes → ℕ → LongOption → Parsed
  take_long p name equals i o =
      let q = record p { optind = p.optind + 1 } in
      if o.has_arg == 1
      then elim equals [
        | some value ↦ finish_long o i (record q { optarg = some value })
        | none ↦
            if ltb q.optind argc
            then finish_long o i
                (record q { optarg = get_or argv q.optind none; optind = q.optind + 1 })
            else record {
              ret = pos b'?';
              parser = record q { optopt = pos 0 };
              longindex = some i;
              flagged = none;
              message = say p (requires_argument name);
            }
      ]
      else if o.has_arg == 2
      then elim equals [
        | some value ↦ finish_long o i (record q { optarg = some value })
        | none ↦ finish_long o i q
      ]
      else finish_long o i q

  unfoldable pub long_option : List LongOption → OptParser → Bytes → Parsed
  unfolding find_long_option split_equals take_long
  long_option longopts p text =
      let (name, equals) = split_equals text in
      elim (find_long_option longopts name) [
        | some found ↦ take_long p name equals found.0 found.1
        | none ↦ record {
          ret = pos b'?';
          parser = record p { optopt = pos 0; optind = p.optind + 1 };
          longindex = none;
          flagged = none;
          message = say p (unrecognized name);
        }
      ]

  -- The branch for a short option that is found, with `kind` its argument.
  unfoldable pub take_short : OptParser → Bytes → ℕ → ℕ → Parsed
  take_short p arg c kind =
      let moved = record p { short_opt_pos = p.short_opt_pos + 1 } in
      let q = if get_or arg moved.short_opt_pos 0 == 0 then next_arg moved else moved in
      let inside = ltb 0 q.short_opt_pos && not (get_or arg q.short_opt_pos 0 == 0) in
      let returns = λ (r : OptParser). record (over r) { ret = char_int c } in
      if kind == 1
      then (if inside
          then returns (attached q arg)
          else if ltb q.optind argc
          then returns (next_arg (record q { optarg = get_or argv q.optind none }))
          else record (over (record q { optopt = char_int c })) {
            ret = pos b'?';
            message = say p (requires_short c);
          })
      else if kind == 2
      then (if inside then returns (attached q arg) else returns q)
      else returns q

  unfoldable pub letter : Bytes → OptParser → Bytes → ℕ → Parsed
  unfolding find_short_option take_short bad_short
  letter optstring q arg c = elim (find_short_option optstring c) [
    | some kind ↦ take_short q arg c kind
    | none ↦ bad_short q arg c
  ]

  -- One call at the string `arg`, which is `argv[optind]`; `again` is the function itself.
  unfoldable pub parse_at :
      (OptParser → Option Parsed) → Bytes → List LongOption → OptParser → Bytes → Option Parsed
  unfolding long_option letter
  parse_at again optstring longopts p arg =
      let q = at_arg p in
      let c = get_or arg q.short_opt_pos 0 in
      if not (get_or arg 0 0 == b'-')
      then some (over p)
      else if str_eq arg (b'-' ∷ b'-' ∷ [])
      then some (over (record p { optind = p.optind + 1 }))
      else if get_or arg 1 0 == b'-' && not (get_or arg 2 0 == 0)
      then some (long_option longopts p (drop 2 arg))
      else if not (get_or arg 1 0 == 0) && not (get_or arg 1 0 == b'-')
      then (if c == 0 then again (next_arg q) else some (letter optstring q arg c))
      else some (over (record p { optind = p.optind + 1 }))

  -- `fuel` bounds how deep the function calls itself; `none` is a call that it does not cover.
  unfoldable pub parse_fuel : ℕ → Bytes → List LongOption → OptParser → Option Parsed
  unfolding parse_at
  parse_fuel zero optstring longopts p = none
  parse_fuel (suc fuel) optstring longopts p =
      let q = record p { optarg = none } in
      let at : Option Parsed = elim (get_or argv q.optind none) [
        | some arg ↦ parse_at (parse_fuel fuel optstring longopts) optstring longopts q arg
        | none ↦ some (over q)
      ] in
      if argc == 0 then some (over p) else if leb argc q.optind then some (over q) else at

  -- The function calls itself at most once, so two levels are enough.
  unfoldable pub opt_parse_long : Bytes → List LongOption → OptParser → Option Parsed
  unfolding parse_fuel
  opt_parse_long optstring longopts p = parse_fuel 2 optstring longopts p

  unfoldable pub opt_parse : Bytes → OptParser → Option Parsed
  unfolding opt_parse_long
  opt_parse optstring p = opt_parse_long optstring [] p
