-- ===== src/Proc/Timer/Interval.antt =====
-- `parse_interval_ms` of src/bas/proc/dbgthread.c, for a text that is not NULL.
use bas_c.Common.{
  ℕ, ◌*◌, ◌/◌, ◌^◌, ◌<◌, ◌≡◌, refl, ◌∙◌, Bool, true, false, ◌||◌, [], ◌∷◌, ◌++◌, arith, Bytes,
  codes, ℤ, pos, negsuc, ltb, leb, ◌==◌, if◌then◌else◌, length, All, length-append,
}
use bas_c.Base.Decimal.{
  strtoul-decimal, decimal_cons, isdigit, strtoul, decimal, starts_digit, IsBehind,
}
use bas_c.Proc.Timer.{int_max, is_empty}

abbrev pub refused : ℤ
refused = negsuc 0

unfoldable pub is_blank : ℕ → Bool
is_blank c = c == b' ' || c == b'\t'

unfoldable pub skip_blanks : Bytes → Bytes
skip_blanks [] = []
skip_blanks (c ∷ s) = let rest = skip_blanks s in if is_blank c then rest else c ∷ s

-- The unit: `s` or `S`, and anything else for milliseconds.
unfoldable pub in_unit : ℕ → Bytes → ℤ
in_unit val [] = pos val
in_unit val (c ∷ s) =
    if c == b's' || c == b'S'
    then if ltb (int_max / 1000) val then refused else pos (val * 1000)
    else pos val

unfoldable pub parse_interval_ms : Bytes → ℤ
parse_interval_ms s =
    let (val, end) = strtoul s in
    if is_empty s
    then refused
    else if length end == length s
    then refused
    else if ltb int_max val
    then refused
    else in_unit val (skip_blanks end)

-- How an interval ends.
pub data Scale : Type 0 where
  seconds : Bool → Scale
  milliseconds : Bool → Scale
  no_unit : Scale

abbrev pub scale_text : Scale → Bytes
scale_text (seconds small) = if small then codes "s" else codes "S"
scale_text (milliseconds small) = if small then codes "ms" else codes "mS"
scale_text no_unit = []

abbrev pub in_ms : ℕ → Scale → ℕ
in_ms n (seconds small) = n * 1000
in_ms n (milliseconds small) = n
in_ms n no_unit = n

abbrev pub IsBlanks : Bytes → Type 0
IsBlanks b = All (λ c. is_blank c ≡ true) b

skip_blanks-scale :
    (b : Bytes) (u : Scale) → IsBlanks b → skip_blanks (b ++ scale_text u) ≡ scale_text u
unfolding skip_blanks is_blank
skip_blanks-scale [] (seconds small) h = ground arith
skip_blanks-scale [] (milliseconds small) h = ground arith
skip_blanks-scale [] no_unit h = refl
skip_blanks-scale (c ∷ b) u h = rw h.0 (skip_blanks-scale b u h.1)

scale-IsBehind : (b : Bytes) (u : Scale) → IsBlanks b → IsBehind (b ++ scale_text u)
unfolding starts_digit isdigit is_blank
scale-IsBehind [] (seconds small) h = ground arith
scale-IsBehind [] (milliseconds small) h = ground arith
scale-IsBehind [] no_unit h = refl
scale-IsBehind (c ∷ b) u h = ground (arith, h.0)

in_unit-scale :
    (n : ℕ) (u : Scale)
    → (if ltb int_max n then refused else in_unit n (scale_text u))
      ≡ (if leb (in_ms n u) int_max then pos (in_ms n u) else refused)
unfolding in_unit
in_unit-scale n (seconds small) = ground arith
in_unit-scale n (milliseconds small) = ground arith
in_unit-scale n no_unit = ground arith

parse_shown :
    (n c : ℕ) (d s : Bytes)
    → decimal n ≡ c ∷ d
    → strtoul (decimal n ++ s) ≡ (n, s)
    → parse_interval_ms (decimal n ++ s)
      ≡ (if ltb int_max n then refused else in_unit n (skip_blanks s))
unfolding parse_interval_ms
parse_shown n c d s e r = rw (r) (rw e (rw (shorter) refl))
  where
    shorter : (length s == length ((c ∷ d) ++ s)) ≡ false
    shorter = ground (arith, length-append d s)

-- An interval in decimal digits of fewer than 2 ^ 64, blanks and a unit, if any, is read as that many
-- milliseconds, and refused where they are no int.
pub parse_interval_ms-decimal :
    (n : ℕ) (b : Bytes) (u : Scale)
    → n < 2 ^ 64
    → IsBlanks b
    → parse_interval_ms (decimal n ++ (b ++ scale_text u))
      ≡ (if leb (in_ms n u) int_max then pos (in_ms n u) else refused)
parse_interval_ms-decimal n b u h blank =
    let (c, d, e, g) = decimal_cons n (omega (arith, h)) in
    parse_shown n c d (b ++ scale_text u) e
      (strtoul-decimal n (b ++ scale_text u) h (scale-IsBehind b u blank))
    ∙ rw (skip_blanks-scale b u blank) (in_unit-scale n u)
