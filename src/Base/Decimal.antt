-- ===== src/Base/Decimal.antt =====
-- Decimal numbers as the C library reads and prints them: `isdigit`, `strtoul` and `strtol` in base
-- 10, and `%d` of printf for a number that is not negative.
use bas_c.Common.{
  ℕ, zero, suc, ◌+◌, ◌-◌, ◌*◌, ◌/◌, ◌%◌, ◌^◌, ◌≤◌, ◌<◌, min, ◌≡◌, refl, ap, ◌∙◌, subst, ◌⊎◌, inl,
  inr, Bool, true, false, not, ◌&&◌, [], ◌∷◌, ◌++◌, append-nil, arith, Bytes, ℤ, pos, negsuc, ltb,
  leb, ◌==◌, if◌then◌else◌, All, Bool-cases, if_elim, lt→ltb,
}
use native.Mathlib.Nat.{pow-suc}
use bas_c.Base.CString.{isspace}

unfoldable pub isdigit : ℕ → Bool
isdigit c = leb 48 c && leb c 57

-- The number that the digits at the start spell, behind those read before, and the text behind them.
unfoldable pub digits : ℕ → Bytes → ℕ × Bytes
digits n [] = (n, [])
digits n (c ∷ s) = let rest = digits (n * 10 + (c - 48)) s in if isdigit c then rest else (n, c ∷ s)

unfoldable pub skip_spaces : Bytes → Bytes
skip_spaces [] = []
skip_spaces (c ∷ s) = let rest = skip_spaces s in if isspace c then rest else c ∷ s

unfoldable pub starts_digit : Bytes → Bool
starts_digit [] = false
starts_digit (c ∷ s) = isdigit c

-- The sign, whether it is a minus, and the text behind it.
unfoldable pub sign : Bytes → Bool × Bytes
sign [] = (false, [])
sign (c ∷ s) = if c == b'-' then (true, s) else if c == b'+' then (false, s) else (false, c ∷ s)

-- `strtoul(s, &end, 10)` with 64 bits: the number and `end`.
unfoldable pub strtoul : Bytes → ℕ × Bytes
strtoul s =
    let (minus, t) = sign (skip_spaces s) in
    let (n, end) = digits 0 t in
    if not (starts_digit t)
    then (0, s)
    else if leb (2 ^ 64) n
    then (2 ^ 64 - 1, end)
    else if minus
    then ((2 ^ 64 - n) % 2 ^ 64, end)
    else (n, end)

-- `(int)strtol(s, &end, 10)` where `s` starts with a digit: the long is cut to 32 bits.
unfoldable pub strtol_int : Bytes → ℤ × Bytes
strtol_int s =
    let (n, end) = digits 0 s in
    let cut = min n (2 ^ 63 - 1) % 2 ^ 32 in
    (if ltb cut (2 ^ 31) then pos cut else negsuc (2 ^ 32 - 1 - cut), end)

-- The digits of a number, before the text given; on fuel.
unfoldable pub decimal_onto : ℕ → ℕ → Bytes → Bytes
decimal_onto zero n s = s
decimal_onto (suc f) n s =
    let onto = (48 + n % 10) ∷ s in
    let rest = decimal_onto f (n / 10) onto in if ltb n 10 then onto else rest

-- `%d`: a 64-bit number has at most 20 digits.
unfoldable pub decimal : ℕ → Bytes
decimal n = decimal_onto 20 n []

lt_or_le : (a b : ℕ) → (a < b) ⊎ (b ≤ a)
lt_or_le a b = omega arith

fewer_digits : (f n : ℕ) → n < 10 ^ suc (suc f) → n / 10 < 10 ^ suc f
fewer_digits f n h = omega (arith, pow-suc 10 (suc f))

digit_lem : (n : ℕ) → n < 10 → isdigit (48 + n) ≡ true
unfolding isdigit
digit_lem n h = ground arith

digits-digit : (a n : ℕ) (s : Bytes) → n < 10 → digits a ((48 + n) ∷ s) ≡ digits (a * 10 + n) s
unfolding digits
digits-digit a n s h = rw (digit_lem n h) (ap (λ m. digits m s) (omega arith))

digits-first : (n : ℕ) (s : Bytes) → n < 10 → digits 0 ((48 + n) ∷ s) ≡ digits n s
digits-first n s h = digits-digit 0 n s h ∙ ap (λ m. digits m s) (omega arith)

decimal_onto_last : (f n : ℕ) (s : Bytes) → n < 10 → decimal_onto (suc f) n s ≡ (48 + n) ∷ s
unfolding decimal_onto
decimal_onto_last f n s h = rw (lt→ltb n 10 h) (ap (λ m. (48 + m) ∷ s) (omega (arith, h)))

decimal_onto_more :
    (f n : ℕ) (s : Bytes)
    → 10 ≤ n
    → decimal_onto (suc f) n s ≡ decimal_onto f (n / 10) ((48 + n % 10) ∷ s)
unfolding decimal_onto
decimal_onto_more f n s h = if_else (ltb n 10) _ _ (ground (arith, h))
  where
    if_else : {A : Type 0} (b : Bool) (x y : A) → b ≡ false → (if b then x else y) ≡ y
    if_else _ x y e = rw e refl

digits-decimal_onto :
    (f n : ℕ) (s : Bytes) → n < 10 ^ suc f → digits 0 (decimal_onto (suc f) n s) ≡ digits n s
digits-decimal_onto zero n s h = rw (decimal_onto_last 0 n s h) (digits-first n s h)
digits-decimal_onto (suc f) n s h = elim (lt_or_le n 10) [
  | inl e ↦ rw (decimal_onto_last (suc f) n s e) (digits-first n s e)
  | inr e ↦ rw (decimal_onto_more (suc f) n s e) (
      digits-decimal_onto f (n / 10) ((48 + n % 10) ∷ s) (fewer_digits f n h)
      ∙ digits-digit (n / 10) (n % 10) s (omega arith)
      ∙ ap (λ m. digits m s) (omega arith))
]

starts_digit-decimal_onto :
    (f n : ℕ) (s : Bytes) → n < 10 ^ suc f → starts_digit (decimal_onto (suc f) n s) ≡ true
unfolding starts_digit
starts_digit-decimal_onto zero n s h = rw (decimal_onto_last 0 n s h) (digit_lem n h)
starts_digit-decimal_onto (suc f) n s h = elim (lt_or_le n 10) [
  | inl e ↦ rw (decimal_onto_last (suc f) n s e) (digit_lem n e)
  | inr e ↦
      rw (decimal_onto_more (suc f) n s e)
        (starts_digit-decimal_onto f (n / 10) ((48 + n % 10) ∷ s) (fewer_digits f n h))
]

decimal_onto-append : (f n : ℕ) (s t : Bytes) → decimal_onto f n (s ++ t) ≡ decimal_onto f n s ++ t
unfolding decimal_onto
decimal_onto-append zero n s t = refl
decimal_onto-append (suc f) n s t = elim (Bool-cases (ltb n 10)) [
  | inl e ↦ rw e refl
  | inr e ↦ rw e (decimal_onto-append f (n / 10) ((48 + n % 10) ∷ s) t)
]

-- A text that no digit starts.
abbrev pub IsBehind : Bytes → Type 0
IsBehind s = starts_digit s ≡ false

digits_end : (n : ℕ) (s : Bytes) → IsBehind s → digits n s ≡ (n, s)
unfolding digits starts_digit
digits_end n [] h = refl
digits_end n (c ∷ s) h = rw h refl

-- The digits of a printed number are read before those behind it.
pub digits-decimal_on : (n : ℕ) (s : Bytes) → n < 10 ^ 20 → digits 0 (decimal n ++ s) ≡ digits n s
unfolding decimal
digits-decimal_on n s h = rw (← decimal_onto-append 20 n [] s) (digits-decimal_onto 19 n s h)

-- A number of at most 20 digits that is printed is read again, whatever else stands behind it.
pub digits-decimal :
    (n : ℕ) (s : Bytes) → n < 10 ^ 20 → IsBehind s → digits 0 (decimal n ++ s) ≡ (n, s)
digits-decimal n s h b = digits-decimal_on n s h ∙ digits_end n s b

pub starts_digit-decimal : (n : ℕ) (s : Bytes) → n < 10 ^ 20 → starts_digit (decimal n ++ s) ≡ true
unfolding decimal
starts_digit-decimal n s h =
    rw (← decimal_onto-append 20 n [] s) (starts_digit-decimal_onto 19 n s h)

skip_spaces_digit : (s : Bytes) → starts_digit s ≡ true → skip_spaces s ≡ s
unfolding skip_spaces starts_digit isdigit isspace
skip_spaces_digit [] h = refl
skip_spaces_digit (c ∷ s) h = ground (arith, h)

sign_digit : (s : Bytes) → starts_digit s ≡ true → sign s ≡ (false, s)
unfolding sign starts_digit isdigit
sign_digit [] h = refl
sign_digit (c ∷ s) h = ground (arith, h)

pub strtoul-decimal :
    (n : ℕ) (s : Bytes) → n < 2 ^ 64 → IsBehind s → strtoul (decimal n ++ s) ≡ (n, s)
unfolding strtoul
strtoul-decimal n s h b =
    let d = starts_digit-decimal n s (omega (arith, h)) in
    rw
      (
        skip_spaces_digit (decimal n ++ s) d,
        sign_digit (decimal n ++ s) d,
        d,
        digits-decimal n s (omega (arith, h)) b,
      )
      (ground (arith, h))

starts_digit_cons :
    (s : Bytes) → starts_digit s ≡ true → (c : ℕ) × (t : Bytes) × (s ≡ c ∷ t) × (isdigit c ≡ true)
unfolding starts_digit
starts_digit_cons [] h = absurd (cc (h))
starts_digit_cons (c ∷ t) h = (c, t, refl, h)

-- A printed number has a first digit.
pub decimal_cons :
    (n : ℕ) → n < 10 ^ 20 → (c : ℕ) × (t : Bytes) × (decimal n ≡ c ∷ t) × (isdigit c ≡ true)
decimal_cons n h =
    starts_digit_cons (decimal n)
      (subst (λ t. starts_digit t ≡ true) (append-nil (decimal n)) (starts_digit-decimal n [] h))

decimal_onto-digits :
    (f n : ℕ) (s : Bytes)
    → All (λ c. isdigit c ≡ true) s
    → All (λ c. isdigit c ≡ true) (decimal_onto f n s)
unfolding decimal_onto
decimal_onto-digits zero n s h = h
decimal_onto-digits (suc f) n s h =
    if_elim (All (λ c. isdigit c ≡ true)) (ltb n 10) _ _
      (λ e. (digit_lem (n % 10) (omega arith), h))
      (λ e.
        decimal_onto-digits f (n / 10) ((48 + n % 10) ∷ s) (digit_lem (n % 10) (omega arith), h))

pub decimal-digits : (n : ℕ) → All (λ c. isdigit c ≡ true) (decimal n)
unfolding decimal
decimal-digits n = decimal_onto-digits 20 n [] tt
