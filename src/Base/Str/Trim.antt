-- ===== src/Base/Str/Trim.antt =====
-- What the functions of str.c that cut a text at its ends return.
use bas_c.Common.{
  ℕ, zero, suc, ◌≡◌, inl, inr, refl, sym, ap, ◌∙◌, true, false, [], ◌∷◌, ◌++◌, append_assoc,
  append-nil, arith, Bytes, length, get_or, take, All, All-append, Bool-cases, length-take,
}
use bas_c.Base.CString.{isspace}
use bas_c.Base.Str.{ltrim, rtrim_from, rtrim, trim}

abbrev pub IsSpace : ℕ → Type 0
IsSpace c = isspace c ≡ true

abbrev pub IsDark : ℕ → Type 0
IsDark c = isspace c ≡ false

-- The first byte, if there is one, is no white space.
abbrev pub StartsDark : Bytes → Type 0
StartsDark [] = Unit
StartsDark (c ∷ s) = IsDark c

-- The last byte, if there is one, has the property.
abbrev pub Ends : (ℕ → Type 0) → Bytes → Type 0
Ends P [] = Unit
Ends P (c ∷ []) = P c
Ends P (c ∷ d ∷ s) = Ends P (d ∷ s)

pub ltrim_lem :
    (s : Bytes) → (a : Bytes) × (s ≡ a ++ ltrim s) × All IsSpace a × StartsDark (ltrim s)
unfolding ltrim
ltrim_lem [] = ([], refl, tt, tt)
ltrim_lem (c ∷ s) = elim (Bool-cases (isspace c)) [
  | inl e ↦ let (a, p, q, r) = ltrim_lem s in (c ∷ a, rw e (ap (λ t. c ∷ t) p), (e, q), rw e r)
  | inr e ↦ ([], rw e, tt, rw e e)
]

pub split_last : (n : ℕ) (s : Bytes) → length s ≡ suc n → s ≡ take n s ++ get_or s n 0 ∷ []
split_last n [] h = absurd (omega arith)
split_last zero (c ∷ []) h = refl
split_last zero (c ∷ d ∷ s) h = absurd (omega arith)
split_last (suc n) (c ∷ s) h = ap (λ t. c ∷ t) (split_last n s (omega arith))

Ends-last : (P : ℕ → Type 0) (n : ℕ) (s : Bytes) → length s ≡ suc n → P (get_or s n 0) → Ends P s
Ends-last P n [] h p = tt
Ends-last P zero (c ∷ []) h p = p
Ends-last P zero (c ∷ d ∷ s) h p = absurd (omega arith)
Ends-last P (suc n) (c ∷ []) h p = absurd (omega arith)
Ends-last P (suc n) (c ∷ d ∷ s) h p = Ends-last P n (d ∷ s) (omega arith) p

rtrim_from_lem :
    (n : ℕ) (s : Bytes)
    → length s ≡ n
    → (b : Bytes) × (s ≡ rtrim_from n s ++ b) × All IsSpace b × Ends IsDark (rtrim_from n s)
unfolding rtrim_from
rtrim_from_lem zero [] h = ([], refl, tt, tt)
rtrim_from_lem zero (c ∷ s) h = absurd (omega arith)
rtrim_from_lem (suc n) s h = elim (Bool-cases (isspace (get_or s n 0))) [
  | inl e ↦
      let (b, p, q, r) = rtrim_from_lem n (take n s) (omega (arith, length-take n s)) in
      (
        b ++ get_or s n 0 ∷ [],
        rw e (
            split_last n s h
            ∙ ap (λ t. t ++ get_or s n 0 ∷ []) p
            ∙ append_assoc (rtrim_from n (take n s)) b (get_or s n 0 ∷ [])),
        All-append IsSpace b _ q (e, tt),
        rw e r,
      )
  | inr e ↦ ([], rw e (sym (append-nil s)), tt, rw e (Ends-last IsDark n s h e))
]

pub rtrim_lem :
    (s : Bytes) → (b : Bytes) × (s ≡ rtrim s ++ b) × All IsSpace b × Ends IsDark (rtrim s)
unfolding rtrim
rtrim_lem s = rtrim_from_lem (length s) s refl

StartsDark-append : (s b : Bytes) → StartsDark (s ++ b) → StartsDark s
StartsDark-append [] b h = tt
StartsDark-append (c ∷ s) b h = h

-- `trim` removes white space from the two ends and nothing else, and what it returns neither starts
-- nor ends with white space.
pub trim_lem :
    (s : Bytes)
    → (a b : Bytes) × (s ≡ a ++ (trim s ++ b))
      × All IsSpace a
      × All IsSpace b
      × StartsDark (trim s)
      × Ends IsDark (trim s)
unfolding trim
trim_lem s =
    let (a, p, q, dark) = ltrim_lem s in
    let (b, p', q', last) = rtrim_lem (ltrim s) in
    (
      a,
      b,
      p ∙ ap (λ t. a ++ t) p',
      q,
      q',
      StartsDark-append (rtrim (ltrim s)) b (rw p' at dark),
      last,
    )
