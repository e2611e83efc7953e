-- ===== src/Base/Wstring/Strstr.antt =====
-- `wstring_strstr` finds the first occurrence.
use bas_c.Common.{
  ℕ, zero, suc, ◌+◌, ◌-◌, ◌≤◌, ◌≡◌, refl, ap, ◌↔◌, ◌⊎◌, inl, inr, true, false, Option, none, some,
  [], ◌∷◌, ◌++◌, arith, ltb, length, Bool-cases, length-append,
}
use bas_c.Base.Wstring.{Wide, matches_at, strstr_loop, wstring_strstr}

-- The needle stands in the text behind the units `a`.
abbrev pub Occurs : Wide → Wide → Wide → Type 0
Occurs needle haystack a = (b : Wide) × (haystack ≡ a ++ (needle ++ b))

Occurs-length : (n h a : Wide) → Occurs n h a → length a + length n ≤ length h
Occurs-length n h a (b, e) = omega (arith, ap length e, length-append a (n ++ b), length-append n b)

matches_at-Occurs : (h n : Wide) → (matches_at h n ≡ true) ↔ Occurs n h []
unfolding matches_at
matches_at-Occurs h [] = (λ e. (h, refl), λ o. refl)
matches_at-Occurs [] (c ∷ n) = (λ e. absurd (ground arith), λ (b, e). absurd (ground arith))
matches_at-Occurs (d ∷ h) (c ∷ n) = (
  λ e.
      let (b, same) = (matches_at-Occurs h n).0 (ground arith) in
      let heads : d ≡ c = ground arith in (b, cc),
  λ (b, e).
      let tails : h ≡ n ++ b = ground arith in
      let heads : d ≡ c = ground arith in ground (arith, (matches_at-Occurs h n).1 (b, tails)),
)

-- Where the needle does not stand at the start, it occurs in the rest of the text only.
Occurs-rest :
    (n h c : Wide) (x : ℕ)
    → matches_at (x ∷ h) n ≡ false
    → Occurs n (x ∷ h) c
    → (d : Wide) × (length c ≡ suc (length d)) × Occurs n h d
Occurs-rest n h [] x e o = let here = (matches_at-Occurs (x ∷ h) n).1 o in absurd (ground arith)
Occurs-rest n h (y ∷ c) x e (b, same) = (c, refl, (b, ground arith))

-- The result of a search: the text from the first occurrence on, or NULL where there is none.
abbrev pub First : Wide → Wide → Option Wide → Type 0
First needle haystack r =
    ((r ≡ none) × ((a : Wide) → Occurs needle haystack a → ⊥))
    ⊎ ((a b : Wide) × (haystack ≡ a ++ (needle ++ b))
        × (r ≡ some (needle ++ b))
        × ((c : Wide) → Occurs needle haystack c → length a ≤ length c))

strstr_loop-First :
    (n : Wide) (k : ℕ) (h : Wide)
    → 1 ≤ length n
    → length h + 1 ≡ k + length n
    → First n h (strstr_loop n k h)
unfolding strstr_loop
strstr_loop-First n zero h one fit =
    inl (refl, λ a o. absurd (omega (arith, Occurs-length n h a o)))
strstr_loop-First n (suc k) [] one fit = absurd (omega arith)
strstr_loop-First n (suc k) (x ∷ h) one fit = elim (Bool-cases (matches_at (x ∷ h) n)) [
  | inl e ↦
      let (b, same) = (matches_at-Occurs (x ∷ h) n).0 e in
      rw e (inr ([], b, same, ap some same, λ c o. omega arith))
  | inr e ↦ rw e (later e (strstr_loop-First n k h one (omega arith)))
]
  where
    later :
        matches_at (x ∷ h) n ≡ false
        → First n h (strstr_loop n k h)
        → First n (x ∷ h) (strstr_loop n k h)
    later e (inl (r, absent)) =
        inl (r, λ c o. let (d, _, p) = Occurs-rest n h c x e o in absent d p)
    later e (inr (a, b, same, r, least)) = inr (
      x ∷ a,
      b,
      ap (λ t. x ∷ t) same,
      r,
      λ c o. let (d, l, p) = Occurs-rest n h c x e o in omega (arith, least d p, l),
    )

-- `wstring_strstr` returns the text from the first occurrence of the needle on, and NULL exactly
-- where the needle does not occur.
pub wstring_strstr-First : (h n : Wide) → First n h (wstring_strstr h n)
unfolding wstring_strstr
wstring_strstr-First h [] = inr ([], h, refl, refl, λ c o. omega arith)
wstring_strstr-First h (c ∷ n) = elim (Bool-cases (ltb (length h) (length (c ∷ n)))) [
  | inl e ↦ rw e (inl (refl, λ a o. absurd (ground (arith, Occurs-length (c ∷ n) h a o))))
  | inr e ↦
      rw e
        (strstr_loop-First (c ∷ n) (length h - length (c ∷ n) + 1) h (omega arith) (ground arith))
]
