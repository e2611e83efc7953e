-- ===== src/Base/StringList/Search.antt =====
-- `string_list_find` and `string_list_contains` against the list that an array models.
use bas_c.Common.{
  ℕ, ◌+◌, ◌≡◌, refl, ap, ◌∙◌, subst, ◌≢◌, ◌⊎◌, inl, inr, true, false, Option, none, some, List, [],
  ◌∷◌, ◌++◌, append_assoc, arith, Bytes, length, get_or, All, Bool-cases, length-append, map,
}
use bas_c.Base.CString.{str_eq, str_eq_iff}
use bas_c.Base.Slots.{Vec}
use bas_c.Base.Slots.Grow.{Models}
use bas_c.Base.StringList.{find_loop, find, contains}

-- The slot behind the strings `a`.
pub slot_at {ℓ} :
    {E : Type ℓ} (a : List E) (x : E) (b : List E) (u : List (Option E))
    → get_or (map some (a ++ x ∷ b) ++ u) (length a) none ≡ some x
slot_at [] x b u = refl
slot_at (y ∷ a) x b u = slot_at a x b u

-- What holds behind `a` and `x` is what holds one slot behind `a`.
pub next_slot {ℓ κ} :
    {E : Type ℓ} (P : List (Option E) → ℕ → Type κ) (a : List E) (x : E) (b : List E)
    (u : List (Option E))
    → P (map some ((a ++ x ∷ []) ++ b) ++ u) (length (a ++ x ∷ []))
    → P (map some (a ++ x ∷ b) ++ u) (length a + 1)
next_slot P a x b u p =
    subst (P (map some (a ++ x ∷ b) ++ u)) (length-append a (x ∷ []))
      (subst (λ t. P (map some t ++ u) (length (a ++ x ∷ []))) (append_assoc a (x ∷ []) b) p)

abbrev pub Without : Bytes → List Bytes → Type 0
Without s = All (λ x. x ≢ s)

-- The result of a search in `b`, behind the strings `a`.
abbrev pub Found : Bytes → List Bytes → List Bytes → Option ℕ → Type 0
Found s a b r =
    ((r ≡ none) × Without s b)
    ⊎ ((c d : List Bytes) × (b ≡ c ++ s ∷ d) × Without s c × (r ≡ some (length a + length c)))

Found-later :
    (s x : Bytes) (a b : List Bytes) (r : Option ℕ)
    → x ≢ s
    → Found s (a ++ x ∷ []) b r
    → Found s a (x ∷ b) r
Found-later s x a b r ne (inl (e, w)) = inl (e, (ne, w))
Found-later s x a b r ne (inr (c, d, e, w, f)) =
    inr
      (x ∷ c, d, ap (λ t. x ∷ t) e, (ne, w), f ∙ ap some (omega (arith, length-append a (x ∷ []))))

str_eq-ne : (a b : Bytes) → str_eq a b ≡ false → a ≢ b
str_eq-ne a b h e = ground (arith, str_eq_iff a b)

find_loop-Found :
    (s : Bytes) (a b : List Bytes) (u : List (Option Bytes))
    → Found s a b (find_loop s (map some (a ++ b) ++ u) (length b) (length a))
unfolding find_loop
find_loop-Found s a [] u = inl (refl, tt)
find_loop-Found s a (x ∷ b) u = elim (Bool-cases (str_eq x s)) [
  | inl e ↦
      rw (slot_at a x b u, e)
        (inr ([], b, ap (λ t. t ∷ b) ((str_eq_iff x s).0 e), tt, ap some (omega arith)))
  | inr e ↦
      rw (slot_at a x b u, e)
        (Found-later s x a b _ (str_eq-ne x s e) (
          next_slot (λ items n. Found s (a ++ x ∷ []) b (find_loop s items (length b) n)) a x b u
            (find_loop-Found s (a ++ x ∷ []) b u)))
]

-- `find` returns the index of the first string that equals the one asked for, and -1 where none
-- does; `contains` says which of the two it is.
pub find-Found :
    (xs : List Bytes) (v : Vec Bytes) (s : Bytes)
    → Models xs v
    → ((find v (some s) ≡ none) × (contains v (some s) ≡ false) × Without s xs)
      ⊎ ((c d : List Bytes) × (xs ≡ c ++ s ∷ d)
          × Without s c
          × (find v (some s) ≡ some (length c))
          × (contains v (some s) ≡ true))
unfolding find contains
find-Found xs v s m = split found
  where
    found : Found s [] xs (find_loop s v.items v.count 0)
    found = rw (m.held, m.counted) (find_loop-Found s [] xs m.unused)

    split :
        Found s [] xs (find_loop s v.items v.count 0)
        → ((find v (some s) ≡ none) × (contains v (some s) ≡ false) × Without s xs)
          ⊎ ((c d : List Bytes) × (xs ≡ c ++ s ∷ d)
              × Without s c
              × (find v (some s) ≡ some (length c))
              × (contains v (some s) ≡ true))
    split (inl (e, w)) = inl (e, rw (e, contains) refl, w)
    split (inr (c, d, e, w, f)) = inr (c, d, e, w, f ∙ ap some (omega arith), rw (f, contains) refl)
