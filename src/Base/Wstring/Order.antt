-- ===== src/Base/Wstring/Order.antt =====
-- `wstring_cmp` orders wide strings.
use bas_c.Common.{
  ◌≡◌, refl, ap, ◌↔◌, ◌⊎◌, inl, inr, Option, none, some, [], ◌∷◌, arith, pos, negsuc,
}
use bas_c.Base.Wstring.{Wide, cmp_units, wstring_cmp}

cmp_units-eq : (a b : Wide) → cmp_units a b ≡ pos 0 → a ≡ b
unfolding cmp_units
cmp_units-eq [] [] h = refl
cmp_units-eq [] (y ∷ b) h = ground arith
cmp_units-eq (x ∷ a) [] h = ground arith
cmp_units-eq (x ∷ a) (y ∷ b) h = ground (arith, cmp_units-eq a b)

cmp_units_refl : (a : Wide) → cmp_units a a ≡ pos 0
unfolding cmp_units
cmp_units_refl [] = refl
cmp_units_refl (x ∷ a) = ground (arith, cmp_units_refl a)

cmp_units_turned :
    (a b : Wide)
    → ((cmp_units a b ≡ negsuc 0) × (cmp_units b a ≡ pos 1))
      ⊎ (((cmp_units a b ≡ pos 0) × (cmp_units b a ≡ pos 0))
          ⊎ ((cmp_units a b ≡ pos 1) × (cmp_units b a ≡ negsuc 0)))
unfolding cmp_units
cmp_units_turned [] [] = inr (inl (refl, refl))
cmp_units_turned [] (y ∷ b) = inl (refl, refl)
cmp_units_turned (x ∷ a) [] = inr (inr (refl, refl))
cmp_units_turned (x ∷ a) (y ∷ b) = ground (arith, cmp_units_turned a b)

-- `wstring_cmp` returns 0 exactly for equal arguments, and with its arguments exchanged it returns
-- the opposite sign; NULL is equal to NULL alone.
pub wstring_cmp_turned :
    (a b : Option Wide)
    → ((wstring_cmp a b ≡ pos 0) ↔ (a ≡ b))
      × (((wstring_cmp a b ≡ negsuc 0) × (wstring_cmp b a ≡ pos 1))
          ⊎ (((wstring_cmp a b ≡ pos 0) × (wstring_cmp b a ≡ pos 0))
              ⊎ ((wstring_cmp a b ≡ pos 1) × (wstring_cmp b a ≡ negsuc 0))))
unfolding wstring_cmp
wstring_cmp_turned none none = ((λ e. refl, λ e. refl), inr (inl (refl, refl)))
wstring_cmp_turned none (some b) = (ground arith, inr (inr (refl, refl)))
wstring_cmp_turned (some a) none = (ground arith, inl (refl, refl))
wstring_cmp_turned (some a) (some b) = (
  (λ e. ap some (cmp_units-eq a b e), λ e. ground (arith, cmp_units_refl a)),
  cmp_units_turned a b,
)
