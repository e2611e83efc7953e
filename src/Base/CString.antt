-- ===== src/Base/CString.antt =====
-- The functions of the C standard library that the string code calls, on the bytes that stand
-- before the terminating NUL. Locale "C".
use Prim.Native.Nat.{compare, Ordering}
use bas_c.Common.{
  ℕ, zero, suc, ◌≡◌, ◌↔◌, refl, Bool, true, false, ◌&&◌, ◌||◌, [], ◌∷◌, arith, Bytes, leb, ◌==◌,
}

-- `isspace`: the blank, and HT LF VT FF CR.
unfoldable pub isspace : ℕ → Bool
isspace c = c == 32 || (leb 9 c && leb c 13)

-- `strcmp`, as the sign of its result.
pub strcmp : Bytes → Bytes → Ordering
strcmp [] [] = Ordering.eq
strcmp [] (y ∷ b) = Ordering.lt
strcmp (x ∷ a) [] = Ordering.gt
strcmp (x ∷ a) (y ∷ b) =
    let rest = strcmp a b in
    elim (compare x y) [
      | Ordering.lt ↦ Ordering.lt
      | Ordering.eq ↦ rest
      | Ordering.gt ↦ Ordering.gt
    ]

-- `strcmp(a, b) == 0`
unfoldable pub str_eq : Bytes → Bytes → Bool
unfolding strcmp
str_eq a b = elim (strcmp a b) [ Ordering.eq ↦ true | _ ↦ false ]

-- `strncmp(a, b, n) == 0`
unfoldable pub strn_eq : Bytes → Bytes → ℕ → Bool
strn_eq a b zero = true
strn_eq [] [] (suc n) = true
strn_eq [] (y ∷ b) (suc n) = false
strn_eq (x ∷ a) [] (suc n) = false
strn_eq (x ∷ a) (y ∷ b) (suc n) = x == y && strn_eq a b n

pub str_eq→eq : (a b : Bytes) → str_eq a b ≡ true → a ≡ b
unfolding str_eq
str_eq→eq [] [] h = refl
str_eq→eq [] (y ∷ b) h = ground arith
str_eq→eq (x ∷ a) [] h = ground arith
str_eq→eq (x ∷ a) (y ∷ b) h = ground (arith, str_eq→eq a b)

pub str_eq_refl : (a : Bytes) → str_eq a a ≡ true
unfolding str_eq
str_eq_refl [] = refl
str_eq_refl (x ∷ a) = ground (arith, str_eq_refl a)

pub str_eq_iff : (a b : Bytes) → (str_eq a b ≡ true) ↔ (a ≡ b)
str_eq_iff a b = (str_eq→eq a b, λ e. ground (arith, str_eq_refl a))
