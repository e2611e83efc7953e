-- ===== src/Common/Bits.antt =====
-- Bit operations at variables: `|` of fields that do not overlap adds them, `&` with a mask of ones
-- takes a remainder. Each law is proved for one width from the law for the width below.
use Prim.Native.Nat.{
  ℕ, zero, suc, ◌+◌, ◌-◌, ◌*◌, ◌/◌, ◌%◌, ◌≤◌, ◌<◌, min, max, bit_and, bit_or, digits, bitwise,
  bit_and-bitwise, bit_or-bitwise,
}
use mathlib.Core.Path.{◌≡◌, refl, ap, ◌∙◌}
use mathlib.Core.Bool.{Bool, true, ◌&&◌}
use native.Mathlib.Omega.{arith}
use bas_c.Common.Tests.{◌==◌, ==_iff}

-- The meaning of the native operations recurs on fuel; any fuel that covers the number will do.
digits_enough :
    (z : ℕ → ℕ) (f : ℕ → ℕ → ℕ) (k l a b : ℕ) → a ≤ k → a ≤ l → digits z f k a b ≡ digits z f l a b
digits_enough z f zero zero a b p q = refl
digits_enough z f zero (suc l) zero b p q = refl
digits_enough z f zero (suc l) (suc a) b p q = absurd (omega arith)
digits_enough z f (suc k) zero zero b p q = refl
digits_enough z f (suc k) zero (suc a) b p q = absurd (omega arith)
digits_enough z f (suc k) (suc l) zero b p q = refl
digits_enough z f (suc k) (suc l) (suc a) b p q =
    ap (λ d. d * 2 + f (suc a % 2) (b % 2))
      (digits_enough z f k l (suc a / 2) (b / 2) (omega arith) (omega arith))

bitwise_digit :
    (z : ℕ → ℕ) (f : ℕ → ℕ → ℕ) (a b : ℕ)
    → bitwise z f (suc a) b ≡ bitwise z f (suc a / 2) (b / 2) * 2 + f (suc a % 2) (b % 2)
bitwise_digit z f a b =
    ap (λ d. d * 2 + f (suc a % 2) (b % 2))
      (digits_enough z f a (suc a / 2) (suc a / 2) (b / 2) (omega arith) (omega arith))

or_digit : (a b : ℕ) → bit_or a b ≡ bit_or (a / 2) (b / 2) * 2 + max (a % 2) (b % 2)
or_digit zero b = simp bit_or-bitwise (omega arith)
or_digit (suc a) b = simp bit_or-bitwise (bitwise_digit (λ y. y) max a b)

and_digit : (a b : ℕ) → bit_and a b ≡ bit_and (a / 2) (b / 2) * 2 + min (a % 2) (b % 2)
and_digit zero b = simp bit_and-bitwise (omega arith)
and_digit (suc a) b = simp bit_and-bitwise (bitwise_digit (λ y. zero) min a b)

or_zero : (k a : ℕ) → a ≤ k → bit_or a 0 ≡ a
or_zero k zero h = refl
or_zero zero (suc a) h = absurd (omega arith)
or_zero (suc k) (suc a) h = omega (arith, or_digit (suc a) 0, or_zero k (suc a / 2) (omega arith))

and_zero : (k a : ℕ) → a ≤ k → bit_and a 0 ≡ 0
and_zero k zero h = refl
and_zero zero (suc a) h = absurd (omega arith)
and_zero (suc k) (suc a) h =
    omega (arith, and_digit (suc a) 0, and_zero k (suc a / 2) (omega arith))

abbrev OrAdds : ℕ → Type 0
OrAdds p = (q r : ℕ) → r < p → bit_or (q * p) r ≡ q * p + r

OrAdds-double : (p : ℕ) → OrAdds p → OrAdds (p * 2)
OrAdds-double p h q r lt =
    let e : q * (p * 2) ≡ q * p * 2 = omega arith in
    let halves : q * (p * 2) / 2 ≡ q * p = omega (arith, e) in
    rw (or_digit (q * (p * 2)) r, halves, h q (r / 2) (omega arith)) (omega (arith, e))

abbrev AndTakes : ℕ → Type 0
AndTakes p = (q r : ℕ) → r < p → bit_and (q * p + r) (p - 1) ≡ r

AndTakes-double : (p : ℕ) → AndTakes p → AndTakes (p * 2)
AndTakes-double p h q r lt =
    let e : q * (p * 2) ≡ q * p * 2 = omega arith in
    let halves : (q * (p * 2) + r) / 2 ≡ q * p + r / 2 = omega (arith, e) in
    let ones : (p * 2 - 1) / 2 ≡ p - 1 = omega arith in
    rw (and_digit (q * (p * 2) + r) (p * 2 - 1), halves, ones, h q (r / 2) (omega arith))
      (omega (arith, e))

or1 : OrAdds 1
or1 q r h =
    let none_left : r ≡ 0 = omega arith in
    let whole : q * 1 ≡ q = omega arith in
    rw (none_left, whole) (omega (arith, or_zero q q (omega arith)))

and1 : AndTakes 1
and1 q r h = omega (arith, and_zero (q * 1 + r) (q * 1 + r) (omega arith))

pub or8 : OrAdds 8
or8 = OrAdds-double 4 (OrAdds-double 2 (OrAdds-double 1 or1))

pub or16 : OrAdds 16
or16 = OrAdds-double 8 or8

pub or32 : OrAdds 32
or32 = OrAdds-double 16 or16

pub or64 : OrAdds 64
or64 = OrAdds-double 32 or32

pub or4096 : OrAdds 4096
or4096 = OrAdds-double 2048 (
    OrAdds-double 1024
      (OrAdds-double 512 (OrAdds-double 256 (OrAdds-double 128 (OrAdds-double 64 or64)))))

pub or262144 : OrAdds 262144
or262144 = OrAdds-double 131072 (
    OrAdds-double 65536
      (OrAdds-double 32768 (OrAdds-double 16384 (OrAdds-double 8192 (OrAdds-double 4096 or4096)))))

and8 : AndTakes 8
and8 = AndTakes-double 4 (AndTakes-double 2 (AndTakes-double 1 and1))

and16 : AndTakes 16
and16 = AndTakes-double 8 and8

and32 : AndTakes 32
and32 = AndTakes-double 16 and16

and64 : AndTakes 64
and64 = AndTakes-double 32 and32

pub bit_and-7 : (a : ℕ) → bit_and a 7 ≡ a % 8
bit_and-7 a =
    let e : a ≡ a / 8 * 8 + a % 8 = omega arith in
    ap (λ x. bit_and x 7) e ∙ and8 (a / 8) (a % 8) (omega arith)

pub bit_and-15 : (a : ℕ) → bit_and a 15 ≡ a % 16
bit_and-15 a =
    let e : a ≡ a / 16 * 16 + a % 16 = omega arith in
    ap (λ x. bit_and x 15) e ∙ and16 (a / 16) (a % 16) (omega arith)

pub bit_and-31 : (a : ℕ) → bit_and a 31 ≡ a % 32
bit_and-31 a =
    let e : a ≡ a / 32 * 32 + a % 32 = omega arith in
    ap (λ x. bit_and x 31) e ∙ and32 (a / 32) (a % 32) (omega arith)

pub bit_and-63 : (a : ℕ) → bit_and a 63 ≡ a % 64
bit_and-63 a =
    let e : a ≡ a / 64 * 64 + a % 64 = omega arith in
    ap (λ x. bit_and x 63) e ∙ and64 (a / 64) (a % 64) (omega arith)

-- A test that every byte passes.
everywhere : (ℕ → Bool) → ℕ → Bool
everywhere test zero = true
everywhere test (suc m) = everywhere test m && test m

everywhere_at : (test : ℕ → Bool) (b m : ℕ) → b < m → everywhere test m ≡ true → test b ≡ true
unfolding everywhere
everywhere_at test b zero lt h = absurd (omega arith)
everywhere_at test b (suc m) lt h = ground (arith, everywhere_at test b m)

-- The top bits of a byte, as multiples of the lowest of them.
abbrev has_high : ℕ → ℕ → ℕ → Bool
has_high mask unit b = bit_and b mask == b / unit * unit

high_bits :
    (mask unit b : ℕ)
    → everywhere (has_high mask unit) 256 ≡ true
    → b < 256
    → bit_and b mask ≡ b / unit * unit
high_bits mask unit b h lt = (==_iff _ _).0 (everywhere_at (has_high mask unit) b 256 lt h)

pub high2 : (b : ℕ) → b < 256 → bit_and b 192 ≡ b / 64 * 64
unfolding everywhere
high2 b h = high_bits 192 64 b refl h

pub high3 : (b : ℕ) → b < 256 → bit_and b 224 ≡ b / 32 * 32
unfolding everywhere
high3 b h = high_bits 224 32 b refl h

pub high4 : (b : ℕ) → b < 256 → bit_and b 240 ≡ b / 16 * 16
unfolding everywhere
high4 b h = high_bits 240 16 b refl h

pub high5 : (b : ℕ) → b < 256 → bit_and b 248 ≡ b / 8 * 8
unfolding everywhere
high5 b h = high_bits 248 8 b refl h
