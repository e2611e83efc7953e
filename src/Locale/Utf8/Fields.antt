-- ===== src/Locale/Utf8/Fields.antt =====
-- The bytes of the codec in arithmetic: what each branch of the encoder writes and what each branch
-- of the decoder reads, with the bit operations evaluated.
use bas_c.Common.{
  ℕ, ◌+◌, ◌*◌, ◌/◌, ◌%◌, ◌^◌, ◌≤◌, ◌<◌, ◌≡◌, true, none, some, [], ◌∷◌, arith, Bytes, pos,
}
use bas_c.Common.Bits.{
  or8, or16, or32, or64, or4096, or262144, bit_and-7, bit_and-15, bit_and-31, bit_and-63, high2,
  high3, high4, high5,
}
use Prim.Native.Nat.{bit_and, bit_or}
use bas_c.Locale.Utf8.{point, is_tail, utf8_decode_code_point, utf8_encode_code_point}

tail_byte : (x : ℕ) → bit_or 0x80 (bit_and x 0x3F) % 2 ^ 8 ≡ 128 + x % 64
tail_byte x = rw (bit_and-63 x, or64 2 (x % 64) (omega arith)) (omega arith)

pub encode1 : (cp : ℕ) → cp < 0x80 → utf8_encode_code_point (pos cp) ≡ some (cp ∷ [])
unfolding utf8_encode_code_point
encode1 cp h = ground arith

pub encode2 :
    (cp : ℕ)
    → 0x80 ≤ cp
    → cp < 0x800
    → utf8_encode_code_point (pos cp) ≡ some ((192 + cp / 64) ∷ (128 + cp % 64) ∷ [])
unfolding utf8_encode_code_point
encode2 cp lo hi = rw (tail_byte cp, or32 6 (cp / 64) (omega arith)) (ground arith)

pub encode3 :
    (cp : ℕ)
    → 0x800 ≤ cp
    → cp < 0x10000
    → utf8_encode_code_point (pos cp)
      ≡ some ((224 + cp / 4096) ∷ (128 + cp / 64 % 64) ∷ (128 + cp % 64) ∷ [])
unfolding utf8_encode_code_point
encode3 cp lo hi =
    rw (tail_byte cp, tail_byte (cp / 64), or16 14 (cp / 4096) (omega arith)) (ground arith)

pub encode4 :
    (cp : ℕ)
    → 0x10000 ≤ cp
    → cp ≤ 0x10FFFF
    → utf8_encode_code_point (pos cp)
      ≡ some (
          (240 + cp / 262144)
          ∷ (128 + cp / 4096 % 64)
          ∷ (128 + cp / 64 % 64)
          ∷ (128 + cp % 64)
          ∷ [])
unfolding utf8_encode_code_point
encode4 cp lo hi =
    rw
      (tail_byte cp, tail_byte (cp / 64), tail_byte (cp / 4096), or8 30 (cp / 262144) (omega arith))
      (ground arith)

pub encode_high : (cp : ℕ) → 0x10FFFF < cp → utf8_encode_code_point (pos cp) ≡ none
unfolding utf8_encode_code_point
encode_high cp h = ground arith

-- A byte that continues a sequence.
abbrev pub IsTail : ℕ → Type 0
IsTail b = (128 ≤ b) × (b < 192)

pub is_tail-true : (b : ℕ) → IsTail b → is_tail b ≡ true
is_tail-true b h = ground (arith, high2 b)

pub is_tail→ : (b : ℕ) → b < 256 → is_tail b ≡ true → IsTail b
is_tail→ b h e = ground (arith, high2 b)

pub decode2_lem :
    (b0 b1 : ℕ) (bs : Bytes)
    → 192 ≤ b0
    → b0 < 224
    → IsTail b1
    → utf8_decode_code_point (b0 ∷ b1 ∷ bs)
      ≡ record { code = point (b0 % 32 * 64 + b1 % 64); consumed = 2 }
unfolding utf8_decode_code_point
decode2_lem b0 b1 bs lo hi h1 =
    rw
      (
        high3 b0 (omega arith),
        is_tail-true b1 h1,
        bit_and-31 b0,
        bit_and-63 b1,
        or64 (b0 % 32) (b1 % 64) (omega arith),
      )
      (ground arith)

pub decode1_lem :
    (b0 : ℕ) (bs : Bytes)
    → b0 < 128
    → utf8_decode_code_point (b0 ∷ bs) ≡ record { code = point b0; consumed = 1 }
unfolding utf8_decode_code_point
decode1_lem b0 bs h = ground arith

or_two :
    (x y z : ℕ) → y < 64 → z < 64 → bit_or (bit_or (x * 4096) (y * 64)) z ≡ x * 4096 + y * 64 + z
or_two x y z hy hz =
    let e : x * 4096 + y * 64 ≡ (x * 64 + y) * 64 = omega arith in
    rw (or4096 x (y * 64) (omega arith), e) (or64 (x * 64 + y) z hz)

pub decode3_lem :
    (b0 b1 b2 : ℕ) (bs : Bytes)
    → 224 ≤ b0
    → b0 < 240
    → IsTail b1
    → IsTail b2
    → utf8_decode_code_point (b0 ∷ b1 ∷ b2 ∷ bs)
      ≡ record { code = point (b0 % 16 * 4096 + b1 % 64 * 64 + b2 % 64); consumed = 3 }
unfolding utf8_decode_code_point
decode3_lem b0 b1 b2 bs lo hi h1 h2 =
    rw
      (
        high3 b0 (omega arith),
        high4 b0 (omega arith),
        is_tail-true b1 h1,
        is_tail-true b2 h2,
        bit_and-15 b0,
        bit_and-63 b1,
        bit_and-63 b2,
        or_two (b0 % 16) (b1 % 64) (b2 % 64) (omega arith) (omega arith),
      )
      (ground arith)

or_three :
    (x y z w : ℕ)
    → y < 64
    → z < 64
    → w < 64
    → bit_or (bit_or (bit_or (x * 262144) (y * 4096)) (z * 64)) w
      ≡ x * 262144 + y * 4096 + z * 64 + w
or_three x y z w hy hz hw =
    let e : x * 262144 + y * 4096 ≡ (x * 64 + y) * 4096 = omega arith in
    rw (or262144 x (y * 4096) (omega arith), e, or_two (x * 64 + y) z w hz hw)

pub decode4_lem :
    (b0 b1 b2 b3 : ℕ) (bs : Bytes)
    → 240 ≤ b0
    → b0 < 248
    → IsTail b1
    → IsTail b2
    → IsTail b3
    → utf8_decode_code_point (b0 ∷ b1 ∷ b2 ∷ b3 ∷ bs) ≡ record {
      code = point (b0 % 8 * 262144 + b1 % 64 * 4096 + b2 % 64 * 64 + b3 % 64);
      consumed = 4;
    }
unfolding utf8_decode_code_point
decode4_lem b0 b1 b2 b3 bs lo hi h1 h2 h3 =
    rw
      (
        high3 b0 (omega arith),
        high4 b0 (omega arith),
        high5 b0 (omega arith),
        is_tail-true b1 h1,
        is_tail-true b2 h2,
        is_tail-true b3 h3,
        bit_and-7 b0,
        bit_and-63 b1,
        bit_and-63 b2,
        bit_and-63 b3,
        or_three (b0 % 8) (b1 % 64) (b2 % 64) (b3 % 64) (omega arith) (omega arith) (omega arith),
      )
      (ground arith)

-- The code point that the decoder assembles.
pub value2 : (a b : ℕ) → bit_or (bit_and a 0x1F * 2 ^ 6) (bit_and b 0x3F) ≡ a % 32 * 64 + b % 64
value2 a b = rw (bit_and-31 a, bit_and-63 b) (or64 (a % 32) (b % 64) (omega arith))

pub value3 :
    (a b c : ℕ)
    → bit_or (bit_or (bit_and a 0x0F * 2 ^ 12) (bit_and b 0x3F * 2 ^ 6)) (bit_and c 0x3F)
      ≡ a % 16 * 4096 + b % 64 * 64 + c % 64
value3 a b c =
    rw (bit_and-15 a, bit_and-63 b, bit_and-63 c)
      (or_two (a % 16) (b % 64) (c % 64) (omega arith) (omega arith))

pub value4 :
    (a b c d : ℕ)
    → bit_or
        (bit_or
          (bit_or (bit_and a 0x07 * 2 ^ 18) (bit_and b 0x3F * 2 ^ 12))
          (bit_and c 0x3F * 2 ^ 6))
        (bit_and d 0x3F)
      ≡ a % 8 * 262144 + b % 64 * 4096 + c % 64 * 64 + d % 64
value4 a b c d =
    rw (bit_and-7 a, bit_and-63 b, bit_and-63 c, bit_and-63 d)
      (or_three (a % 8) (b % 64) (c % 64) (d % 64) (omega arith) (omega arith) (omega arith))
