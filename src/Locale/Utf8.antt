-- ===== src/Locale/Utf8.antt =====
-- `utf8_decode_code_point` and `utf8_encode_code_point` of src/bas/locale/unicode.c. The bytes of
-- [ptr, end) are a list. The out-parameter is part of the result; a call that leaves it out gets the
-- same code.
pub mod Fields
pub mod RoundTrip
pub mod Decode
use bas_c.Common.{
  ℕ, ◌*◌, ◌/◌, ◌%◌, ◌^◌, Bool, not, ◌||◌, Option, none, some, [], ◌∷◌, Bytes, ℤ, pos, negsuc, ltb,
  ◌==◌, if◌then◌else◌,
}
use Prim.Native.Nat.{bit_and, bit_or}

-- The `int` returned: a code point, -1 at the end of the input, -2 for malformed input.
pub data Code : Type 0 where
  point : ℕ → Code
  end : Code
  malformed : Code

-- The result and `*bytes_consumed`.
pub record Decoded : Type 0 where
  pub code : Code
  pub consumed : ℕ

abbrev pub bad : Decoded
bad = record { code = malformed; consumed = 1 }

abbrev pub is_tail : ℕ → Bool
is_tail b = bit_and b 0xC0 == 0x80

unfoldable pub decode2 : ℕ → Bytes → Decoded
decode2 b0 [] = bad
decode2 b0 (b1 ∷ bs) =
    if not (is_tail b1)
    then bad
    else record { code = point (bit_or (bit_and b0 0x1F * 2 ^ 6) (bit_and b1 0x3F)); consumed = 2 }

unfoldable pub decode3 : ℕ → Bytes → Decoded
decode3 b0 [] = bad
decode3 b0 (b1 ∷ []) = bad
decode3 b0 (b1 ∷ b2 ∷ bs) = if not (is_tail b1) || not (is_tail b2) then bad else record {
  code =
      point
        (bit_or (bit_or (bit_and b0 0x0F * 2 ^ 12) (bit_and b1 0x3F * 2 ^ 6)) (bit_and b2 0x3F));
  consumed = 3;
}

unfoldable pub decode4 : ℕ → Bytes → Decoded
decode4 b0 [] = bad
decode4 b0 (b1 ∷ []) = bad
decode4 b0 (b1 ∷ b2 ∷ []) = bad
decode4 b0 (b1 ∷ b2 ∷ b3 ∷ bs) =
    if not (is_tail b1) || (not (is_tail b2) || not (is_tail b3)) then bad else record {
      code = point (
          bit_or
            (bit_or (bit_or (bit_and b0 0x07 * 2 ^ 18) (bit_and b1 0x3F * 2 ^ 12))
              (bit_and b2 0x3F * 2 ^ 6))
            (bit_and b3 0x3F));
      consumed = 4;
    }

unfoldable pub utf8_decode_code_point : Bytes → Decoded
unfolding decode2 decode3 decode4
utf8_decode_code_point [] = record { code = end; consumed = 0 }
utf8_decode_code_point (b0 ∷ bs) =
    if ltb b0 0x80
    then record { code = point b0; consumed = 1 }
    else if bit_and b0 0xE0 == 0xC0
    then decode2 b0 bs
    else if bit_and b0 0xF0 == 0xE0
    then decode3 b0 bs
    else if bit_and b0 0xF8 == 0xF0
    then decode4 b0 bs
    else bad

-- The bytes written to `out`, as many as `*out_len` says; `none` is the result 0.
unfoldable pub utf8_encode_code_point : ℤ → Option Bytes
utf8_encode_code_point (negsuc n) = none
utf8_encode_code_point (pos cp) =
    if ltb 0x10FFFF cp
    then none
    else if ltb cp 0x80
    then some (cp % 2 ^ 8 ∷ [])
    else if ltb cp 0x800
    then some (bit_or 0xC0 (cp / 2 ^ 6) % 2 ^ 8 ∷ bit_or 0x80 (bit_and cp 0x3F) % 2 ^ 8 ∷ [])
    else if ltb cp 0x10000
    then some (
        bit_or 0xE0 (cp / 2 ^ 12) % 2 ^ 8
        ∷ bit_or 0x80 (bit_and (cp / 2 ^ 6) 0x3F) % 2 ^ 8
        ∷ bit_or 0x80 (bit_and cp 0x3F) % 2 ^ 8
        ∷ [])
    else some (
        bit_or 0xF0 (cp / 2 ^ 18) % 2 ^ 8
        ∷ bit_or 0x80 (bit_and (cp / 2 ^ 12) 0x3F) % 2 ^ 8
        ∷ bit_or 0x80 (bit_and (cp / 2 ^ 6) 0x3F) % 2 ^ 8
        ∷ bit_or 0x80 (bit_and cp 0x3F) % 2 ^ 8
        ∷ [])
