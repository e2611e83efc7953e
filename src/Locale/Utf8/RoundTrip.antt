-- ===== src/Locale/Utf8/RoundTrip.antt =====
-- Decoding what `utf8_encode_code_point` wrote.
use bas_c.Common.{
  ℕ, ◌+◌, ◌/◌, ◌%◌, ◌≤◌, ◌<◌, ◌≡◌, ap, ◌∙◌, inl, inr, some, [], ◌∷◌, ◌++◌, arith, Bytes, pos, ltb,
  length, All, Bool-cases,
}
use bas_c.Locale.Utf8.{point, Decoded, utf8_decode_code_point, utf8_encode_code_point}
use bas_c.Locale.Utf8.Fields.{
  encode1, encode2, encode3, encode4, decode1_lem, decode2_lem, decode3_lem, decode4_lem,
}

-- The encoder wrote `bs` for `cp`, one to four bytes, and the decoder reads `cp` back from them and
-- consumes just these, whatever follows.
pub record Coded (cp : ℕ) (rest bs : Bytes) : Type 0 where
  pub encoded : utf8_encode_code_point (pos cp) ≡ some bs
  pub decoded :
      utf8_decode_code_point (bs ++ rest) ≡ record { code = point cp; consumed = length bs }
  pub some_bytes : 1 ≤ length bs
  pub few_bytes : length bs ≤ 4
  pub bytes : All (λ b. b < 256) bs

read_as :
    (a b n : ℕ)
    → a ≡ b
    → ◌≡◌ {A = Decoded}
        (record { code = point a; consumed = n })
        (record { code = point b; consumed = n })
read_as a b n e = ap {B = Decoded} (λ t. record { code = point t; consumed = n }) e

Coded1 : (cp : ℕ) (rest : Bytes) → cp < 0x80 → Coded cp rest (cp ∷ [])
Coded1 cp rest h = record {
  encoded = encode1 cp h;
  decoded = decode1_lem cp rest h;
  some_bytes = omega arith;
  few_bytes = omega arith;
  bytes = omega arith;
}

Coded2 :
    (cp : ℕ) (rest : Bytes)
    → 0x80 ≤ cp
    → cp < 0x800
    → Coded cp rest ((192 + cp / 64) ∷ (128 + cp % 64) ∷ [])
Coded2 cp rest lo hi = record {
  encoded = encode2 cp lo hi;
  decoded =
      decode2_lem (192 + cp / 64) (128 + cp % 64) rest (omega arith) (omega arith) (omega arith)
      ∙ read_as _ cp 2 (omega arith);
  some_bytes = omega arith;
  few_bytes = omega arith;
  bytes = omega arith;
}

Coded3 :
    (cp : ℕ) (rest : Bytes)
    → 0x800 ≤ cp
    → cp < 0x10000
    → Coded cp rest ((224 + cp / 4096) ∷ (128 + cp / 64 % 64) ∷ (128 + cp % 64) ∷ [])
Coded3 cp rest lo hi = record {
  encoded = encode3 cp lo hi;
  decoded =
      decode3_lem (224 + cp / 4096) (128 + cp / 64 % 64) (128 + cp % 64) rest (omega arith)
        (omega arith) (omega arith) (omega arith)
      ∙ read_as _ cp 3 (omega arith);
  some_bytes = omega arith;
  few_bytes = omega arith;
  bytes = omega arith;
}

Coded4 :
    (cp : ℕ) (rest : Bytes)
    → 0x10000 ≤ cp
    → cp ≤ 0x10FFFF
    → Coded cp rest
        ((240 + cp / 262144) ∷ (128 + cp / 4096 % 64) ∷ (128 + cp / 64 % 64) ∷ (128 + cp % 64) ∷ [])
Coded4 cp rest lo hi = record {
  encoded = encode4 cp lo hi;
  decoded =
      decode4_lem (240 + cp / 262144) (128 + cp / 4096 % 64) (128 + cp / 64 % 64) (128 + cp % 64)
        rest (omega arith) (omega arith) (omega arith) (omega arith) (omega arith)
      ∙ read_as _ cp 4 (omega arith);
  some_bytes = omega arith;
  few_bytes = omega arith;
  bytes = omega arith;
}

-- Every code point up to 0x10FFFF is encoded in one to four bytes, and the decoder reads it back
-- from them, whatever bytes follow.
pub decode-encode : (cp : ℕ) (rest : Bytes) → cp ≤ 0x10FFFF → (bs : Bytes) × Coded cp rest bs
decode-encode cp rest h = elim (Bool-cases (ltb cp 0x80)) [
  | inl p ↦ (_, Coded1 cp rest (ground arith))
  | inr p ↦ elim (Bool-cases (ltb cp 0x800)) [
    | inl q ↦ (_, Coded2 cp rest (ground arith) (ground arith))
    | inr q ↦ elim (Bool-cases (ltb cp 0x10000)) [
      | inl r ↦ (_, Coded3 cp rest (ground arith) (ground arith))
      | inr r ↦ (_, Coded4 cp rest (ground arith) h)
    ]
  ]
]
