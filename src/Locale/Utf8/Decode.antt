-- ===== src/Locale/Utf8/Decode.antt =====
-- What `utf8_decode_code_point` accepts and how far it moves.
use bas_c.Common.{
  ◌⊎◌, inl, ℕ, ◌+◌, ◌/◌, ◌%◌, ◌≤◌, ◌<◌, ◌≡◌, refl, sym, ap, ◌∙◌, ◌≢◌, Bool, true, false, not, ◌||◌,
  some, [], ◌∷◌, arith, Bytes, pos, ltb, leb, ◌==◌, if◌then◌else◌, length, take, All, if_elim,
  ltb→lt, ==_iff,
}
use Prim.Native.Nat.{bit_and}
use bas_c.Common.Bits.{high3, high4, high5}
use bas_c.Locale.Utf8.{
  point, end, Decoded, bad, is_tail, decode2, decode3, decode4, utf8_decode_code_point,
  utf8_encode_code_point,
}
use bas_c.Locale.Utf8.Fields.{
  encode1, encode2, encode3, encode4, is_tail→, decode2_lem, value2, value3, value4,
}

-- The least code point whose shortest form takes that many bytes.
abbrev pub least : ℕ → ℕ
least n = if leb n 1 then 0 else if n == 2 then 0x80 else if n == 3 then 0x800 else 0x10000

-- What one call says of its input.
pub record Moves (bs : Bytes) (d : Decoded) : Type 0 where
  pub inside : d.consumed ≤ length bs
  pub forward : ((bs ≡ []) × (d.code ≡ end)) ⊎ ((1 ≤ d.consumed) × (d.code ≢ end))

abbrev Reencodes : Bytes → Decoded → Type 0
Reencodes bs d =
    (cp : ℕ)
    → d.code ≡ point cp
    → least d.consumed ≤ cp
    → cp ≤ 0x10FFFF
    → utf8_encode_code_point (pos cp) ≡ some (take d.consumed bs)

point_eq : (a b : ℕ) → point a ≡ point b → a ≡ b
point_eq a b h = ground arith

bad-Reencodes : (bs : Bytes) → Reencodes bs bad
bad-Reencodes bs cp e lo hi = absurd (cc)

not-false : (b : Bool) → not b ≡ false → b ≡ true
not-false true h = refl
not-false false h = cc

or_false : (a b : Bool) → a || b ≡ false → (a ≡ false) × (b ≡ false)
or_false a b h = ground arith

decode2-Reencodes :
    (b0 : ℕ) (bs : Bytes)
    → All (λ b. b < 256) bs
    → 192 ≤ b0
    → b0 < 224
    → Reencodes (b0 ∷ bs) (decode2 b0 bs)
unfolding decode2
decode2-Reencodes b0 [] h lo hi = bad-Reencodes (b0 ∷ [])
decode2-Reencodes b0 (b1 ∷ bs) (h, hs) lo hi =
    if_elim (Reencodes (b0 ∷ b1 ∷ bs)) (not (is_tail b1)) bad _ (λ p. bad-Reencodes (b0 ∷ b1 ∷ bs))
      (λ p cp e least_cp top.
        let t1 = is_tail→ b1 h (not-false _ p) in
        let w = sym (value2 b0 b1) ∙ point_eq _ cp e in
        encode2 cp least_cp (omega arith) ∙ ground arith)

decode3-Reencodes :
    (b0 : ℕ) (bs : Bytes)
    → All (λ b. b < 256) bs
    → 224 ≤ b0
    → b0 < 240
    → Reencodes (b0 ∷ bs) (decode3 b0 bs)
unfolding decode3
decode3-Reencodes b0 [] h lo hi = bad-Reencodes (b0 ∷ [])
decode3-Reencodes b0 (b1 ∷ []) h lo hi = bad-Reencodes (b0 ∷ b1 ∷ [])
decode3-Reencodes b0 (b1 ∷ b2 ∷ bs) (h1, (h2, hs)) lo hi =
    let all = b0 ∷ b1 ∷ b2 ∷ bs in
    if_elim (Reencodes all) (not (is_tail b1) || not (is_tail b2)) bad _ (λ p. bad-Reencodes all)
      (λ p cp e least_cp top.
        let (p1, p2) = or_false _ _ p in
        let t1 = is_tail→ b1 h1 (not-false _ p1) in
        let t2 = is_tail→ b2 h2 (not-false _ p2) in
        let w = sym (value3 b0 b1 b2) ∙ point_eq _ cp e in
        encode3 cp least_cp (omega arith) ∙ ground arith)

decode4-Reencodes :
    (b0 : ℕ) (bs : Bytes)
    → All (λ b. b < 256) bs
    → 240 ≤ b0
    → b0 < 248
    → Reencodes (b0 ∷ bs) (decode4 b0 bs)
unfolding decode4
decode4-Reencodes b0 [] h lo hi = bad-Reencodes (b0 ∷ [])
decode4-Reencodes b0 (b1 ∷ []) h lo hi = bad-Reencodes (b0 ∷ b1 ∷ [])
decode4-Reencodes b0 (b1 ∷ b2 ∷ []) h lo hi = bad-Reencodes (b0 ∷ b1 ∷ b2 ∷ [])
decode4-Reencodes b0 (b1 ∷ b2 ∷ b3 ∷ bs) (h1, (h2, (h3, hs))) lo hi =
    let all = b0 ∷ b1 ∷ b2 ∷ b3 ∷ bs in
    if_elim (Reencodes all) (not (is_tail b1) || (not (is_tail b2) || not (is_tail b3))) bad _
      (λ p. bad-Reencodes all)
      (λ p cp e least_cp top.
        let (p1, p23) = or_false _ _ p in
        let (p2, p3) = or_false _ _ p23 in
        let t1 = is_tail→ b1 h1 (not-false _ p1) in
        let t2 = is_tail→ b2 h2 (not-false _ p2) in
        let t3 = is_tail→ b3 h3 (not-false _ p3) in
        let w = sym (value4 b0 b1 b2 b3) ∙ point_eq _ cp e in
        encode4 cp least_cp top ∙ ground arith)

decode-Reencodes : (bs : Bytes) → All (λ b. b < 256) bs → Reencodes bs (utf8_decode_code_point bs)
unfolding utf8_decode_code_point
decode-Reencodes [] h = λ cp e lo hi. absurd (cc)
decode-Reencodes (b0 ∷ bs) (h, hs) =
    let P = Reencodes (b0 ∷ bs) in
    if_elim P (ltb b0 0x80) _ _
      (λ p cp e lo hi. rw (← point_eq b0 cp e) (encode1 b0 (ltb→lt b0 0x80 p)))
      (λ p.
        if_elim P (bit_and b0 0xE0 == 0xC0) _ _
          (λ q.
            let v = (==_iff _ _).0 q in
            let m = high3 b0 h in decode2-Reencodes b0 bs hs (omega arith) (omega arith))
          (λ q.
            if_elim P (bit_and b0 0xF0 == 0xE0) _ _
              (λ r.
                let v = (==_iff _ _).0 r in
                let m = high4 b0 h in decode3-Reencodes b0 bs hs (omega arith) (omega arith))
              (λ r.
                if_elim P (bit_and b0 0xF8 == 0xF0) _ _
                  (λ s.
                    let v = (==_iff _ _).0 s in
                    let m = high5 b0 h in decode4-Reencodes b0 bs hs (omega arith) (omega arith))
                  (λ s. bad-Reencodes (b0 ∷ bs)))))

-- A code point that is read from bytes, in its shortest form and at most 0x10FFFF, is encoded back
-- as just the bytes that were consumed.
pub encode-decode :
    (bs : Bytes) (cp : ℕ)
    → All (λ b. b < 256) bs
    → (utf8_decode_code_point bs).code ≡ point cp
    → least (utf8_decode_code_point bs).consumed ≤ cp
    → cp ≤ 0x10FFFF
    → utf8_encode_code_point (pos cp) ≡ some (take (utf8_decode_code_point bs).consumed bs)
encode-decode bs cp h e lo hi = decode-Reencodes bs h cp e lo hi

decode2-Moves : (b0 : ℕ) (bs : Bytes) → Moves (b0 ∷ bs) (decode2 b0 bs)
unfolding decode2
decode2-Moves b0 [] = ground arith
decode2-Moves b0 (b1 ∷ bs) = ground arith

decode3-Moves : (b0 : ℕ) (bs : Bytes) → Moves (b0 ∷ bs) (decode3 b0 bs)
unfolding decode3
decode3-Moves b0 [] = ground arith
decode3-Moves b0 (b1 ∷ []) = ground arith
decode3-Moves b0 (b1 ∷ b2 ∷ bs) = ground arith

decode4-Moves : (b0 : ℕ) (bs : Bytes) → Moves (b0 ∷ bs) (decode4 b0 bs)
unfolding decode4
decode4-Moves b0 [] = ground arith
decode4-Moves b0 (b1 ∷ []) = ground arith
decode4-Moves b0 (b1 ∷ b2 ∷ []) = ground arith
decode4-Moves b0 (b1 ∷ b2 ∷ b3 ∷ bs) = ground arith

-- The decoder consumes no byte behind the end of its input; it answers that the input has ended
-- where that is empty, and else consumes at least one byte and does not answer so.
pub decode-Moves : (bs : Bytes) → Moves bs (utf8_decode_code_point bs)
unfolding utf8_decode_code_point
decode-Moves [] = record { inside = omega arith; forward = inl (refl, refl) }
decode-Moves (b0 ∷ bs) =
    let P = Moves (b0 ∷ bs) in
    if_elim P (ltb b0 0x80) _ _ (λ p. ground arith)
      (λ p.
        if_elim P (bit_and b0 0xE0 == 0xC0) _ _ (λ q. decode2-Moves b0 bs)
          (λ q.
            if_elim P (bit_and b0 0xF0 == 0xE0) _ _ (λ r. decode3-Moves b0 bs)
              (λ r.
                if_elim P (bit_and b0 0xF8 == 0xF0) _ _ (λ s. decode4-Moves b0 bs)
                  (λ s. ground arith))))

-- The decoder accepts a longer form than the shortest: the two bytes that spell an ASCII character
-- are read as that character, and the encoder never writes them.
pub decode_overlong :
    (cp : ℕ) (rest : Bytes)
    → cp < 0x80
    → (utf8_decode_code_point ((192 + cp / 64) ∷ (128 + cp % 64) ∷ rest)
        ≡ record { code = point cp; consumed = 2 })
      × (utf8_encode_code_point (pos cp) ≢ some ((192 + cp / 64) ∷ (128 + cp % 64) ∷ []))
decode_overlong cp rest h = (
  decode2_lem (192 + cp / 64) (128 + cp % 64) rest (omega arith) (omega arith) (omega arith)
      ∙ ap {B = Decoded} (λ t. record { code = point t; consumed = 2 }) (omega arith),
  λ e. absurd (ground (arith, encode1 cp h)),
)
