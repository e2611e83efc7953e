-- ===== src/Examples/Unicode.antt =====
-- src/bas/locale/unicode.c: the codec at the euro sign.
use bas_c.Common.{◌≡◌, refl, some, [], ◌∷◌, ◌++◌, arith, Bytes, codes, pos}
use bas_c.Locale.Utf8.{utf8_decode_code_point, utf8_encode_code_point}
use bas_c.Locale.Utf8.RoundTrip.{Coded, decode-encode}
use bas_c.Locale.Utf8.Decode.{encode-decode}

abbrev euro : Bytes
euro = 0xE2 ∷ 0x82 ∷ 0xAC ∷ []

decode-encode_example : (bs : Bytes) × Coded 0x20AC (codes "x") bs
decode-encode_example = decode-encode 0x20AC (codes "x") (omega arith)

encode-decode_example : utf8_encode_code_point (pos 0x20AC) ≡ some euro
unfolding utf8_decode_code_point
encode-decode_example =
    encode-decode (euro ++ codes "x") 0x20AC (omega arith) refl (omega arith) (omega arith)
