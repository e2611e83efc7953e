-- ===== src/Examples/Strings.antt =====
-- src/bas/base/str.c and wstring.c: trimming, the tokenizers, the line reader and wide strings.
use bas_c.Common.{◌≡◌, refl, inl, inr, true, false, some, List, [], ◌∷◌, arith, codes}
use bas_c.Base.Wstring.{wstring_strstr}
use bas_c.Base.Wstring.Strstr.{First, wstring_strstr-First}
use bas_c.Base.CString.{isspace}
use bas_c.Base.Tokens.{qstr_btok, tokens}
use bas_c.Base.Tokens.Loop.{Item}
use bas_c.Base.Tokens.Words.{tokens-qstr_btok}
use bas_c.Base.Getline.{getline_open}
use bas_c.Base.Getline.Lines.{Kept, str_getline-Kept}

abbrev plain : List Item
plain =
    record { raw = codes "ab"; tok = codes "ab"; gap = codes "\t " }
    ∷ record { raw = codes "c"; tok = codes "c"; gap = [] }
    ∷ []

abbrev quotes : List Item
quotes =
    record { raw = codes "'a b'"; tok = codes "a b"; gap = codes " " }
    ∷ record { raw = codes "c"; tok = codes "c"; gap = [] }
    ∷ []

tokens-qstr_btok_example :
    tokens (qstr_btok true) (codes "  'a b' c") ≡ codes "a b" ∷ codes "c" ∷ []
unfolding isspace
tokens-qstr_btok_example =
    tokens-qstr_btok true (codes "  ") quotes (refl, (refl, tt))
      (
        inr (b'\'', codes "a b", inr refl, omega arith, refl, refl),
        omega arith,
        (refl, tt),
        inl (omega arith),
        (inl ((refl, tt), omega arith, refl), omega arith, tt, inr refl, tt),
      )

str_getline-Kept_example : Kept (codes "ab\nc") 3 (
    getline_open
      (true ∷ true ∷ [])
      (record { alive = true; size = 2 })
      (record { rest = codes "ab\nc"; eof = false }))
unfolding getline_open
str_getline-Kept_example =
    str_getline-Kept (true ∷ true ∷ []) (record { alive = true; size = 2 }) (codes "ab\nc") 3
      (omega arith) refl

wstring_strstr_runs : wstring_strstr (codes "aabaab") (codes "ab") ≡ some (codes "abaab")
unfolding wstring_strstr
wstring_strstr_runs = refl

wstring_strstr-First_example :
    First (codes "ab") (codes "aabaab") (wstring_strstr (codes "aabaab") (codes "ab"))
wstring_strstr-First_example = wstring_strstr-First (codes "aabaab") (codes "ab")
