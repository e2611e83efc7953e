-- ===== src/Base/Tokens/Words.antt =====
-- The loops over `readtok` and `qstr_btok` read back what a text was made of.
use bas_c.Common.{
  ℕ, ◌<◌, ◌≡◌, refl, ◌≢◌, ◌⊎◌, inl, inr, Bool, true, false, none, some, List, [], ◌∷◌, ◌++◌,
  append_assoc, arith, Bytes, if◌then◌else◌, length, All,
}
use bas_c.Base.CString.{isspace}
use bas_c.Base.Str.{ltrim}
use bas_c.Base.Str.Trim.{IsSpace, IsDark}
use bas_c.Base.Tokens.{word, cut, readtok, quoted, qstr_btok, tokens}
use bas_c.Base.Tokens.Loop.{Opens, Reads, Item, spell, toks, Spaced, Spaced-mono, tokens-spell}

ltrim-append : (g s : Bytes) → All IsSpace g → ltrim (g ++ s) ≡ ltrim s
unfolding ltrim
ltrim-append [] s h = refl
ltrim-append (c ∷ g) s (h, hs) = rw h (ltrim-append g s hs)

ltrim_blank : (g : Bytes) → All IsSpace g → ltrim g ≡ []
unfolding ltrim
ltrim_blank [] h = refl
ltrim_blank (c ∷ g) (h, hs) = rw h (ltrim_blank g hs)

ltrim_dark : (c : ℕ) (s : Bytes) → IsDark c → ltrim (c ∷ s) ≡ c ∷ s
unfolding ltrim
ltrim_dark c s h = rw h

word-append : (w tail : Bytes) → All IsDark w → Opens tail → word (w ++ tail) ≡ (w, tail)
unfolding word
word-append [] [] h o = refl
word-append [] (c ∷ tail) h o = ground arith
word-append (c ∷ w) tail (h, hs) o = ground (arith, word-append w tail hs o)

quoted-append :
    (d : ℕ) (w tail : Bytes) → All (λ c. c ≢ d) w → quoted d (w ++ d ∷ tail) ≡ (w, d ∷ tail)
unfolding quoted
quoted-append d [] tail h = ground arith
quoted-append d (c ∷ w) tail (h, hs) = ground (arith, quoted-append d w tail hs)

readtok_word :
    (c : ℕ) (w g tail : Bytes)
    → All IsDark (c ∷ w)
    → All IsSpace g
    → Opens tail
    → readtok (g ++ (c ∷ (w ++ tail))) ≡ (some (c ∷ w), cut tail)
unfolding readtok
readtok_word c w g tail h hg o =
    rw (ltrim-append g (c ∷ (w ++ tail)) hg, ltrim_dark c (w ++ tail) h.0)
      (ground (arith, word-append (c ∷ w) tail h o))

readtok_blank : (g : Bytes) → All IsSpace g → readtok g ≡ (none, g)
unfolding readtok
readtok_blank g h = rw (ltrim_blank g h)

readtok-Reads : (w : Bytes) → 0 < length w → All IsDark w → Reads readtok w w
readtok-Reads [] some_w h g tail hg o = absurd (omega arith)
readtok-Reads (c ∷ w) some_w h g tail hg o = (cut tail, readtok_word c w g tail h hg o, inl refl)

-- A word: no white space in it, and returned as it stands.
abbrev pub IsWord : Item → Type 0
IsWord i = All IsDark i.raw × (i.tok ≡ i.raw)

-- Of any text of words with white space between, before and behind them, the loop over `readtok`
-- returns the words, in order.
pub tokens-readtok :
    (g : Bytes) (is : List Item)
    → All IsSpace g
    → Spaced IsWord is
    → tokens readtok (g ++ spell is) ≡ toks is
tokens-readtok g is hg h =
    tokens-spell readtok readtok_blank g is hg
      (Spaced-mono IsWord _ (λ i some_raw p. rw p.1 (readtok-Reads i.raw some_raw p.0)) is h)

abbrev pub IsQuote : ℕ → Type 0
IsQuote d = (d ≡ b'"') ⊎ (d ≡ b'\'')

abbrev pub StartsBare : Bytes → Type 0
StartsBare [] = Unit
StartsBare (c ∷ s) = (c ≢ b'"') × (c ≢ b'\'')

-- A token of `qstr_btok`: a word that starts with no quote, or a text between two quotes that
-- holds no such quote. With `killq` the quotes are not part of what is returned.
abbrev pub IsLexeme : Bool → Item → Type 0
IsLexeme killq i =
    (All IsDark i.raw × StartsBare i.raw × (i.tok ≡ i.raw))
    ⊎ ((d : ℕ) × (w : Bytes) × IsQuote d
        × All (λ c. c ≢ d) w
        × (i.raw ≡ d ∷ (w ++ d ∷ []))
        × (i.tok ≡ (if killq then w else i.raw)))

qstr_btok_blank : (killq : Bool) (g : Bytes) → All IsSpace g → qstr_btok killq g ≡ (none, g)
unfolding qstr_btok
qstr_btok_blank killq g h = rw (ltrim_blank g h)

qstr_btok_bare :
    (killq : Bool) (c : ℕ) (w g tail : Bytes)
    → All IsDark (c ∷ w)
    → StartsBare (c ∷ w)
    → All IsSpace g
    → Opens tail
    → qstr_btok killq (g ++ (c ∷ (w ++ tail))) ≡ (some (c ∷ w), cut tail)
unfolding qstr_btok
qstr_btok_bare killq c w g tail h bare hg o =
    rw (ltrim-append g (c ∷ (w ++ tail)) hg, ltrim_dark c (w ++ tail) h.0)
      (ground (arith, word-append (c ∷ w) tail h o))

IsQuote-IsDark : (d : ℕ) → IsQuote d → IsDark d
unfolding isspace
IsQuote-IsDark d q = ground arith

qstr_btok_quote :
    (killq : Bool) (d : ℕ) (w g tail : Bytes)
    → IsQuote d
    → All (λ c. c ≢ d) w
    → All IsSpace g
    → qstr_btok killq (g ++ (d ∷ (w ++ d ∷ tail)))
      ≡ (some (if killq then w else d ∷ (w ++ d ∷ [])), (if killq then tail else cut tail))
unfolding qstr_btok
qstr_btok_quote killq d w g tail q h hg =
    rw (ltrim-append g (d ∷ (w ++ d ∷ tail)) hg, ltrim_dark d (w ++ d ∷ tail) (IsQuote-IsDark d q))
      (ground (arith, quoted-append d w tail h))

qstr_btok_bare-Reads :
    (killq : Bool) (w : Bytes)
    → 0 < length w
    → All IsDark w
    → StartsBare w
    → Reads (qstr_btok killq) w w
qstr_btok_bare-Reads killq [] some_w h bare g tail hg o = absurd (omega arith)
qstr_btok_bare-Reads killq (c ∷ w) some_w h bare g tail hg o =
    (cut tail, qstr_btok_bare killq c w g tail h bare hg o, inl refl)

qstr_btok_quote-Reads :
    (killq : Bool) (d : ℕ) (w : Bytes)
    → IsQuote d
    → All (λ c. c ≢ d) w
    → Reads (qstr_btok killq) (d ∷ (w ++ d ∷ [])) (if killq then w else d ∷ (w ++ d ∷ []))
qstr_btok_quote-Reads true d w q h g tail hg o =
    (tail, rw (append_assoc w (d ∷ []) tail) (qstr_btok_quote true d w g tail q h hg), inr refl)
qstr_btok_quote-Reads false d w q h g tail hg o = (
  cut tail,
  rw (append_assoc w (d ∷ []) tail) (qstr_btok_quote false d w g tail q h hg),
  inl refl,
)

qstr_btok-Reads :
    (killq : Bool) (i : Item)
    → 0 < length i.raw
    → IsLexeme killq i
    → Reads (qstr_btok killq) i.raw i.tok
qstr_btok-Reads killq i some_raw (inl (h, bare, t)) =
    rw t (qstr_btok_bare-Reads killq i.raw some_raw h bare)
qstr_btok-Reads killq i some_raw (inr (d, w, q, h, e, t)) =
    rw (t, e) (qstr_btok_quote-Reads killq d w q h)

-- Of any text of words and quoted texts with white space between, before and behind them, the loop
-- over `qstr_btok` returns them in order: with their quotes, or without where `killq` is set.
pub tokens-qstr_btok :
    (killq : Bool) (g : Bytes) (is : List Item)
    → All IsSpace g
    → Spaced (IsLexeme killq) is
    → tokens (qstr_btok killq) (g ++ spell is) ≡ toks is
tokens-qstr_btok killq g is hg h =
    tokens-spell (qstr_btok killq) (qstr_btok_blank killq) g is hg
      (Spaced-mono (IsLexeme killq) _ (qstr_btok-Reads killq) is h)

-- Without `killq`, the byte right behind a closing quote is lost when it is no blank: the NUL that
-- ends the token is written over it.
pub qstr_btok_drops :
    (d : ℕ) (w : Bytes) (c : ℕ) (rest : Bytes)
    → IsQuote d
    → All (λ b. b ≢ d) w
    → qstr_btok false (d ∷ (w ++ d ∷ c ∷ rest)) ≡ (some (d ∷ (w ++ d ∷ [])), rest)
unfolding cut
qstr_btok_drops d w c rest q h = qstr_btok_quote false d w [] (c ∷ rest) q h tt
