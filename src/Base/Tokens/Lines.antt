-- ===== src/Base/Tokens/Lines.antt =====
-- The loop over `strtok_eol` splits a text at its line feeds.
use bas_c.Common.{
  ℕ, zero, suc, ◌<◌, ◌≡◌, refl, ap, ◌∙◌, ◌≢◌, some, List, [], ◌∷◌, ◌++◌, arith, Bytes, length, All,
  length-append,
}
use bas_c.Base.Tokens.{line, strtok_eol, tokens_from, tokens}
use bas_c.Base.Tokens.Loop.{tokens_from-suc}

-- A line without a line feed.
abbrev pub IsLine : Bytes → Type 0
IsLine = All (λ c. c ≢ b'\n')

-- Lines, each ended by a line feed, and a text behind them.
abbrev pub unlines : List Bytes → Bytes → Bytes
unlines [] last = last
unlines (l ∷ ls) last = l ++ b'\n' ∷ unlines ls last

-- The text behind the last line feed is a line too, unless it is empty.
abbrev pub with_last : List Bytes → Bytes → List Bytes
with_last [] [] = []
with_last [] (c ∷ last) = (c ∷ last) ∷ []
with_last (l ∷ ls) last = l ∷ with_last ls last

line-append : (l r : Bytes) → IsLine l → line (l ++ b'\n' ∷ r) ≡ (l, r)
unfolding line
line-append [] r h = refl
line-append (c ∷ l) r (h, hs) = ground (arith, line-append l r hs)

line_last : (l : Bytes) → IsLine l → line l ≡ (l, [])
unfolding line
line_last [] h = refl
line_last (c ∷ l) (h, hs) = ground (arith, line_last l hs)

strtok_eol_line : (l r : Bytes) → IsLine l → strtok_eol (l ++ b'\n' ∷ r) ≡ (some l, r)
unfolding strtok_eol
strtok_eol_line [] r h = ground arith
strtok_eol_line (c ∷ l) r h = ground (arith, line-append (c ∷ l) r h)

strtok_eol_last : (c : ℕ) (l : Bytes) → IsLine (c ∷ l) → strtok_eol (c ∷ l) ≡ (some (c ∷ l), [])
unfolding strtok_eol
strtok_eol_last c l h = ground (arith, line_last (c ∷ l) h)

tokens_from-nil : (n : ℕ) → tokens_from strtok_eol n [] ≡ []
unfolding tokens_from strtok_eol
tokens_from-nil zero = refl
tokens_from-nil (suc n) = refl

tokens_from-unlines :
    (n : ℕ) (ls : List Bytes) (last : Bytes)
    → All IsLine ls
    → IsLine last
    → length (unlines ls last) < n
    → tokens_from strtok_eol n (unlines ls last) ≡ with_last ls last
tokens_from-unlines zero ls last h k lt = absurd (omega arith)
tokens_from-unlines (suc n) [] [] h k lt = tokens_from-nil (suc n)
tokens_from-unlines (suc n) [] (c ∷ last) h k lt =
    tokens_from-suc strtok_eol n (c ∷ last) (c ∷ last) [] (strtok_eol_last c last k)
    ∙ ap (λ t. (c ∷ last) ∷ t) (tokens_from-nil n)
tokens_from-unlines (suc n) (l ∷ ls) last (h, hs) k lt =
    let rest = unlines ls last in
    tokens_from-suc strtok_eol n (l ++ b'\n' ∷ rest) l rest (strtok_eol_line l rest h)
    ∙ ap (λ t. l ∷ t)
        (tokens_from-unlines n ls last hs k (omega (arith, length-append l (b'\n' ∷ rest))))

-- The loop over `strtok_eol` returns the lines of a text, empty ones included, and the text behind
-- the last line feed if that is not empty.
pub tokens-strtok_eol :
    (ls : List Bytes) (last : Bytes)
    → All IsLine ls
    → IsLine last
    → tokens strtok_eol (unlines ls last) ≡ with_last ls last
unfolding tokens
tokens-strtok_eol ls last h k =
    tokens_from-unlines (suc (length (unlines ls last))) ls last h k (omega arith)
