-- ===== src/Base/Tokens/Loop.antt =====
-- The loop `while ((tok = next(p, &p)))` over a text that is made of tokens and white space, for
-- any tokenizer `next` of str.c that skips white space.
use bas_c.Common.{
  ℕ, zero, suc, ◌≤◌, ◌<◌, ◌≡◌, ap, ◌∙◌, ◌⊎◌, inl, inr, Option, none, some, List, [], ◌∷◌, ◌++◌,
  append-nil, arith, Bytes, length, All, length-append,
}
use bas_c.Base.Str.Trim.{IsSpace}
use bas_c.Base.Tokens.{cut, tokens_from, tokens}

-- The end of the text, or white space.
abbrev pub Opens : Bytes → Type 0
Opens [] = Unit
Opens (c ∷ s) = IsSpace c

-- Behind any white space and before a blank or the end, `next` reads `raw` and returns `tok`. The
-- cursor is then at the blank or one byte further.
abbrev pub Reads : (Bytes → Option Bytes × Bytes) → Bytes → Bytes → Type 0
Reads next raw tok =
    (g tail : Bytes)
    → All IsSpace g
    → Opens tail
    → (r : Bytes) × (next (g ++ (raw ++ tail)) ≡ (some tok, r)) × ((r ≡ cut tail) ⊎ (r ≡ tail))

-- A token as it is written, what the tokenizer returns for it, and the white space behind it.
pub record Item : Type 0 where
  pub raw : Bytes
  pub tok : Bytes
  pub gap : Bytes

abbrev pub spell : List Item → Bytes
spell [] = []
spell (i ∷ is) = i.raw ++ (i.gap ++ spell is)

abbrev pub toks : List Item → List Bytes
toks [] = []
toks (i ∷ is) = i.tok ∷ toks is

-- Each item has the property and is not empty, and white space stands between any two.
abbrev pub Spaced : (Item → Type 0) → List Item → Type 0
Spaced P [] = Unit
Spaced P (i ∷ is) =
    P i × (0 < length i.raw) × All IsSpace i.gap × ((0 < length i.gap) ⊎ (is ≡ [])) × Spaced P is

pub Spaced-mono :
    (P Q : Item → Type 0)
    → ((i : Item) → 0 < length i.raw → P i → Q i)
    → (is : List Item) → Spaced P is
    → Spaced Q is
Spaced-mono P Q f [] h = tt
Spaced-mono P Q f (i ∷ is) (p, some_raw, gap, between, rest) =
    (f i some_raw p, some_raw, gap, between, Spaced-mono P Q f is rest)

pub Opens-spell :
    (gap : Bytes) (is : List Item)
    → All IsSpace gap
    → (0 < length gap) ⊎ (is ≡ [])
    → Opens (gap ++ spell is)
Opens-spell (c ∷ gap) is (h, _) e = h
Opens-spell [] [] h e = tt
Opens-spell [] (i ∷ is) h (inl e) = absurd (omega arith)
Opens-spell [] (i ∷ is) h (inr e) = absurd (cc)

-- The cursor behind a token: white space, and the tokens that follow.
after_gap :
    (gap r : Bytes) (is : List Item)
    → All IsSpace gap
    → (0 < length gap) ⊎ (is ≡ [])
    → (r ≡ cut (gap ++ spell is)) ⊎ (r ≡ gap ++ spell is)
    → (g : Bytes) × (r ≡ g ++ spell is)
      × All IsSpace g
      × (length (g ++ spell is) ≤ length (gap ++ spell is))
unfolding cut
after_gap (c ∷ gap) r is (h, hs) e (inl p) = (gap, p, hs, omega arith)
after_gap (c ∷ gap) r is h e (inr p) = (c ∷ gap, p, h, omega arith)
after_gap [] r is h e (inr p) = ([], p, tt, omega arith)
after_gap [] r [] h e (inl p) = ([], p, tt, omega arith)
after_gap [] r (i ∷ is) h (inl e) (inl p) = absurd (omega arith)
after_gap [] r (i ∷ is) h (inr e) (inl p) = absurd (cc)

pub tokens_from-suc :
    (next : Bytes → Option Bytes × Bytes) (n : ℕ) (s w r : Bytes)
    → next s ≡ (some w, r)
    → tokens_from next (suc n) s ≡ w ∷ tokens_from next n r
unfolding tokens_from
tokens_from-suc next n s w r e = ground arith

module _ (next : Bytes → Option Bytes × Bytes)
    (blank : (g : Bytes) → All IsSpace g → next g ≡ (none, g)) where
  pub tokens_from-spell :
      (n : ℕ) (g : Bytes) (is : List Item)
      → All IsSpace g
      → Spaced (λ i. Reads next i.raw i.tok) is
      → length (g ++ spell is) < n
      → tokens_from next n (g ++ spell is) ≡ toks is
  unfolding tokens_from
  tokens_from-spell zero g is hg h lt = absurd (omega arith)
  tokens_from-spell (suc n) g [] hg h lt = rw (append-nil g, blank g hg, tokens_from)
  tokens_from-spell (suc n) g (i ∷ is) hg (reads, some_raw, gap, between, rest) lt =
      let tail = i.gap ++ spell is in
      let (r, run, moved) = reads g tail hg (Opens-spell i.gap is gap between) in
      let (g', e, hg', shorter) = after_gap i.gap r is gap between moved in
      let fits : length (g' ++ spell is) < n =
        omega (arith, length-append g (i.raw ++ tail), length-append i.raw tail) in
      tokens_from-suc next n (g ++ spell (i ∷ is)) i.tok (g' ++ spell is)
        (run ∙ ap {B = Option Bytes × Bytes} (λ t. (some i.tok, t)) e)
      ∙ ap (λ t. i.tok ∷ t) (tokens_from-spell n g' is hg' rest fits)

  -- The loop returns the tokens that the text was made of, and the fuel suffices.
  pub tokens-spell :
      (g : Bytes) (is : List Item)
      → All IsSpace g
      → Spaced (λ i. Reads next i.raw i.tok) is
      → tokens next (g ++ spell is) ≡ toks is
  unfolding tokens
  tokens-spell g is hg h = tokens_from-spell (suc (length (g ++ spell is))) g is hg h (omega arith)
