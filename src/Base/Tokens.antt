-- ===== src/Base/Tokens.antt =====
-- The tokenizers of src/bas/base/str.c: `readtok`, `strtok_eol` and `qstr_btok`. A tokenizer is
-- given the text from its cursor on. It returns the token, which a NUL cuts off in the buffer, and
-- the text from the moved cursor on; where the source returns NULL the cursor stays.
pub mod Loop
pub mod Words
pub mod Lines
use bas_c.Common.{
  ℕ, zero, suc, Bool, true, false, ◌||◌, Option, none, some, List, [], ◌∷◌, ◌++◌, Bytes, ◌==◌,
  if◌then◌else◌, length,
}
use bas_c.Base.CString.{isspace}
use bas_c.Base.Str.{ltrim}

-- `while (*end && !isspace(*end)) end++`: the bytes passed, and the text from `end` on.
unfoldable pub word : Bytes → Bytes × Bytes
unfolding isspace
word [] = ([], [])
word (c ∷ s) = let (w, r) = word s in if isspace c then ([], c ∷ s) else (c ∷ w, r)

-- `if (*end) *end++ = '\0'`
unfoldable pub cut : Bytes → Bytes
cut [] = []
cut (c ∷ s) = s

readtok_at : Bytes → Bytes → Option Bytes × Bytes
unfolding word cut
readtok_at s [] = (none, s)
readtok_at s (c ∷ head) = let (w, end) = word (c ∷ head) in (some w, cut end)

unfoldable pub readtok : Bytes → Option Bytes × Bytes
unfolding ltrim readtok_at
readtok s = readtok_at s (ltrim s)

-- The loop of `strtok_eol`: the bytes before a line feed, and the text behind it.
unfoldable pub line : Bytes → Bytes × Bytes
line [] = ([], [])
line (c ∷ s) = let (l, r) = line s in if c == b'\n' then ([], s) else (c ∷ l, r)

unfoldable pub strtok_eol : Bytes → Option Bytes × Bytes
unfolding line
strtok_eol [] = (none, [])
strtok_eol (c ∷ s) = let (l, end) = line (c ∷ s) in (some l, end)

-- `while (ch = *end) { if (ch == delim) break; end++; }`
unfoldable pub quoted : ℕ → Bytes → Bytes × Bytes
quoted delim [] = ([], [])
quoted delim (c ∷ s) = let (w, r) = quoted delim s in if c == delim then ([], c ∷ s) else (c ∷ w, r)

-- The end of a quoted token. With `killq` the closing quote is the byte that the NUL replaces;
-- without, `end` first moves behind the quote, which stays in the token.
unfoldable pub close_quote : Bool → ℕ → Bytes × Bytes → Bytes × Bytes
unfolding cut
close_quote killq delim (w, []) = (w, [])
close_quote true delim (w, c ∷ end) = (w, end)
close_quote false delim (w, c ∷ end) = (w ++ c ∷ [], cut end)

qstr_btok_at : Bool → Bytes → Bytes → Option Bytes × Bytes
unfolding word cut quoted close_quote
qstr_btok_at killq s [] = (none, s)
qstr_btok_at killq s (c ∷ tok) =
    if c == b'"' || c == b'\''
    then (let (w, end) = close_quote killq c (quoted c tok) in
        (some (if killq then w else c ∷ w), end))
    else (let (w, end) = word (c ∷ tok) in (some w, cut end))

unfoldable pub qstr_btok : Bool → Bytes → Option Bytes × Bytes
unfolding ltrim qstr_btok_at
qstr_btok killq s = qstr_btok_at killq s (ltrim s)

-- `while ((tok = next(p, &p)))`: the tokens of a text. Every token takes a byte, so the length of the
-- text is enough fuel.
unfoldable pub tokens_from : (Bytes → Option Bytes × Bytes) → ℕ → Bytes → List Bytes
tokens_from next zero s = []
tokens_from next (suc n) s =
    let (t, r) = next s in elim t [ none ↦ [] | some w ↦ w ∷ tokens_from next n r ]

unfoldable pub tokens : (Bytes → Option Bytes × Bytes) → Bytes → List Bytes
unfolding tokens_from
tokens next s = tokens_from next (suc (length s)) s
