-- ===== src/Cli/Args/Word/Spelled.antt =====
-- `parse_arg` reads an argument back from any way of writing it.
use bas_c.Common.{
  ℕ, zero, suc, ◌+◌, ◌*◌, ◌%◌, ◌^◌, ◌≡◌, refl, sym, ◌∙◌, subst, ◌≢◌, ◌⊎◌, inl, inr, true, false,
  none, some, [], ◌∷◌, ◌++◌, append_assoc, append-nil, arith, Bytes, leb, length, All, Bool-cases,
}
use bas_c.Base.CString.{isspace}
use bas_c.Base.Str.Trim.{IsSpace, IsDark}
use bas_c.Base.Tokens.Loop.{Opens}
use bas_c.Cli.Alloc.{ok, failed, bind}
use bas_c.Cli.Args.Word.{
  skip_whitespace, grown, Scan, store, round, scan, opened, finish_word, parse_arg_at, parse_arg,
}

-- A byte that stands for itself, outside quotes and inside those of the kind `q`.
abbrev pub IsPlain : ℕ → ℕ → Type 0
IsPlain zero c = IsDark c × (c ≢ b'\\') × (c ≢ b'\'') × (c ≢ b'"')
IsPlain (suc q) c = (c ≢ b'\\') × (c ≢ suc q)

-- Read from the quote `q` on (0 is none), the text is the bytes `v` and leaves the quote `q'` open.
pub data Spells : ℕ → Bytes → ℕ → Bytes → Type 0 where
  done : {q : ℕ} → Spells q [] q []
  escape :
      {q : ℕ} {s : Bytes} {q' : ℕ} {v : Bytes} (c : ℕ)
      → Spells q s q' v
      → Spells q (b'\\' ∷ c ∷ s) q' (c ∷ v)
  plain :
      {q : ℕ} {s : Bytes} {q' : ℕ} {v : Bytes} (c : ℕ)
      → IsPlain q c
      → Spells q s q' v
      → Spells q (c ∷ s) q' (c ∷ v)
  open_quote :
      {s : Bytes} {q' : ℕ} {v : Bytes} (c : ℕ)
      → (c ≡ b'\'') ⊎ (c ≡ b'"')
      → Spells c s q' v
      → Spells 0 (c ∷ s) q' v
  close_quote :
      {q : ℕ} {s : Bytes} {q' : ℕ} {v : Bytes} (c : ℕ)
      → c ≡ suc q
      → c ≢ b'\\'
      → Spells 0 s q' v
      → Spells (suc q) (c ∷ s) q' v

-- The state behind a text, up to the size of the block.
abbrev at_quote : ℕ → Bytes → ℕ → Bytes → Scan
at_quote q r block line = record {
  quote_char = q;
  escaped = false;
  result = r;
  capacity = block;
  line = line;
}

-- From a state, the loop comes to another; the blocks of both have some size.
abbrev Comes : Scan → Bytes → ℕ → Bytes → Bytes → Type 0
Comes s text q r tail = (block : ℕ) × (scan s text [] ≡ scan (at_quote q r block tail) tail [])

grown_total : (len block : ℕ) → (block' : ℕ) × (grown len block [] ≡ ok (block', []))
unfolding grown
grown_total len block = elim (Bool-cases (leb block (len + 1))) [
  | inl e ↦ (block * 2 % 2 ^ 64, rw e)
  | inr e ↦ (block, rw e)
]

store_total :
    (s : Scan) (c : ℕ) (line : Bytes)
    → (block : ℕ) × (store s c line []
        ≡ ok (
          record s { escaped = false; result = s.result ++ c ∷ []; capacity = block; line = line },
          [],
        ))
unfolding store
store_total s c line = let (block, e) = grown_total (length s.result) s.capacity in (block, rw e)

plain-round :
    (q c : ℕ) (r line line' : Bytes) (block : ℕ)
    → IsPlain q c
    → round (at_quote q r block line') c line []
      ≡ bind (store (at_quote q r block line') c line []) (λ (s', an). ok (some s', an))
unfolding round
plain-round zero c r line line' block h = ground arith
plain-round (suc q) c r line line' block h = ground arith

plain-Comes :
    (q c : ℕ) (r line line' : Bytes) (block : ℕ)
    → IsPlain q c
    → Comes (at_quote q r block line') (c ∷ line) q (r ++ c ∷ []) line
unfolding scan
plain-Comes q c r line line' block h =
    let (block', e) = store_total (at_quote q r block line') c line in
    (block', rw (plain-round q c r line line' block h, e) refl)

escape-Comes :
    (q c : ℕ) (r line line' : Bytes) (block : ℕ)
    → Comes (at_quote q r block line') (b'\\' ∷ c ∷ line) q (r ++ c ∷ []) line
unfolding scan round
escape-Comes q c r line line' block =
    let (block', e) =
      store_total
        (record { quote_char = q; escaped = true; result = r; capacity = block; line = c ∷ line }) c
        line in
    (block', rw e refl)

open-Comes :
    (c : ℕ) (r line line' : Bytes) (block : ℕ)
    → (c ≡ b'\'') ⊎ (c ≡ b'"')
    → Comes (at_quote 0 r block line') (c ∷ line) c r line
unfolding scan round
open-Comes c r line line' block (inl e) = (block, rw e refl)
open-Comes c r line line' block (inr e) = (block, rw e refl)

close-round :
    (q c : ℕ) (r line line' : Bytes) (block : ℕ)
    → c ≡ suc q
    → c ≢ b'\\'
    → round (at_quote (suc q) r block line') c line [] ≡ ok (some (at_quote 0 r block line), [])
unfolding round
close-round q c r line line' block e ne = ground arith

close-Comes :
    (q c : ℕ) (r line line' : Bytes) (block : ℕ)
    → c ≡ suc q
    → c ≢ b'\\'
    → Comes (at_quote (suc q) r block line') (c ∷ line) 0 r line
unfolding scan
close-Comes q c r line line' block e ne = (block, rw (close-round q c r line line' block e ne) refl)

scan-Spells :
    {q : ℕ} {s : Bytes} {q' : ℕ} {v : Bytes}
    → Spells q s q' v
    → (r tail line' : Bytes) (block : ℕ) → line' ≡ s ++ tail
    → Comes (at_quote q r block line') (s ++ tail) q' (r ++ v) tail
scan-Spells done r tail line' block e = (block, rw (e, append-nil r) refl)
scan-Spells (escape {q} {s} {q'} {v} c d) r tail line' block e =
    let (block', first) = escape-Comes q c r (s ++ tail) line' block in
    let (last, more) = scan-Spells d (r ++ c ∷ []) tail (s ++ tail) block' refl in
    (last, first ∙ rw (append_assoc r (c ∷ []) v) at more)
scan-Spells (plain {q} {s} {q'} {v} c p d) r tail line' block e =
    let (block', first) = plain-Comes q c r (s ++ tail) line' block p in
    let (last, more) = scan-Spells d (r ++ c ∷ []) tail (s ++ tail) block' refl in
    (last, first ∙ rw (append_assoc r (c ∷ []) v) at more)
scan-Spells (open_quote {s} {q'} {v} c p d) r tail line' block e =
    let (block', first) = open-Comes c r (s ++ tail) line' block p in
    let (last, more) = scan-Spells d r tail (s ++ tail) block' refl in (last, first ∙ more)
scan-Spells (close_quote {q} {s} {q'} {v} c p n d) r tail line' block e =
    let (block', first) = close-Comes q c r (s ++ tail) line' block p n in
    let (last, more) = scan-Spells d r tail (s ++ tail) block' refl in (last, first ∙ more)

blank-round :
    (c : ℕ) (r line line' : Bytes) (block : ℕ)
    → IsSpace c
    → round (at_quote 0 r block line') c line [] ≡ ok (none, [])
unfolding round isspace
blank-round c r line line' block h = ground arith

-- The loop stops at a blank and at the end.
scan-Opens :
    (r tail : Bytes) (block : ℕ)
    → Opens tail
    → scan (at_quote 0 r block tail) tail [] ≡ ok (at_quote 0 r block tail, [])
unfolding scan
scan-Opens r [] block h = refl
scan-Opens r (c ∷ tail) block h = rw (blank-round c r tail (c ∷ tail) block h) refl

pub skip-append : (g s : Bytes) → All IsSpace g → skip_whitespace (g ++ s) ≡ skip_whitespace s
unfolding skip_whitespace
skip-append [] s h = refl
skip-append (c ∷ g) s (h, hs) = rw h (skip-append g s hs)

-- A text that starts a word: it has a first byte, which is no blank.
-- Text without blanks, quotes and escapes spells itself.
pub Spells_same : (s : Bytes) → All (IsPlain 0) s → Spells 0 s 0 s
Spells_same [] h = Spells.done
Spells_same (c ∷ s) (h, hs) = Spells.plain c h (Spells_same s hs)

abbrev pub StartsWord : Bytes → Type 0
StartsWord [] = ⊥
StartsWord (c ∷ s) = IsDark c

pub skip-StartsWord : (s tail : Bytes) → StartsWord s → skip_whitespace (s ++ tail) ≡ s ++ tail
unfolding skip_whitespace
skip-StartsWord [] tail h = absurd h
skip-StartsWord (c ∷ s) tail h = rw h refl

-- With memory, `parse_arg` skips white space and reads the argument that a text spells, with its
-- quotes closed; it leaves what follows the text, which is a blank or the end.
pub parse_arg-Spells :
    (g s v tail : Bytes)
    → All IsSpace g
    → StartsWord s
    → Spells 0 s 0 v
    → Opens tail
    → (block : ℕ) × (parse_arg (g ++ (s ++ tail)) []
        ≡ ok (record { text = some v; capacity = block; rest = tail }, []))
unfolding parse_arg parse_arg_at
parse_arg-Spells g [] v tail hg hs d o = absurd hs
parse_arg-Spells g (c ∷ s) v tail hg hs d o =
    let (block, e) = scan-Spells d [] tail (c ∷ (s ++ tail)) 64 refl in
    (
      block,
      rw
          (
            skip-append g (c ∷ (s ++ tail)) hg,
            skip-StartsWord (c ∷ s) tail hs,
            e,
            scan-Opens v tail block o,
          )
          refl,
    )

scan_alone :
    (s v : Bytes) (q : ℕ)
    → Spells 0 s q v
    → (block : ℕ) × (scan (opened s) s [] ≡ ok (at_quote q v block [], []))
unfolding scan
scan_alone s v q d =
    let (block, e) = scan-Spells d [] [] s 64 (sym (append-nil s)) in
    (block, subst (λ t. scan (opened s) t [] ≡ ok (at_quote q v block [], [])) (append-nil s) e)

-- A quote that is open at the end of the line is an error.
pub parse_arg_unclosed :
    (g s v : Bytes) (q : ℕ)
    → All IsSpace g
    → StartsWord s
    → Spells 0 s (suc q) v
    → parse_arg (g ++ s) [] ≡ failed
unfolding parse_arg parse_arg_at finish_word skip_whitespace
parse_arg_unclosed g [] v q hg hs d = absurd hs
parse_arg_unclosed g (c ∷ s) v q hg hs d =
    let (block, e) = scan_alone (c ∷ s) v (suc q) d in
    rw (skip-append g (c ∷ s) hg, hs, e) (ground arith)
