-- ===== src/Cli/Args/Word/Room.antt =====
-- Whatever the allocator answers, `parse_arg` writes inside its block.
use bas_c.Common.{
  ℕ, ◌+◌, ◌*◌, ◌%◌, ◌^◌, ◌≤◌, ◌<◌, ◌≡◌, refl, ◌⊎◌, inl, inr, true, false, not, ◌||◌, Option, none,
  some, [], ◌∷◌, arith, Bytes, leb, ◌==◌, length, Bool-cases, if_elim, tests, length-append,
}
use bas_c.Base.CString.{isspace}
use bas_c.Base.Getline.{Answers}
use bas_c.Cli.Alloc.{IfOk, IfOk-bind, ok, bind, M, pure, alloc}
use bas_c.Cli.Args.Word.{
  skip_whitespace, grown, Scan, store, round, scan, Word, opened, finish_word, parse_arg_at,
  parse_arg,
}

-- The bytes and the NUL behind them fit, and the block is not much larger.
abbrev Fits : Scan → Type 0
Fits s = (length s.result < s.capacity) × (s.capacity ≤ 2 * length s.result + 64)

grown-lt :
    (len capacity : ℕ) (an : Answers)
    → len < capacity
    → capacity ≤ 2 * len + 64
    → len < 2 ^ 62
    → IfOk (λ c. (len + 1 < c) × (c ≤ 2 * len + 66)) (grown len capacity an)
unfolding grown alloc
grown-lt len capacity an h close few = elim (Bool-cases (leb capacity (len + 1))) [
  | inl e ↦ rw e (answer an (omega (tests, e)))
  | inr e ↦ rw e (ground arith)
]
  where
    answer :
        (an : Answers)
        → capacity ≤ len + 1
        → IfOk
            (λ c. (len + 1 < c) × (c ≤ 2 * len + 66))
            (bind (alloc an) (λ (u, later). ok (capacity * 2 % 2 ^ 64, later)))
    answer [] e = omega arith
    answer (true ∷ an) e = omega arith
    answer (false ∷ an) e = tt

abbrev Stored : Scan → Scan → Type 0
Stored s t = Fits t × (length t.result ≤ length s.result + 1)

store-Stored :
    (s : Scan) (c : ℕ) (line : Bytes) (an : Answers)
    → Fits s
    → length s.result < 2 ^ 62
    → IfOk (Stored s) (store s c line an)
unfolding store
store-Stored s c line an h few =
    IfOk-bind _ (Stored s) (grown (length s.result) s.capacity an) _
      (grown-lt (length s.result) s.capacity an h.0 h.1 few)
      (λ c' an' b. omega (arith, b, length-append s.result (c ∷ [])))

abbrev StoredNext : Scan → Option Scan → Type 0
StoredNext s none = Unit
StoredNext s (some t) = Stored s t

round-Stored :
    (s : Scan) (c : ℕ) (line : Bytes) (an : Answers)
    → Fits s
    → length s.result < 2 ^ 62
    → IfOk (StoredNext s) (round s c line an)
unfolding round
round-Stored s c line an h few =
    let P : M (Option Scan) → Type 0 = λ m. IfOk (StoredNext s) (m an) in
    let stored =
      IfOk-bind (Stored s) (StoredNext s) (store s c line an) (λ t later. ok (some t, later))
        (store-Stored s c line an h few) (λ t an' b. b) in
    let same : Stored s s = (h, omega arith) in
    if_elim P s.escaped _ _ (λ e. stored)
      (λ e.
        if_elim P (c == b'\\') _ _ (λ e. same)
          (λ e.
            if_elim P (not (s.quote_char == 0)) _ _
              (λ e. if_elim P (c == s.quote_char) _ _ (λ e. same) (λ e. stored))
              (λ e.
                if_elim P (c == b'\'' || c == b'"') _ _ (λ e. same)
                  (λ e. if_elim P (isspace c) _ _ (λ e. tt) (λ e. stored)))))

next-Fits :
    (s : Scan) (line : Bytes) (o : Option Scan) (an : Answers)
    → Fits s
    → ((t : Scan) → Stored s t → IfOk Fits (scan t line an))
    → StoredNext s o
    → IfOk Fits ((elim o as (λ x. M Scan) [ some t ↦ scan t line | none ↦ pure s ]) an)
next-Fits s line none an h rec b = h
next-Fits s line (some t) an h rec b = rec t b

scan-Fits :
    (line : Bytes) (s : Scan) (an : Answers)
    → Fits s
    → length s.result + length line < 2 ^ 62
    → IfOk Fits (scan s line an)
unfolding scan
scan-Fits [] s an h few = h
scan-Fits (c ∷ line) s an h few =
    IfOk-bind (StoredNext s) Fits (round s c line an)
      (λ o. elim o as (λ x. M Scan) [ some t ↦ scan t line | none ↦ pure s ])
      (round-Stored s c line an h (omega arith))
      (λ o an'. next-Fits s line o an' h (λ t b. scan-Fits line t an' b.0 (omega (arith, b.1))))

abbrev pub Inside : Word → Type 0
Inside w = (w.text ≡ none) ⊎ ((t : Bytes) × (w.text ≡ some t) × (length t < w.capacity))

length-skip_whitespace : (s : Bytes) → length (skip_whitespace s) ≤ length s
unfolding skip_whitespace
length-skip_whitespace [] = omega arith
length-skip_whitespace (c ∷ s) = ground (arith, length-skip_whitespace s)

finish_word-Inside : (s : Scan) (an : Answers) → Fits s → IfOk Inside (finish_word s an)
unfolding finish_word
finish_word-Inside s an h =
    if_elim (λ (m : M Word). IfOk Inside (m an)) (not (s.quote_char == 0)) _ _ (λ e. tt)
      (λ e. inr (s.result, refl, h.0))

parse_arg_at-Inside :
    (line : Bytes) (an : Answers) → length line < 2 ^ 62 → IfOk Inside (parse_arg_at line an)
unfolding parse_arg_at
parse_arg_at-Inside [] an few = inl refl
parse_arg_at-Inside (c ∷ line) an few =
    IfOk-bind Fits Inside (scan (opened (c ∷ line)) (c ∷ line) an) _
      (scan-Fits (c ∷ line) (opened (c ∷ line)) an (omega arith) (omega arith)) finish_word-Inside

-- Whatever the allocator answers: an argument that `parse_arg` returns from a line of fewer than
-- 2 ^ 62 bytes stands in its block with the NUL behind it.
pub parse_arg-Inside :
    (line : Bytes) (an : Answers) → length line < 2 ^ 62 → IfOk Inside (parse_arg line an)
unfolding parse_arg alloc
parse_arg-Inside line [] few =
    parse_arg_at-Inside (skip_whitespace line) [] (omega (arith, length-skip_whitespace line))
parse_arg-Inside line (true ∷ an) few =
    parse_arg_at-Inside (skip_whitespace line) an (omega (arith, length-skip_whitespace line))
parse_arg-Inside line (false ∷ an) few = tt
