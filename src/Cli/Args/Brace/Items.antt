-- ===== src/Cli/Args/Brace/Items.antt =====
-- `expand_brace` makes one string for each item between the braces.
use bas_c.Common.{
  ℕ, zero, suc, ◌*◌, ◌%◌, ◌^◌, ◌<◌, ◌≡◌, refl, sym, ap, ◌∙◌, ◌≢◌, inl, inr, true, none, some, List,
  [], ◌∷◌, ◌++◌, append_assoc, append-nil, arith, Bytes, leb, ◌==◌, if◌then◌else◌, length, All,
  All-append, Bool-cases, length-append, map,
}
use bas_c.Base.StringList.Join.{joined_by}
use bas_c.Base.Getline.{Answers}
use bas_c.Cli.Alloc.{Result, ok, M, ask}
use bas_c.Cli.Args.Word.Spelled.{StartsWord, skip-StartsWord}
use bas_c.Cli.Args.Brace.{
  split_at, item_at, Expansion, expanded, finished, enlarge, add_expansion, after_item, brace_round,
  brace_items, copies, expand_brace,
}

-- Plain text between the braces: it starts with no blank and holds no comma, quote or brace.
abbrev pub IsItem : Bytes → Type 0
IsItem x = StartsWord x × All (λ c. (c ≢ b',') × (c ≢ b'}') × (c ≢ b'\'') × (c ≢ b'"')) x

pub split_at-append :
    (d : ℕ) (a b : Bytes) → All (λ c. c ≢ d) a → split_at d (a ++ d ∷ b) ≡ some (a, b)
unfolding split_at
split_at-append d [] b h = ground arith
split_at-append d (c ∷ a) b (h, hs) = ground (arith, split_at-append d a b hs)

pub split_at-none : (d : ℕ) (a : Bytes) → All (λ c. c ≢ d) a → split_at d a ≡ none
unfolding split_at
split_at-none d [] h = refl
split_at-none d (c ∷ a) (h, hs) = ground (arith, split_at-none d a hs)

-- The end of the content, or a comma.
abbrev pub Stops : Bytes → Type 0
Stops [] = Unit
Stops (c ∷ s) = c ≡ b','

item_at-append :
    (x tail : Bytes)
    → All (λ c. (c ≢ b',') × (c ≢ b'}') × (c ≢ b'\'') × (c ≢ b'"')) x
    → Stops tail
    → item_at 0 (x ++ tail) ≡ (x, tail)
unfolding item_at
item_at-append [] [] h t = refl
item_at-append [] (c ∷ tail) h t = ground arith
item_at-append (c ∷ x) tail (h, hs) t = ground (arith, item_at-append x tail hs t)

add_expansion_total :
    (out : List Bytes) (capacity : ℕ) (text : Bytes)
    → (c : ℕ) × (add_expansion out capacity text [] ≡ ok (some (out ++ text ∷ [], c), []))
unfolding add_expansion enlarge ask
add_expansion_total out capacity text = elim (Bool-cases (leb capacity (length out))) [
  | inl e ↦ (if capacity == 0 then 8 else capacity * 2 % 2 ^ 64, rw e refl)
  | inr e ↦ (capacity, rw e refl)
]

abbrev pub comma : Bytes
comma = b',' ∷ []

-- The string for an item.
abbrev pub around : Bytes → Bytes → Bytes → Bytes
around prefix suffix item = prefix ++ (item ++ suffix)

brace_round_total :
    (again : Bytes → List Bytes → ℕ → M Expansion) (prefix suffix x tail : Bytes) (out : List Bytes)
    (capacity : ℕ)
    → (c : ℕ) × (brace_round again prefix suffix out capacity (x, tail) []
        ≡ after_item again tail out (some (out ++ around prefix suffix x ∷ [], c)) [])
unfolding brace_round
brace_round_total again prefix suffix x tail out capacity =
    let (c, e) = add_expansion_total out capacity (around prefix suffix x) in (c, rw e refl)

StartsWord-append : (x s : Bytes) → StartsWord x → (c : ℕ) × (r : Bytes) × (x ++ s ≡ c ∷ r)
StartsWord-append [] s h = absurd h
StartsWord-append (c ∷ x) s h = (c, x ++ s, refl)

-- The loop at an item, with what follows it.
pub item-start :
    (fuel : ℕ) (prefix suffix x tail : Bytes) (out : List Bytes) (capacity : ℕ) (an : Answers)
    → IsItem x
    → Stops tail
    → brace_items (suc fuel) prefix suffix (x ++ tail) out capacity an
      ≡ brace_round (brace_items fuel prefix suffix) prefix suffix out capacity (x, tail) an
unfolding brace_items
item-start fuel prefix suffix x tail out capacity an (starts, h) t =
    let (c, s, e) = StartsWord-append x tail starts in
    let enter : Bytes × Bytes → Result (Expansion × Answers) =
      λ parts. brace_round (brace_items fuel prefix suffix) prefix suffix out capacity parts an in
    rw (skip-StartsWord x tail starts ∙ e, brace_items)
      (ap (λ s'. enter (item_at 0 s')) (sym e) ∙ ap enter (item_at-append x tail h t))

item-round :
    (fuel : ℕ) (prefix suffix x tail : Bytes) (out : List Bytes) (capacity : ℕ)
    → IsItem x
    → Stops tail
    → (larger : ℕ) × (brace_items (suc fuel) prefix suffix (x ++ tail) out capacity []
        ≡ after_item
            (brace_items fuel prefix suffix)
            tail
            out
            (some (out ++ around prefix suffix x ∷ [], larger))
            [])
item-round fuel prefix suffix x tail out capacity h t =
    let (larger, run) =
      brace_round_total (brace_items fuel prefix suffix) prefix suffix x tail out capacity in
    (larger, item-start fuel prefix suffix x tail out capacity [] h t ∙ run)

brace_items-joined_by :
    (fuel : ℕ) (prefix suffix x : Bytes) (xs out : List Bytes) (capacity : ℕ)
    → IsItem x
    → All IsItem xs
    → length (joined_by comma (x ∷ xs)) < fuel
    → brace_items fuel prefix suffix (joined_by comma (x ∷ xs)) out capacity []
      ≡ ok (finished (out ++ map (around prefix suffix) (x ∷ xs)), [])
unfolding after_item
brace_items-joined_by zero prefix suffix x xs out capacity h hs lt = absurd (omega arith)
brace_items-joined_by (suc fuel) prefix suffix x [] out capacity h hs lt =
    let (larger, e) = item-round fuel prefix suffix x [] out capacity h tt in rw (append-nil x) at e
brace_items-joined_by (suc fuel) prefix suffix x (y ∷ ys) out capacity h (h', hs) lt =
    let rest = joined_by comma (y ∷ ys) in
    let (larger, e) = item-round fuel prefix suffix x (comma ++ rest) out capacity h refl in
    e
    ∙ (brace_items-joined_by fuel prefix suffix y ys (out ++ around prefix suffix x ∷ []) larger h'
          hs (omega (arith, length-append x (comma ++ rest)))
        ∙ ap (λ t. ok (finished t, [])) (append_assoc out (around prefix suffix x ∷ []) _))

no_brace :
    (x : Bytes)
    → All (λ c. (c ≢ b',') × (c ≢ b'}') × (c ≢ b'\'') × (c ≢ b'"')) x
    → All (λ c. c ≢ b'}') x
no_brace [] h = tt
no_brace (c ∷ x) (h, hs) = (h.1, no_brace x hs)

pub joined_by-plain :
    (x : Bytes) (xs : List Bytes)
    → IsItem x
    → All IsItem xs
    → All (λ c. c ≢ b'}') (joined_by comma (x ∷ xs))
joined_by-plain x [] (s, h) hs = no_brace x h
joined_by-plain x (y ∷ ys) (s, h) (h', hs) =
    All-append (λ c. c ≢ b'}') x _ (no_brace x h) (omega arith, joined_by-plain y ys h' hs)

copies_total : (prefix : Bytes) → copies prefix [] ≡ ok (true, [])
unfolding copies ask
copies_total [] = refl
copies_total (c ∷ prefix) = refl

-- With memory, a pattern with a list of plain items in braces makes one string for each item, with
-- what stands before and behind the braces around it.
pub expand_brace-items :
    (prefix suffix x : Bytes) (xs : List Bytes)
    → All (λ c. c ≢ b'{') prefix
    → IsItem x
    → All IsItem xs
    → expand_brace (prefix ++ b'{' ∷ (joined_by comma (x ∷ xs) ++ b'}' ∷ suffix)) []
      ≡ ok (expanded (map (around prefix suffix) (x ∷ xs)), [])
unfolding expand_brace
expand_brace-items prefix suffix x xs hp h hs =
    let content = joined_by comma (x ∷ xs) in
    rw
      (
        split_at-append b'{' prefix (content ++ b'}' ∷ suffix) hp,
        split_at-append b'}' content suffix (joined_by-plain x xs h hs),
        copies_total prefix,
        expand_brace,
      )
      (brace_items-joined_by (suc (length content)) prefix suffix x xs [] 0 h hs (omega arith))
