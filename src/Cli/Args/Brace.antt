-- ===== src/Cli/Args/Brace.antt =====
-- `expand_brace` of src/bas/cli/args.c.
pub mod Items
use bas_c.Common.{
  ℕ, zero, suc, ◌*◌, ◌%◌, ◌^◌, Bool, true, false, not, ◌&&◌, ◌||◌, Option, none, some, List, [],
  ◌∷◌, ◌++◌, Bytes, leb, ◌==◌, if◌then◌else◌, length,
}
use bas_c.Cli.Alloc.{out_of_fuel, M, pure, stop, ◌>>=◌, ask}
use bas_c.Cli.Args.Word.{skip_whitespace}

-- `strchr`: the bytes before the first `d`, and those behind it.
unfoldable pub split_at : ℕ → Bytes → Option (Bytes × Bytes)
split_at d [] = none
split_at d (c ∷ s) =
    let later : Option (Bytes × Bytes) = elim (split_at d s) [
      | some parts ↦ some (c ∷ parts.0, parts.1)
      | none ↦ none
    ] in
    if c == d then some ([], s) else later

unfoldable pub contains_brace : Bytes → Bool
unfolding split_at
contains_brace s = elim (split_at b'{' s) [ some parts ↦ true | none ↦ false ]

abbrev pub is_quote : ℕ → Bool
is_quote c = c == b'\'' || c == b'"'

-- The quote that is open behind the byte `c`; 0 is none.
abbrev pub next_quote : ℕ → ℕ → ℕ
next_quote quote_char c =
    if quote_char == 0 && is_quote c
    then c
    else if not (quote_char == 0) && c == quote_char
    then 0
    else quote_char

-- `while (*item_end)`: the item, and the text from its end on.
unfoldable pub item_at : ℕ → Bytes → Bytes × Bytes
item_at quote_char [] = ([], [])
item_at quote_char (c ∷ s) =
    let (item, rest) = item_at (next_quote quote_char c) s in
    if quote_char == 0 && c == b',' then ([], c ∷ s) else (c ∷ item, rest)

-- What a call leaves behind: 1 and the strings; 0; or -1, and whether the array that it has freed
-- is still stored in `*expansions`.
pub data Expansion : Type 0 where
  expanded : List Bytes → Expansion
  unchanged : Expansion
  refused : Bool → Expansion

abbrev finished : List Bytes → Expansion
finished [] = unchanged
finished (e ∷ es) = expanded (e ∷ es)

-- Whether the array has been allocated: it has, from the first string on.
abbrev is_allocated : List Bytes → Bool
is_allocated [] = false
is_allocated (e ∷ es) = true

-- The array is enlarged where it is full; the new capacity, or `none` without memory.
unfoldable pub enlarge : ℕ → ℕ → M (Option ℕ)
unfolding ask
enlarge count capacity =
    if leb capacity count
    then (do
      there ← ask
      pure (if there then some (if capacity == 0 then 8 else capacity * 2 % 2 ^ 64) else none))
    else pure (some capacity)

-- The strings so far with one more, and the new capacity; `none` without memory.
unfoldable pub add_expansion : List Bytes → ℕ → Bytes → M (Option (List Bytes × ℕ))
unfolding ask enlarge
add_expansion out capacity text = do
  there ← ask
  room ← elim there [ true ↦ enlarge (length out) capacity | false ↦ pure none ]
  pure (elim room [ some larger ↦ some (out ++ text ∷ [], larger) | none ↦ none ])

-- Behind an item: on to the next one behind a comma, or `break`. `again` is the loop.
unfoldable pub after_item :
    (Bytes → List Bytes → ℕ → M Expansion)
    → Bytes
    → List Bytes
    → Option (List Bytes × ℕ)
    → M Expansion
after_item again rest out none = pure (refused (is_allocated out))
after_item again [] out (some larger) = pure (finished larger.0)
after_item again (c ∷ rest) out (some larger) = again rest larger.0 larger.1

-- One item, and the text from its end on.
unfoldable pub brace_round :
    (Bytes → List Bytes → ℕ → M Expansion)
    → Bytes
    → Bytes
    → List Bytes
    → ℕ
    → Bytes × Bytes
    → M Expansion
unfolding add_expansion after_item
brace_round again prefix suffix out capacity parts = do
  added ← add_expansion out capacity (prefix ++ (parts.0 ++ suffix))
  after_item again parts.1 out added

-- `while (*p)`, with the text from `p` on and the strings in the array.
unfoldable pub brace_items : ℕ → Bytes → Bytes → Bytes → List Bytes → ℕ → M Expansion
brace_items zero prefix suffix p out capacity = stop out_of_fuel
brace_items (suc fuel) prefix suffix p out capacity = elim (skip_whitespace p) [
  | [] ↦ pure (finished out)
  | c ∷ s ↦
      brace_round (brace_items fuel prefix suffix) prefix suffix out capacity (item_at 0 (c ∷ s))
]

-- The copies of the prefix, if there is one, and of the content.
unfoldable pub copies : Bytes → M Bool
unfolding ask
copies [] = ask
copies (c ∷ prefix) = do there ← ask; elim there [ true ↦ ask | false ↦ pure false ]

-- The pattern is its prefix, a brace, the content, a brace and the suffix. Each round takes a byte of
-- the content.
unfoldable pub expand_brace : Bytes → M Expansion
expand_brace pattern = elim (split_at b'{' pattern) [
  | none ↦ pure unchanged
  | some opened ↦ elim (split_at b'}' opened.1) [
    | none ↦ pure unchanged
    | some closed ↦ (do
      there ← copies opened.0
      elim there [
        | true ↦ brace_items (suc (length closed.0)) opened.0 closed.1 closed.0 [] 0
        | false ↦ pure (refused false)
      ])
  ]
]
