-- ===== src/Cli/Args/Wildcard.antt =====
-- `expand_wildcard` of src/bas/cli/args.c. The directory is listed by a function that the caller
-- gives, and names are matched by `fnmatch` of the C library: both are arguments.
pub mod Matches
use bas_c.Common.{
  ℕ, zero, suc, ◌+◌, ◌-◌, Bool, true, false, ◌&&◌, ◌||◌, Option, none, some, List, [], ◌∷◌, ◌++◌,
  Bytes, ltb, leb, ◌==◌, if◌then◌else◌, length, get_or, take,
}
use bas_c.Base.CString.{str_eq}
use bas_c.Base.Slots.{Vec, create, append}
use bas_c.Cli.Alloc.{M, pure, ◌>>=◌, ask, fueled}

-- What one call of an `enum_fn` does: the items that it passes to the callback, in order, and
-- whether it returns 0 if it comes to the end, or if the callback cancels it.
pub record Listing : Type 0 where
  pub items : List Bytes
  pub done : Bool
  pub cancelled : Bool

-- An `enum_fn`, given its `enum_context`, `prefix` and `pattern`.
abbrev pub Enum : Type 0
Enum = Option Bytes → Option Bytes → Bytes → Listing

-- `strpbrk(s, "*?[")`: the bytes before the first of them, if there is one.
unfoldable pub before_wildcard : Bytes → Option Bytes
before_wildcard [] = none
before_wildcard (c ∷ s) =
    let later : Option Bytes = elim (before_wildcard s) [ some w ↦ some (c ∷ w) | none ↦ none ] in
    if c == b'*' || c == b'?' || c == b'[' then some [] else later

unfoldable pub contains_wildcard : Bytes → Bool
unfolding before_wildcard
contains_wildcard s = elim (before_wildcard s) [ some w ↦ true | none ↦ false ]

-- `strrchr(s, '/')`: the bytes before the last slash, and those behind it.
unfoldable pub split_last_slash : Bytes → Option (Bytes × Bytes)
split_last_slash [] = none
split_last_slash (c ∷ s) = elim (split_last_slash s) [
  | some parts ↦ some (c ∷ parts.0, parts.1)
  | none ↦ if c == b'/' then some ([], s) else none
]

-- A copy into a buffer of `size` bytes.
abbrev pub fit : ℕ → Bytes → Bytes
fit size s = take (size - 1) s

abbrev pub or_null : Bytes → Option Bytes
or_null [] = none
or_null (c ∷ s) = some (c ∷ s)

-- `pattern_dir` and `file_pattern`.
unfoldable pub pattern_parts : Bytes → Bytes × Bytes
unfolding split_last_slash
pattern_parts pattern = elim (split_last_slash pattern) [
  | some parts ↦ (if ltb (length parts.0) 256 then parts.0 else [], fit 256 parts.1)
  | none ↦ ([], fit 256 pattern)
]

-- `filename_prefix`
unfoldable pub prefix_hint : Bytes → Bytes
unfolding before_wildcard
prefix_hint file_pattern = elim (before_wildcard file_pattern) [
  | some prefix ↦ prefix
  | none ↦ fit 256 file_pattern
]

-- `enum_dir_context`, from the working directory and `pattern_dir`.
unfoldable pub search_dir : Option Bytes → Bytes → Option Bytes
search_dir current [] = current
search_dir none (c ∷ dir) = some (fit 1024 (if c == b'/' then c ∷ dir else b'/' ∷ c ∷ dir))
search_dir (some []) (c ∷ dir) = some (fit 1024 (if c == b'/' then c ∷ dir else b'/' ∷ c ∷ dir))
search_dir (some (d ∷ current)) (c ∷ dir) = some (
    fit 1024 (
      if str_eq (d ∷ current) (b'/' ∷ []) then b'/' ∷ c ∷ dir else (d ∷ current) ++ b'/' ∷ c ∷ dir))

-- The name behind the last slash of an item.
unfoldable pub filename_of : Bytes → Bytes
unfolding split_last_slash
filename_of item = elim (split_last_slash item) [ some parts ↦ parts.1 | none ↦ item ]

-- `result_path`
unfoldable pub result_path : Bytes → Bytes → Bytes
result_path [] filename = fit 1024 filename
result_path (c ∷ dir) filename = fit 1024 ((c ∷ dir) ++ b'/' ∷ filename)

-- `string_list_append` with the answers that it takes: one for a larger block, if it wants one, and
-- one for the copy of the string.
unfoldable pub list_append : Vec Bytes → Bytes → M (Bool × Vec Bytes)
unfolding ask
list_append list text = do
  grow ← if leb (list.count + 1) list.capacity then pure true else ask
  dup ← if grow then ask else pure true
  fueled (append grow dup list (some text))

-- The calls of `wildcard_callback` for the items; the first of the result is whether none cancelled.
unfoldable pub collect :
    (Bytes → Bytes → Bool) → Bytes → Bytes → List Bytes → Vec Bytes → M (Bool × Vec Bytes)
collect fnmatch file_pattern dir [] list = pure (true, list)
collect fnmatch file_pattern dir (item ∷ items) list =
    let name = filename_of item in
    let later : Vec Bytes → M (Bool × Vec Bytes) = collect fnmatch file_pattern dir items in
    if fnmatch file_pattern name
    then (do
      added ← list_append list (result_path dir name)
      elim added.0 [ true ↦ later added.1 | false ↦ pure (false, added.1) ])
    else later list

-- `string_list_create` with the answers that it takes.
unfoldable pub list_create : ℕ → M (Option (Vec Bytes))
unfolding ask
list_create capacity = do
  alive ← ask
  grow ← if alive && ltb 0 capacity then ask else pure true
  fueled (create alive grow capacity)

-- The copies in the array that is returned, from slot `i` on, with `k` slots left; NULL slots are
-- skipped. `none` is a failure.
unfoldable pub copy_out : List (Option Bytes) → ℕ → ℕ → M (Option (List Bytes))
unfolding ask
copy_out items zero i = pure (some [])
copy_out items (suc k) i = elim (get_or items i none) [
  | some text ↦ (do
    there ← ask
    elim there [
      | true ↦ (do
        rest ← copy_out items k (i + 1)
        pure (elim rest [ some texts ↦ some (text ∷ texts) | none ↦ none ]))
      | false ↦ pure none
    ])
  | none ↦ copy_out items k (i + 1)
]

-- The matches as an array; no array is made for none.
unfoldable pub matches_array : Vec Bytes → M (Option (List Bytes))
unfolding ask
matches_array list = if list.count == 0 then pure (some []) else (do
  there ← ask
  elim there [ true ↦ copy_out list.items list.count 0 | false ↦ pure none ])

module _ (fnmatch : Bytes → Bytes → Bool) (current : Option Bytes) where
  -- With the list for the matches: the call of the `enum_fn` and what follows.
  unfoldable pub enumerate : Enum → Bytes → Vec Bytes → M (Option (List Bytes))
  enumerate enum pattern list =
      let (dir, file_pattern) = pattern_parts pattern in
      let listing =
        enum (search_dir current dir) (or_null (prefix_hint file_pattern)) file_pattern in
      do
        found ← collect fnmatch file_pattern dir listing.items list
        if (if found.0 then listing.done else listing.cancelled)
            then matches_array found.1
            else pure none

  -- The matches, or `none` for -1. `enum_func` is `none` for NULL.
  unfoldable pub expand_wildcard : Option Enum → Bytes → M (Option (List Bytes))
  expand_wildcard none pattern = pure (some [])
  expand_wildcard (some enum) pattern = do
    list ← list_create 8
    elim list [ some empty ↦ enumerate enum pattern empty | none ↦ pure none ]
