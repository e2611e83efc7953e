-- ===== src/Base/StringList.antt =====
-- The operations of src/bas/base/string_list.c that read the strings: the search, `join` and `copy`.
-- `E` of the array is the type of byte strings here.
pub mod Search
pub mod Join
pub mod Copy
use bas_c.Common.{
  ℕ, zero, suc, ◌+◌, ◌-◌, ◌*◌, ◌%◌, ◌^◌, Bool, true, false, not, ◌&&◌, Option, none, some, List, [],
  ◌++◌, Bytes, ltb, ◌==◌, if◌then◌else◌, length, get_or, ◌>>=◌,
}
use bas_c.Base.CString.{str_eq}
use bas_c.Base.Slots.{Vec, create, append}

-- `items[i] && strcmp(items[i], str) == 0`
abbrev pub holds : Bytes → Option Bytes → Bool
holds str none = false
holds str (some item) = str_eq item str

-- The loop of `string_list_find`, with `k` rounds left.
unfoldable pub find_loop : Bytes → List (Option Bytes) → ℕ → ℕ → Option ℕ
find_loop str items zero i = none
find_loop str items (suc k) i =
    let rest = find_loop str items k (i + 1) in
    if holds str (get_or items i none) then some i else rest

-- The index, or `none` for -1. `str` is `none` where the source is given NULL.
unfoldable pub find : Vec Bytes → Option Bytes → Option ℕ
unfolding find_loop
find list none = none
find list (some str) = find_loop str list.items list.count 0

unfoldable pub contains : Vec Bytes → Option Bytes → Bool
unfolding find
contains list str = elim (find list str) [ some i ↦ true | none ↦ false ]

-- The strings in the first slots are measured, a `size_t`.
unfoldable pub lengths : List (Option Bytes) → ℕ → ℕ → ℕ → ℕ
lengths items zero i total = total
lengths items (suc k) i total = elim (get_or items i none) [
  | some item ↦ lengths items k (i + 1) ((total + length item) % 2 ^ 64)
  | none ↦ lengths items k (i + 1) total
]

-- `total_len`, the bytes asked for the result.
unfoldable pub join_size : Vec Bytes → Bytes → ℕ
unfolding lengths
join_size list separator =
    (lengths list.items list.count 0 0
      + (length separator * (if ltb 0 list.count then list.count - 1 else 0)) % 2 ^ 64
      + 1)
    % 2 ^ 64

-- `strcat` of each string, with the separator before all but the one in slot 0.
unfoldable pub join_loop : Bytes → List (Option Bytes) → ℕ → ℕ → Bytes → Bytes
join_loop separator items zero i result = result
join_loop separator items (suc k) i result = elim (get_or items i none) [
  | some item ↦
      join_loop separator items k (i + 1) (
        (if ltb 0 i && not (get_or separator 0 0 == 0) then result ++ separator else result)
        ++ item)
  | none ↦ join_loop separator items k (i + 1) result
]

-- The new string, or `none` without memory. A separator that is NULL is the empty one.
unfoldable pub join : Bool → Vec Bytes → Option Bytes → Option Bytes
unfolding join_loop
join alive list separator =
    let between : Bytes = elim separator [ some s ↦ s | none ↦ [] ] in
    if not alive
    then none
    else if list.count == 0
    then some []
    else some (join_loop between list.items list.count 0 [])

-- The loop of `string_list_copy`: `none` inside is the result NULL.
unfoldable pub copy_loop :
    Bool → Bool → List (Option Bytes) → ℕ → ℕ → Vec Bytes → Option (Option (Vec Bytes))
unfolding append
copy_loop grow dup items zero i copy = some (some copy)
copy_loop grow dup items (suc k) i copy = elim (get_or items i none) [
  | some item ↦ (do
    (done, copy') ← append grow dup copy (some item)
    if done then copy_loop grow dup items k (i + 1) copy' else some none)
  | none ↦ copy_loop grow dup items k (i + 1) copy
]

unfoldable pub copy : Bool → Bool → Bool → Vec Bytes → Option (Option (Vec Bytes))
unfolding create copy_loop
copy alive grow dup list = do
  made ← create alive grow list.capacity
  elim made [ some new ↦ copy_loop grow dup list.items list.count 0 new | none ↦ some none ]
