-- ===== src/Base/WstringList.antt =====
-- src/bas/base/wstring_list.c: the array of string_list.c, slot for slot, with wide strings. A slot is a
-- pointer in both, so the blocks have the same sizes. The new slots are set to NULL one by one here:
-- for a capacity of 2 ^ 61 or more, where the size of the block wraps around, this leaves the block
-- and the model does not hold.
pub mod Search
use bas_c.Common.{
  ℕ, zero, suc, ◌+◌, Bool, true, false, not, ◌&&◌, Option, none, some, List, [], ◌++◌, pos, negsuc,
  ltb, ◌==◌, if◌then◌else◌, length, get_or,
}
use bas_c.Base.Wstring.{Wide, wstring_cmp}
use bas_c.Base.Slots
use bas_c.Base.Slots.{Vec}
use bas_c.Base.StringList

unfoldable pub wstring_list_create : Bool → Bool → ℕ → Option (Option (Vec Wide))
wstring_list_create alive grow initial = Slots.create alive grow initial

unfoldable pub wstring_list_append : Bool → Bool → Vec Wide → Option Wide → Option (Bool × Vec Wide)
wstring_list_append grow dup list str = Slots.append grow dup list str

unfoldable pub wstring_list_add : Bool → Bool → Vec Wide → Option Wide → Option (Bool × Vec Wide)
wstring_list_add grow dup list str = wstring_list_append grow dup list str

unfoldable pub wstring_list_insert :
    Bool → Bool → Vec Wide → ℕ → Option Wide → Option (Bool × Vec Wide)
wstring_list_insert grow dup list index str = Slots.insert grow dup list index str

unfoldable pub wstring_list_remove : Vec Wide → ℕ → Bool × Vec Wide
wstring_list_remove list index = Slots.remove list index

unfoldable pub wstring_list_get : Vec Wide → ℕ → Option Wide
wstring_list_get list index = Slots.get list index

unfoldable pub wstring_list_clear : Vec Wide → Vec Wide
wstring_list_clear list = Slots.clear list

unfoldable pub wstring_list_resize : Bool → Vec Wide → ℕ → Bool × Vec Wide
wstring_list_resize grow list new = Slots.resize grow list new

-- `items[i] && wstring_cmp(items[i], str) == 0`
abbrev pub wide_holds : Wide → Option Wide → Bool
wide_holds str none = false
wide_holds str (some item) = elim (wstring_cmp (some item) (some str)) [
  | pos n ↦ n == 0
  | negsuc n ↦ false
]

-- The loop of `wstring_list_find`, with `k` rounds left.
unfoldable pub wide_find_loop : Wide → List (Option Wide) → ℕ → ℕ → Option ℕ
wide_find_loop str items zero i = none
wide_find_loop str items (suc k) i =
    let rest = wide_find_loop str items k (i + 1) in
    if wide_holds str (get_or items i none) then some i else rest

unfoldable pub wstring_list_find : Vec Wide → Option Wide → Option ℕ
unfolding wide_find_loop
wstring_list_find list none = none
wstring_list_find list (some str) = wide_find_loop str list.items list.count 0

unfoldable pub wstring_list_contains : Vec Wide → Option Wide → Bool
unfolding wstring_list_find
wstring_list_contains list str = elim (wstring_list_find list str) [ some i ↦ true | none ↦ false ]

-- The units of each string, with the separator before all but the one in slot 0.
unfoldable pub wide_join_loop : Wide → List (Option Wide) → ℕ → ℕ → Wide → Wide
wide_join_loop separator items zero i result = result
wide_join_loop separator items (suc k) i result = elim (get_or items i none) [
  | some item ↦
      wide_join_loop separator items k (i + 1)
        ((if ltb 0 i && ltb 0 (length separator) then result ++ separator else result) ++ item)
  | none ↦ wide_join_loop separator items k (i + 1) result
]

-- The new string, or `none` without memory. A separator that is NULL is the empty one.
unfoldable pub wstring_list_join : Bool → Vec Wide → Option Wide → Option Wide
unfolding wide_join_loop
wstring_list_join alive list separator =
    let between : Wide = elim separator [ some s ↦ s | none ↦ [] ] in
    if not alive
    then none
    else if list.count == 0
    then some []
    else some (wide_join_loop between list.items list.count 0 [])

unfoldable pub wstring_list_copy : Bool → Bool → Bool → Vec Wide → Option (Option (Vec Wide))
wstring_list_copy alive grow dup list = StringList.copy alive grow dup list
