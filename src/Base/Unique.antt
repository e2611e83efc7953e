-- ===== src/Base/Unique.antt =====
-- `unique` of src/bas/base/string_list.c and src/bas/base/wstring_list.c: the code is the same but for
-- the comparison, which is an argument here, true where two elements are equal. `sort` is what qsort
-- makes of the used slots.
pub mod Collapse
use bas_c.Common.{
  ℕ, zero, suc, ◌+◌, ◌-◌, Bool, true, false, not, ◌||◌, Option, none, some, List, ◌++◌, Bytes, ℤ,
  pos, leb, ◌==◌, if◌then◌else◌, get_or, set, take, drop,
}
use bas_c.Base.CString.{str_eq}
use bas_c.Base.Wstring.{Wide, wstring_cmp}
use bas_c.Base.Slots.{Vec}

-- The slots and `write_idx`.
pub record Written {ℓ} (E : Type ℓ) : Type ℓ where
  pub items : List (Option E)
  pub write : ℕ

module _ {ℓ} {E : Type ℓ} (same : E → E → Bool) where
  -- `items[i] && items[write_idx - 1] && strcmp(items[i], items[write_idx - 1]) != 0`
  unfoldable pub differs : Option E → Option E → Bool
  differs none prev = false
  differs (some a) none = false
  differs (some a) (some b) = not (same a b)

  -- An element that is kept, and one that is freed.
  unfoldable pub keep : ℕ → Written E → Written E
  keep i s = record {
    items =
        if s.write == i then s.items else set (set s.items s.write (get_or s.items i none)) i none;
    write = s.write + 1;
  }

  unfoldable pub drop_item : ℕ → Written E → Written E
  drop_item i s = record s { items = set s.items i none }

  unfoldable pub unique_round : ℕ → Written E → Written E
  unique_round i s =
      if i == 0 || differs (get_or s.items i none) (get_or s.items (s.write - 1) none)
      then keep i s
      else drop_item i s

  -- The loop, with `k` rounds left.
  unfoldable pub unique_loop : ℕ → ℕ → Written E → Written E
  unique_loop zero i s = s
  unique_loop (suc k) i s = unique_loop k (i + 1) (unique_round i s)

  unfoldable pub after_loop : Vec E → Written E → Vec E
  after_loop list s = record list { count = s.write; items = s.items }

  unfoldable pub unique : (List (Option E) → List (Option E)) → Vec E → Vec E
  unique sort list =
      let sorted = sort (take list.count list.items) ++ drop list.count list.items in
      if leb list.count 1
      then list
      else after_loop list (unique_loop list.count 0 (record { items = sorted; write = 0 }))

unfoldable pub string_list_unique :
    (List (Option Bytes) → List (Option Bytes)) → Vec Bytes → Vec Bytes
string_list_unique sort list = unique str_eq sort list

unfoldable pub is_zero : ℤ → Bool
is_zero (pos zero) = true
is_zero _ = false

unfoldable pub wstring_list_unique : (List (Option Wide) → List (Option Wide)) → Vec Wide → Vec Wide
wstring_list_unique sort list = unique (λ a b. is_zero (wstring_cmp (some a) (some b))) sort list
