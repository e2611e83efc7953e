-- ===== src/Examples/Arrays.antt =====
-- The array of string_list.c and wstring_list.c under src/bas/base: lists of two elements.
use bas_c.Common.{
  ℕ, ◌≡◌, refl, true, none, some, List, [], ◌∷◌, ◌++◌, arith, Bytes, codes, replicate,
}
use bas_c.Base.Unique.{
  string_list_unique, unique, unique_loop, unique_round, keep, drop_item, differs, after_loop,
}
use bas_c.Base.Unique.Collapse.{unique-collapse}
use bas_c.Base.CString.{str_eq}
use bas_c.Base.StringList.{join, join_size}
use bas_c.Base.StringList.Join.{join-joined_by}
use bas_c.Base.Wstring.{Wide}
use bas_c.Base.Slots.{Vec, insert}
use bas_c.Base.Slots.Grow.{Models}
use bas_c.Base.Slots.Laws.{Leaves, insert-Leaves}

abbrev two : List ℕ
two = 10 ∷ 20 ∷ []

abbrev pair : Vec ℕ
pair = record { count = 2; capacity = 3; items = some 10 ∷ some 20 ∷ none ∷ [] }

pair-Models : Models two pair
pair-Models = record {
  unused = none ∷ [];
  held = refl;
  counted = refl;
  sized = refl;
  small = omega arith;
}

insert-Leaves_example : Leaves true (10 ∷ 15 ∷ 20 ∷ []) (insert true true pair 1 (some 15))
insert-Leaves_example = insert-Leaves true (10 ∷ []) (20 ∷ []) pair 15 pair-Models (omega arith)

abbrev names : List Bytes
names = codes "ab" ∷ codes "c" ∷ []

abbrev name_list : Vec Bytes
name_list = record {
  count = 2;
  capacity = 3;
  items = some (codes "ab") ∷ some (codes "c") ∷ none ∷ [];
}

name_list-Models : Models names name_list
name_list-Models = record {
  unused = none ∷ [];
  held = refl;
  counted = refl;
  sized = refl;
  small = omega arith;
}

join-joined_by_example :
    (join true name_list (some (codes ", ")) ≡ some (codes "ab, c"))
    × (join_size name_list (codes ", ") ≡ 6)
join-joined_by_example =
    join-joined_by (codes "ab") (codes "c" ∷ []) name_list (codes ", ") name_list-Models
      (omega arith) (omega arith)

abbrev two_wide : Vec Wide
two_wide = record { count = 2; capacity = 2; items = some (0x4F60 ∷ []) ∷ some (0x597D ∷ []) ∷ [] }

-- A sort for two equal strings and one behind them: they are in order.
abbrev sorted_list : Vec Bytes
sorted_list = record {
  count = 3;
  capacity = 4;
  items = some (codes "a") ∷ some (codes "a") ∷ some (codes "b") ∷ none ∷ [];
}

string_list_unique_runs : string_list_unique (λ l. l) sorted_list ≡ record sorted_list {
  count = 2;
  items = some (codes "a") ∷ some (codes "b") ∷ none ∷ none ∷ [];
}
unfolding string_list_unique unique unique_loop unique_round keep drop_item differs after_loop
    str_eq
string_list_unique_runs = refl

unique-collapse_example :
    (e : ℕ) × (unique str_eq (λ l. l) sorted_list ≡ record sorted_list {
      count = 2;
      items = (some (codes "a") ∷ some (codes "b") ∷ []) ++ (replicate e none ++ none ∷ []);
    })
unfolding str_eq
unique-collapse_example =
    unique-collapse str_eq (λ l. l) sorted_list (codes "a") (codes "a") (codes "b" ∷ []) refl refl
