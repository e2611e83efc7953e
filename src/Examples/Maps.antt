-- ===== src/Examples/Maps.antt =====
-- src/bas/util/prefix_map.c: a map of three keys.
use bas_c.Common.{arith, ℕ, ◌≡◌, refl, true, none, some, Bytes, codes}
use bas_c.Base.CString.{str_eq, strn_eq}
use bas_c.Util.PrefixMap.{chain_find, PrefixMap, create_ex, add, remove, find_prefix}
use bas_c.Util.PrefixMap.Buckets.{view, IsValid}
use bas_c.Util.PrefixMap.Laws.{Writes, create_ex-IsValid, add-Writes, remove-Writes}
use bas_c.Util.PrefixMap.Search.{entries, Finds, find_prefix-Finds}

abbrev put : PrefixMap ℕ → Bytes → ℕ → PrefixMap ℕ
put m k v = (add true m k (some v)).0

abbrev fresh : PrefixMap ℕ
fresh = create_ex true

abbrev sample : PrefixMap ℕ
sample = put (put (put fresh (codes "--long") 1) (codes "--lo") 2) (codes "x") 3

sample-IsValid : IsValid sample
sample-IsValid =
    let a = (add-Writes fresh (codes "--long") (some 1) (create_ex-IsValid true).0).valid in
    let b = (add-Writes (put fresh (codes "--long") 1) (codes "--lo") (some 2) a).valid in
    (add-Writes (put (put fresh (codes "--long") 1) (codes "--lo") 2) (codes "x") (some 3) b).valid

find_prefix_runs : find_prefix sample (codes "--l") ≡ some 2
unfolding find_prefix add create_ex strn_eq
find_prefix_runs = refl

add-Writes_example :
    Writes sample
      (codes "x")
      (some (some 9))
      (add true sample (codes "x") (some 9)).0
      (add true sample (codes "x") (some 9)).1
add-Writes_example = add-Writes sample (codes "x") (some 9) sample-IsValid

remove-Writes_example :
    Writes sample (codes "x") none (remove sample (codes "x")).1 (remove sample (codes "x")).2
    × ((remove sample (codes "x")).0 ≡ true)
unfolding chain_find str_eq view add create_ex
remove-Writes_example = remove-Writes sample (codes "x") sample-IsValid

find_prefix-Finds_example :
    Finds (codes "--l") (entries sample.buckets) (find_prefix sample (codes "--l"))
unfolding add create_ex
find_prefix-Finds_example =
    find_prefix-Finds sample (codes "--l") (ground arith) (omega arith) (ground arith)
