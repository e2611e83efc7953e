-- ===== src/Base/WstringList/Search.antt =====
-- The search and `join` of wstring_list.c against those of string_list.c.
use bas_c.Common.{
  ℕ, zero, suc, ◌+◌, ◌≡◌, refl, sym, ap, ◌↔◌, inl, inr, Bool, true, false, not, Option, none, some,
  List, [], ◌∷◌, arith, ℤ, pos, negsuc, ltb, ◌==◌, if◌then◌else◌, length, get_or, Option-cases,
}
use mathlib.Core.Option.{some-injective}
use bas_c.Base.CString.{str_eq_iff}
use bas_c.Base.Wstring.{Wide, wstring_cmp}
use bas_c.Base.Wstring.Order.{wstring_cmp_turned}
use bas_c.Base.Slots.{Vec}
use bas_c.Base.StringList.{holds, find_loop, find, contains, join_loop, join}
use bas_c.Base.StringList.Join.{IsText}
use bas_c.Base.WstringList.{
  wide_holds, wide_find_loop, wstring_list_find, wstring_list_contains, wide_join_loop,
  wstring_list_join,
}

is_zero : (z : ℤ) → ((elim z [ pos n ↦ n == 0 | negsuc n ↦ false ]) ≡ true) ↔ (z ≡ pos 0)
is_zero (pos n) = ground arith
is_zero (negsuc n) = ground arith

Bool-iff : (a b : Bool) → (a ≡ true) ↔ (b ≡ true) → a ≡ b
Bool-iff true true h = refl
Bool-iff false false h = refl
Bool-iff true false h = sym (h.0 refl)
Bool-iff false true h = h.1 refl

wide_holds-holds : (str : Wide) (item : Option Wide) → wide_holds str item ≡ holds str item
wide_holds-holds str none = refl
wide_holds-holds str (some item) =
    let zero_test = is_zero (wstring_cmp (some item) (some str)) in
    let equal = (wstring_cmp_turned (some item) (some str)).0 in
    Bool-iff _ _ (
      λ h. (str_eq_iff item str).1 (some-injective item str (equal.0 (zero_test.0 h))),
      λ h. zero_test.1 (equal.1 (ap some ((str_eq_iff item str).0 h))),
    )

find_loop-same :
    (str : Wide) (items : List (Option Wide)) (k i : ℕ)
    → wide_find_loop str items k i ≡ find_loop str items k i
unfolding wide_find_loop find_loop
find_loop-same str items zero i = refl
find_loop-same str items (suc k) i =
    rw (wide_holds-holds str (get_or items i none), find_loop-same str items k (i + 1)) refl

some_units : (s : Wide) → IsText s → ltb 0 (length s) ≡ not (get_or s 0 0 == 0)
some_units [] h = refl
some_units (c ∷ s) (h, hs) = ground arith

join_loop-same :
    (separator : Wide) (items : List (Option Wide)) (k i : ℕ) (result : Wide)
    → IsText separator
    → wide_join_loop separator items k i result ≡ join_loop separator items k i result
unfolding wide_join_loop join_loop
join_loop-same separator items zero i result h = refl
join_loop-same separator items (suc k) i result h = elim (Option-cases (get_or items i none)) [
  | inl e ↦
      rw (e, wide_join_loop) (rw (e, join_loop) (join_loop-same separator items k (i + 1) result h))
  | inr (item, e) ↦
      rw (e, wide_join_loop)
        (rw (e, join_loop)
          (rw (sym (some_units separator h)) (join_loop-same separator items k (i + 1) _ h)))
]

-- On the same array of units, `wstring_list_find`, `wstring_list_contains` and `wstring_list_join` return
-- what the functions of string_list.c do; the separator of `join` holds no NUL.
pub wstring_list-Same :
    (alive : Bool) (v : Vec Wide) (str separator : Wide)
    → IsText separator
    → (wstring_list_find v (some str) ≡ find v (some str))
      × (wstring_list_contains v (some str) ≡ contains v (some str))
      × (wstring_list_join alive v (some separator) ≡ join alive v (some separator))
unfolding wstring_list_find find wstring_list_contains contains wstring_list_join join
wstring_list-Same alive v str separator h =
    let same = find_loop-same str v.items v.count 0 in
    (
      same,
      ap (λ r. elim r as (λ x. Bool) [ some i ↦ true | none ↦ false ]) same,
      ap (λ t. if not alive then none else if v.count == 0 then some [] else some t)
          (join_loop-same separator v.items v.count 0 [] h),
    )
