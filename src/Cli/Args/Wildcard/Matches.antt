-- ===== src/Cli/Args/Wildcard/Matches.antt =====
-- `expand_wildcard` against the names of a listing that match.
use bas_c.Common.{
  ◌+◌, ◌^◌, ◌<◌, ◌≡◌, refl, subst, inl, inr, Bool, true, false, Option, none, some, List, [], ◌∷◌,
  ◌++◌, append_assoc, append-nil, arith, Bytes, leb, ◌==◌, if◌then◌else◌, length, Bool-cases,
  length-append, map,
}
use bas_c.Base.Slots.{Vec}
use bas_c.Base.Slots.Grow.{Models}
use bas_c.Base.Slots.Laws.{append-Leaves}
use bas_c.Base.Slots.Whole.{create-Models}
use bas_c.Base.StringList.Search.{slot_at, next_slot}
use bas_c.Cli.Alloc.{ok, ask}
use bas_c.Cli.Args.Wildcard.{
  Listing, Enum, or_null, pattern_parts, prefix_hint, search_dir, filename_of, result_path,
  list_append, collect, list_create, copy_out, matches_array, enumerate, expand_wildcard,
}

-- The paths of the items whose name matches, in the order of the listing.
unfoldable pub matching : (Bytes → Bytes → Bool) → Bytes → Bytes → List Bytes → List Bytes
matching fnmatch file_pattern dir [] = []
matching fnmatch file_pattern dir (item ∷ items) =
    let rest = matching fnmatch file_pattern dir items in
    if fnmatch file_pattern (filename_of item)
    then result_path dir (filename_of item) ∷ rest
    else rest

-- What an `enum_fn` lists for a pattern.
abbrev pub listing_of : Option Bytes → Enum → Bytes → Listing
listing_of current enum pattern =
    let (dir, file_pattern) = pattern_parts pattern in
    enum (search_dir current dir) (or_null (prefix_hint file_pattern)) file_pattern

-- The list of the call holds one more string.
list_append-Models :
    (xs : List Bytes) (v : Vec Bytes) (x : Bytes)
    → Models xs v
    → length xs < 2 ^ 59
    → (v' : Vec Bytes) × (list_append v x [] ≡ ok ((true, v'), [])) × Models (xs ++ x ∷ []) v'
unfolding list_append ask
list_append-Models xs v x m few =
    let (v', run, m') = append-Leaves true xs v x m few in
    (
      v',
      elim (Bool-cases (leb (v.count + 1) v.capacity)) [
        | inl e ↦ rw (e, run) refl
        | inr e ↦ rw (e, run) refl
      ],
      m',
    )

collect-Models :
    (fnmatch : Bytes → Bytes → Bool) (file_pattern dir : Bytes) (items xs : List Bytes)
    (v : Vec Bytes)
    → Models xs v
    → length xs + length items < 2 ^ 59
    → (v' : Vec Bytes) × (collect fnmatch file_pattern dir items v [] ≡ ok ((true, v'), []))
      × Models (xs ++ matching fnmatch file_pattern dir items) v'
unfolding collect matching
collect-Models fnmatch file_pattern dir [] xs v m few = (v, refl, rw (append-nil xs) m)
collect-Models fnmatch file_pattern dir (item ∷ items) xs v m few =
    let name = filename_of item in
    let path = result_path dir name in
    elim (Bool-cases (fnmatch file_pattern name)) [
      | inl e ↦
          let (v1, run, m1) = list_append-Models xs v path m (omega arith) in
          let (v2, later, m2) =
            collect-Models fnmatch file_pattern dir items (xs ++ path ∷ []) v1 m1
              (omega (arith, length-append xs (path ∷ []))) in
          (
            v2,
            rw (e, run) later,
            rw e (subst (λ t. Models t v2) (append_assoc xs (path ∷ []) _) m2),
          )
      | inr e ↦
          let (v2, later, m2) =
            collect-Models fnmatch file_pattern dir items xs v m (omega arith) in
          (v2, rw e later, rw e m2)
    ]

copy_out-slots :
    (a b : List Bytes) (u : List (Option Bytes))
    → copy_out (map some (a ++ b) ++ u) (length b) (length a) [] ≡ ok (some b, [])
unfolding copy_out ask
copy_out-slots a [] u = refl
copy_out-slots a (x ∷ b) u =
    rw (slot_at a x b u, copy_out)
      (rw
        (next_slot (λ items n. copy_out items (length b) n [] ≡ ok (some b, [])) a x b u
          (copy_out-slots (a ++ x ∷ []) b u))
        refl)

matches_array-Models :
    (xs : List Bytes) (v : Vec Bytes) → Models xs v → matches_array v [] ≡ ok (some xs, [])
unfolding matches_array ask
matches_array-Models [] v m = rw m.counted refl
matches_array-Models (x ∷ xs) v m =
    let some_left : (length (x ∷ xs) == 0) ≡ false = ground arith in
    rw (m.counted, some_left, m.counted, m.held) (copy_out-slots [] (x ∷ xs) m.unused)

-- The matches of a pattern; `none` where there is no listing.
abbrev pub matches_of : (Bytes → Bytes → Bool) → Option Bytes → Enum → Bytes → Option (List Bytes)
matches_of fnmatch current enum pattern =
    let (dir, file_pattern) = pattern_parts pattern in
    let listing = listing_of current enum pattern in
    if listing.done then some (matching fnmatch file_pattern dir listing.items) else none

list_create_total : (v : Vec Bytes) × (list_create 8 [] ≡ ok (some v, [])) × Models [] v
unfolding list_create ask
list_create_total =
    let (v, run, m, room) = create-Models {E = Bytes} 8 (omega arith) in (v, rw run refl, m)

-- With memory and a listing of fewer than 2 ^ 59 items, a pattern is expanded to the paths of the
-- items whose name matches, in their order; it fails exactly where the listing fails.
pub expand_wildcard-matching :
    (fnmatch : Bytes → Bytes → Bool) (current : Option Bytes) (enum : Enum) (pattern : Bytes)
    → length (listing_of current enum pattern).items < 2 ^ 59
    → expand_wildcard fnmatch current (some enum) pattern []
      ≡ ok (matches_of fnmatch current enum pattern, [])
unfolding expand_wildcard enumerate
expand_wildcard-matching fnmatch current enum pattern few =
    let (dir, file_pattern) = pattern_parts pattern in
    let listing = listing_of current enum pattern in
    let (v, run, m) = list_create_total in
    let (v', found, m') =
      collect-Models fnmatch file_pattern dir listing.items [] v m (omega arith) in
    elim (Bool-cases listing.done) [
      | inl e ↦ rw run (rw (found, e, matches_array-Models _ v' m') refl)
      | inr e ↦ rw run (rw (found, e) refl)
    ]
