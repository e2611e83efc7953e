-- ===== src/Base/Slots/Whole.antt =====
-- Reading a slot, and the operations on the whole array.
use bas_c.Common.{
  ℕ, zero, suc, ◌-◌, ◌^◌, ◌≤◌, ◌<◌, min, ◌≡◌, refl, sym, ap, ◌∙◌, inl, inr, Bool, true, false,
  Option, none, some, List, [], ◌∷◌, ◌++◌, arith, leb, length, get_elem?, get_or, take, replicate,
  Bool-cases, lt→ltb, le→leb, length-take, length-replicate, map, take_more,
}
use bas_c.Base.Slots.{Vec, slots, create, insert, remove, get, clear, clear_slots, resize}
use bas_c.Base.Slots.Grow.{Models, ensure_capacity-Roomy}
use bas_c.Base.Slots.Laws.{Models-moved}

module _ {ℓ} {E : Type ℓ} where
  get_or_held :
      (xs : List E) (u : List (Option E)) (i : ℕ)
      → i < length xs
      → get_or (map some xs ++ u) i none ≡ get_elem? xs i
  get_or_held [] u i h = absurd (omega arith)
  get_or_held (x ∷ xs) u zero h = refl
  get_or_held (x ∷ xs) u (suc i) h = get_or_held xs u i (omega arith)

  get_elem?_behind : (xs : List E) (i : ℕ) → length xs ≤ i → get_elem? xs i ≡ none
  get_elem?_behind [] i h = refl
  get_elem?_behind (x ∷ xs) zero h = absurd (omega arith)
  get_elem?_behind (x ∷ xs) (suc i) h = get_elem?_behind xs i (omega arith)

  -- `get` reads the list at any index: the string there, or NULL behind the end.
  pub get-get_elem? : (xs : List E) (v : Vec E) (i : ℕ) → Models xs v → get v i ≡ get_elem? xs i
  unfolding get
  get-get_elem? xs v i m = elim (Bool-cases (leb v.count i)) [
    | inl p ↦ rw p (sym (get_elem?_behind xs i (ground (arith, m.counted))))
    | inr p ↦ rw (p, m.held) (get_or_held xs m.unused i (ground (arith, m.counted)))
  ]

  -- An index out of range is refused by `insert` and `remove`, and nothing changes.
  pub out_of_range :
      (grow dup : Bool) (xs : List E) (v : Vec E) (x : E) (i : ℕ)
      → Models xs v
      → length xs < i
      → (insert grow dup v i (some x) ≡ some (false, v))
        × (remove v i ≡ (false, v))
        × (remove v (length xs) ≡ (false, v))
  unfolding insert remove
  out_of_range grow dup xs v x i m h = (
    rw (lt→ltb v.count i (omega (arith, m.counted))) refl,
    rw (le→leb v.count i (omega (arith, m.counted))) refl,
    rw (le→leb v.count (length xs) (omega (arith, m.counted))) refl,
  )

  empty-Models : Models {E = E} [] (record { count = 0; capacity = 0; items = [] })
  empty-Models = record {
    unused = [];
    held = refl;
    counted = refl;
    sized = refl;
    small = omega arith;
  }

  -- With memory, `create` makes an empty list with room for the capacity that is asked for, up to
  -- 2 ^ 59.
  pub create-Models :
      (initial : ℕ)
      → initial ≤ 2 ^ 59
      → (v : Vec E) × (create true true initial ≡ some (some v))
        × Models [] v
        × (initial ≤ v.capacity)
  unfolding create
  create-Models zero low = (_, refl, empty-Models, omega arith)
  create-Models (suc n) low =
      let (v, run, r) = ensure_capacity-Roomy [] _ (suc n) empty-Models (omega arith) low in
      (v, rw (lt→ltb 0 (suc n) (omega arith)) (rw run refl), r.models, r.room)

  clear_slots_lem : (n : ℕ) (items : List (Option E)) → length (clear_slots n items) ≡ length items
  unfolding clear_slots
  clear_slots_lem zero items = refl
  clear_slots_lem (suc n) [] = refl
  clear_slots_lem (suc n) (x ∷ items) = ap suc (clear_slots_lem n items)

  -- `clear` leaves an empty list in the same block.
  pub clear-Models :
      (xs : List E) (v : Vec E)
      → Models xs v
      → Models [] (clear v) × ((clear v).capacity ≡ v.capacity)
  unfolding clear
  clear-Models xs v m = (
    record {
      unused = clear_slots v.count v.items;
      held = refl;
      counted = refl;
      sized = clear_slots_lem v.count v.items ∙ m.sized;
      small = m.small;
    },
    refl,
  )

  take_held :
      (n : ℕ) (xs : List E) (u : List (Option E))
      → n ≤ length xs
      → take n (map some xs ++ u) ≡ map some (take n xs)
  take_held zero xs u h = refl
  take_held (suc n) [] u h = absurd (omega arith)
  take_held (suc n) (x ∷ xs) u h = ap (λ t. some x ∷ t) (take_held n xs u (omega arith))

  take-min : (n : ℕ) (xs : List E) → take (min n (length xs)) xs ≡ take n xs
  take-min n xs = elim (Bool-cases (leb n (length xs))) [
    | inl p ↦ let e : min n (length xs) ≡ n = ground arith in rw e
    | inr p ↦
        let e : min n (length xs) ≡ length xs = ground arith in
        rw (e, take_more (length xs) xs (omega arith)) (sym (take_more n xs (ground arith)))
  ]

  -- With memory, `resize` to a capacity below 2 ^ 61 keeps as many of the strings as that holds, from
  -- the first, and sets it.
  pub resize-Models :
      (xs : List E) (v : Vec E) (new : ℕ)
      → Models xs v
      → new < 2 ^ 61
      → ((resize true v new).0 ≡ true)
        × Models (take new xs) (resize true v new).1
        × ((resize true v new).1.capacity ≡ new)
  unfolding resize
  resize-Models xs v new m low =
      let n = min new v.count in
      let cut : n ≤ length xs = omega (arith, m.counted) in
      let e : take n v.items ≡ map some (take n xs) =
        ap (take n) m.held ∙ take_held n xs m.unused cut in
      let same : take n xs ≡ take new xs = rw m.counted (take-min new xs) in
      (
        refl,
        Models-moved (take new xs) (replicate (slots new - n) none) _ (rw (e, same) refl)
            (rw (← same) (omega (arith, length-take n xs)))
            (rw (← same) (
              omega
                (arith, length-take n xs, length-replicate {A = Option E} (slots new - n) none)))
            low,
        refl,
      )
