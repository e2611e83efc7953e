-- ===== src/Base/Unique/Collapse.antt =====
-- `unique` (src/bas/base/string_list.c, wstring_list.c) collapses equal neighbours.
use bas_c.Common.{
  ℕ, zero, suc, ◌+◌, ◌-◌, ◌≡◌, refl, sym, ap, ◌∙◌, inl, inr, Bool, true, false, not, Option, none,
  some, List, [], ◌∷◌, ◌++◌, append_assoc, arith, leb, ◌==◌, if◌then◌else◌, length, get_or, set,
  take, drop, replicate, Bool-cases, length-append, length-replicate, map, set-append,
  get_or-append,
}
use bas_c.Base.Slots.{Vec}
use bas_c.Base.Unique.{
  Written, differs, keep, drop_item, unique_round, unique_loop, after_loop, unique,
}

module _ {ℓ} {E : Type ℓ} (same : E → E → Bool) where
  -- The elements that are kept behind `z`.
  abbrev pub collapse_from : E → List E → List E
  collapse_from z [] = []
  collapse_from z (y ∷ l) =
      let dropped = collapse_from z l in
      let kept = collapse_from y l in if same y z then dropped else y ∷ kept

  -- Of equal neighbours the first.
  abbrev pub collapse : List E → List E
  collapse [] = []
  collapse (x ∷ l) = x ∷ collapse_from x l

  -- The slots while the loop runs: those kept, the last of them `z`, freed ones, those to come and
  -- those behind `count`.
  abbrev scanned : List (Option E) → E → ℕ → List E → List (Option E) → List (Option E)
  scanned m z d r u = (m ++ some z ∷ []) ++ (replicate d none ++ (map some r ++ u))

  -- The slots at the end.
  abbrev Collapsed : List (Option E) → E → List E → List (Option E) → Written E → Type ℓ
  Collapsed m z r u s =
      (e : ℕ) × (s.items ≡ (m ++ some z ∷ map some (collapse_from z r)) ++ (replicate e none ++ u))
      × (s.write ≡ length m + 1 + length (collapse_from z r))

  split_lem :
      (l : List (Option E)) (d : ℕ) (y : Option E) (r : List (Option E))
      → l ++ (replicate d none ++ y ∷ r) ≡ (l ++ replicate d none) ++ y ∷ r
  split_lem l d y r = sym (append_assoc l (replicate d none) (y ∷ r))

  at_end : (l : List (Option E)) (d i : ℕ) → i ≡ length l + d → i ≡ length (l ++ replicate d none)
  at_end l d i h =
      omega (arith, h, length-append l (replicate d none), length-replicate {A = Option E} d none)

  get_there :
      (l : List (Option E)) (d i : ℕ) (y : Option E) (r : List (Option E))
      → i ≡ length l + d
      → get_or (l ++ (replicate d none ++ y ∷ r)) i none ≡ y
  get_there l d i y r h =
      rw (split_lem l d y r, at_end l d i h) (get_or-append (l ++ replicate d none) y none r)

  set_there :
      (l : List (Option E)) (d i : ℕ) (y v : Option E) (r : List (Option E))
      → i ≡ length l + d
      → set (l ++ (replicate d none ++ y ∷ r)) i v ≡ l ++ (replicate d none ++ v ∷ r)
  set_there l d i y v r h =
      rw (split_lem l d y r, at_end l d i h, split_lem l d v r)
        (set-append (l ++ replicate d none) y v r)

  get_last :
      (m : List (Option E)) (z : E) (x : List (Option E))
      → get_or ((m ++ some z ∷ []) ++ x) (length m + 1 - 1) none ≡ some z
  get_last m z x = rw (append_assoc m (some z ∷ []) x, minus m) (get_or-append m (some z) none x)
    where
      minus : (m : List (Option E)) → length m + 1 - 1 ≡ length m
      minus m = omega arith

  one_more :
      (d : ℕ) (r : List (Option E)) → replicate d none ++ none ∷ r ≡ replicate (suc d) none ++ r
  one_more zero r = refl
  one_more (suc d) r = ap (λ t. none ∷ t) (one_more d r)

  length_last : (m : List (Option E)) (z : E) → length (m ++ some z ∷ []) ≡ length m + 1
  length_last m z = length-append m (some z ∷ [])

  -- The slots after an element was kept.
  kept_items :
      (l : List (Option E)) (d i : ℕ) (y : E) (r : List (Option E))
      → i ≡ length l + d
      → (if length l == i
          then l ++ (replicate d none ++ some y ∷ r)
          else set (set (l ++ (replicate d none ++ some y ∷ r)) (length l) (some y)) i none)
        ≡ (l ++ some y ∷ []) ++ (replicate d none ++ r)
  kept_items l zero i y r h = rw (here) (sym (append_assoc l (some y ∷ []) r))
    where
      here : (length l == i) ≡ true
      here = ground (arith, h)
  kept_items l (suc d) i y r h =
      rw
        (
          later,
          set-append l none (some y) (replicate d none ++ some y ∷ r),
          sym (append_assoc l (some y ∷ []) (replicate d none ++ some y ∷ r)),
          set_there (l ++ some y ∷ []) d i (some y) none r
              (omega (arith, h, length-append l (some y ∷ []))),
          one_more d r,
        )
        refl
    where
      later : (length l == i) ≡ false
      later = ground (arith, h)

  -- The loop at the i-th element, with `z` the last that was kept.
  abbrev state : List (Option E) → E → ℕ → List E → List (Option E) → Written E
  state m z d r u = record { items = scanned m z d r u; write = length m + 1 }

  round_differs :
      (m : List (Option E)) (z y : E) (d i : ℕ) (r : List E) (u : List (Option E))
      → i ≡ length m + 1 + d
      → unique_round same i (state m z d (y ∷ r) u) ≡ (
          if same y z
          then drop_item same i (state m z d (y ∷ r) u)
          else keep same i (state m z d (y ∷ r) u))
  unfolding unique_round differs
  round_differs m z y d i r u h =
      rw
        (
          at_zero,
          get_there (m ++ some z ∷ []) d i (some y) (map some r ++ u)
              (omega (arith, h, length_last m z)),
          get_last m z (replicate d none ++ (some y ∷ (map some r ++ u))),
        )
        (swap (same y z) (keep same i (state m z d (y ∷ r) u))
          (drop_item same i (state m z d (y ∷ r) u)))
    where
      at_zero : (i == 0) ≡ false
      at_zero = ground (arith, h)

      swap : {A : Type ℓ} (b : Bool) (x y : A) → (if not b then x else y) ≡ (if b then y else x)
      swap true x y = refl
      swap false x y = refl

  drop_state :
      (m : List (Option E)) (z y : E) (d i : ℕ) (r : List E) (u : List (Option E))
      → i ≡ length m + 1 + d
      → drop_item same i (state m z d (y ∷ r) u) ≡ state m z (suc d) r u
  unfolding drop_item
  drop_state m z y d i r u h =
      rw
        (
          set_there (m ++ some z ∷ []) d i (some y) none (map some r ++ u)
              (omega (arith, h, length_last m z)),
          one_more d (map some r ++ u),
        )
        refl

  keep_state :
      (m : List (Option E)) (z y : E) (d i : ℕ) (r : List E) (u : List (Option E))
      → i ≡ length m + 1 + d
      → keep same i (state m z d (y ∷ r) u) ≡ state (m ++ some z ∷ []) y d r u
  unfolding keep
  keep_state m z y d i r u h =
      rw
        (
          get_there (m ++ some z ∷ []) d i (some y) (map some r ++ u)
              (omega (arith, h, length_last m z)),
          ← length_last m z,
          kept_items (m ++ some z ∷ []) d i y (map some r ++ u) (omega (arith, h, length_last m z)),
        )
        refl

  step_lem :
      (k i : ℕ) (s t : Written E)
      → unique_round same i s ≡ t
      → unique_loop same (suc k) i s ≡ unique_loop same k (i + 1) t
  unfolding unique_loop
  step_lem k i s t e = ap (λ w. unique_loop same k (i + 1) w) e

  -- The end of the loop is that behind the first of the elements to come.
  first-Collapsed :
      (m : List (Option E)) (z y : E) (r : List E) (u : List (Option E)) (s : Written E)
      → Collapsed (m ++ some z ∷ []) y r u s
      → (e : ℕ) × (s.items
          ≡ (m ++ some z ∷ some y ∷ map some (collapse_from y r)) ++ (replicate e none ++ u))
        × (s.write ≡ length m + 1 + suc (length (collapse_from y r)))
  first-Collapsed m z y r u s (e, items, write) = (
    e,
    items
        ∙ ap (λ t. t ++ (replicate e none ++ u))
            (append_assoc m (some z ∷ []) (some y ∷ map some (collapse_from y r))),
    omega (arith, write, length_last m z),
  )

  loop_none : (i : ℕ) (s : Written E) → unique_loop same 0 i s ≡ s
  unfolding unique_loop
  loop_none i s = refl

  loop-Collapsed :
      (m : List (Option E)) (z : E) (d i : ℕ) (r : List E) (u : List (Option E))
      → i ≡ length m + 1 + d
      → Collapsed m z r u (unique_loop same (length r) i (state m z d r u))
  loop-Collapsed m z d i [] u h = rw (loop_none i (state m z d [] u)) (d, refl, omega arith)
  loop-Collapsed m z d i (y ∷ r) u h = elim (Bool-cases (same y z)) [
    | inl e ↦
        rw
          (
            step_lem (length r) i (state m z d (y ∷ r) u) (state m z (suc d) r u)
                (round_differs m z y d i r u h ∙ rw e (drop_state m z y d i r u h)),
            e,
          )
          (loop-Collapsed m z (suc d) (i + 1) r u (omega (arith, h)))
    | inr e ↦
        rw
          (
            step_lem (length r) i (state m z d (y ∷ r) u) (state (m ++ some z ∷ []) y d r u)
                (round_differs m z y d i r u h ∙ rw e (keep_state m z y d i r u h)),
            e,
          )
          (first-Collapsed m z y r u _
            (loop-Collapsed (m ++ some z ∷ []) y d (i + 1) r u (omega (arith, h, length_last m z))))
  ]

  -- The first element is kept where it is.
  first_round :
      (x : E) (r : List E) (u : List (Option E))
      → unique_round same 0 (record { items = some x ∷ (map some r ++ u); write = 0 })
        ≡ state [] x 0 r u
  unfolding unique_round keep
  first_round x r u = refl

  whole-Collapsed :
      (x : E) (r : List E) (u : List (Option E))
      → Collapsed [] x r u (
          unique_loop same
            (suc (length r))
            0
            (record { items = some x ∷ (map some r ++ u); write = 0 }))
  whole-Collapsed x r u =
      rw (step_lem (length r) 0 _ (state [] x 0 r u) (first_round x r u))
        (loop-Collapsed [] x 0 1 r u (omega arith))

  one_and : (n : ℕ) → 0 + 1 + n ≡ suc n
  one_and n = omega arith

  finished :
      (list : Vec E) (x : E) (r : List E) (u : List (Option E))
      → (e : ℕ) × (after_loop same list (
            unique_loop same
              (suc (length r))
              0
              (record { items = some x ∷ (map some r ++ u); write = 0 }))
          ≡ record list {
            count = length (collapse (x ∷ r));
            items = map some (collapse (x ∷ r)) ++ (replicate e none ++ u);
          })
  unfolding after_loop
  finished list x r u =
      let (e, items, write) = whole-Collapsed x r u in
      (e, rw (items, write ∙ one_and (length (collapse_from x r))) refl)

  started :
      (sort : List (Option E) → List (Option E)) (list : Vec E) (x y : E) (l : List E)
      → list.count ≡ length (x ∷ y ∷ l)
      → sort (take list.count list.items) ≡ map some (x ∷ y ∷ l)
      → unique same sort list
        ≡ after_loop same list (
            unique_loop same (suc (length (y ∷ l))) 0 (record {
              items = some x ∷ (map some (y ∷ l) ++ drop list.count list.items);
              write = 0;
            }))
  unfolding unique
  started sort list x y l c h =
      rw (h, many)
        (ap
          (λ k. after_loop same list (
            unique_loop same k 0 (record {
              items = some x ∷ (map some (y ∷ l) ++ drop list.count list.items);
              write = 0;
            })))
          c)
    where
      many : leb list.count 1 ≡ false
      many = ground (arith, c)

  -- Where the sort leaves elements in the used slots, `unique` leaves the first of every run of equal
  -- ones among them, in order, and counts them; the slots behind them that were used are NULL.
  pub unique-collapse :
      (sort : List (Option E) → List (Option E)) (list : Vec E) (x y : E) (l : List E)
      → list.count ≡ length (x ∷ y ∷ l)
      → sort (take list.count list.items) ≡ map some (x ∷ y ∷ l)
      → (e : ℕ) × (unique same sort list ≡ record list {
        count = length (collapse (x ∷ y ∷ l));
        items = map some (collapse (x ∷ y ∷ l)) ++ (replicate e none ++ drop list.count list.items);
      })
  unique-collapse sort list x y l c h =
      let (e, r) = finished list x (y ∷ l) (drop list.count list.items) in
      (e, started sort list x y l c h ∙ r)
