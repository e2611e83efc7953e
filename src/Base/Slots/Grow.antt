-- ===== src/Base/Slots/Grow.antt =====
-- The growing loop ends, and the block that it asks for has room.
use bas_c.Common.{
  ℕ, zero, suc, ◌+◌, ◌-◌, ◌*◌, ◌%◌, ◌^◌, ◌≤◌, ◌<◌, ◌≡◌, refl, ap, ◌∙◌, inl, inr, Bool, true, false,
  Option, none, some, List, ◌++◌, append_assoc, arith, ltb, leb, ◌==◌, if◌then◌else◌, length,
  replicate, Bool-cases, ltb→lt, lt→ltb, leb→le, length-append, length-replicate, map, take_more,
}
use bas_c.Base.Slots.{Vec, slots, doubling, ensure_capacity, enlarged}

two_to : ℕ → ℕ
two_to zero = 1
two_to (suc k) = 2 * two_to k

doubling_step :
    (fuel size least : ℕ)
    → size < least
    → least ≤ 2 ^ 63
    → doubling (suc fuel) size least ≡ doubling fuel (size * 2) least
unfolding doubling
doubling_step fuel size least lt small =
    let wrap : size * 2 % 2 ^ 64 ≡ size * 2 = omega arith in rw (wrap, lt→ltb size least lt)

doubling_stop : (fuel size least : ℕ) → least ≤ size → doubling (suc fuel) size least ≡ some size
unfolding doubling
doubling_stop fuel size least h = ground arith

-- A block that has a slot is doubled until it has enough, and no more often than is needed.
pub record Enough (size least c : ℕ) : Type 0 where
  pub room : least ≤ c
  pub grown : size ≤ c
  pub bound : c < 2 * least + 16

doubling_ends :
    (fuel size least : ℕ)
    → 1 ≤ size
    → size < 2 * least + 16
    → least ≤ 2 ^ 63
    → least ≤ size * two_to fuel
    → (c : ℕ) × (doubling (suc fuel) size least ≡ some c) × Enough size least c
unfolding two_to
doubling_ends zero size least one low small enough =
    (size, doubling_stop 0 size least (omega arith), omega arith)
doubling_ends (suc fuel) size least one low small enough = elim (Bool-cases (ltb size least)) [
  | inr p ↦ (size, doubling_stop (suc fuel) size least (ground arith), ground arith)
  | inl p ↦
      let lt = ltb→lt size least p in
      let (c, run, e) =
        doubling_ends fuel (size * 2) least (omega arith) (omega arith) small (omega arith) in
      (c, doubling_step (suc fuel) size least lt small ∙ run, omega arith)
]

-- With 65 rounds of fuel the loop of `ensure_capacity` ends where at most 2 ^ 63 slots are asked for
-- and the size before is not 0 and below twice that number and 16: its result holds them, is no
-- smaller than before and keeps to the same bound.
pub doubling-Enough :
    (size least : ℕ)
    → 1 ≤ size
    → size < 2 * least + 16
    → least ≤ 2 ^ 63
    → (c : ℕ) × (doubling 65 size least ≡ some c) × Enough size least c
unfolding two_to
doubling-Enough size least one low small = doubling_ends 64 size least one low small (omega arith)

-- The list holds `xs`: they are the used slots, none of them NULL, and the block has `capacity` slots.
pub record Models {ℓ} {E : Type ℓ} (xs : List E) (v : Vec E) : Type ℓ where
  pub unused : List (Option E)
  pub held : v.items ≡ map some xs ++ unused
  pub counted : v.count ≡ length xs
  pub sized : length v.items ≡ v.capacity
  pub small : v.capacity < 2 ^ 61

module _ {ℓ} {E : Type ℓ} where
  enlarged-Models :
      (xs : List E) (v : Vec E) (c : ℕ)
      → Models xs v
      → v.capacity ≤ c
      → c < 2 ^ 61
      → Models xs (enlarged v c)
  enlarged-Models xs v c m grown small =
      let whole = take_more v.capacity v.items (omega (arith, m.sized)) in
      let fits : slots c ≡ c = omega arith in
      record {
        unused = m.unused ++ replicate (slots c - v.capacity) none;
        held =
            ap (λ t. t ++ replicate (slots c - v.capacity) none) (whole ∙ m.held)
            ∙ append_assoc (map some xs) m.unused _;
        counted = m.counted;
        sized =
            ap (λ t. length (t ++ replicate (slots c - v.capacity) none)) whole
            ∙ omega (
              arith,
              length-append v.items (replicate (slots c - v.capacity) none),
              length-replicate {A = Option E} (slots c - v.capacity) none,
              m.sized,
              fits,
            );
        small = small;
      }

  ensure_full :
      (grow : Bool) (v : Vec E) (least c : ℕ)
      → leb least v.capacity ≡ false
      → doubling 65 (if v.capacity == 0 then 16 else v.capacity) least ≡ some c
      → ensure_capacity grow v least ≡ some (if grow then (true, enlarged v c) else (false, v))
  unfolding ensure_capacity
  ensure_full grow v least c p run = rw p (rw run refl)

  -- What a successful growth leaves: the same list, with room for `least`.
  pub record Roomy (xs : List E) (least : ℕ) (v v' : Vec E) : Type ℓ where
    pub models : Models xs v'
    pub room : least ≤ v'.capacity
    pub grown : v.capacity ≤ v'.capacity

  pub ensure_capacity-Roomy :
      (xs : List E) (v : Vec E) (least : ℕ)
      → Models xs v
      → 1 ≤ least
      → least ≤ 2 ^ 59
      → (v' : Vec E) × (ensure_capacity true v least ≡ some (true, v')) × Roomy xs least v v'
  unfolding ensure_capacity
  ensure_capacity-Roomy xs v least m one low = elim (Bool-cases (leb least v.capacity)) [
    | inl p ↦
        (v, rw p, record { models = m; room = leb→le least v.capacity p; grown = omega arith })
    | inr p ↦
        let size = if v.capacity == 0 then 16 else v.capacity in
        let (c, run, e) = doubling-Enough size least (ground arith) (ground arith) (omega arith) in
        let more : v.capacity ≤ c = ground (arith, e.grown) in
        (
          enlarged v c,
          ensure_full true v least c p run,
          record {
            models = enlarged-Models xs v c m more (omega (arith, e.bound));
            room = e.room;
            grown = more;
          },
        )
  ]
