-- ===== src/Base/Slots/Laws.antt =====
-- The operations of the array refine those of a list: what each returns and what list it leaves.
use bas_c.Common.{
  ℕ, suc, ◌+◌, ◌-◌, ◌^◌, ◌≤◌, ◌<◌, ◌≡◌, refl, sym, ap, ◌∙◌, Bool, true, false, Option, none, some,
  List, [], ◌∷◌, ◌++◌, append_assoc, map-append, arith, ltb, leb, if◌then◌else◌, length, set,
  length-append, length-set, map, length-map, set-append,
}
use bas_c.Base.Slots.{Vec, ensure_capacity, append, insert, remove, shift_right, shift_left}
use bas_c.Base.Slots.Shift.{shift_right-append, shift_left-append}
use bas_c.Base.Slots.Grow.{Models, Roomy, ensure_capacity-Roomy}

-- A call returned `done` and the list now holds `xs`.
abbrev pub Leaves {ℓ} : {E : Type ℓ} → Bool → List E → Option (Bool × Vec E) → Type ℓ
Leaves done xs r = (v : _) × (r ≡ some (done, v)) × Models xs v

module _ {ℓ} {E : Type ℓ} where
  -- With a free slot, what stands behind the used slots begins with one.
  free_slot :
      (xs : List E) (v : Vec E) (m : Models xs v)
      → v.count + 1 ≤ v.capacity
      → (j : Option E) × (rest : List (Option E)) × (v.items ≡ map some xs ++ j ∷ rest)
  free_slot xs v m room = split m.unused m.held
    where
      split :
          (u : List (Option E))
          → v.items ≡ map some xs ++ u
          → (j : Option E) × (rest : List (Option E)) × (v.items ≡ map some xs ++ j ∷ rest)
      split [] e = absurd (
          omega (
            arith,
            ap length e,
            m.sized,
            m.counted,
            length-append (map some xs) [],
            length-map {B = Option E} some xs,
          ))
      split (j ∷ rest) e = (j, rest, e)

  -- Slots that hold `ys` and then others, in a block of the same size.
  Models-of :
      (ys : List E) (rest : List (Option E)) (v : Vec E)
      → v.items ≡ map some ys ++ rest
      → v.count ≡ length ys
      → length v.items ≡ v.capacity
      → v.capacity < 2 ^ 61
      → Models ys v
  Models-of ys rest v e c s l = record {
    unused = rest;
    held = e;
    counted = c;
    sized = s;
    small = l;
  }

  -- The slot at the count is written, and counted.
  push_slot-Models :
      (xs : List E) (v : Vec E) (x : E)
      → Models xs v
      → v.count + 1 ≤ v.capacity
      → Models
          (xs ++ x ∷ [])
          (record v { items = set v.items v.count (some x); count = v.count + 1 })
  push_slot-Models xs v x m room =
      let (j, rest, e) = free_slot xs v m room in
      let at : v.count ≡ length (map {B = Option E} some xs) =
        m.counted ∙ sym (length-map {B = Option E} some xs) in
      Models-of (xs ++ x ∷ []) rest _
        (cc (
          set-append (map some xs) j (some x) rest,
          map-append some xs (x ∷ []),
          append_assoc (map some xs) (some x ∷ []) rest,
        ))
        (omega (arith, m.counted, length-append xs (x ∷ [])))
        (length-set v.items v.count (some x) ∙ m.sized) m.small

  -- With fewer than 2 ^ 59 strings and memory for the block, `append` puts the string behind the
  -- others; if `str_dup` gets no memory, the list holds what it held.
  pub append-Leaves :
      (dup : Bool) (xs : List E) (v : Vec E) (x : E)
      → Models xs v
      → length xs < 2 ^ 59
      → Leaves dup (if dup then xs ++ x ∷ [] else xs) (append true dup v (some x))
  unfolding append
  append-Leaves dup xs v x m few =
      let (room, run, r) =
        ensure_capacity-Roomy xs v (v.count + 1) m (omega arith) (omega (arith, m.counted)) in
      let same : room.count ≡ v.count = r.models.counted ∙ sym m.counted in
      answer dup room run r same
    where
      answer :
          (dup : Bool) (room : Vec E)
          → ensure_capacity true v (v.count + 1) ≡ some (true, room)
          → Roomy xs (v.count + 1) v room
          → room.count ≡ v.count
          → Leaves dup (if dup then xs ++ x ∷ [] else xs) (append true dup v (some x))
      answer true room run r same =
          (_, rw run refl, push_slot-Models xs room x r.models (omega (arith, same, r.room)))
      answer false room run r same = (room, rw run refl, r.models)

  pub length_held :
      (xs : List E) (rest : List (Option E))
      → length (map some xs ++ rest) ≡ length xs + length rest
  length_held xs rest =
      length-append (map some xs) rest
      ∙ ap (λ n. n + length rest) (length-map {B = Option E} some xs)

  -- Slots that hold `ys` and then others make a list of `ys`, if they are as many as before.
  pub Models-moved :
      (ys : List E) (rest : List (Option E)) (v : Vec E)
      → v.items ≡ map some ys ++ rest
      → v.count ≡ length ys
      → length ys + length rest ≡ v.capacity
      → v.capacity < 2 ^ 61
      → Models ys v
  Models-moved ys rest v e c s l = record {
    unused = rest;
    held = e;
    counted = c;
    sized = ap length e ∙ length_held ys rest ∙ s;
    small = l;
  }

  map_split :
      (a b : List E) (rest : List (Option E))
      → map {B = Option E} some (a ++ b) ++ rest ≡ map some a ++ (map some b ++ rest)
  map_split a b rest =
      ap (λ t. t ++ rest) (map-append some a b) ∙ append_assoc (map some a) (map some b) rest

  insert_slot-Models :
      (a b : List E) (v : Vec E) (x : E) (n : ℕ)
      → n ≡ length a
      → Models (a ++ b) v
      → v.count + 1 ≤ v.capacity
      → Models (a ++ x ∷ b) (record v {
        count = v.count + 1;
        items = set (shift_right none (v.count - n) n v.items) n (some x);
      })
  insert_slot-Models a b v x n hn m room =
      let (j, rest, e) = free_slot (a ++ b) v m room in
      let front : n ≡ length (map {B = Option E} some a) =
        hn ∙ sym (length-map {B = Option E} some a) in
      let back : v.count - n ≡ length (map {B = Option E} some b) =
        omega (arith, hn, m.counted, length-append a b, length-map {B = Option E} some b) in
      let (y, moved) =
        shift_right-append none (v.count - n) (map some a) (map some b) j rest n front back in
      let whole : v.items ≡ map some a ++ (map some b ++ j ∷ rest) = e ∙ map_split a b (j ∷ rest) in
      Models-moved (a ++ x ∷ b) rest _
        (cc (set-append (map some a) y (some x) (map some b ++ rest), map_split a (x ∷ b) rest))
        (omega (arith, m.counted, length-append a b, length-append a (x ∷ b)))
        (omega (
          arith,
          ap length e,
          length_held (a ++ b) (j ∷ rest),
          m.sized,
          length-append a b,
          length-append a (x ∷ b),
        ))
        m.small

  -- With fewer than 2 ^ 59 strings and memory for the block, `insert` at an index up to the count
  -- puts the string there; if `str_dup` gets no memory, the list holds what it held.
  pub insert-Leaves :
      (dup : Bool) (a b : List E) (v : Vec E) (x : E)
      → Models (a ++ b) v
      → length (a ++ b) < 2 ^ 59
      → Leaves dup (if dup then a ++ x ∷ b else a ++ b) (insert true dup v (length a) (some x))
  unfolding insert
  insert-Leaves dup a b v x m few =
      let (room, run, r) =
        ensure_capacity-Roomy (a ++ b) v (v.count + 1) m (omega arith) (omega (arith, m.counted)) in
      let same : room.count ≡ v.count = r.models.counted ∙ sym m.counted in
      let inside : ltb v.count (length a) ≡ false = ground (arith, m.counted, length-append a b) in
      answer dup room run r same inside
    where
      answer :
          (dup : Bool) (room : Vec E)
          → ensure_capacity true v (v.count + 1) ≡ some (true, room)
          → Roomy (a ++ b) (v.count + 1) v room
          → room.count ≡ v.count
          → ltb v.count (length a) ≡ false
          → Leaves dup (if dup then a ++ x ∷ b else a ++ b) (insert true dup v (length a) (some x))
      answer true room run r same inside = (
        _,
        rw inside (rw run refl),
        insert_slot-Models a b room x (length a) refl r.models (omega (arith, same, r.room)),
      )
      answer false room run r same inside = (room, rw inside (rw run refl), r.models)

  remove_slot-Models :
      (a b : List E) (v : Vec E) (x : E) (n : ℕ)
      → n ≡ length a
      → Models (a ++ x ∷ b) v
      → Models (a ++ b) (record v {
        count = v.count - 1;
        items = set (shift_left none (v.count - 1 - n) n v.items) (v.count - 1) none;
      })
  remove_slot-Models a b v x n hn m =
      let front : n ≡ length (map {B = Option E} some a) =
        hn ∙ sym (length-map {B = Option E} some a) in
      let total : v.count ≡ length a + suc (length b) = m.counted ∙ length-append a (x ∷ b) in
      let back : v.count - 1 - n ≡ length (map {B = Option E} some b) =
        omega (arith, hn, total, length-map {B = Option E} some b) in
      let (y, moved) =
        shift_left-append none (map some b) (map some a) (some x) m.unused n (v.count - 1 - n) front
          back in
      let whole : v.items ≡ map some a ++ some x ∷ (map some b ++ m.unused) =
        m.held ∙ map_split a (x ∷ b) m.unused in
      let last : v.count - 1 ≡ length (map {B = Option E} some (a ++ b)) =
        omega (arith, total, length-map {B = Option E} some (a ++ b), length-append a b) in
      Models-moved (a ++ b) (none ∷ m.unused) _
        (cc (set-append (map some (a ++ b)) y none m.unused, map_split a b (y ∷ m.unused)))
        (omega (arith, total, length-append a b))
        (omega (
          arith,
          ap length m.held,
          length_held (a ++ x ∷ b) m.unused,
          m.sized,
          length-append a b,
          length-append a (x ∷ b),
        ))
        m.small

  -- `remove` at an index below the count takes that string out, and the later ones move up.
  pub remove-Models :
      (a b : List E) (v : Vec E) (x : E)
      → Models (a ++ x ∷ b) v
      → ((remove v (length a)).0 ≡ true) × Models (a ++ b) (remove v (length a)).1
  unfolding remove
  remove-Models a b v x m =
      let inside : leb v.count (length a) ≡ false =
        ground (arith, m.counted, length-append a (x ∷ b)) in
      (rw inside refl, rw inside (remove_slot-Models a b v x (length a) refl m))
