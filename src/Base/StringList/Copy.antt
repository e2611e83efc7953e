-- ===== src/Base/StringList/Copy.antt =====
-- `string_list_copy` against the list that an array models.
use bas_c.Common.{
  length-append, length-map, append_assoc, subst, ap, ◌+◌, ◌^◌, ◌<◌, ◌≡◌, refl, ap, subst, true,
  Option, some, List, [], ◌∷◌, ◌++◌, append_assoc, append-nil, arith, Bytes, length, length-append,
  map, length-map,
}
use bas_c.Base.Slots.{Vec}
use bas_c.Base.Slots.Grow.{Models}
use bas_c.Base.Slots.Laws.{append-Leaves}
use bas_c.Base.Slots.Whole.{create-Models}
use bas_c.Base.StringList.{copy_loop, copy}
use bas_c.Base.StringList.Search.{slot_at, next_slot}

-- The loop ends with the list `xs`.
abbrev Copies : List Bytes → Option (Option (Vec Bytes)) → Type 0
Copies xs r = (v : Vec Bytes) × (r ≡ some (some v)) × Models xs v

copy_loop-Models :
    (a b : List Bytes) (u : List (Option Bytes)) (v : Vec Bytes)
    → Models a v
    → length a + length b < 2 ^ 59
    → Copies (a ++ b) (copy_loop true true (map some (a ++ b) ++ u) (length b) (length a) v)
unfolding copy_loop
copy_loop-Models a [] u v m h = (v, refl, rw (append-nil a) m)
copy_loop-Models a (x ∷ b) u v m h =
    let (v', e, m') = append-Leaves true a v x m (omega arith) in
    rw (slot_at a x b u, e, copy_loop)
      (next_slot (λ items n. Copies (a ++ x ∷ b) (copy_loop true true items (length b) n v')) a x b
        u
        (subst
          (λ t. Copies t (
            copy_loop true true (map some ((a ++ x ∷ []) ++ b) ++ u) (length b)
              (length (a ++ x ∷ [])) v'))
          (append_assoc a (x ∷ []) b)
          (copy_loop-Models (a ++ x ∷ []) b u v' m' (omega (arith, length-append a (x ∷ []))))))

-- With memory and a capacity below 2 ^ 59, `copy` makes a new array that holds the same strings.
pub copy-Models :
    (xs : List Bytes) (v : Vec Bytes)
    → Models xs v
    → v.capacity < 2 ^ 59
    → (v' : Vec Bytes) × (copy true true true v ≡ some (some v')) × Models xs v'
unfolding copy
copy-Models xs v m small =
    let (new, e, empty, room) = create-Models {E = Bytes} v.capacity (omega arith) in
    rw (e, copy)
      (rw (m.counted, m.held)
        (copy_loop-Models [] xs m.unused new empty (
          omega (
            arith,
            m.sized,
            ap length m.held,
            length-append (map some xs) m.unused,
            length-map {B = Option Bytes} some xs,
          ))))
