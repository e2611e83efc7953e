-- ===== src/Base/StringList/Join.antt =====
-- `string_list_join` against the list that an array models.
use bas_c.Common.{
  ℕ, suc, ◌+◌, ◌-◌, ◌*◌, ◌%◌, ◌^◌, ◌<◌, ◌≡◌, refl, sym, ap, ◌∙◌, ◌≢◌, true, false, not, ◌&&◌,
  Option, some, List, [], ◌∷◌, ◌++◌, append_assoc, append-nil, arith, Bytes, ltb, ◌==◌,
  if◌then◌else◌, length, get_or, All, length-append, map,
}
use bas_c.Base.Slots.{Vec}
use bas_c.Base.Slots.Grow.{Models}
use bas_c.Base.StringList.{lengths, join_size, join_loop, join}
use bas_c.Base.StringList.Search.{slot_at, next_slot}

-- The strings with the separator between any two.
abbrev pub joined_by : Bytes → List Bytes → Bytes
joined_by separator [] = []
joined_by separator (x ∷ []) = x
joined_by separator (x ∷ y ∷ xs) = x ++ (separator ++ joined_by separator (y ∷ xs))

-- The strings, each behind a separator.
abbrev each_behind : Bytes → List Bytes → Bytes
each_behind separator [] = []
each_behind separator (x ∷ xs) = separator ++ (x ++ each_behind separator xs)

each_behind-joined_by :
    (s x : Bytes) (xs : List Bytes) → x ++ each_behind s xs ≡ joined_by s (x ∷ xs)
each_behind-joined_by s x [] = append-nil x
each_behind-joined_by s x (y ∷ xs) = ap (λ t. x ++ (s ++ t)) (each_behind-joined_by s y xs)

-- A string holds no NUL.
abbrev pub IsText : Bytes → Type 0
IsText = All (λ c. c ≢ 0)

put_separator :
    (s r : Bytes) (i : ℕ)
    → IsText s
    → 0 < i
    → (if ltb 0 i && not (get_or s 0 0 == 0) then r ++ s else r) ≡ r ++ s
put_separator [] r i h l = ground (arith, append-nil r)
put_separator (c ∷ s) r i (h, hs) l = ground arith

join_loop-each_behind :
    (s : Bytes) (a b : List Bytes) (u : List (Option Bytes)) (r : Bytes)
    → IsText s
    → 0 < length a
    → join_loop s (map some (a ++ b) ++ u) (length b) (length a) r ≡ r ++ each_behind s b
unfolding join_loop
join_loop-each_behind s a [] u r h l = sym (append-nil r)
join_loop-each_behind s a (x ∷ b) u r h l =
    rw (slot_at a x b u, put_separator s r (length a) h l, join_loop)
      (next_slot
        (λ items n. join_loop s items (length b) n ((r ++ s) ++ x) ≡ r ++ each_behind s (x ∷ b)) a x
        b u
        (join_loop-each_behind s (a ++ x ∷ []) b u ((r ++ s) ++ x) h
            (omega (arith, length-append a (x ∷ [])))
          ∙ simp append_assoc refl))

abbrev pub total : List Bytes → ℕ
total [] = 0
total (x ∷ xs) = length x + total xs

lengths-total :
    (a b : List Bytes) (u : List (Option Bytes)) (n : ℕ)
    → n + total b < 2 ^ 64
    → lengths (map some (a ++ b) ++ u) (length b) (length a) n ≡ n + total b
unfolding lengths
lengths-total a [] u n h = omega arith
lengths-total a (x ∷ b) u n h =
    let e : (n + length x) % 2 ^ 64 ≡ n + length x = omega arith in
    rw (slot_at a x b u, e, lengths)
      (next_slot (λ items k. lengths items (length b) k (n + length x) ≡ n + (length x + total b)) a
        x b u (lengths-total (a ++ x ∷ []) b u (n + length x) (omega arith) ∙ omega arith))

length-joined_by :
    (s x : Bytes) (xs : List Bytes)
    → length (joined_by s (x ∷ xs)) ≡ total (x ∷ xs) + length s * length xs
length-joined_by s x [] = omega arith
length-joined_by s x (y ∷ xs) = omega (
  arith,
  length-append x (s ++ joined_by s (y ∷ xs)),
  length-append s (joined_by s (y ∷ xs)),
  length-joined_by s y xs,
)

join_loop-joined_by :
    (s x : Bytes) (xs : List Bytes) (u : List (Option Bytes))
    → IsText s
    → join_loop s (map some (x ∷ xs) ++ u) (length (x ∷ xs)) 0 [] ≡ joined_by s (x ∷ xs)
unfolding join_loop
join_loop-joined_by s x xs u h =
    join_loop-each_behind s (x ∷ []) xs u x h (omega arith) ∙ each_behind-joined_by s x xs

join_size-total :
    (x : Bytes) (xs : List Bytes) (v : Vec Bytes) (s : Bytes)
    → Models (x ∷ xs) v
    → total (x ∷ xs) + length s * length xs < 2 ^ 63
    → join_size v s ≡ total (x ∷ xs) + length s * length xs + 1
unfolding join_size
join_size-total x xs v s m fit =
    let before : (if ltb 0 (suc (length xs)) then suc (length xs) - 1 else 0) ≡ length xs =
      ground arith in
    let sum = lengths-total [] (x ∷ xs) m.unused 0 (omega arith) in
    rw (m.counted, m.held, sum, before) (omega arith)

-- Of a list that is not empty, with memory and fewer than 2 ^ 63 bytes in all, `join` returns the
-- strings with the separator between any two, and the block asked for has just the size of that and
-- its NUL.
pub join-joined_by :
    (x : Bytes) (xs : List Bytes) (v : Vec Bytes) (s : Bytes)
    → Models (x ∷ xs) v
    → IsText s
    → total (x ∷ xs) + length s * length xs < 2 ^ 63
    → (join true v (some s) ≡ some (joined_by s (x ∷ xs)))
      × (join_size v s ≡ length (joined_by s (x ∷ xs)) + 1)
unfolding join
join-joined_by x xs v s m h fit = (
  (let filled : (v.count == 0) ≡ false = ground (arith, m.counted) in
      rw (filled, m.counted, m.held)
        (ap {B = Option Bytes} some (join_loop-joined_by s x xs m.unused h))),
  omega (arith, join_size-total x xs v s m fit, length-joined_by s x xs),
)
