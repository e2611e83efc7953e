-- ===== src/Base/Slots.antt =====
-- The growing array that src/bas/base/string_list.c keeps: `count` used slots of a block of
-- `capacity` slots. The code for the elements does not look into them, so `E` is any type; a slot
-- that holds NULL is `none`. `items` are the slots that the block really has.
-- A list pointer is not NULL here; with NULL every function returns at its first line.
-- `grow` is the answer of `realloc`, `dup` that of the `malloc` in `str_dup`.
pub mod Shift
pub mod Grow
pub mod Laws
pub mod Whole
use bas_c.Common.{
  ℕ, zero, suc, ◌+◌, ◌-◌, ◌*◌, ◌/◌, ◌%◌, ◌^◌, min, Bool, true, false, not, ◌&&◌, ◌||◌, Option, none,
  some, List, [], ◌∷◌, ◌++◌, ltb, leb, ◌==◌, if◌then◌else◌, get_or, set, take, replicate, ◌>>=◌,
}

pub record Vec {ℓ} (E : Type ℓ) : Type ℓ where
  pub count : ℕ
  pub capacity : ℕ
  pub items : List (Option E)

-- The slots in a block for which `sizeof(char *) * n` bytes are asked, a `size_t`.
abbrev pub slots : ℕ → ℕ
slots n = 8 * n % 2 ^ 64 / 8

-- `while (new_capacity < min_capacity) new_capacity *= 2`. With `none` the loop does not end.
unfoldable pub doubling : ℕ → ℕ → ℕ → Option ℕ
doubling zero cap least = none
doubling (suc fuel) cap least =
    let more = doubling fuel (cap * 2 % 2 ^ 64) least in if ltb cap least then more else some cap

-- for (i = index + k; i > index; i--) items[i] = items[i - 1]
unfoldable pub shift_right {ℓ} : {A : Type ℓ} → A → ℕ → ℕ → List A → List A
shift_right d zero index items = items
shift_right d (suc k) index items =
    shift_right d k index (set items (index + suc k) (get_or items (index + k) d))

-- for (i = index; i < index + k; i++) items[i] = items[i + 1]
unfoldable pub shift_left {ℓ} : {A : Type ℓ} → A → ℕ → ℕ → List A → List A
shift_left d zero i items = items
shift_left d (suc k) i items = shift_left d k (i + 1) (set items i (get_or items (i + 1) d))

module _ {ℓ} {E : Type ℓ} where
  -- The block after a successful `realloc` to `new` slots; those behind the old ones are set to NULL.
  abbrev pub enlarged : Vec E → ℕ → Vec E
  enlarged list new = record list {
    capacity = new;
    items = take list.capacity list.items ++ replicate (slots new - list.capacity) none;
  }

  unfoldable pub ensure_capacity : Bool → Vec E → ℕ → Option (Bool × Vec E)
  unfolding doubling
  ensure_capacity grow list least =
      let full = (do
        new ← doubling 65 (if list.capacity == 0 then 16 else list.capacity) least
        some (if grow then (true, enlarged list new) else (false, list))) in
      if leb least list.capacity then some (true, list) else full

  -- The list, or `none` where it cannot be allocated. `alive` is the answer of `malloc`.
  unfoldable pub create : Bool → Bool → ℕ → Option (Option (Vec E))
  create alive grow initial =
      let empty : Vec E = record { count = 0; capacity = 0; items = [] } in
      let roomy = (do
        (done, list) ← ensure_capacity grow empty initial
        some (if done then some list else none)) in
      if not alive then some none else if ltb 0 initial then roomy else some (some empty)

  -- `str` is `none` where the source is given NULL.
  unfoldable pub append : Bool → Bool → Vec E → Option E → Option (Bool × Vec E)
  unfolding ensure_capacity
  append grow dup list none = some (false, list)
  append grow dup list (some str) = do
    (done, room) ← ensure_capacity grow list (list.count + 1)
    some (
        if not done || not dup then (false, room) else (
          true,
          record room { items = set room.items room.count (some str); count = room.count + 1 },
        ))

  unfoldable pub add : Bool → Bool → Vec E → Option E → Option (Bool × Vec E)
  unfolding append
  add grow dup list str = append grow dup list str

  unfoldable pub insert : Bool → Bool → Vec E → ℕ → Option E → Option (Bool × Vec E)
  unfolding ensure_capacity shift_right
  insert grow dup list index none = some (false, list)
  insert grow dup list index (some str) =
      let inside = (do
        (done, room) ← ensure_capacity grow list (list.count + 1)
        some (
            if not done || not dup then (false, room) else (
              true,
              record room {
                count = room.count + 1;
                items =
                    set (shift_right none (room.count - index) index room.items) index (some str);
              },
            ))) in
      if ltb list.count index then some (false, list) else inside

  unfoldable pub remove : Vec E → ℕ → Bool × Vec E
  unfolding shift_left
  remove list index =
      if leb list.count index
      then (false, list)
      else (let moved = shift_left none (list.count - 1 - index) index list.items in
          (true, record list { count = list.count - 1; items = set moved (list.count - 1) none }))

  unfoldable pub get : Vec E → ℕ → Option E
  get list index = if leb list.count index then none else get_or list.items index none

  -- The slots of the first `n` that are not NULL are freed and set to NULL.
  clear_slots : ℕ → List (Option E) → List (Option E)
  clear_slots zero items = items
  clear_slots (suc n) [] = []
  clear_slots (suc n) (x ∷ items) = none ∷ clear_slots n items

  unfoldable pub clear : Vec E → Vec E
  unfolding clear_slots
  clear list = record list { items = clear_slots list.count list.items; count = 0 }

  unfoldable pub resize : Bool → Vec E → ℕ → Bool × Vec E
  resize grow list new =
      let count = min new list.count in
      if not grow && ltb 0 new then (false, record list { count = count }) else (
        true,
        record {
          count = count;
          capacity = new;
          items = take count list.items ++ replicate (slots new - count) none;
        },
      )
