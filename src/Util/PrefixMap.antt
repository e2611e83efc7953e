-- ===== src/Util/PrefixMap.antt =====
-- src/bas/util/prefix_map.c: a table of 128 chains of keys with a value each. A value is a pointer
-- that may be NULL (`none`). A call of `value_destroy` is recorded by the value it is given.
-- The map pointer and the key are not NULL here; with NULL each function returns at once. `alive` is
-- the answer of the `malloc` for an entry; the `str_dup` of its key is taken to succeed.
pub mod Chain
pub mod Buckets
pub mod Laws
pub mod Search
use bas_c.Common.{
  ℕ, ◌+◌, ◌-◌, ◌*◌, ◌%◌, ◌^◌, Bool, true, false, not, ◌&&◌, ◌||◌, Option, none, some, List, [], ◌∷◌,
  ◌++◌, Bytes, ltb, leb, ◌==◌, if◌then◌else◌, length, get_or, set, replicate, ◌>>=◌,
}
use bas_c.Base.CString.{str_eq, strn_eq}

pub record Entry {ℓ} (V : Type ℓ) : Type ℓ where
  pub key : Bytes
  pub value : Option V

abbrev pub Chain {ℓ} : Type ℓ → Type ℓ
Chain V = List (Entry V)

-- `destroy` says whether `value_destroy` is set.
pub record PrefixMap {ℓ} (V : Type ℓ) : Type ℓ where
  pub buckets : List (Chain V)
  pub count : ℕ
  pub destroy : Bool

abbrev pub size : ℕ
size = 128

-- A byte as the `int` that a signed `char` is converted to, modulo 2 ^ 32.
abbrev pub char_int : ℕ → ℕ
char_int c = if ltb c 128 then c else 2 ^ 32 - 256 + c

hash_loop : ℕ → Bytes → ℕ
hash_loop hash [] = hash % size
hash_loop hash (c ∷ s) = hash_loop (((hash * 2 ^ 5 % 2 ^ 32 + hash) + char_int c) % 2 ^ 32) s

unfoldable pub hash_string : Bytes → ℕ
unfolding hash_loop
hash_string s = hash_loop 5381 s

unfoldable pub create_ex {ℓ} : {V : Type ℓ} → Bool → PrefixMap V
create_ex destroy = record { buckets = replicate size []; count = 0; destroy = destroy }

-- With `free` as the function that destroys a value.
unfoldable pub create {ℓ} : {V : Type ℓ} → PrefixMap V
unfolding create_ex
create = create_ex true

-- `int` of a number: cut to 32 bits. An int stands for its distance from the smallest one.
abbrev pub to_int : ℕ → ℕ
to_int n = (n + 2 ^ 31) % 2 ^ 32

abbrev pub zero_int : ℕ
zero_int = 2 ^ 31

-- `int n = strlen(s);`
unfoldable pub int_len : Bytes → ℕ
int_len s = to_int (length s)

-- An int that is passed as a `size_t`.
unfoldable pub size_of_int : ℕ → ℕ
size_of_int n = (n + (2 ^ 64 - 2 ^ 31)) % 2 ^ 64

module _ {ℓ} {V : Type ℓ} where
  -- The calls of `value_destroy` for one value.
  unfoldable pub destroyed : Bool → Option V → List V
  destroyed destroy none = []
  destroyed destroy (some v) = if destroy then v ∷ [] else []

  -- The entry with the key, if the chain has one.
  unfoldable pub chain_find : Bytes → Chain V → Option (Option V)
  chain_find k [] = none
  chain_find k (e ∷ c) = if str_eq e.key k then some e.value else chain_find k c

  -- The first loop of `prefix_map_add`: the value replaced and the chain afterwards.
  unfoldable pub chain_replace : Bytes → Option V → Chain V → Option (Option V × Chain V)
  chain_replace k v [] = none
  chain_replace k v (e ∷ c) =
      let later = (do (old, c') ← chain_replace k v c; some (old, e ∷ c')) in
      if str_eq e.key k then some (e.value, record e { value = v } ∷ c) else later

  -- The loop of `prefix_map_remove`: the value of the entry taken out and the chain afterwards.
  unfoldable pub chain_unlink : Bytes → Chain V → Option (Option V × Chain V)
  chain_unlink k [] = none
  chain_unlink k (e ∷ c) =
      let later = (do (old, c') ← chain_unlink k c; some (old, e ∷ c')) in
      if str_eq e.key k then some (e.value, c) else later

  abbrev pub bucket : PrefixMap V → ℕ → Chain V
  bucket m i = get_or m.buckets i []

  -- The map, and the values destroyed.
  unfoldable pub add : Bool → PrefixMap V → Bytes → Option V → PrefixMap V × List V
  unfolding hash_string chain_replace destroyed
  add alive m k v =
      let h = hash_string k in
      elim (chain_replace k v (bucket m h)) [
        | some r ↦ (record m { buckets = set m.buckets h r.1 }, destroyed m.destroy r.0)
        | none ↦ if not alive then (m, []) else (
          record m {
            buckets = set m.buckets h (record { key = k; value = v } ∷ bucket m h);
            count = m.count + 1;
          },
          [],
        )
      ]

  unfoldable pub get : PrefixMap V → Bytes → Option V
  unfolding hash_string chain_find
  get m k = elim (chain_find k (bucket m (hash_string k))) [ some v ↦ v | none ↦ none ]

  unfoldable pub remove : PrefixMap V → Bytes → Bool × PrefixMap V × List V
  unfolding hash_string chain_unlink destroyed
  remove m k =
      let h = hash_string k in
      elim (chain_unlink k (bucket m h)) [
        | some r ↦ (
          true,
          record m { buckets = set m.buckets h r.1; count = m.count - 1 },
          destroyed m.destroy r.0,
        )
        | none ↦ (false, m, [])
      ]

  unfoldable pub contains : PrefixMap V → Bytes → Bool
  unfolding get
  contains m k = elim (get m k) [ some v ↦ true | none ↦ false ]

  unfoldable pub chain_destroy : Bool → Chain V → List V
  unfolding destroyed
  chain_destroy d [] = []
  chain_destroy d (e ∷ c) = destroyed d e.value ++ chain_destroy d c

  unfoldable pub buckets_destroy : Bool → List (Chain V) → List V
  unfolding chain_destroy
  buckets_destroy d [] = []
  buckets_destroy d (c ∷ bs) = chain_destroy d c ++ buckets_destroy d bs

  unfoldable pub clear : PrefixMap V → PrefixMap V × List V
  unfolding buckets_destroy
  clear m = (
    record m { buckets = replicate (length m.buckets) []; count = 0 },
    buckets_destroy m.destroy m.buckets,
  )

  -- The values destroyed when the map is freed.
  unfoldable pub free : PrefixMap V → List V
  unfolding clear
  free m = (clear m).1

  abbrev pub is_found : Option V → Bool
  is_found none = false
  is_found (some v) = true

  -- One entry in the loops of `prefix_map_find_prefix`; the state is `best_match` and `best_match_len`.
  unfoldable pub better : Bytes → Option V × ℕ → Entry V → Option V × ℕ
  unfolding int_len size_of_int
  better prefix (best, best_len) e =
      let key_len = int_len e.key in
      let prefix_len = int_len prefix in
      if leb prefix_len key_len && strn_eq e.key prefix (size_of_int prefix_len)
      then (if not (is_found best)
            || (key_len == prefix_len || (ltb key_len best_len && leb prefix_len key_len))
          then (e.value, key_len)
          else (best, best_len))
      else (best, best_len)

  search_chain : Bytes → Option V × ℕ → Chain V → Option V × ℕ
  unfolding better
  search_chain prefix best [] = best
  search_chain prefix best (e ∷ c) = search_chain prefix (better prefix best e) c

  search_buckets : Bytes → Option V × ℕ → List (Chain V) → Option V × ℕ
  unfolding search_chain
  search_buckets prefix best [] = best
  search_buckets prefix best (c ∷ bs) = search_buckets prefix (search_chain prefix best c) bs

  unfoldable pub find_prefix : PrefixMap V → Bytes → Option V
  unfolding search_buckets
  find_prefix m prefix = (search_buckets prefix (none, zero_int) m.buckets).0

  -- A callback takes a state and returns whether to stop; the `true` in a result is that it did.
  unfoldable pub visit_chain {κ} :
      {S : Type κ} → (Bytes → Option V → S → Bool × S) → Chain V → S → Bool × S
  visit_chain call [] s = (false, s)
  visit_chain call (e ∷ c) s =
      let (stop, s') = call e.key e.value s in
      let rest = visit_chain call c s' in if stop then (true, s') else rest

  unfoldable pub visit_buckets {κ} :
      {S : Type κ} → (Bytes → Option V → S → Bool × S) → List (Chain V) → S → Bool × S
  unfolding visit_chain
  visit_buckets call [] s = (false, s)
  visit_buckets call (c ∷ bs) s =
      let (stop, s') = visit_chain call c s in
      let rest = visit_buckets call bs s' in if stop then (true, s') else rest

  unfoldable pub foreach {κ} :
      {S : Type κ} → (Bytes → Option V → S → Bool × S) → PrefixMap V → S → S
  unfolding visit_buckets
  foreach call m s = (visit_buckets call m.buckets s).1
