-- ===== src/Util/PrefixMap/Laws.antt =====
-- The operations on one key, against the map that the table stands for.
use bas_c.Common.{
  subst, ℕ, zero, suc, ◌+◌, ◌-◌, ◌≤◌, ◌≡◌, refl, ap, ◌∙◌, ◌≢◌, inl, inr, Bool, true, false, Option,
  none, some, List, [], ◌∷◌, arith, Bytes, leb, if◌then◌else◌, length, get_or, Bool-cases, if_elim,
  length-replicate,
}
use bas_c.Base.CString.{str_eq, str_eq→eq, str_eq_refl}
use bas_c.Util.PrefixMap.{is_found}
use bas_c.Util.PrefixMap.{
  Entry, Chain, PrefixMap, bucket, chain_find, hash_string, create_ex, add, get, remove, contains,
  destroyed, clear, buckets_destroy,
}
use bas_c.Util.PrefixMap.Chain.{Distinct, Replaced, Unlinked, chain_replace_lem, chain_unlink_lem}
use bas_c.Util.PrefixMap.Buckets.{
  view, IsValid, write, view-write, write-IsValid, total, get_or-replicate_nil, total-replicate_nil,
}

apart : (j k : Bytes) → hash_string k ≢ hash_string j → str_eq k j ≡ false
apart j k ne = elim (Bool-cases (str_eq k j)) [
  | inl p ↦ absurd (ne (ap hash_string (str_eq→eq k j p)))
  | inr p ↦ p
]

module _ {ℓ} {V : Type ℓ} where
  -- A new map is valid and has no entry.
  pub create_ex-IsValid :
      (destroy : Bool)
      → IsValid (create_ex {V = V} destroy)
        × ((j : Bytes) → view (create_ex {V = V} destroy) j ≡ none)
  unfolding create_ex view chain_find
  create_ex-IsValid destroy = (
    record {
      width = length-replicate {A = Chain V} 128 [];
      counted = total-replicate_nil (Entry V) 128;
      placed = λ j i ne. rw (get_or-replicate_nil (Entry V) 128 i);
      distinct = λ i. rw (get_or-replicate_nil (Entry V) 128 i) tt;
    },
    λ j. rw (get_or-replicate_nil (Entry V) 128 (hash_string j)),
  )

  abbrev pub present : Option (Option V) → ℕ
  present none = 0
  present (some v) = 1

  abbrev pub released : Bool → Option (Option V) → List V
  released destroy none = []
  released destroy (some v) = destroyed destroy v

  -- A write of `new` at the key `k`: the rest of the map is as before, the entry that the key had is
  -- no longer there, its value is destroyed, and the entries are counted.
  pub record Writes (m : PrefixMap V) (k : Bytes) (new : Option (Option V)) (m' : PrefixMap V)
      (out : List V) : Type ℓ where
    pub valid : IsValid m'
    pub reads : (j : Bytes) → view m' j ≡ (if str_eq k j then new else view m j)
    pub counted : m'.count + present (view m k) ≡ m.count + present new
    pub freed : out ≡ released m.destroy (view m k)

  -- A chain with the entries of `f` in the place of the key's chain, where `f` changes the key alone.
  put_chain :
      (m : PrefixMap V) (k : Bytes) (new : Option (Option V)) (c : Chain V) (n : ℕ)
      → IsValid m
      → ((j : Bytes)
          → chain_find j c ≡ (if str_eq k j then new else chain_find j (bucket m (hash_string k))))
      → Distinct c
      → n + length (bucket m (hash_string k)) ≡ m.count + length c
      → IsValid (write m k c n)
        × ((j : Bytes) → view (write m k c n) j ≡ (if str_eq k j then new else view m j))
  unfolding view
  put_chain m k new c n valid finds d size = (
    write-IsValid m valid k c n size
        (λ j ne. finds j ∙ rw (apart j k ne) (valid.placed j (hash_string k) ne)) d,
    view-write m valid k c n (λ j. if str_eq k j then new else view m j)
        (λ j same. finds j ∙ rw (← same) refl) (λ j ne. rw (apart j k ne) refl),
  )

  add_new-Writes :
      (m : PrefixMap V) (k : Bytes) (v : Option V)
      → IsValid m
      → chain_find k (bucket m (hash_string k)) ≡ none
      → Writes m k
          (some v)
          (write m k (record { key = k; value = v } ∷ bucket m (hash_string k)) (m.count + 1))
          []
  unfolding view chain_find
  add_new-Writes m k v valid e =
      let (valid', reads) =
        put_chain m k (some v) _ (m.count + 1) valid (λ j. refl) (e, valid.distinct (hash_string k))
          (omega arith) in
      record { valid = valid'; reads = reads; counted = rw e (omega arith); freed = rw e refl }

  add_old-Writes :
      (m : PrefixMap V) (k : Bytes) (v old : Option V) (c' : Chain V)
      → IsValid m
      → Replaced k v (bucket m (hash_string k)) old c'
      → Writes m k (some v) (write m k c' m.count) (destroyed m.destroy old)
  unfolding view
  add_old-Writes m k v old c' valid r =
      let (valid', reads) =
        put_chain m k (some v) c' m.count valid r.finds
          (r.distinct (valid.distinct (hash_string k))) (omega (arith, r.long)) in
      record {
        valid = valid';
        reads = reads;
        counted = rw r.was (omega arith);
        freed = rw r.was refl;
      }

  -- With memory, `add` keeps the table valid, writes the value at its key and at no other, destroys
  -- the value that it replaces, and counts a new key.
  pub add-Writes :
      (m : PrefixMap V) (k : Bytes) (v : Option V)
      → IsValid m
      → Writes m k (some v) (add true m k v).0 (add true m k v).1
  unfolding add
  add-Writes m k v valid = elim (chain_replace_lem k v (bucket m (hash_string k))) [
    | inl (e, ran) ↦ rw (ran, add) (add_new-Writes m k v valid e)
    | inr (old, c', r) ↦ rw (r.ran, add) (add_old-Writes m k v old c' valid r)
  ]

  bucket-le-total : (bs : List (Chain V)) (i : ℕ) → length (get_or bs i []) ≤ total bs
  bucket-le-total [] i = omega arith
  bucket-le-total (c ∷ bs) zero = omega arith
  bucket-le-total (c ∷ bs) (suc i) = omega (arith, bucket-le-total bs i)

  remove_old-Writes :
      (m : PrefixMap V) (k : Bytes) (old : Option V) (c' : Chain V)
      → IsValid m
      → Unlinked k (bucket m (hash_string k)) old c'
      → Writes m k none (write m k c' (m.count - 1)) (destroyed m.destroy old)
  unfolding view
  remove_old-Writes m k old c' valid r =
      let d = valid.distinct (hash_string k) in
      let size : 1 ≤ m.count =
        omega (arith, r.long, bucket-le-total m.buckets (hash_string k), valid.counted) in
      let (valid', reads) =
        put_chain m k none c' (m.count - 1) valid (r.finds d) (r.distinct d)
          (omega (arith, r.long, size)) in
      record {
        valid = valid';
        reads = reads;
        counted = rw r.was (omega (arith, size));
        freed = rw r.was refl;
      }

  remove_none-Writes :
      (m : PrefixMap V) (k : Bytes) → IsValid m → view m k ≡ none → Writes m k none m []
  unfolding view
  remove_none-Writes m k valid e = record {
    valid = valid;
    reads = λ j.
        if_elim (λ t. chain_find j (bucket m (hash_string j)) ≡ t) (str_eq k j) none
          (chain_find j (bucket m (hash_string j)))
          (λ p. subst (λ t. view m t ≡ none) (str_eq→eq k j p) e) (λ p. refl);
    counted = rw e (omega arith);
    freed = rw e refl;
  }

  -- `remove` keeps the table valid, takes the key out and no other, destroys its value, counts one
  -- entry less if there was one, and returns whether there was.
  pub remove-Writes :
      (m : PrefixMap V) (k : Bytes)
      → IsValid m
      → Writes m k none (remove m k).1 (remove m k).2
        × ((remove m k).0 ≡ leb 1 (present (view m k)))
  unfolding remove view
  remove-Writes m k valid = elim (chain_unlink_lem k (bucket m (hash_string k))) [
    | inl (e, ran) ↦ rw (ran, remove) (remove_none-Writes m k valid e, rw e refl)
    | inr (old, c', r) ↦ rw (r.ran, remove) (remove_old-Writes m k old c' valid r, rw r.was refl)
  ]

  abbrev pub joined : Option (Option V) → Option V
  joined none = none
  joined (some v) = v

  get-view : (m : PrefixMap V) (k : Bytes) → get m k ≡ joined (view m k)
  unfolding get view
  get-view m k = ground arith

  joined-if :
      (b : Bool) (x y : Option (Option V))
      → joined (if b then x else y) ≡ (if b then joined x else joined y)
  joined-if true x y = refl
  joined-if false x y = refl

  pub contains_lem : (m : PrefixMap V) (k : Bytes) → contains m k ≡ is_found (get m k)
  unfolding contains
  contains_lem m k = ground arith

  -- `get` after `add` and `remove`: the new value at the key (NULL after `remove`), and at every
  -- other key what was there; `contains` says of the key added whether its value is not NULL.
  pub get-add-remove :
      (m : PrefixMap V) (k j : Bytes) (v : Option V)
      → IsValid m
      → (get (add true m k v).0 j ≡ (if str_eq k j then v else get m j))
        × (get (remove m k).1 j ≡ (if str_eq k j then none else get m j))
        × (contains (add true m k v).0 k ≡ is_found v)
  get-add-remove m k j v valid =
      let a = add-Writes m k v valid in
      let r = (remove-Writes m k valid).0 in
      let back : get m j ≡ joined (view m j) = get-view m j in
      (
        get-view _ j
            ∙ ap joined (a.reads j)
            ∙ joined-if (str_eq k j) (some v) (view m j)
            ∙ rw back refl,
        get-view _ j
            ∙ ap joined (r.reads j)
            ∙ joined-if (str_eq k j) none (view m j)
            ∙ rw back refl,
        contains_lem _ k
            ∙ ap is_found (get-view _ k ∙ ap joined (a.reads k) ∙ rw (str_eq_refl k) refl),
      )

  -- `clear` keeps the table valid, leaves no entry, and destroys the value of every entry.
  pub clear-IsValid :
      (m : PrefixMap V)
      → IsValid m
      → IsValid (clear m).0
        × ((j : Bytes) → view (clear m).0 j ≡ none)
        × ((clear m).1 ≡ buckets_destroy m.destroy m.buckets)
  unfolding clear view chain_find
  clear-IsValid m valid = (
    record {
      width = length-replicate {A = Chain V} (length m.buckets) [] ∙ valid.width;
      counted = total-replicate_nil (Entry V) (length m.buckets);
      placed = λ j i ne. rw (get_or-replicate_nil (Entry V) (length m.buckets) i);
      distinct = λ i. rw (get_or-replicate_nil (Entry V) (length m.buckets) i) tt;
    },
    λ j. rw (get_or-replicate_nil (Entry V) (length m.buckets) (hash_string j)),
    refl,
  )
