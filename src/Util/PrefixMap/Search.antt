-- ===== src/Util/PrefixMap/Search.antt =====
-- `prefix_map_find_prefix` finds a key with the prefix that is as short as any.
use bas_c.Common.{
  ℕ, ◌+◌, ◌^◌, ◌≤◌, ◌<◌, ◌≡◌, refl, sym, ap, ◌∙◌, subst, ◌⊎◌, inl, inr, Bool, true, false, not,
  ◌&&◌, ◌||◌, Option, none, List, [], ◌∷◌, ◌++◌, arith, Bytes, ltb, leb, ◌==◌, if◌then◌else◌,
  length, All, Bool-cases,
}
use bas_c.Base.CString.{strn_eq}
use bas_c.Util.PrefixMap.{
  Entry, Chain, PrefixMap, is_found, better, zero_int, int_len, size_of_int, search_chain,
  search_buckets, find_prefix,
}

int_len_lem : (s : Bytes) → length s < 2 ^ 31 → int_len s ≡ length s + 2 ^ 31
unfolding int_len
int_len_lem s h = omega (arith, h)

size_of_int_lem : (n : ℕ) → n < 2 ^ 31 → size_of_int (n + 2 ^ 31) ≡ n
unfolding size_of_int
size_of_int_lem n h = omega (arith, h)

leb_int : (a b : ℕ) → leb (a + 2 ^ 31) (b + 2 ^ 31) ≡ leb a b
leb_int a b = ground arith

ltb_int : (a b : ℕ) → ltb (a + 2 ^ 31) (b + 2 ^ 31) ≡ ltb a b
ltb_int a b = ground arith

eq_int : (a b : ℕ) → (a + 2 ^ 31 == b + 2 ^ 31) ≡ (a == b)
eq_int a b = ground arith

module _ {ℓ} {V : Type ℓ} where
  -- The test of the loop: the key begins with the prefix.
  abbrev pub matches : Bytes → Entry V → Bool
  matches prefix e = leb (length prefix) (length e.key) && strn_eq e.key prefix (length prefix)

  -- All entries, in the order of the two loops.
  abbrev pub entries : List (Chain V) → Chain V
  entries [] = []
  entries (c ∷ bs) = c ++ entries bs

  search_chain-append :
      (prefix : Bytes) (best : Option V × ℕ) (c d : Chain V)
      → search_chain prefix best (c ++ d) ≡ search_chain prefix (search_chain prefix best c) d
  unfolding search_chain
  search_chain-append prefix best [] d = refl
  search_chain-append prefix best (e ∷ c) d = search_chain-append prefix (better prefix best e) c d

  search_buckets-entries :
      (prefix : Bytes) (best : Option V × ℕ) (bs : List (Chain V))
      → search_buckets prefix best bs ≡ search_chain prefix best (entries bs)
  unfolding search_buckets search_chain
  search_buckets-entries prefix best [] = refl
  search_buckets-entries prefix best (c ∷ bs) =
      search_buckets-entries prefix (search_chain prefix best c) bs
      ∙ sym (search_chain-append prefix best c (entries bs))

  -- A match is preferred to the one at hand, if there is one, of this length.
  abbrev preferred : Bytes → Option V × ℕ → Entry V → Bool
  preferred prefix (best, best_len) e =
      not (is_found best)
      || (length e.key == length prefix
          || (ltb (length e.key) best_len && leb (length prefix) (length e.key)))

  -- The round of the loop on lengths that are numbers.
  unfoldable shorter : Bytes → Option V × ℕ → Entry V → Option V × ℕ
  shorter prefix best e =
      if matches prefix e
      then (if preferred prefix best e then (e.value, length e.key) else best)
      else best

  unfoldable pick : Bytes → Option V × ℕ → Chain V → Option V × ℕ
  unfolding shorter
  pick prefix best [] = best
  pick prefix best (e ∷ c) = pick prefix (shorter prefix best e) c

  -- The keys are shorter than 2 ^ 31 bytes.
  abbrev pub AllShort : Chain V → Type 0
  AllShort = All (λ e. length e.key < 2 ^ 31)

  -- The state with the length as an int.
  abbrev as_int : Option V × ℕ → Option V × ℕ
  as_int (v, n) = (v, n + zero_int)

  as_int_if :
      (a b : Bool) (x y : Option V × ℕ)
      → (if a then (if b then as_int x else as_int y) else as_int y)
        ≡ as_int (if a then (if b then x else y) else y)
  as_int_if true true x y = refl
  as_int_if true false x y = refl
  as_int_if false b x y = refl

  better-shorter :
      (prefix : Bytes) (v : Option V) (n : ℕ) (e : Entry V)
      → length prefix < 2 ^ 31
      → length e.key < 2 ^ 31
      → better prefix (v, n + 2 ^ 31) e ≡ as_int (shorter prefix (v, n) e)
  unfolding better shorter
  better-shorter prefix v n e h k =
      rw
        (
          int_len_lem prefix h,
          int_len_lem e.key k,
          size_of_int_lem (length prefix) h,
          leb_int (length prefix) (length e.key),
          ltb_int (length e.key) n,
          eq_int (length e.key) (length prefix),
        )
        (as_int_if (matches prefix e) (preferred prefix (v, n) e) (e.value, length e.key) (v, n))

  search_chain-pick :
      (prefix : Bytes) (best : Option V × ℕ) (c : Chain V)
      → length prefix < 2 ^ 31
      → AllShort c
      → search_chain prefix (as_int best) c ≡ as_int (pick prefix best c)
  unfolding search_chain pick
  search_chain-pick prefix best [] h k = refl
  search_chain-pick prefix (v, n) (e ∷ c) h (k, ks) =
      ap (λ q. search_chain prefix q c) (better-shorter prefix v n e h k)
      ∙ search_chain-pick prefix (shorter prefix (v, n) e) c h ks

  -- An entry of the list begins with the prefix, and has this value and this length of its key.
  pub data Has (prefix : Bytes) : Chain V → Option V → ℕ → Type ℓ where
    here :
        {e : Entry V} {c : Chain V} {v : Option V} {n : ℕ}
        → matches prefix e ≡ true
        → v ≡ e.value
        → n ≡ length e.key
        → Has prefix (e ∷ c) v n
    there :
        {e : Entry V} {c : Chain V} {v : Option V} {n : ℕ}
        → Has prefix c v n
        → Has prefix (e ∷ c) v n

  -- One round with a match at hand: the new one is one of the two, and no longer than either.
  record Round (prefix : Bytes) (v : Option V) (n : ℕ) (e : Entry V) (r : Option V × ℕ)
      : Type ℓ where
    found : is_found r.0 ≡ true
    least_prefix : length prefix ≤ r.1
    below : r.1 ≤ n
    least : matches prefix e ≡ true → r.1 ≤ length e.key
    from :
        ((r.0 ≡ v) × (r.1 ≡ n))
        ⊎ ((matches prefix e ≡ true) × (r.0 ≡ e.value) × (r.1 ≡ length e.key))

  shorter-Round :
      (prefix : Bytes) (v : Option V) (n : ℕ) (e : Entry V)
      → is_found v ≡ true
      → length prefix ≤ n
      → is_found e.value ≡ true
      → Round prefix v n e (shorter prefix (v, n) e)
  unfolding shorter
  shorter-Round prefix v n e h low real = record {
    found = ground arith;
    least_prefix = ground arith;
    below = ground arith;
    least = ground arith;
    from = ground arith;
  }

  -- A match at hand was the shortest so far; afterwards it is the shortest of all.
  record Rest (prefix : Bytes) (v : Option V) (n : ℕ) (es : Chain V) (r : Option V × ℕ)
      : Type ℓ where
    found : is_found r.0 ≡ true
    below : r.1 ≤ n
    least : All (λ e. matches prefix e ≡ true → r.1 ≤ length e.key) es
    from : ((r.0 ≡ v) × (r.1 ≡ n)) ⊎ Has prefix es r.0 r.1

  abbrev pub AllReal : Chain V → Type 0
  AllReal = All (λ e. is_found e.value ≡ true)

  pick-Rest :
      (prefix : Bytes) (v : Option V) (n : ℕ) (es : Chain V)
      → is_found v ≡ true
      → length prefix ≤ n
      → AllReal es
      → Rest prefix v n es (pick prefix (v, n) es)
  unfolding pick
  pick-Rest prefix v n [] h low real = record {
    found = h;
    below = omega arith;
    least = tt;
    from = inl (refl, refl);
  }
  pick-Rest prefix v n (e ∷ es) h low (real, reals) =
      let r = shorter prefix (v, n) e in
      let s = shorter-Round prefix v n e h low real in
      let t = pick-Rest prefix r.0 r.1 es s.found s.least_prefix reals in
      record {
        found = t.found;
        below = omega (arith, t.below, s.below);
        least = (λ m. omega (arith, t.below, s.least m), t.least);
        from = origin r s.from (pick prefix r es) t.from;
      }
    where
      origin :
          (r : Option V × ℕ)
          → ((r.0 ≡ v) × (r.1 ≡ n))
            ⊎ ((matches prefix e ≡ true) × (r.0 ≡ e.value) × (r.1 ≡ length e.key))
          → (q : Option V × ℕ) → ((q.0 ≡ r.0) × (q.1 ≡ r.1)) ⊎ Has prefix es q.0 q.1
          → ((q.0 ≡ v) × (q.1 ≡ n)) ⊎ Has prefix (e ∷ es) q.0 q.1
      origin r a q (inr b) = inr (there b)
      origin r (inl (a, a')) q (inl (b, b')) = inl (b ∙ a, b' ∙ a')
      origin r (inr (m, a, a')) q (inl (b, b')) = inr (here m (b ∙ a) (b' ∙ a'))

  -- What the search returns: NULL if no entry begins with the prefix, and else the value of an entry
  -- whose key is as short as any.
  abbrev pub Finds : Bytes → Chain V → Option V → Type ℓ
  Finds prefix es r =
      ((r ≡ none) × All (λ e. matches prefix e ≡ false) es)
      ⊎ ((n : ℕ) × Has prefix es r n × All (λ e. matches prefix e ≡ true → n ≤ length e.key) es)

  shorter_first :
      (prefix : Bytes) (e : Entry V)
      → matches prefix e ≡ true
      → shorter prefix (none, 0) e ≡ (e.value, length e.key)
  unfolding shorter
  shorter_first prefix e m = ground arith

  shorter_skip :
      (prefix : Bytes) (e : Entry V) (best : Option V × ℕ)
      → matches prefix e ≡ false
      → shorter prefix best e ≡ best
  unfolding shorter
  shorter_skip prefix e best m = ground arith

  pick-Finds :
      (prefix : Bytes) (es : Chain V) → AllReal es → Finds prefix es (pick prefix (none, 0) es).0
  unfolding pick
  pick-Finds prefix [] real = inl (refl, tt)
  pick-Finds prefix (e ∷ es) (real, reals) = elim (Bool-cases (matches prefix e)) [
    | inl m ↦
        let t = pick-Rest prefix e.value (length e.key) es real (ground arith) reals in
        subst (λ q. Finds prefix (e ∷ es) (pick prefix q es).0) (sym (shorter_first prefix e m))
          (inr (
            (pick prefix (e.value, length e.key) es).1,
            first e es m (pick prefix (e.value, length e.key) es) t.from,
            (λ _. t.below, t.least),
          ))
    | inr m ↦
        subst (λ q. Finds prefix (e ∷ es) (pick prefix q es).0)
          (sym (shorter_skip prefix e (none, 0) m)) (more e es m _ (pick-Finds prefix es reals))
  ]
    where
      first :
          (e : Entry V) (es : Chain V)
          → matches prefix e ≡ true
          → (q : Option V × ℕ) → ((q.0 ≡ e.value) × (q.1 ≡ length e.key)) ⊎ Has prefix es q.0 q.1
          → Has prefix (e ∷ es) q.0 q.1
      first e es m q (inl (b, b')) = here m b b'
      first e es m q (inr b) = there b

      more :
          (e : Entry V) (es : Chain V)
          → matches prefix e ≡ false
          → (r : Option V) → Finds prefix es r
          → Finds prefix (e ∷ es) r
      more e es m r (inl (a, b)) = inl (a, (m, b))
      more e es m r (inr (n, a, b)) = inr (n, there a, (λ p. absurd (cc), b))

  -- If no entry has a NULL value, and the prefix and all keys are shorter than 2 ^ 31 bytes,
  -- `find_prefix` returns NULL exactly where no key begins with the prefix, and else the value of an
  -- entry whose key is as short as any that begins with it.
  pub find_prefix-Finds :
      (m : PrefixMap V) (prefix : Bytes)
      → AllReal (entries m.buckets)
      → length prefix < 2 ^ 31
      → AllShort (entries m.buckets)
      → Finds prefix (entries m.buckets) (find_prefix m prefix)
  unfolding find_prefix
  find_prefix-Finds m prefix real h short =
      subst (λ q. Finds prefix (entries m.buckets) q.0)
        (sym (
          search_buckets-entries prefix (none, zero_int) m.buckets
          ∙ search_chain-pick prefix (none, 0) (entries m.buckets) h short))
        (pick-Finds prefix (entries m.buckets) real)
