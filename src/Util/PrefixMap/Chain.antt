-- ===== src/Util/PrefixMap/Chain.antt =====
-- One chain: what is found after an entry is replaced, put in front or taken out.
use bas_c.Common.{
  suc, ◌≡◌, refl, ap, ◌⊎◌, inl, inr, true, false, Option, none, some, [], ◌∷◌, arith, Bytes,
  if◌then◌else◌, length, Bool-cases,
}
use bas_c.Base.CString.{str_eq, str_eq_iff}
use bas_c.Util.PrefixMap.{Entry, Chain, chain_find, chain_replace, chain_unlink}

module _ {ℓ} {V : Type ℓ} where
  -- No key stands twice.
  abbrev pub Distinct : Chain V → Type ℓ
  Distinct [] = Unit
  Distinct (e ∷ c) = (chain_find e.key c ≡ none) × Distinct c

  -- What a successful `chain_replace` did: the value that was there, and the chain afterwards.
  pub record Replaced (k : Bytes) (v : Option V) (c : Chain V) (old : Option V) (c' : Chain V)
      : Type ℓ where
    pub ran : chain_replace k v c ≡ some (old, c')
    pub was : chain_find k c ≡ some old
    pub finds : (j : Bytes) → chain_find j c' ≡ (if str_eq k j then some v else chain_find j c)
    pub long : length c' ≡ length c
    pub distinct : Distinct c → Distinct c'

  -- What a successful `chain_unlink` did.
  pub record Unlinked (k : Bytes) (c : Chain V) (old : Option V) (c' : Chain V) : Type ℓ where
    pub ran : chain_unlink k c ≡ some (old, c')
    pub was : chain_find k c ≡ some old
    pub finds :
        Distinct c → (j : Bytes) → chain_find j c' ≡ (if str_eq k j then none else chain_find j c)
    pub long : suc (length c') ≡ length c
    pub distinct : Distinct c → Distinct c'

  chain_replace_here :
      (k : Bytes) (v : Option V) (e : Entry V) (c : Chain V)
      → str_eq e.key k ≡ true
      → Replaced k v (e ∷ c) e.value (record e { value = v } ∷ c)
  unfolding chain_replace chain_find
  chain_replace_here k v e c p = record {
    ran = rw p;
    was = rw p;
    finds = λ j. ground (arith, str_eq_iff e.key k, str_eq_iff k j, str_eq_iff e.key j);
    long = refl;
    distinct = λ d. d;
  }

  chain_replace_there :
      (k : Bytes) (v : Option V) (e : Entry V) (c : Chain V) (old : Option V) (c' : Chain V)
      → str_eq e.key k ≡ false
      → Replaced k v c old c'
      → Replaced k v (e ∷ c) old (e ∷ c')
  unfolding chain_replace chain_find
  chain_replace_there k v e c old c' p r = record {
    ran = rw p (rw r.ran refl);
    was = rw p r.was;
    finds = λ j. ground (arith, r.finds j, str_eq_iff e.key k, str_eq_iff k j, str_eq_iff e.key j);
    long = ap suc r.long;
    distinct = λ d. (
      ground (arith, r.finds e.key, str_eq_iff e.key k, str_eq_iff k e.key, d.0),
      r.distinct d.1,
    );
  }

  -- `chain_replace` succeeds exactly where the key is found.
  pub chain_replace_lem :
      (k : Bytes) (v : Option V) (c : Chain V)
      → ((chain_find k c ≡ none) × (chain_replace k v c ≡ none))
        ⊎ ((old : Option V) × (c' : Chain V) × Replaced k v c old c')
  unfolding chain_replace chain_find
  chain_replace_lem k v [] = inl (refl, refl)
  chain_replace_lem k v (e ∷ c) = elim (Bool-cases (str_eq e.key k)) [
    | inl p ↦ inr (e.value, _, chain_replace_here k v e c p)
    | inr p ↦ elim (chain_replace_lem k v c) [
      | inl (a, b) ↦ inl (rw p a, rw p (rw b refl))
      | inr (old, c', r) ↦ inr (old, e ∷ c', chain_replace_there k v e c old c' p r)
    ]
  ]

  chain_unlink_here :
      (k : Bytes) (e : Entry V) (c : Chain V) → str_eq e.key k ≡ true → Unlinked k (e ∷ c) e.value c
  unfolding chain_unlink chain_find
  chain_unlink_here k e c p = record {
    ran = rw p;
    was = rw p;
    finds = λ d j. ground (arith, d.0, str_eq_iff e.key k, str_eq_iff k j, str_eq_iff e.key j);
    long = refl;
    distinct = λ d. d.1;
  }

  chain_unlink_there :
      (k : Bytes) (e : Entry V) (c : Chain V) (old : Option V) (c' : Chain V)
      → str_eq e.key k ≡ false
      → Unlinked k c old c'
      → Unlinked k (e ∷ c) old (e ∷ c')
  unfolding chain_unlink chain_find
  chain_unlink_there k e c old c' p r = record {
    ran = rw p (rw r.ran refl);
    was = rw p r.was;
    finds = λ d j.
        ground (arith, r.finds d.1 j, str_eq_iff e.key k, str_eq_iff k j, str_eq_iff e.key j);
    long = ap suc r.long;
    distinct = λ d. (ground (arith, r.finds d.1 e.key, str_eq_iff k e.key, d.0), r.distinct d.1);
  }

  -- `chain_unlink` succeeds exactly where the key is found.
  pub chain_unlink_lem :
      (k : Bytes) (c : Chain V)
      → ((chain_find k c ≡ none) × (chain_unlink k c ≡ none))
        ⊎ ((old : Option V) × (c' : Chain V) × Unlinked k c old c')
  unfolding chain_unlink chain_find
  chain_unlink_lem k [] = inl (refl, refl)
  chain_unlink_lem k (e ∷ c) = elim (Bool-cases (str_eq e.key k)) [
    | inl p ↦ inr (e.value, c, chain_unlink_here k e c p)
    | inr p ↦ elim (chain_unlink_lem k c) [
      | inl (a, b) ↦ inl (rw p a, rw p (rw b refl))
      | inr (old, c', r) ↦ inr (old, e ∷ c', chain_unlink_there k e c old c' p r)
    ]
  ]
