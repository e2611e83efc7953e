-- ===== src/Util/PrefixMap/Buckets.antt =====
-- The table as a whole: what it means, its invariant, and a write to one bucket.
use bas_c.Common.{
  ℕ, zero, suc, ◌+◌, ◌*◌, ◌%◌, ◌^◌, ◌<◌, ◌≡◌, refl, sym, ap, ◌∙◌, ◌≢◌, false, Option, none, List,
  [], ◌∷◌, arith, Bytes, ◌==◌, if◌then◌else◌, length, get_or, set, replicate, if_elim, ==_iff,
  length-set,
}
use bas_c.Util.PrefixMap.{Chain, PrefixMap, bucket, chain_find, hash_string, hash_loop, char_int}
use bas_c.Util.PrefixMap.Chain.{Distinct}

hash_loop-lt : (h : ℕ) (s : Bytes) → hash_loop h s < 128
unfolding hash_loop
hash_loop-lt h [] = omega arith
hash_loop-lt h (c ∷ s) = hash_loop-lt ((h * 2 ^ 5 % 2 ^ 32 + h + char_int c) % 2 ^ 32) s

pub hash_string-lt : (k : Bytes) → hash_string k < 128
unfolding hash_string
hash_string-lt k = hash_loop-lt 5381 k

differ : (a b : ℕ) → a == b ≡ false → a ≢ b
differ a b p e = ground arith

module _ {ℓ} {A : Type ℓ} where
  pub get_or-set :
      (bs : List (List A)) (i j : ℕ) (c : List A)
      → i < length bs
      → get_or (set bs i c) j [] ≡ (if i == j then c else get_or bs j [])
  get_or-set [] i j c h = absurd (omega arith)
  get_or-set (b ∷ bs) zero zero c h = refl
  get_or-set (b ∷ bs) zero (suc j) c h = ground arith
  get_or-set (b ∷ bs) (suc i) zero c h = ground arith
  get_or-set (b ∷ bs) (suc i) (suc j) c h = get_or-set bs i j c (omega arith) ∙ ground arith

  abbrev pub total : List (List A) → ℕ
  total [] = 0
  total (c ∷ bs) = length c + total bs

  pub total-set :
      (bs : List (List A)) (i : ℕ) (c : List A)
      → i < length bs
      → total (set bs i c) + length (get_or bs i []) ≡ total bs + length c
  total-set [] i c h = absurd (omega arith)
  total-set (b ∷ bs) zero c h = omega arith
  total-set (b ∷ bs) (suc i) c h = omega (arith, total-set bs i c (omega arith))

pub get_or-replicate_nil {ℓ} :
    (A : Type ℓ) (n i : ℕ) → get_or {A = List A} (replicate n []) i [] ≡ []
get_or-replicate_nil A zero i = refl
get_or-replicate_nil A (suc n) zero = refl
get_or-replicate_nil A (suc n) (suc i) = get_or-replicate_nil A n i

pub total-replicate_nil {ℓ} : (A : Type ℓ) (n : ℕ) → total {A = A} (replicate n []) ≡ 0
total-replicate_nil A zero = refl
total-replicate_nil A (suc n) = omega (arith, total-replicate_nil A n)

module _ {ℓ} {V : Type ℓ} where
  -- The map that the table stands for: a key has an entry, with a value that may be NULL, or none.
  unfoldable pub view : PrefixMap V → Bytes → Option (Option V)
  view m j = chain_find j (bucket m (hash_string j))

  -- The table has 128 chains, each entry stands in the chain of its hash, no key stands twice, and
  -- `count` is the number of entries.
  pub record IsValid (m : PrefixMap V) : Type ℓ where
    pub width : length m.buckets ≡ 128
    pub counted : total m.buckets ≡ m.count
    pub placed : (j : Bytes) (i : ℕ) → i ≢ hash_string j → chain_find j (bucket m i) ≡ none
    pub distinct : (i : ℕ) → Distinct (bucket m i)

  abbrev pub write : PrefixMap V → Bytes → Chain V → ℕ → PrefixMap V
  write m k c n = record m { buckets = set m.buckets (hash_string k) c; count = n }

  module _ (m : PrefixMap V) (valid : IsValid m) (k : Bytes) (c : Chain V) (n : ℕ) where
    inside : hash_string k < length m.buckets
    inside = omega (arith, hash_string-lt k, valid.width)

    pub bucket-write :
        (i : ℕ) → bucket (write m k c n) i ≡ (if hash_string k == i then c else bucket m i)
    bucket-write i = get_or-set m.buckets (hash_string k) i c inside

    pub view-write :
        (f : Bytes → Option (Option V))
        → ((j : Bytes) → hash_string k ≡ hash_string j → chain_find j c ≡ f j)
        → ((j : Bytes) → hash_string k ≢ hash_string j → view m j ≡ f j)
        → (j : Bytes) → view (write m k c n) j ≡ f j
    unfolding view
    view-write f near far j =
        ap (chain_find j) (bucket-write (hash_string j))
        ∙ if_elim (λ b. chain_find j b ≡ f j) (hash_string k == hash_string j) c
            (bucket m (hash_string j)) (λ p. near j ((==_iff _ _).0 p)) (λ p. far j (differ _ _ p))

    pub write-IsValid :
        n + length (bucket m (hash_string k)) ≡ m.count + length c
        → ((j : Bytes) → hash_string k ≢ hash_string j → chain_find j c ≡ none)
        → Distinct c
        → IsValid (write m k c n)
    write-IsValid size few d = record {
      width = length-set m.buckets (hash_string k) c ∙ valid.width;
      counted = omega (arith, total-set m.buckets (hash_string k) c inside, valid.counted);
      placed = λ j i ne.
          ap (chain_find j) (bucket-write i)
          ∙ if_elim (λ b. chain_find j b ≡ none) (hash_string k == i) c (bucket m i)
              (λ p. few j (λ e. ne (sym ((==_iff _ _).0 p) ∙ e))) (λ p. valid.placed j i ne);
      distinct = λ i.
          rw (bucket-write i)
            (if_elim Distinct (hash_string k == i) c (bucket m i) (λ p. d) (λ p. valid.distinct i));
    }
