-- ===== src/Base/Slots/Shift.antt =====
-- What the two shifting loops do to a list that is split at the index.
use bas_c.Common.{
  ℕ, zero, suc, ◌+◌, ◌≡◌, refl, sym, ap, ◌∙◌, List, [], ◌∷◌, ◌++◌, append_assoc, arith, length,
  get_or, set, length-append, get_or-append, split_last,
}
use bas_c.Base.Slots.{shift_right, shift_left}

module _ {ℓ} {A : Type ℓ} (d : A) where
  shift_right_step :
      (a b : List A) (y j : A) (rest : List A)
      → set
          ((a ++ b) ++ y ∷ j ∷ rest)
          (suc (length (a ++ b)))
          (get_or ((a ++ b) ++ y ∷ j ∷ rest) (length (a ++ b)) d)
        ≡ (a ++ b) ++ y ∷ y ∷ rest
  shift_right_step a b y j rest = rw (get_or-append (a ++ b) y d (j ∷ rest)) (over (a ++ b))
    where
      over : (c : List A) → set (c ++ y ∷ j ∷ rest) (suc (length c)) y ≡ c ++ y ∷ y ∷ rest
      over [] = refl
      over (x ∷ c) = ap (λ t. x ∷ t) (over c)

  regroup :
      (a b b' : List A) (y : A) (rest : List A)
      → b ≡ b' ++ y ∷ []
      → a ++ (b ++ rest) ≡ (a ++ b') ++ y ∷ rest
  regroup a b b' y rest e =
      ap (λ t. a ++ (t ++ rest)) e
      ∙ ap (λ t. a ++ t) (append_assoc b' (y ∷ []) rest)
      ∙ sym (append_assoc a b' (y ∷ rest))

  shift_left_step :
      (a : List A) (x y : A) (rest : List A)
      → set (a ++ x ∷ y ∷ rest) (length a) (get_or (a ++ x ∷ y ∷ rest) (suc (length a)) d)
        ≡ (a ++ y ∷ []) ++ y ∷ rest
  shift_left_step [] x y rest = refl
  shift_left_step (z ∷ a) x y rest = ap (λ t. z ∷ t) (shift_left_step a x y rest)

  -- The slots from the index on move one place to the right, over the slot behind them.
  pub shift_right-append :
      (k : ℕ) (a b : List A) (j : A) (rest : List A) (n : ℕ)
      → n ≡ length a
      → k ≡ length b
      → (x : A) × (shift_right d k n (a ++ (b ++ j ∷ rest)) ≡ a ++ x ∷ (b ++ rest))
  unfolding shift_right
  shift_right-append zero a [] j rest n hn hk = (j, refl)
  shift_right-append zero a (y ∷ b) j rest n hn hk = absurd (omega arith)
  shift_right-append (suc k) a b j rest n hn hk =
      let (b', y, e, l) = split_last k b (sym hk) in
      let here : n + k ≡ length (a ++ b') = omega (arith, length-append a b') in
      let there : n + suc k ≡ suc (length (a ++ b')) = omega (arith, length-append a b') in
      let whole : a ++ (b ++ j ∷ rest) ≡ (a ++ b') ++ y ∷ j ∷ rest =
        regroup a b b' y (j ∷ rest) e in
      let (x, run) = shift_right-append k a b' y (y ∷ rest) n hn (sym l) in
      (
        x,
        ap (shift_right d k n)
              (cc (shift_right_step a b' y j rest, append_assoc a b' (y ∷ y ∷ rest)))
            ∙ run
            ∙ ap (λ t. a ++ x ∷ t) (sym (ap (λ t. t ++ rest) e ∙ append_assoc b' (y ∷ []) rest)),
      )

  -- The slots behind the index move one place to the left.
  pub shift_left-append :
      (b : List A) (a : List A) (x : A) (rest : List A) (n k : ℕ)
      → n ≡ length a
      → k ≡ length b
      → (y : A) × (shift_left d k n (a ++ x ∷ (b ++ rest)) ≡ a ++ (b ++ y ∷ rest))
  unfolding shift_left
  shift_left-append [] a x rest n zero hn hk = (x, refl)
  shift_left-append [] a x rest n (suc k) hn hk = absurd (omega arith)
  shift_left-append (y ∷ b) a x rest n zero hn hk = absurd (omega arith)
  shift_left-append (y ∷ b) a x rest n (suc k) hn hk =
      let next : n + 1 ≡ length (a ++ y ∷ []) = omega (arith, length-append a (y ∷ [])) in
      let next' : n + 1 ≡ suc (length a) = omega arith in
      let (z, run) = shift_left-append b (a ++ y ∷ []) y rest (n + 1) k next (omega arith) in
      (
        z,
        ap (shift_left d k (n + 1)) (cc (shift_left_step a x y (b ++ rest)))
            ∙ run
            ∙ append_assoc a (y ∷ []) (b ++ z ∷ rest),
      )
