-- ===== src/Cli/Alloc.antt =====
-- Code that allocates: a call takes the answers of `malloc` and `realloc` that are to come.
use bas_c.Common.{Bool, true, false, Option, none, some, [], ◌∷◌}
use bas_c.Base.Getline.{Answers}

-- `failed` is the result -1, `double_free` undefined behaviour, `out_of_fuel` belongs to the model.
pub data Result {ℓ} (A : Type ℓ) : Type ℓ where
  ok : A → Result A
  failed double_free out_of_fuel : Result A

abbrev pub bind {ℓ κ} : {A : Type ℓ} {B : Type κ} → Result A → (A → Result B) → Result B
bind (ok a) f = f a
bind failed f = failed
bind double_free f = double_free
bind out_of_fuel f = out_of_fuel

abbrev pub M {ℓ} : Type ℓ → Type ℓ
M A = Answers → Result (A × Answers)

abbrev pub pure {ℓ} : {A : Type ℓ} → A → M A
pure a an = ok (a, an)

abbrev pub stop {ℓ} : {A : Type ℓ} → Result (A × Answers) → M A
stop r an = r

-- `none` of a loop on fuel.
abbrev pub fueled {ℓ} : {A : Type ℓ} → Option A → M A
fueled (some a) = pure a
fueled none = stop out_of_fuel

module _ {ℓ κ} {A : Type ℓ} {B : Type κ} where
  infixl 5 ◌>>=◌ ◌>>◌
  abbrev pub ◌>>=◌ : M A → (A → M B) → M B
  p >>= f = λ an. bind (p an) λ (a, later). f a later

  abbrev pub ◌>>◌ : M A → M B → M B
  p >> q = p >>= λ _. q

-- The answer of one `malloc` or `realloc`.
unfoldable pub ask : M Bool
ask [] = ok (true, [])
ask (a ∷ an) = ok (a, an)

-- One whose failure is the failure of the call.
unfoldable pub alloc : M (Unit {0})
alloc [] = ok (tt, [])
alloc (true ∷ an) = ok (tt, an)
alloc (false ∷ an) = failed

-- A result that is a value has the property.
abbrev pub IfOk {ℓ κ} : {A : Type ℓ} → (A → Type κ) → Result (A × Answers) → Type κ
IfOk P (ok a) = P a.0
IfOk P failed = Unit
IfOk P double_free = Unit
IfOk P out_of_fuel = Unit

pub IfOk-bind {ℓ κ ℓ' κ'} :
    {A : Type ℓ} {B : Type ℓ'} (P : A → Type κ) (Q : B → Type κ') (r : Result (A × Answers))
    (f : A → M B)
    → IfOk P r
    → ((a : A) (an : Answers) → P a → IfOk Q (f a an))
    → IfOk Q (bind r (λ (a, later). f a later))
IfOk-bind P Q (ok (a, an)) f h k = k a an h
IfOk-bind P Q failed f h k = tt
IfOk-bind P Q double_free f h k = tt
IfOk-bind P Q out_of_fuel f h k = tt
