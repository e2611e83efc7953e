-- ===== src/Proc/Env/Self.antt =====
-- What `self_exe_dup` returns.
use bas_c.Common.{
  ℕ, ◌<◌, min, ◌≡◌, refl, Bool, true, false, Option, none, some, ◌∷◌, arith, Bytes, ltb, ◌==◌,
  length, take, lt→ltb, length-take,
}
use bas_c.Proc.Env.{get_self_exe_path, self_exe_dup, self_exe}

not_zero : (n : ℕ) → 0 < n → (n == 0) ≡ false
not_zero n h = ground (arith, h)

-- A path of the executable that is not empty is cut to 1023 bytes, whatever a larger buffer would
-- get; the first answer is kept.
pub self_exe-take :
    (alive : Bool) (c : ℕ) (path : Bytes) (later : Option Bytes)
    → (self_exe alive (some (c ∷ path)) none
        ≡ (some (take 1023 (c ∷ path)), some (take 1023 (c ∷ path))))
      × (self_exe alive later (self_exe alive (some (c ∷ path)) none).1
          ≡ (some (take 1023 (c ∷ path)), some (take 1023 (c ∷ path))))
unfolding self_exe self_exe_dup get_self_exe_path
self_exe-take alive c path later =
    let kept : length (take 1023 (c ∷ path)) ≡ min 1023 (length (c ∷ path)) =
      length-take 1023 (c ∷ path) in
    let some_there : (length (take 1023 (c ∷ path)) == 0) ≡ false =
      not_zero _ (omega (arith, kept)) in
    let fits : ltb (length (take 1023 (c ∷ path))) 1024 ≡ true =
      lt→ltb _ 1024 (omega (arith, kept)) in
    (rw (some_there, fits) refl, rw (some_there, fits) refl)
