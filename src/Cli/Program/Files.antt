-- ===== src/Cli/Program/Files.antt =====
-- The loop of `process_files` (src/bas/cli/program.c) stays at the first file.
use bas_c.Common.{
  ℕ, zero, suc, ◌≡◌, refl, ◌⊎◌, inl, inr, Bool, true, false, not, ◌&&◌, none, List, ◌∷◌, Bytes,
}
use bas_c.Cli.Program.{Caller, one_file, file_loop, process_files}

module _ {ℓ} {W : Type ℓ} (caller : Caller W) (path : Bytes) where
  -- The file can be opened and its handler succeeds, each time.
  abbrev pub IsGood : Type ℓ
  IsGood = (w : W) → (one_file caller path false w).0 ≡ false

  go_on_forever :
      (f c : ℕ) (s : Bytes) (err : Bool) (w : W)
      → path ≡ c ∷ s
      → file_loop caller true f (c ∷ s) err w ≡ none
  unfolding file_loop
  go_on_forever zero c s err w e = refl
  go_on_forever (suc f) c s err w e =
      rw (never (one_file caller (c ∷ s) err w).0) (go_on_forever f c s _ _ e)
    where
      never : (b : Bool) → (b && not true) ≡ false
      never true = refl
      never false = refl

  good_forever :
      (f c : ℕ) (s : Bytes) (w : W)
      → path ≡ c ∷ s
      → IsGood
      → (go_on : Bool) → file_loop caller go_on f (c ∷ s) false w ≡ none
  unfolding file_loop
  good_forever zero c s w e h go_on = refl
  good_forever (suc f) c s w e h go_on = rw (← e, h w, e) (good_forever f c s _ e h go_on)

-- For any number of rounds `process_files` does not come back from its first file, if its name is not
-- empty and errors do not end the loop, or the handler succeeds on it each time.
pub process_files-none {ℓ} :
    {W : Type ℓ} (caller : Caller W) (go_on : Bool) (rounds c : ℕ) (s : Bytes) (paths : List Bytes)
    (w : W)
    → (go_on ≡ true) ⊎ IsGood caller (c ∷ s)
    → process_files caller go_on rounds ((c ∷ s) ∷ paths) w ≡ none
unfolding process_files
process_files-none caller go_on rounds c s paths w (inl e) =
    rw e (go_on_forever caller (c ∷ s) rounds c s false w refl)
process_files-none caller go_on rounds c s paths w (inr h) =
    good_forever caller (c ∷ s) rounds c s w refl h go_on
