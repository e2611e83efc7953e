-- ===== src/Cli/CliParser/Statement/Slots.antt =====
-- The slots of `cmd_argv` in `execute_statement` (src/bas/cli/cli_parser.c).
use bas_c.Common.{
  ℕ, ◌+◌, ◌≤◌, ◌<◌, ◌≡◌, refl, true, false, none, some, List, [], ◌∷◌, arith, Bytes, ltb, length,
  if_same,
}
use bas_c.Cli.CliParser.Statement.{store}

-- Strings that leave a slot for the NULL are all stored.
pub store_inside : (i : ℕ) (args : List Bytes) → i + length args < 65 → store i args ≡ some args
unfolding store
store_inside i [] h = let here : ltb i 65 ≡ true = ground (arith, h) in rw here refl
store_inside i (arg ∷ args) h =
    let here : ltb i 65 ≡ true = ground (arith, h) in
    rw (here, store_inside (i + 1) args (omega (arith, h))) refl

-- One string more is written, or its NULL is, behind the last slot.
pub store_outside : (i : ℕ) (args : List Bytes) → 65 ≤ i + length args → store i args ≡ none
unfolding store
store_outside i [] h = let behind : ltb i 65 ≡ false = ground (arith, h) in rw behind refl
store_outside i (arg ∷ args) h =
    rw (store_outside (i + 1) args (omega (arith, h))) (if_same (ltb i 65) none)
