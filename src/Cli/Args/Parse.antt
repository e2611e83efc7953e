-- ===== src/Cli/Args/Parse.antt =====
-- `args_parse` and `args_parse_to_list` of src/bas/cli/args.c.
pub mod Words
pub mod Whole
pub mod Failure
use bas_c.Common.{
  ℕ, zero, suc, ◌+◌, ◌*◌, ◌%◌, ◌^◌, Bool, true, false, Option, none, some, List, [], ◌∷◌, ◌++◌,
  Bytes, leb, if◌then◌else◌, length,
}
use bas_c.Base.Slots.{Vec}
use bas_c.Cli.Alloc.{failed, double_free, out_of_fuel, M, pure, stop, ◌>>=◌, ◌>>◌, ask, alloc}
use bas_c.Cli.Args.Word.{skip_whitespace, parse_arg}
use bas_c.Cli.Args.Brace.{expanded, unchanged, refused, contains_brace, expand_brace}
use bas_c.Cli.Args.Wildcard.{Enum, contains_wildcard, expand_wildcard, list_append, list_create}

-- `if (raw_count >= raw_capacity) { raw_capacity *= 2; realloc }`
unfoldable pub room : ℕ → ℕ → M ℕ
unfolding alloc
room count capacity =
    if leb capacity count then (do alloc; pure (capacity * 2 % 2 ^ 64)) else pure capacity

-- `while (*p)`: the arguments from `p` on, behind the `count` that there are. Each takes a byte.
unfoldable pub parse_raw : ℕ → Bytes → ℕ → ℕ → M (List Bytes)
parse_raw zero p count capacity = stop out_of_fuel
parse_raw (suc fuel) p count capacity = elim (skip_whitespace p) [
  | [] ↦ pure []
  | c ∷ s ↦ (do
    word ← parse_arg (c ∷ s)
    elim word.text [
      | some arg ↦ (do
        larger ← room count capacity
        rest ← parse_raw fuel word.rest (count + 1) larger
        pure (arg ∷ rest))
      | none ↦ pure []
    ])
]

-- `args`, its `count` slots in use and its `capacity`.
pub record Args : Type 0 where
  pub args : List Bytes
  pub capacity : ℕ

-- One more argument. Where the array cannot grow, the strings that are at hand and those in `args` are
-- freed; `shared` says whether one of them is freed twice.
unfoldable pub push : Bool → Args → Bytes → M Args
unfolding ask
push shared a arg =
    if leb a.capacity (length a.args)
    then (do
      there ← ask
      elim there [
        | true ↦ pure (record { args = a.args ++ arg ∷ []; capacity = a.capacity * 2 % 2 ^ 64 })
        | false ↦ stop (if shared then double_free else failed)
      ])
    else pure (record a { args = a.args ++ arg ∷ [] })

-- The loop over the matches; those that are in `args` stay in the array of the matches.
unfoldable pub push_matches : Bool → Args → List Bytes → M Args
push_matches shared a [] = pure a
push_matches shared a (m ∷ ms) = do a' ← push shared a m; push_matches true a' ms

-- The array ends with NULL, for which there must be a slot.
unfoldable pub finish_args : Args → M (List Bytes)
unfolding alloc
finish_args a = if leb a.capacity (length a.args) then (do alloc; pure a.args) else pure a.args

module _ (fnmatch : Bytes → Bytes → Bool) (enum : Option Enum) (current : Option Bytes) where
  -- The matches of an argument in its place; itself where there are none, or on failure.
  unfoldable pub add_wild : Bool → Args → Bytes → M Args
  add_wild shared a arg =
      if contains_wildcard arg
      then (do
        matches ← expand_wildcard fnmatch current enum arg
        elim matches [
          | some (m ∷ ms) ↦ push_matches shared a (m ∷ ms)
          | some [] ↦ push shared a arg
          | none ↦ push shared a arg
        ])
      else push shared a arg

  -- The loop over the strings that `expand_brace` made; behind the first, one is in `args` or freed.
  unfoldable pub add_expansions : Bool → Args → List Bytes → M Args
  add_expansions shared a [] = pure a
  add_expansions shared a (e ∷ es) = do a' ← add_wild shared a e; add_expansions true a' es

  -- One argument in the second pass.
  unfoldable pub add_arg : Args → Bytes → M Args
  add_arg a arg =
      if contains_brace arg
      then (do
        braces ← expand_brace arg
        elim braces [
          | expanded es ↦ add_expansions false a es
          | unchanged ↦ add_wild false a arg
          | refused freed ↦ if freed then stop double_free else add_wild false a arg
        ])
      else add_wild false a arg

  unfoldable pub add_all : Args → List Bytes → M Args
  add_all a [] = pure a
  add_all a (arg ∷ raw) = do a' ← add_arg a arg; add_all a' raw

  -- `argv` up to its NULL; `argc` is its length.
  unfoldable pub args_parse : Bytes → M (List Bytes)
  unfolding alloc
  args_parse line = do
    alloc
    alloc
    raw ← parse_raw (suc (length line)) line 0 16
    a ← add_all (record { args = []; capacity = 16 }) raw
    finish_args a

  -- `string_list_add` of each argument; `none` is a failure.
  unfoldable pub list_of : List Bytes → Vec Bytes → M (Option (Vec Bytes))
  list_of [] list = pure (some list)
  list_of (arg ∷ args) list = do
    added ← list_append list arg
    elim added.0 [ true ↦ list_of args added.1 | false ↦ pure none ]

  -- The list, or `none` for NULL where it cannot be made; -1 of `args_parse` is NULL too.
  unfoldable pub args_parse_to_list : Bytes → M (Option (Vec Bytes))
  args_parse_to_list line = do
    args ← args_parse line
    list ← list_create (length args)
    elim list [ some empty ↦ list_of args empty | none ↦ pure none ]
