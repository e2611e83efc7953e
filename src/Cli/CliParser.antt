-- ===== src/Cli/CliParser.antt =====
-- src/bas/cli/cli_parser.c: the parser with its handlers and aliases. The parser pointer and the
-- strings are not NULL; with NULL every function returns at its first line.
pub mod Redirect
pub mod Statement
pub mod Aliases
pub mod Default
use bas_c.Common.{
  ℕ, ◌*◌, Bool, true, false, not, ◌||◌, Option, none, some, List, [], ◌∷◌, ◌++◌, Bytes, ℤ, leb,
  if◌then◌else◌, length, map,
}
use bas_c.Util.PrefixMap.{PrefixMap}
use bas_c.Util.PrefixMap
use bas_c.Cli.CliParser.Redirect.{Redirection}

-- What the handlers and callbacks can change: their own data `state`, the aliases of the parser, and
-- the lines printed to `stderr`.
pub record World (S : Type 0) : Type 0 where
  pub state : S
  pub alias_map : Option (PrefixMap Bytes)
  pub stderr : List Bytes

-- The two functions of a handler with its context; `argv` holds `argc` strings.
pub record Handler (S : Type 0) : Type 0 where
  pub can_handle : Option (Bytes → List Bytes → World S → Bool × World S)
  pub handle : Bytes → List Bytes → Redirection → World S → ℤ × World S

-- `handlers` are the slots in use. An argument parser returns the arguments, or `none` for an error.
pub record CliParser (S : Type 0) : Type 0 where
  pub handlers : List (Handler S)
  pub handlers_capacity : ℕ
  pub alias_resolver : Option (Bytes → Option Bytes)
  pub args_parser : Bytes → World S → Option (List Bytes) × World S
  pub error_callback : Option (Bytes → World S → World S)

abbrev pub initial_handlers_capacity : ℕ
initial_handlers_capacity = 16

module _ {S : Type 0} where
  -- The parser and its aliases, or `none` without memory; `alive`, `slots` and `map` are the answers
  -- of the allocators. `chosen` is the argument parser that the caller gives, or the default one.
  unfoldable pub cli_parser_create :
      Bool
      → Bool
      → Bool
      → Option (Bytes → Option Bytes)
      → (Bytes → World S → Option (List Bytes) × World S)
      → Option (CliParser S × Option (PrefixMap Bytes))
  unfolding PrefixMap.create_ex
  cli_parser_create alive slots map resolver chosen =
      let parser : CliParser S = record {
        handlers = [];
        handlers_capacity = initial_handlers_capacity;
        alias_resolver = resolver;
        args_parser = chosen;
        error_callback = none;
      } in
      if not alive || not slots then none else elim resolver [
        | some r ↦ some (parser, none)
        | none ↦ if map then some (parser, some (PrefixMap.create_ex true)) else none
      ]

  -- Whether there was room, and the parser; `grow` is the answer of `realloc`.
  unfoldable pub register_handler : Bool → CliParser S → Handler S → Bool × CliParser S
  register_handler grow parser handler =
      let added = parser.handlers ++ handler ∷ [] in
      if leb parser.handlers_capacity (length parser.handlers)
      then (if grow
          then (
            true,
            record parser { handlers = added; handlers_capacity = parser.handlers_capacity * 2 },
          )
          else (false, parser))
      else (true, record parser { handlers = added })

  unfoldable pub set_error_callback : CliParser S → Option (Bytes → World S → World S) → CliParser S
  set_error_callback parser callback = record parser { error_callback = callback }

  unfoldable pub emit_error : CliParser S → Bytes → World S → World S
  emit_error parser message w = elim parser.error_callback [
    | some callback ↦ callback message w
    | none ↦ record w { stderr = w.stderr ++ message ∷ [] }
  ]

  -- The value of an alias, of the caller's resolver or of the map.
  unfoldable pub get_alias : CliParser S → World S → Bytes → Option Bytes
  unfolding PrefixMap.get
  get_alias parser w name = elim w.alias_map [
    | some m ↦ PrefixMap.get m name
    | none ↦ elim parser.alias_resolver [ some resolver ↦ resolver name | none ↦ none ]
  ]

  -- `alive`, `dup` and `added` are the answers of `malloc` for the entry, its value and the map.
  unfoldable pub set_alias : Bool → Bool → Bool → World S → Bytes → Bytes → Bool × World S
  unfolding PrefixMap.add
  set_alias alive dup added w name value = elim w.alias_map [
    | some m ↦
        if not alive || not dup
        then (false, w)
        else (true, record w { alias_map = some (PrefixMap.add added m name (some value)).0 })
    | none ↦ (false, w)
  ]

  unfoldable pub remove_alias : World S → Bytes → Bool × World S
  unfolding PrefixMap.contains PrefixMap.remove
  remove_alias w name = elim w.alias_map [
    | some m ↦
        if not (PrefixMap.contains m name)
        then (false, w)
        else (true, record w { alias_map = some (PrefixMap.remove m name).1 })
    | none ↦ (false, w)
  ]

  unfoldable pub clear_aliases : World S → World S
  unfolding PrefixMap.clear
  clear_aliases w = elim w.alias_map [
    | some m ↦ record w { alias_map = some (PrefixMap.clear m).0 }
    | none ↦ w
  ]

  -- The calls of the callback, on a state of the caller.
  unfoldable pub enumerate_aliases {ℓ} : {T : Type ℓ} → World S → (Bytes → Bytes → T → T) → T → T
  unfolding PrefixMap.foreach
  enumerate_aliases w callback t = elim w.alias_map [
    | some m ↦
        PrefixMap.foreach
          (λ name value t'. elim value [
            | some v ↦ (false, callback name v t')
            | none ↦ (false, t')
          ])
          m t
    | none ↦ t
  ]
