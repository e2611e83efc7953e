-- ===== src/Cli/Program.antt =====
-- `parse_option_defaults` and `process_files` of src/bas/cli/program.c. `parse_options` is glib's.
pub mod Files
pub mod Levels
use bas_c.Common.{
  ℕ, zero, suc, Bool, true, false, not, ◌&&◌, ◌||◌, Option, none, some, List, [], ◌∷◌, Bytes, codes,
  ℤ, ◌==◌, if◌then◌else◌,
}
use bas_c.Base.CString.{str_eq}
use bas_c.Log.Logger.{Logger, up, down, logger_less, logger_more}

-- The variables of the program that the options change, and what is printed: whether the version
-- was, and the words of the message about a bad option.
pub record Settings : Type 0 where
  pub error_continue : Bool
  pub force : Bool
  pub log_level : ℤ
  pub loggers : List Logger
  pub version_shown : Bool
  pub bad : Option (Bytes × Bytes)

unfoldable pub skip_dashes : Bytes → Bytes
skip_dashes [] = []
skip_dashes (c ∷ s) = let rest = skip_dashes s in if c == b'-' then rest else c ∷ s

-- `*opt != '-'` behind the first dash.
unfoldable pub is_short : Bytes → Bool
is_short [] = true
is_short (c ∷ s) = not (c == b'-')

unfoldable pub first_is : ℕ → Bytes → Bool
first_is b [] = false
first_is b (c ∷ s) = c == b

-- The loop over the loggers; `none` where a level overflows.
unfoldable pub each_logger : (Logger → Option Logger) → List Logger → Option (List Logger)
each_logger f [] = some []
each_logger f (l ∷ ls) = elim (f l) [
  | none ↦ none
  | some m ↦ elim (each_logger f ls) [ none ↦ none | some ms ↦ some (m ∷ ms) ]
]

abbrev pub with_levels : Settings → Option ℤ → Option (List Logger) → Option Settings
with_levels s none ls = none
with_levels s (some value) none = none
with_levels s (some value) (some ls) = some (record s { log_level = value; loggers = ls })

-- `log_level--`, and each logger one less; `none` where an int overflows.
unfoldable pub less : Settings → Option Settings
less s = with_levels s (down s.log_level) (each_logger logger_less s.loggers)

unfoldable pub more : Settings → Option Settings
more s = with_levels s (up s.log_level) (each_logger logger_more s.loggers)

abbrev pub done : Option Settings → Option (Bool × Settings)
done none = none
done (some s) = some (true, s)

-- The switch, on the option behind its dashes; `none` where an int overflows.
unfoldable pub apply_option : Bool → Bytes → Bytes → Settings → Option (Bool × Settings)
apply_option short opt val s =
    if str_eq opt (codes "error-continue")
    then some (true, record s { error_continue = true })
    else if first_is b'f' opt && (short || str_eq opt (codes "force"))
    then some (true, record s { force = true })
    else if first_is b'q' opt && (short || str_eq opt (codes "quiet"))
    then done (less s)
    else if first_is b'v' opt && (short || str_eq opt (codes "verbose"))
    then done (more s)
    else if str_eq opt (codes "version")
    then some (true, record s { version_shown = true })
    else some (false, record s { bad = some (opt, val) })

-- An option starts with a dash: anything else fails the assertion, and is `none` as well.
unfoldable pub parse_option_defaults : Bytes → Bytes → Settings → Option (Bool × Settings)
parse_option_defaults [] val s = none
parse_option_defaults (c ∷ opt) val s =
    if c == b'-' then apply_option (is_short opt) (skip_dashes opt) val s else none

-- The functions of the caller, on a world of his: `fopen`, whether there is a file; the handler, with
-- none for stdin, and its result; the messages about files.
pub record Caller {ℓ} (W : Type ℓ) : Type ℓ where
  pub fopen : Bytes → W → Bool × W
  pub handler : Option Bytes → W → Bool × W
  pub complain : Bytes → W → W

module _ {ℓ} {W : Type ℓ} (caller : Caller W) where
  -- One file: whether an error was found, before or now.
  unfoldable pub one_file : Bytes → Bool → W → Bool × W
  one_file path err w =
      let (opened, w1) = caller.fopen path w in
      let (handled, w2) = caller.handler (some path) w1 in
      if opened then (err || not handled, w2) else (true, caller.complain path w1)

  -- The loop, with `opt_error_continue`: `path` is set once and is the first path in every round; on fuel.
  unfoldable pub file_loop : Bool → ℕ → Bytes → Bool → W → Option (Bool × W)
  file_loop go_on zero path err w = none
  file_loop go_on (suc f) [] err w = some (err, w)
  file_loop go_on (suc f) (c ∷ path) err w =
      let (err', w') = one_file (c ∷ path) err w in
      let rest = file_loop go_on f (c ∷ path) err' w' in
      if err' && not go_on then some (err', w') else rest

  unfoldable pub process_files : Bool → ℕ → List Bytes → W → Option (Bool × W)
  process_files go_on fuel [] w = some (caller.handler none w)
  process_files go_on fuel (path ∷ paths) w = file_loop go_on fuel path false w
