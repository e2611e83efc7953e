-- ===== src/Log/Logger.antt =====
-- src/bas/log/logger.c: a logger with a level. A call of printf or fprintf is a write to one of the
-- two streams; the text that `vfprintf` makes of its format is an argument. A logger that is `none`
-- is NULL. An int that overflows is `none`.
pub mod Levels
use bas_c.Common.{
  ℕ, zero, suc, ◌+◌, Bool, true, false, Option, none, some, List, [], ◌∷◌, ◌++◌, Bytes, codes, ℤ,
  pos, negsuc, ltb, leb, if◌then◌else◌,
}

pub record Logger : Type 0 where
  pub level : ℤ
  pub level_default : ℤ
  pub header : Bytes
  pub color_error : Bytes
  pub color_warn : Bytes
  pub color_mesg : Bytes
  pub color_info : Bytes
  pub color_log : Bytes
  pub color_debug : Bytes
  pub color_trace : Bytes
  pub color_reset : Bytes

-- A text written, and whether to stderr.
pub record Write : Type 0 where
  pub to_stderr : Bool
  pub text : Bytes

abbrev pub err : Bytes → Write
err t = record { to_stderr = true; text = t }

abbrev pub out : Bytes → Write
out t = record { to_stderr = false; text = t }

-- `level >= k`, for a level constant that is not negative.
unfoldable pub reaches : ℤ → ℕ → Bool
reaches (negsuc n) k = false
reaches (pos n) k = leb k n

abbrev pub newline : Bytes
newline = b'\n' ∷ []

-- `level++`, on an int; `none` for an overflow.
unfoldable pub up : ℤ → Option ℤ
up (pos n) = if ltb n 2147483647 then some (pos (n + 1)) else none
up (negsuc zero) = some (pos 0)
up (negsuc (suc n)) = some (negsuc n)

-- `level--`, on an int; `none` for an overflow.
unfoldable pub down : ℤ → Option ℤ
down (negsuc n) = if ltb n 2147483647 then some (negsuc (n + 1)) else none
down (pos zero) = some (negsuc 0)
down (pos (suc n)) = some (pos n)

abbrev pub with_level : Logger → Option ℤ → Option Logger
with_level l none = none
with_level l (some value) = some (record l { level = value })

abbrev pub logger_set_level : Logger → ℤ → Logger
logger_set_level l value = record l { level = value }

unfoldable pub logger_get_level : Option Logger → ℤ
logger_get_level none = pos 1
logger_get_level (some l) = l.level

unfoldable pub logger_more : Logger → Option Logger
unfolding up
logger_more l = with_level l (up l.level)

unfoldable pub logger_less : Logger → Option Logger
unfolding down
logger_less l = with_level l (down l.level)

abbrev pub logger_reset : Logger → Logger
logger_reset l = record l { level = l.level_default }

-- One formatted write: the color, the header, the name of the level, the message.
abbrev pub framed : Logger → Bytes → Bytes → Bytes → Bytes
framed l color name message =
    color ++ (l.header ++ (name ++ (message ++ (l.color_reset ++ newline))))

unfoldable pub logger_error : Logger → Bytes → List Write
logger_error l message = err (framed l l.color_error (codes " ERROR: ") message) ∷ []

unfoldable pub logger_warn : Logger → Bytes → List Write
unfolding reaches
logger_warn l message =
    if reaches l.level 0 then err (framed l l.color_warn (codes " WARN: ") message) ∷ [] else []

unfoldable pub logger_mesg : Logger → Bytes → List Write
unfolding reaches
logger_mesg l message =
    if reaches l.level 1 then out (framed l l.color_mesg (codes " ") message) ∷ [] else []

unfoldable pub logger_info : Logger → Bytes → List Write
unfolding reaches
logger_info l message =
    if reaches l.level 2 then out (framed l l.color_info (codes " INFO: ") message) ∷ [] else []

unfoldable pub logger_log : Logger → Bytes → List Write
unfolding reaches
logger_log l message =
    if reaches l.level 3 then out (framed l l.color_log (codes " LOG: ") message) ∷ [] else []

unfoldable pub logger_debug : Logger → Bytes → List Write
unfolding reaches
logger_debug l message =
    if reaches l.level 4 then out (framed l l.color_debug (codes " DEBUG: ") message) ∷ [] else []

-- The three writes of a call with a format; `put` is the stream.
abbrev pub pieces : (Bytes → Write) → Logger → Bytes → Bytes → Bytes → List Write
pieces put l color name formatted =
    put (color ++ (l.header ++ name)) ∷ put formatted ∷ put (l.color_reset ++ newline) ∷ []

unfoldable pub logger_error_fmt : Logger → Bytes → List Write
logger_error_fmt l formatted = pieces err l l.color_error (codes " ERROR: ") formatted

unfoldable pub logger_warn_fmt : Logger → Bytes → List Write
unfolding reaches
logger_warn_fmt l formatted =
    if reaches l.level 0 then pieces err l l.color_warn (codes " WARN: ") formatted else []

unfoldable pub logger_mesg_fmt : Logger → Bytes → List Write
unfolding reaches
logger_mesg_fmt l formatted =
    if reaches l.level 1 then pieces out l l.color_mesg (codes " ") formatted else []

unfoldable pub logger_info_fmt : Logger → Bytes → List Write
unfolding reaches
logger_info_fmt l formatted =
    if reaches l.level 2 then pieces out l l.color_info (codes " INFO: ") formatted else []

unfoldable pub logger_log_fmt : Logger → Bytes → List Write
unfolding reaches
logger_log_fmt l formatted =
    if reaches l.level 3 then pieces out l l.color_log (codes " LOG: ") formatted else []

unfoldable pub logger_debug_fmt : Logger → Bytes → List Write
unfolding reaches
logger_debug_fmt l formatted =
    if reaches l.level 4 then pieces out l l.color_debug (codes " DEBUG: ") formatted else []

unfoldable pub logger_trace_fmt : Logger → Bytes → List Write
unfolding reaches
logger_trace_fmt l formatted =
    if reaches l.level 5 then pieces out l l.color_trace (codes " TRACE: ") formatted else []
