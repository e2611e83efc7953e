-- ===== src/Proc/Timer/Command.antt =====
-- `run_timer_cmd` of src/bas/proc/dbgthread.c: the arguments of the console command `timer`.
use bas_c.Common.{
  ℕ, suc, Bool, true, false, ◌||◌, Option, none, some, List, [], ◌∷◌, Bytes, codes, ℤ, pos,
  if◌then◌else◌,
}
use Prim.Native.String.{String}
use bas_c.Base.CString.{str_eq}
use bas_c.Base.Decimal.{starts_digit}
use bas_c.Proc.Timer.{
  TimerOptions, Timers, Event, start, stop, start_timer_thread, file_field,
  timer_default_interval_ms,
}
use bas_c.Proc.Timer.Interval.{parse_interval_ms}

-- The local variables `opts` and `quit`.
pub record Request : Type 0 where
  pub opts : TimerOptions
  pub quit : Bool

-- `strcmp(arg, short) == 0 || strcmp(arg, long) == 0`
abbrev pub is_either : Bytes → String → String → Bool
is_either a short long = str_eq a (codes short) || str_eq a (codes long)

-- `if (ms > 0) opts.interval_ms = ms`
unfoldable pub every : ℤ → Request → Request
every (pos (suc n)) r = record r { opts = record r.opts { interval_ms = pos (suc n) } }
every _ r = r

-- The options whose argument is the next one.
unfoldable pub takes_value : Bytes → Bool
takes_value a = str_eq a (codes "-f") || is_either a "-w" "--interval"

unfoldable pub with_value : Bytes → Bytes → Request → Request
with_value a value r =
    if str_eq a (codes "-f")
    then record r { opts = record r.opts { stackdump_file = file_field value } }
    else every (parse_interval_ms value) r

unfoldable pub lone : Bytes → Request → Request
lone a r =
    if is_either a "-s" "--stackdump"
    then record r { opts = record r.opts { do_stackdump = true } }
    else if is_either a "-h" "--health"
    then record r { opts = record r.opts { do_health = true } }
    else if is_either a "-d" "--dump-fd"
    then record r { opts = record r.opts { do_dump_fd = true } }
    else if takes_value a
    then r
    else if is_either a "-q" "--quit"
    then record r { quit = true }
    else if starts_digit a
    then every (parse_interval_ms a) r
    else r

unfoldable pub timer_args : List Bytes → Request → Request
timer_args [] r = r
timer_args (a ∷ []) r = lone a r
timer_args (a ∷ b ∷ l) r = elim (takes_value a) [
  | true ↦ timer_args l (with_value a b r)
  | false ↦ timer_args (b ∷ l) (lone a r)
]

abbrev pub no_options : TimerOptions
no_options = record {
  interval_ms = pos timer_default_interval_ms;
  do_stackdump = false;
  do_health = false;
  do_dump_fd = false;
  stackdump_file = [];
}

unfoldable pub or_health : TimerOptions → TimerOptions
or_health o =
    if o.do_stackdump || o.do_health || o.do_dump_fd then o else record o { do_health = true }

-- What is printed at the end.
pub data Reply : Type 0 where
  stopped : Reply
  running : TimerOptions → Reply
  failed : Reply

-- What the command asks of the timer, for the arguments behind its name.
unfoldable pub timer_event : Bool → Bool → (Bytes → Option Bytes) → Request → Event
timer_event calloc create mkstemp r =
    if r.quit then stop else start calloc create mkstemp (some (or_health r.opts))

unfoldable pub timer_reply : Request → Option ℕ → Reply
timer_reply r ctx =
    if r.quit then stopped else elim ctx [ none ↦ failed | some i ↦ running (or_health r.opts) ]

unfoldable pub run_timer_cmd :
    Bool → Bool → (Bytes → Option Bytes) → List Bytes → Timers → Event × Reply
run_timer_cmd calloc create mkstemp args s =
    let r = timer_args args (record { opts = no_options; quit = false }) in
    (
      timer_event calloc create mkstemp r,
      timer_reply r (start_timer_thread calloc create mkstemp (some (or_health r.opts)) s).0,
    )
