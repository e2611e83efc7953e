-- ===== src/Proc/Timer.antt =====
-- The timer thread of src/bas/proc/dbgthread.c. A context is the block that `start_timer_thread`
-- allocates; contexts are named by their index in the order of allocation, and a freed one keeps
-- its index. The functions hold `s_timer_mutex` while they run, so a call is one step, except
-- `stop_timer_thread`, which lets go of the mutex to wait for the thread: it is three. One round of
-- the loop of `timer_thread` is one step as well. A flag is whether the C int is not 0.
pub mod Interval
pub mod Command
pub mod Forms
pub mod Shape
pub mod Alone
pub mod Fires
pub mod Overlap
pub mod Temp
pub mod Stops
use bas_c.Common.{
  ℕ, zero, suc, ◌+◌, ◌-◌, ◌%◌, ◌^◌, ◌≡◌, refl, Bool, true, false, not, ◌&&◌, Option, none, some,
  List, [], ◌∷◌, ◌++◌, Bytes, codes, ℤ, pos, negsuc, ltb, if◌then◌else◌, length, get_elem?, set,
  take, drop,
}

abbrev pub int_max : ℕ
int_max = 2 ^ 31 - 1

abbrev pub timer_poll_ms : ℕ
timer_poll_ms = 100

abbrev pub timer_default_interval_ms : ℕ
timer_default_interval_ms = 2000

pub record TimerOptions : Type 0 where
  pub interval_ms : ℤ
  pub do_stackdump : Bool
  pub do_health : Bool
  pub do_dump_fd : Bool
  pub stackdump_file : Bytes

-- The context with the local variable `accumulated_ms` of its thread; `exited` says that the thread
-- has returned, `freed` that the block was given back.
pub record TimerContext : Type 0 where
  pub quit : Bool
  pub opts : TimerOptions
  pub counter : ℕ
  pub accumulated_ms : ℕ
  pub exited : Bool
  pub freed : Bool

-- What a round does when the interval is over.
pub data Action : Type 0 where
  triggered : ℕ → Action
  stackdump : Bytes → Action
  dump_fd : Action

unfoldable pub or_default : ℤ → ℕ
or_default (pos zero) = timer_default_interval_ms
or_default (pos (suc n)) = suc n
or_default (negsuc n) = timer_default_interval_ms

abbrev pub is_empty : Bytes → Bool
is_empty [] = true
is_empty (c ∷ s) = false

unfoldable pub actions : TimerContext → List Action
actions ctx =
    (if ctx.opts.do_health then triggered ctx.counter ∷ [] else [])
    ++ (if ctx.opts.do_stackdump && not (is_empty ctx.opts.stackdump_file)
        then stackdump ctx.opts.stackdump_file ∷ []
        else [])
    ++ (if ctx.opts.do_dump_fd then dump_fd ∷ [] else [])

-- A round of `timer_thread`; none where `accumulated_ms` leaves the range of an int.
unfoldable pub timer_round : TimerContext → Option (TimerContext × List Action)
timer_round ctx =
    let acc = ctx.accumulated_ms + timer_poll_ms in
    let fired = record ctx { accumulated_ms = 0; counter = (ctx.counter + 1) % 2 ^ 64 } in
    if ctx.quit
    then some (record ctx { exited = true }, [])
    else if ltb int_max acc
    then none
    else if ltb acc (or_default ctx.opts.interval_ms)
    then some (record ctx { accumulated_ms = acc }, [])
    else some (fired, actions fired)

-- `snprintf` into `stackdump_file`
abbrev pub file_field : Bytes → Bytes
file_field = take 259

unfoldable pub updated : TimerOptions → TimerContext → TimerContext
updated o ctx = record ctx {
  opts = record o {
    interval_ms = pos (or_default o.interval_ms);
    stackdump_file =
        if is_empty o.stackdump_file then ctx.opts.stackdump_file else file_field o.stackdump_file;
  };
}

-- The file of a new context: `mkstemp` gets the template, and its answer is the path made of it.
unfoldable pub new_file : (Bytes → Option Bytes) → TimerOptions → Bytes
new_file mkstemp o =
    if not (is_empty o.stackdump_file)
    then file_field o.stackdump_file
    else if o.do_stackdump
    then temp_file (mkstemp (codes "/tmp/stack.XXXXXX.dump"))
    else []
  where
    temp_file : Option Bytes → Bytes
    temp_file none = []
    temp_file (some path) = file_field (path ++ codes ".dump")

unfoldable pub new_context : (Bytes → Option Bytes) → TimerOptions → TimerContext
new_context mkstemp o = record {
  quit = false;
  opts = record o {
    interval_ms = pos (or_default o.interval_ms);
    stackdump_file = new_file mkstemp o;
  };
  counter = 0;
  accumulated_ms = 0;
  exited = false;
  freed = false;
}

-- A call of `stop_timer_thread` between its two locks: before it reads the thread it joins, and
-- after that.
pub data StopPc : Type 0 where
  waiting : StopPc
  joining : ℕ → StopPc

-- `s_timer_ctx`, the contexts, the calls of `stop_timer_thread` that wait, and what the threads did.
pub record Timers : Type 0 where
  pub current : Option ℕ
  pub contexts : List TimerContext
  pub stops : List StopPc
  pub done : List Action

unfoldable pub change : List TimerContext → ℕ → (TimerContext → TimerContext) → List TimerContext
change [] i f = []
change (c ∷ cs) zero f = f c ∷ cs
change (c ∷ cs) (suc i) f = c ∷ change cs i f

-- `start_timer_thread`, with the answers of `calloc`, `pthread_create` and `mkstemp`.
unfoldable pub start_timer_thread :
    Bool → Bool → (Bytes → Option Bytes) → Option TimerOptions → Timers → Option ℕ × Timers
start_timer_thread calloc create mkstemp none s = (none, s)
start_timer_thread calloc create mkstemp (some o) s = elim s.current [
  | some i ↦ (some i, record s { contexts = change s.contexts i (updated o) })
  | none ↦
      if calloc && create
      then (
        some (length s.contexts),
        record s {
          current = some (length s.contexts);
          contexts = s.contexts ++ new_context mkstemp o ∷ [];
        },
      )
      else (none, s)
]

-- `stop_timer_thread` up to the join.
unfoldable pub stop_enter : Timers → Timers
stop_enter s = elim s.current [
  | none ↦ s
  | some i ↦ record s {
    contexts = change s.contexts i (λ c. record c { quit = true });
    stops = s.stops ++ waiting ∷ [];
  }
]

-- What may happen next: a call of a function, the next part of the k-th call of
-- `stop_timer_thread`, or a round of the thread of the i-th context.
pub data Event : Type 0 where
  start : Bool → Bool → (Bytes → Option Bytes) → Option TimerOptions → Event
  stop : Event
  advance : ℕ → Event
  round : ℕ → Event

-- `blocked`: not possible now. `faults`: memory that is not there, or not any more, or an int that
-- overflows.
pub data Outcome : Type 0 where
  moves : Timers → Outcome
  blocked : Outcome
  faults : Outcome

abbrev pub without {ℓ} : {A : Type ℓ} → List A → ℕ → List A
without l k = take k l ++ drop (suc k) l

-- `pthread_join(s_timer_ctx->thread, NULL)` is called.
unfoldable pub stop_read : Timers → ℕ → Outcome
stop_read s k = elim s.current [
  | none ↦ faults
  | some i ↦ moves (record s { stops = set s.stops k (joining i) })
]

-- The last part, when the thread joined has exited: `free(s_timer_ctx)`.
unfoldable pub stop_free : Timers → ℕ → Outcome
stop_free s k = elim s.current [
  | none ↦ faults
  | some i ↦ moves (record s {
    current = none;
    contexts = change s.contexts i (λ c. record c { freed = true });
    stops = without s.stops k;
  })
]

unfoldable pub has_exited : Option TimerContext → Bool
has_exited none = false
has_exited (some c) = c.exited

unfoldable pub stop_next : Timers → ℕ → Option StopPc → Outcome
stop_next s k none = blocked
stop_next s k (some waiting) = stop_read s k
stop_next s k (some (joining i)) =
    if has_exited (get_elem? s.contexts i) then stop_free s k else blocked

unfoldable pub after_round : Timers → ℕ → Option (TimerContext × List Action) → Outcome
after_round s i none = faults
after_round s i (some (c, acts)) =
    moves (record s { contexts = set s.contexts i c; done = s.done ++ acts })

unfoldable pub thread_round : Timers → ℕ → Option TimerContext → Outcome
thread_round s i none = blocked
thread_round s i (some c) =
    if c.exited then blocked else if c.freed then faults else after_round s i (timer_round c)

unfoldable pub step : Event → Timers → Outcome
step (start calloc create mkstemp o) s = moves (start_timer_thread calloc create mkstemp o s).1
step stop s = moves (stop_enter s)
step (advance k) s = stop_next s k (get_elem? s.stops k)
step (round i) s = thread_round s i (get_elem? s.contexts i)

abbrev pub no_timers : Timers
no_timers = record { current = none; contexts = []; stops = []; done = [] }

abbrev pub and_then : Outcome → (Timers → Outcome) → Outcome
and_then (moves s) f = f s
and_then blocked f = blocked
and_then faults f = faults

-- Events one after the other.
unfoldable pub run : List Event → Timers → Outcome
run [] s = moves s
run (e ∷ es) s = and_then (step e s) (λ t. run es t)

pub run-moves :
    (e : Event) (es : List Event) (s t : Timers) → step e s ≡ moves t → run (e ∷ es) s ≡ run es t
unfolding run
run-moves e es s t h = rw h refl
