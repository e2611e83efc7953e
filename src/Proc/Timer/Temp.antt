-- ===== src/Proc/Timer/Temp.antt =====
-- The file that a timer makes up for its stack dumps (src/bas/proc/dbgthread.c).
use bas_c.Common.{
  ℕ, zero, suc, ◌+◌, ◌%◌, ◌^◌, ◌≡◌, refl, subst, inl, inr, Bool, true, false, not, ◌&&◌, Option,
  none, some, List, [], ◌∷◌, ◌++◌, Bytes, codes, ltb, if◌then◌else◌, get_elem?, set, All,
  All-append, Option-cases, if_elim, if_same,
}
use bas_c.Base.Str.{endswith}
use bas_c.Base.CString.{str_eq}
use bas_c.Proc.Timer.{
  TimerOptions, TimerContext, Timers, Action, triggered, stackdump, dump_fd, actions, timer_round,
  new_context, new_file, updated, or_default, int_max, timer_poll_ms, change, start_timer_thread,
  stop_enter, stop_read, stop_free, stop_next, has_exited, after_round, thread_round, StopPc,
  waiting, joining, Event, start, stop, advance, round, Outcome, moves, blocked, faults, step,
  no_timers, run, and_then,
}

abbrev pub IsNoDump : Action → Type 0
IsNoDump (stackdump file) = ⊥
IsNoDump _ = Unit

no_dumps :
    (d h f : Bool) (n : ℕ)
    → All IsNoDump (
        (if h then triggered n ∷ [] else [])
        ++ (if d && not true then stackdump [] ∷ [] else [])
        ++ (if f then dump_fd ∷ [] else []))
no_dumps true true true n = (tt, (tt, tt))
no_dumps true true false n = (tt, tt)
no_dumps true false true n = (tt, tt)
no_dumps true false false n = tt
no_dumps false true true n = (tt, (tt, tt))
no_dumps false true false n = (tt, tt)
no_dumps false false true n = (tt, tt)
no_dumps false false false n = tt

-- A context without a file.
abbrev IsSilent : TimerContext → Type 0
IsSilent c = c.opts.stackdump_file ≡ []

no_file_actions : (c : TimerContext) → IsSilent c → All IsNoDump (actions c)
unfolding actions
no_file_actions c h =
    rw h (no_dumps c.opts.do_stackdump c.opts.do_health c.opts.do_dump_fd c.counter)

-- A round that does not dump the stack and keeps the context so.
data Quiet (o : Option (TimerContext × List Action)) : Type 0 where
  over : o ≡ none → Quiet o
  goes :
      (c : TimerContext) (acts : List Action)
      → o ≡ some (c, acts)
      → IsSilent c
      → All IsNoDump acts
      → Quiet o

timer_round-Quiet : (c : TimerContext) → IsSilent c → Quiet (timer_round c)
unfolding timer_round
timer_round-Quiet c h =
    if_elim Quiet c.quit _ _ (λ e. goes _ [] refl h tt)
      (λ e.
        if_elim Quiet (ltb int_max (c.accumulated_ms + timer_poll_ms)) none _ (λ e. over refl)
          (λ e.
            if_elim Quiet (ltb (c.accumulated_ms + timer_poll_ms) (or_default c.opts.interval_ms)) _
              _ (λ e. goes _ [] refl h tt)
              (λ e. goes _ _ refl h (
                no_file_actions
                  (record c { accumulated_ms = 0; counter = (c.counter + 1) % 2 ^ 64 }) h))))

-- `mkstemp` refuses a template that does not end in `XXXXXX`.
abbrev pub Refuses : (Bytes → Option Bytes) → Type 0
Refuses mkstemp = (p : Bytes) → endswith p (codes "XXXXXX") ≡ none → mkstemp p ≡ none

-- A call of `start_timer_thread` names no file; any other event is one.
abbrev pub IsFileless : Event → Type 0
IsFileless (start calloc create mkstemp none) = Unit
IsFileless (start calloc create mkstemp (some o)) = (o.stackdump_file ≡ []) × Refuses mkstemp
IsFileless _ = Unit

-- No context has a file, and no stack was dumped.
abbrev Silent : Timers → Type 0
Silent s = All IsSilent s.contexts × All IsNoDump s.done

abbrev After : Outcome → Type 0
After (moves s) = Silent s
After blocked = Unit
After faults = Unit

new_context-IsSilent :
    (mkstemp : Bytes → Option Bytes) (o : TimerOptions)
    → Refuses mkstemp
    → o.stackdump_file ≡ []
    → IsSilent (new_context mkstemp o)
unfolding new_context new_file endswith str_eq
new_context-IsSilent mkstemp o h e =
    rw e (rw (h (codes "/tmp/stack.XXXXXX.dump") refl) (if_same o.do_stackdump []))

updated-IsSilent :
    (o : TimerOptions) (c : TimerContext)
    → o.stackdump_file ≡ []
    → IsSilent c
    → IsSilent (updated o c)
unfolding updated
updated-IsSilent o c e h = rw e h

change-All :
    (cs : List TimerContext) (i : ℕ) (f : TimerContext → TimerContext)
    → ((c : TimerContext) → IsSilent c → IsSilent (f c))
    → All IsSilent cs
    → All IsSilent (change cs i f)
unfolding change
change-All [] i f k h = tt
change-All (c ∷ cs) zero f k (h, hs) = (k c h, hs)
change-All (c ∷ cs) (suc i) f k (h, hs) = (h, change-All cs i f k hs)

set-All :
    (cs : List TimerContext) (i : ℕ) (c : TimerContext)
    → IsSilent c
    → All IsSilent cs
    → All IsSilent (set cs i c)
set-All [] i c h hs = tt
set-All (d ∷ cs) zero c h (k, ks) = (h, ks)
set-All (d ∷ cs) (suc i) c h (k, ks) = (k, set-All cs i c h ks)

abbrev Each : Option TimerContext → Type 0
Each none = Unit
Each (some c) = IsSilent c

get-Each : (cs : List TimerContext) (i : ℕ) → All IsSilent cs → Each (get_elem? cs i)
get-Each [] i h = tt
get-Each (c ∷ cs) zero h = h.0
get-Each (c ∷ cs) (suc i) h = get-Each cs i h.1

start-Silent :
    (calloc create : Bool) (mkstemp : Bytes → Option Bytes) (o : TimerOptions) (s : Timers)
    → o.stackdump_file ≡ []
    → Refuses mkstemp
    → Silent s
    → Silent (start_timer_thread calloc create mkstemp (some o) s).1
unfolding start_timer_thread
start-Silent calloc create mkstemp o s e r (h, d) = elim (Option-cases s.current) [
  | inl c ↦ rw c (
      if_elim (λ (q : Option ℕ × Timers). Silent q.1) (calloc && create) _ _
        (λ _. (
          All-append IsSilent s.contexts (new_context mkstemp o ∷ []) h
              (new_context-IsSilent mkstemp o r e, tt),
          d,
        ))
        (λ _. (h, d)))
  | inr (i, c) ↦ rw c (change-All s.contexts i (updated o) (λ c. updated-IsSilent o c e) h, d)
]

stop_enter-Silent : (s : Timers) → Silent s → Silent (stop_enter s)
unfolding stop_enter
stop_enter-Silent s (h, d) = elim (Option-cases s.current) [
  | inl c ↦ rw c (h, d)
  | inr (i, c) ↦ rw c (change-All s.contexts i _ (λ c k. k) h, d)
]

stop_read-After : (s : Timers) (k : ℕ) → Silent s → After (stop_read s k)
unfolding stop_read
stop_read-After s k h = elim (Option-cases s.current) [ inl c ↦ rw c tt | inr (i, c) ↦ rw c h ]

stop_free-After : (s : Timers) (k : ℕ) → Silent s → After (stop_free s k)
unfolding stop_free
stop_free-After s k (h, d) = elim (Option-cases s.current) [
  | inl c ↦ rw c tt
  | inr (i, c) ↦ rw c (change-All s.contexts i _ (λ c k. k) h, d)
]

stop_next-After : (s : Timers) (k : ℕ) (p : Option StopPc) → Silent s → After (stop_next s k p)
unfolding stop_next
stop_next-After s k none h = tt
stop_next-After s k (some waiting) h = stop_read-After s k h
stop_next-After s k (some (joining i)) h =
    if_elim After (has_exited (get_elem? s.contexts i)) (stop_free s k) blocked
      (λ _. stop_free-After s k h) (λ _. tt)

after_round-After :
    (s : Timers) (i : ℕ) (o : Option (TimerContext × List Action))
    → Silent s
    → Quiet o
    → After (after_round s i o)
unfolding after_round
after_round-After s i o h (over e) = rw e tt
after_round-After s i o (h, d) (goes c acts e k n) =
    rw e (set-All s.contexts i c k h, All-append IsNoDump s.done acts d n)

thread_round-After :
    (s : Timers) (i : ℕ) (o : Option TimerContext) → Silent s → Each o → After (thread_round s i o)
unfolding thread_round
thread_round-After s i none h k = tt
thread_round-After s i (some c) h k =
    if_elim After c.exited blocked _ (λ _. tt)
      (λ _.
        if_elim After c.freed faults _ (λ _. tt)
          (λ _. after_round-After s i (timer_round c) h (timer_round-Quiet c k)))

step-After : (e : Event) (s : Timers) → IsFileless e → Silent s → After (step e s)
unfolding step start_timer_thread
step-After (start calloc create mkstemp none) s f h = h
step-After (start calloc create mkstemp (some o)) s f h =
    start-Silent calloc create mkstemp o s f.0 f.1 h
step-After stop s f h = stop_enter-Silent s h
step-After (advance k) s f h = stop_next-After s k (get_elem? s.stops k) h
step-After (round i) s f h =
    thread_round-After s i (get_elem? s.contexts i) h (get-Each s.contexts i h.0)

and_then-After :
    (o : Outcome) (f : Timers → Outcome)
    → After o
    → ((s : Timers) → Silent s → After (f s))
    → After (and_then o f)
and_then-After (moves s) f h k = k s h
and_then-After blocked f h k = tt
and_then-After faults f h k = tt

run-After : (es : List Event) (s : Timers) → All IsFileless es → Silent s → After (run es s)
unfolding run
run-After [] s f h = h
run-After (e ∷ es) s (f, fs) h =
    and_then-After (step e s) (run es) (step-After e s f h) (λ t. run-After es t fs)

-- If `mkstemp` refuses a template that does not end in `XXXXXX` and no call of `start_timer_thread`
-- names a file, no stack is ever dumped: not by any thread, in whatever order the calls of
-- `start_timer_thread` and `stop_timer_thread` and the rounds of the threads come, and whatever is
-- asked for.
pub run-no_dumps :
    (es : List Event) (t : Timers)
    → All IsFileless es
    → run es no_timers ≡ moves t
    → All IsNoDump t.done
run-no_dumps es t f e = (subst After e (run-After es no_timers f (tt, tt))).1
