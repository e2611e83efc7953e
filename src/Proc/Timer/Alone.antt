-- ===== src/Proc/Timer/Alone.antt =====
-- The steps of the timer (src/bas/proc/dbgthread.c) with a bound on how many calls of
-- `stop_timer_thread` overlap: with one at a time no step goes wrong.
use bas_c.Common.{
  ℕ, zero, suc, ◌+◌, ◌%◌, ◌^◌, ◌≤◌, ◌<◌, ◌≡◌, refl, subst, ◌≢◌, inl, inr, Bool, true, false, ◌&&◌,
  Option, none, some, List, [], ◌∷◌, ◌++◌, arith, Bytes, ℤ, pos, negsuc, ltb, length, get_elem?,
  All, All-append, Bool-cases, if_elim, ltb→lt, set-append,
}
use bas_c.Proc.Timer.{
  TimerOptions, TimerContext, Timers, StopPc, waiting, joining, Event, start, stop, advance, round,
  Outcome, moves, blocked, faults, step, start_timer_thread, stop_enter, stop_next, stop_read,
  stop_free, thread_round, after_round, timer_round, has_exited, new_context, updated, or_default,
  Action, actions,
}
use bas_c.Proc.Timer.Shape.{
  longest, IsAllowed, Reach, IsDead, IsLive, Stopping, Inv, change-last, get-last, whose,
  none-IsDead, IsFine, here, next, idle, busy, no_call, first_half, second_half, nobody, dead, last,
}

or_default_again : (z : ℤ) → or_default (pos (or_default z)) ≡ or_default z
unfolding or_default
or_default_again (pos zero) = refl
or_default_again (pos (suc n)) = refl
or_default_again (negsuc n) = refl

new_context-IsLive :
    (mkstemp : Bytes → Option Bytes) (o : TimerOptions)
    → or_default o.interval_ms ≤ longest
    → IsLive (new_context mkstemp o)
unfolding new_context
new_context-IsLive mkstemp o h = record {
  kept = refl;
  interval = rw (or_default_again o.interval_ms) h;
  whole = refl;
  small = omega arith;
  told = λ e. e;
}

updated-IsLive :
    (o : TimerOptions) (c : TimerContext)
    → or_default o.interval_ms ≤ longest
    → IsLive c
    → IsLive (updated o c)
unfolding updated
updated-IsLive o c h l = record {
  kept = l.kept;
  interval = rw (or_default_again o.interval_ms) h;
  whole = l.whole;
  small = l.small;
  told = l.told;
}

updated-quit : (o : TimerOptions) (c : TimerContext) → (updated o c).quit ≡ c.quit
unfolding updated
updated-quit o c = refl

new_context-quit :
    (mkstemp : Bytes → Option Bytes) (o : TimerOptions) → (new_context mkstemp o).quit ≡ false
unfolding new_context
new_context-quit mkstemp o = refl

start-IsFine :
    (calloc create : Bool) (mkstemp : Bytes → Option Bytes) (o : Option TimerOptions) (s : Timers)
    (n : ℕ)
    → IsAllowed n s (start calloc create mkstemp o)
    → Inv s
    → Inv (start_timer_thread calloc create mkstemp o s).1
unfolding start_timer_thread IsAllowed
start-IsFine calloc create mkstemp none s n h inv = inv
start-IsFine calloc create mkstemp (some o) _ n h (idle cs a d) =
    elim (Bool-cases (calloc && create)) [
      | inl e ↦ rw e (
          busy cs (new_context mkstemp o) [] a d (new_context-IsLive mkstemp o h)
            (no_call (new_context-quit mkstemp o)))
      | inr e ↦ rw e (idle cs a d)
    ]
start-IsFine calloc create mkstemp (some o) _ n h (busy cs c l a d live st) =
    rw (change-last cs c (updated o))
      (busy cs (updated o c) l a d (updated-IsLive o c h live) (rw (updated-quit o c) st))

told_quit : TimerContext → TimerContext
told_quit c = record c { quit = true }

stop_enter-IsFine : (s : Timers) → length s.stops < 1 → Inv s → Inv (stop_enter s)
unfolding stop_enter
stop_enter-IsFine _ h (idle cs a d) = idle cs a d
stop_enter-IsFine _ h (busy cs c _ a d live (no_call q)) =
    rw (change-last cs c (λ c. record c { quit = true })) (
      busy cs (record c { quit = true }) (waiting ∷ []) a d
        (record {
          kept = live.kept;
          interval = live.interval;
          whole = live.whole;
          small = live.small;
          told = λ e. refl;
        })
        (first_half refl))
stop_enter-IsFine _ h (busy cs c _ a d live (first_half q)) = absurd (omega arith)
stop_enter-IsFine _ h (busy cs c _ a d live (second_half q)) = absurd (omega arith)

All-last :
    (cs : List TimerContext) (c : TimerContext)
    → All IsDead cs
    → IsDead c
    → All IsDead (cs ++ c ∷ [])
All-last cs c h p = All-append IsDead cs (c ∷ []) h (p, tt)

stop_free-IsFine :
    (cs : List TimerContext) (c : TimerContext) (a : List Action)
    → All IsDead cs
    → c.exited ≡ true
    → IsFine (
        stop_free
          (record {
            current = some (length cs);
            contexts = cs ++ c ∷ [];
            stops = joining (length cs) ∷ [];
            done = a;
          })
          0)
unfolding IsFine stop_free
stop_free-IsFine cs c a d e = rw (change-last cs c (λ c. record c { freed = true })) (
    idle (cs ++ record c { freed = true } ∷ []) a
      (All-append IsDead cs (record c { freed = true } ∷ []) d ((refl, e), tt)))

advance-IsFine : (s : Timers) (k : ℕ) → Inv s → IsFine (stop_next s k (get_elem? s.stops k))
unfolding IsFine stop_next stop_read has_exited
advance-IsFine _ k (idle cs a d) = tt
advance-IsFine _ k (busy cs c _ a d live (no_call q)) = tt
advance-IsFine _ zero (busy cs c _ a d live (first_half q)) =
    busy cs c (joining (length cs) ∷ []) a d live (second_half q)
advance-IsFine _ (suc k) (busy cs c _ a d live (first_half q)) = tt
advance-IsFine _ zero (busy cs c _ a d live (second_half q)) =
    rw (get-last cs c)
      (if_elim IsFine c.exited _ blocked (λ e. stop_free-IsFine cs c a d e) (λ e. tt))
advance-IsFine _ (suc k) (busy cs c _ a d live (second_half q)) = tt

-- A round of a thread whose context is not freed.
timer_round-IsLive :
    (c : TimerContext)
    → IsLive c
    → (c' : TimerContext) × (acts : List Action) × (timer_round c ≡ some (c', acts))
      × IsLive c'
      × (c'.quit ≡ c.quit)
unfolding timer_round
timer_round-IsLive c live = elim (Bool-cases c.quit) [
  | inl q ↦ (
    record c { exited = true },
    [],
    rw q refl,
    record {
      kept = live.kept;
      interval = live.interval;
      whole = live.whole;
      small = live.small;
      told = λ e. q;
    },
    refl,
  )
  | inr q ↦ elim (Bool-cases (ltb (c.accumulated_ms + 100) (or_default c.opts.interval_ms))) [
    | inl e ↦ (
      record c { accumulated_ms = c.accumulated_ms + 100 },
      [],
      ground (arith, q, e, live.small),
      record {
        kept = live.kept;
        interval = live.interval;
        whole = omega (arith, live.whole);
        small = omega (arith, ltb→lt _ _ e, live.whole, live.interval);
        told = live.told;
      },
      refl,
    )
    | inr e ↦ (
      record c { accumulated_ms = 0; counter = (c.counter + 1) % 2 ^ 64 },
      actions (record c { accumulated_ms = 0; counter = (c.counter + 1) % 2 ^ 64 }),
      ground (arith, q, e, live.small),
      record {
        kept = live.kept;
        interval = live.interval;
        whole = refl;
        small = omega arith;
        told = live.told;
      },
      refl,
    )
  ]
]

after_last-IsFine :
    (cs : List TimerContext) (c : TimerContext) (l : List StopPc) (a : List Action)
    → All IsDead cs
    → IsLive c
    → Stopping (length cs) c.quit l
    → IsFine (
        after_round
          (record { current = some (length cs); contexts = cs ++ c ∷ []; stops = l; done = a })
          (length cs)
          (timer_round c))
unfolding IsFine after_round
after_last-IsFine cs c l a d live st =
    let (c', acts, e, live', q) = timer_round-IsLive c live in
    rw (e, set-append cs c c' []) (busy cs c' l (a ++ acts) d live' (rw q st))

last_round-IsFine :
    (cs : List TimerContext) (c : TimerContext) (l : List StopPc) (a : List Action)
    → All IsDead cs
    → IsLive c
    → Stopping (length cs) c.quit l
    → IsFine (
        thread_round
          (record { current = some (length cs); contexts = cs ++ c ∷ []; stops = l; done = a })
          (length cs)
          (some c))
unfolding IsFine thread_round
last_round-IsFine cs c l a d live st =
    if_elim IsFine c.exited blocked _ (λ e. tt)
      (λ x.
        if_elim IsFine c.freed faults _ (λ e. absurd (cc (e, live.kept)))
          (λ k. after_last-IsFine cs c l a d live st))

round-IsFine : (s : Timers) (i : ℕ) → Inv s → IsFine (thread_round s i (get_elem? s.contexts i))
unfolding IsFine thread_round
round-IsFine _ i (idle cs a d) = elim (none-IsDead cs i d) [
  | inl e ↦ rw e tt
  | inr (c, e, (f, x)) ↦ rw e (rw x tt)
]
round-IsFine _ i (busy cs c l a d live st) = elim (whose cs c i d) [
  | nobody e ↦ rw e tt
  | dead c' e (f, x) ↦ rw e (rw x tt)
  | last e ↦ rw (e, get-last cs c) (last_round-IsFine cs c l a d live st)
]

step-IsFine : (s : Timers) (e : Event) → IsAllowed 1 s e → Inv s → IsFine (step e s)
unfolding step IsFine IsAllowed
step-IsFine s (start calloc create mkstemp o) a inv = start-IsFine calloc create mkstemp o s 1 a inv
step-IsFine s stop a inv = stop_enter-IsFine s a inv
step-IsFine s (advance k) a inv = advance-IsFine s k inv
step-IsFine s (round i) a inv = round-IsFine s i inv

IsFine-faults : (o : Outcome) → IsFine o → o ≢ faults
unfolding IsFine
IsFine-faults (moves s) h e = cc
IsFine-faults blocked h e = cc
IsFine-faults faults h e = h

IsFine-moves : (o : Outcome) (t : Timers) → IsFine o → o ≡ moves t → Inv t
unfolding IsFine
IsFine-moves o t h e = subst IsFine e h

Reach-Inv : (s : Timers) → Reach 1 s → Inv s
Reach-Inv _ here = idle [] [] tt
Reach-Inv t (next {s} e r a q) = IsFine-moves (step e s) t (step-IsFine s e a (Reach-Inv s r)) q

-- In every state that is reached with one call of `stop_timer_thread` at a time and intervals up to
-- 2147483600 ms, whatever is called and whatever `calloc`, `pthread_create` and `mkstemp` answer:
-- only the context of `s_timer_ctx`, if there is one, is not freed or has a thread that runs, and no
-- step that follows touches memory that is not there or overflows `accumulated_ms`.
pub Reach-no_fault :
    (s : Timers) → Reach 1 s → Inv s × ((e : Event) → IsAllowed 1 s e → step e s ≢ faults)
Reach-no_fault s r =
    (Reach-Inv s r, λ e a q. IsFine-faults (step e s) (step-IsFine s e a (Reach-Inv s r)) q)
