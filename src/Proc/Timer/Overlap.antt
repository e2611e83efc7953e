-- ===== src/Proc/Timer/Overlap.antt =====
-- Two calls of `stop_timer_thread` (src/bas/proc/dbgthread.c) that overlap.
use bas_c.Common.{
  ℕ, suc, ◌≡◌, refl, sym, ap, ◌∙◌, subst, true, false, Option, none, some, List, [], ◌∷◌, ◌++◌,
  append-nil, Bytes, pos, length, get_elem?, set-append,
}
use bas_c.Proc.Timer.{
  TimerOptions, TimerContext, Timers, Action, StopPc, waiting, joining, Event, start, stop, advance,
  round, moves, faults, step, start_timer_thread, stop_enter, stop_next, stop_read, stop_free,
  thread_round, after_round, timer_round, has_exited, new_context, or_default, run, run-moves,
}
use bas_c.Proc.Timer.Alone.{Reach-no_fault}
use bas_c.Proc.Timer.Shape.{Reach, change-last, get-last}
use bas_c.Proc.Timer.Fires.{going, Inv-Going, not_exited, awake, awake_lem}
use bas_c.Proc.Timer.Stops.{ended, at_last}

-- A state where the first of two calls has freed the context and the second is before its join: there
-- is no `s_timer_ctx` to read the thread from, and its next step goes wrong.
pub record JoinsNull (t : Timers) : Type 0 where
  pub second_waits : t.stops ≡ waiting ∷ []
  pub nothing_left : t.current ≡ none
  pub goes_wrong : step (advance 0) t ≡ faults

-- A state where the second call has joined the thread of the i-th context, and the next context was
-- started since and runs with these options. The next step of the call frees that one; its thread,
-- which nobody told to quit, then reads what is freed.
pub record FreesOther (o : TimerOptions) (i : ℕ) (t u : Timers) (c : TimerContext) : Type 0 where
  pub second_joined : t.stops ≡ joining i ∷ []
  pub other_current : t.current ≡ some (suc i)
  pub other : get_elem? t.contexts (suc i) ≡ some c
  pub asked_for : c.opts.interval_ms ≡ pos (or_default o.interval_ms)
  pub runs : c.exited ≡ false
  pub not_told : c.quit ≡ false
  pub allocated : c.freed ≡ false
  pub frees : step (advance 0) t ≡ moves u
  pub gone : get_elem? u.contexts (suc i) ≡ some (record c { freed = true })
  pub none_current : u.current ≡ none
  pub goes_wrong : step (round (suc i)) u ≡ faults

-- Two calls; the first joins and frees before the second goes on.
abbrev pub first_ends : ℕ → List Event
first_ends i = stop ∷ stop ∷ advance 0 ∷ round i ∷ advance 0 ∷ []

-- Two calls; both read the thread before it returns, the first frees, and the timer is started again.
abbrev pub starts_between : ℕ → (Bytes → Option Bytes) → TimerOptions → List Event
starts_between i mkstemp o =
    stop
    ∷ stop
    ∷ advance 0
    ∷ advance 1
    ∷ round i
    ∷ advance 0
    ∷ start true true mkstemp (some o)
    ∷ []

-- What the two schedules make of a state.
abbrev pub Overlaps : (Bytes → Option Bytes) → TimerOptions → Timers → ℕ → Type 0
Overlaps mkstemp o s i =
    ((t : Timers) × (run (first_ends i) s ≡ moves t) × JoinsNull t)
    × ((t : Timers) × (u : Timers) × (c : TimerContext) × (run (starts_between i mkstemp o) s
          ≡ moves t)
        × FreesOther o i t u c)

length-snoc : (cs : List TimerContext) (d : TimerContext) → length (cs ++ d ∷ []) ≡ suc (length cs)
length-snoc [] d = refl
length-snoc (c ∷ cs) d = ap suc (length-snoc cs d)

get-before :
    (cs : List TimerContext) (d e : TimerContext)
    → get_elem? ((cs ++ d ∷ []) ++ e ∷ []) (length cs) ≡ some d
get-before [] d e = refl
get-before (c ∷ cs) d e = get-before cs d e

run-none : (s : Timers) → run [] s ≡ moves s
unfolding run
run-none s = refl

module _ (cs : List TimerContext) (o : TimerOptions) (n k : ℕ) (a : List Action) where
  abbrev c : TimerContext
  c = awake o n k

  abbrev told : TimerContext
  told = record c { quit = true }

  abbrev returned : TimerContext
  returned = record c { quit = true; exited = true }

  -- The state with another context in the place of the last, while calls wait.
  abbrev held : TimerContext → List StopPc → Timers
  held d l = record { current = some (length cs); contexts = cs ++ d ∷ []; stops = l; done = a }

  abbrev empty : List StopPc → Timers
  empty l = record { current = none; contexts = cs ++ ended c ∷ []; stops = l; done = a }

  tells :
      (d : TimerContext) (l : List StopPc)
      → step stop (held d l) ≡ moves (held (record d { quit = true }) (l ++ waiting ∷ []))
  unfolding step stop_enter
  tells d l = rw (change-last cs d (λ c. record c { quit = true })) refl

  reads :
      (l : List StopPc)
      → step (advance 0) (held told (waiting ∷ l)) ≡ moves (held told (joining (length cs) ∷ l))
  unfolding step stop_next stop_read
  reads l = refl

  second_reads :
      step (advance 1) (held told (joining (length cs) ∷ waiting ∷ []))
      ≡ moves (held told (joining (length cs) ∷ joining (length cs) ∷ []))
  unfolding step stop_next stop_read
  second_reads = refl

  returns : (l : List StopPc) → step (round (length cs)) (held told l) ≡ moves (held returned l)
  unfolding step thread_round after_round timer_round
  returns l = rw (get-last cs told, set-append cs told returned [], append-nil a) refl

  frees_own :
      (l : List StopPc)
      → step (advance 0) (held returned (joining (length cs) ∷ l)) ≡ moves (empty l)
  unfolding step stop_next stop_free has_exited
  frees_own l =
      rw (get-last cs returned, change-last cs returned (λ c. record c { freed = true })) refl

  null_lem : JoinsNull (empty (waiting ∷ []))
  unfolding step stop_next stop_read
  null_lem = record { second_waits = refl; nothing_left = refl; goes_wrong = refl }

  module _ (mkstemp : Bytes → Option Bytes) (o' : TimerOptions) where
    abbrev new : TimerContext
    new = new_context mkstemp o'

    -- The state with a new context behind the one that was freed.
    abbrev again : Timers
    again = record {
      current = some (length (cs ++ ended c ∷ []));
      contexts = (cs ++ ended c ∷ []) ++ new ∷ [];
      stops = joining (length cs) ∷ [];
      done = a;
    }

    abbrev after : Timers
    after = record {
      current = none;
      contexts = (cs ++ ended c ∷ []) ++ record new { freed = true } ∷ [];
      stops = [];
      done = a;
    }

    restarts :
        step (start true true mkstemp (some o')) (empty (joining (length cs) ∷ [])) ≡ moves again
    unfolding step start_timer_thread
    restarts = refl

    frees_new : step (advance 0) again ≡ moves after
    unfolding step stop_next stop_free has_exited
    frees_new =
        rw
          (
            get-before cs (ended c) new,
            change-last (cs ++ ended c ∷ []) new (λ c. record c { freed = true }),
          )
          refl

    get-new :
        (d : TimerContext) → get_elem? ((cs ++ ended c ∷ []) ++ d ∷ []) (suc (length cs)) ≡ some d
    get-new d =
        subst (λ j. get_elem? ((cs ++ ended c ∷ []) ++ d ∷ []) j ≡ some d)
          (length-snoc cs (ended c)) (get-last (cs ++ ended c ∷ []) d)

    reads_freed : step (round (suc (length cs))) after ≡ faults
    unfolding step thread_round new_context
    reads_freed = rw (get-new (record new { freed = true })) refl

    other_lem : FreesOther o' (length cs) again after new
    unfolding new_context
    other_lem = record {
      second_joined = refl;
      other_current = ap some (length-snoc cs (ended c));
      other = get-new new;
      asked_for = refl;
      runs = refl;
      not_told = refl;
      allocated = refl;
      frees = frees_new;
      gone = get-new (record new { freed = true });
      none_current = refl;
      goes_wrong = reads_freed;
    }

    held-Overlaps : Overlaps mkstemp o' (held c []) (length cs)
    held-Overlaps = (
      (
        empty (waiting ∷ []),
        run-moves stop _ _ _ (tells c [])
            ∙ run-moves stop _ _ _ (tells told (waiting ∷ []))
            ∙ run-moves (advance 0) _ _ _ (reads (waiting ∷ []))
            ∙ run-moves (round (length cs)) _ _ _ (returns (joining (length cs) ∷ waiting ∷ []))
            ∙ run-moves (advance 0) [] _ _ (frees_own (waiting ∷ []))
            ∙ run-none _,
        null_lem,
      ),
      (
        again,
        after,
        new,
        run-moves stop _ _ _ (tells c [])
            ∙ run-moves stop _ _ _ (tells told (waiting ∷ []))
            ∙ run-moves (advance 0) _ _ _ (reads (waiting ∷ []))
            ∙ run-moves (advance 1) _ _ _ second_reads
            ∙ run-moves (round (length cs)) _ _ _
                (returns (joining (length cs) ∷ joining (length cs) ∷ []))
            ∙ run-moves (advance 0) _ _ _ (frees_own (joining (length cs) ∷ []))
            ∙ run-moves (start true true mkstemp (some o')) [] _ _ restarts
            ∙ run-none _,
        other_lem,
      ),
    )

-- In any state that is reached with one call of `stop_timer_thread` at a time and intervals up to
-- 2147483600 ms, while a timer runs and no call waits, two calls that overlap go wrong. If the first
-- ends before the second joins, the second joins through a NULL pointer. If both join, the first
-- ends, and a timer is started before the second goes on, the second frees the new context, whose
-- thread was not told to quit, still runs, and reads it afterwards.
pub overlap-faults :
    (mkstemp : Bytes → Option Bytes) (o : TimerOptions) (s : Timers) (i : ℕ)
    → Reach 1 s
    → s.current ≡ some i
    → s.stops ≡ []
    → Overlaps mkstemp o s i
overlap-faults mkstemp o s i h current quiet =
    elim (Inv-Going s i (Reach-no_fault s h).0 current quiet) [
      | going cs c a live q e f ↦
          subst (λ t. Overlaps mkstemp o t i) (sym f)
            (subst (λ j. Overlaps mkstemp o (at_last cs c a) j) (sym e)
              (subst (λ d. Overlaps mkstemp o (at_last cs d a) (length cs))
                (sym (awake_lem c live q (not_exited c live q)))
                (held-Overlaps cs c.opts c.counter c.accumulated_ms a mkstemp o)))
    ]
