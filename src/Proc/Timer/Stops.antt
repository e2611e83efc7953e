-- ===== src/Proc/Timer/Stops.antt =====
-- `stop_timer_thread` (src/bas/proc/dbgthread.c) comes to an end.
use bas_c.Common.{
  ℕ, ◌≡◌, refl, sym, ◌∙◌, subst, true, none, some, List, [], ◌∷◌, ◌++◌, append-nil, length,
  get_elem?, set, set-append,
}
use bas_c.Proc.Timer.{
  TimerOptions, TimerContext, Timers, StopPc, waiting, joining, stop, advance, round, moves, step,
  stop_enter, stop_next, stop_read, stop_free, thread_round, after_round, timer_round, has_exited,
  Action, run, run-moves,
}
use bas_c.Proc.Timer.Alone.{Reach-no_fault}
use bas_c.Proc.Timer.Shape.{Reach, change-last, get-last}
use bas_c.Proc.Timer.Fires.{going, Inv-Going, not_exited, awake, awake_lem}

-- A context whose thread has returned and whose block is given back.
abbrev pub ended : TimerContext → TimerContext
ended c = record c { quit = true; exited = true; freed = true }

module _ (cs : List TimerContext) (o : TimerOptions) (n k : ℕ) (a : List Action) where
  abbrev c : TimerContext
  c = awake o n k

  -- The state with another context in the place of the last, while a call waits.
  abbrev held : TimerContext → List StopPc → Timers
  held d l = record { current = some (length cs); contexts = cs ++ d ∷ []; stops = l; done = a }

  abbrev told : TimerContext
  told = record c { quit = true }

  abbrev returned : TimerContext
  returned = record c { quit = true; exited = true }

  stop_tells : step stop (held c []) ≡ moves (held told (waiting ∷ []))
  unfolding step stop_enter
  stop_tells = rw (change-last cs c (λ c. record c { quit = true })) refl

  advance_joins :
      step (advance 0) (held told (waiting ∷ [])) ≡ moves (held told (joining (length cs) ∷ []))
  unfolding step stop_next stop_read
  advance_joins = refl

  round_returns :
      step (round (length cs)) (held told (joining (length cs) ∷ []))
      ≡ moves (held returned (joining (length cs) ∷ []))
  unfolding step thread_round after_round timer_round
  round_returns = rw (get-last cs told, set-append cs told returned [], append-nil a) refl

  advance_frees :
      step (advance 0) (held returned (joining (length cs) ∷ []))
      ≡ moves (record { current = none; contexts = cs ++ ended c ∷ []; stops = []; done = a })
  unfolding step stop_next stop_free has_exited
  advance_frees =
      rw (get-last cs returned, change-last cs returned (λ c. record c { freed = true })) refl

  run-none : (s : Timers) → run [] s ≡ moves s
  unfolding run
  run-none s = refl

  stop_ends :
      run (stop ∷ advance 0 ∷ round (length cs) ∷ advance 0 ∷ []) (held c [])
      ≡ moves (record { current = none; contexts = cs ++ ended c ∷ []; stops = []; done = a })
  stop_ends =
      run-moves stop _ _ _ stop_tells
      ∙ run-moves (advance 0) _ _ _ advance_joins
      ∙ run-moves (round (length cs)) _ _ _ round_returns
      ∙ run-moves (advance 0) [] _ _ advance_frees
      ∙ run-none _

-- What a call of `stop_timer_thread` and a round of the i-th thread make of a state.
abbrev pub Stopped : Timers → ℕ → Type 0
Stopped s i =
    (c : TimerContext) × (get_elem? s.contexts i ≡ some c)
    × (run (stop ∷ advance 0 ∷ round i ∷ advance 0 ∷ []) s
        ≡ moves (record s { current = none; contexts = set s.contexts i (ended c) }))

-- The state with a context in the place of the last.
abbrev pub at_last : List TimerContext → TimerContext → List Action → Timers
at_last cs d a = record {
  current = some (length cs);
  contexts = cs ++ d ∷ [];
  stops = [];
  done = a;
}

held-Stopped :
    (cs : List TimerContext) (o : TimerOptions) (n k : ℕ) (a : List Action)
    → Stopped (at_last cs (awake o n k) a) (length cs)
held-Stopped cs o n k a = (
  awake o n k,
  get-last cs (awake o n k),
  rw (set-append cs (awake o n k) (ended (awake o n k)) []) (stop_ends cs o n k a),
)

-- In a state that is reached with one call of `stop_timer_thread` at a time and intervals up to
-- 2147483600 ms, while no call waits: when the timer is stopped, its thread returns in its next
-- round, and the call ends. `s_timer_ctx` is NULL then, the context is freed, and nothing else
-- changes.
pub run-stop : (s : Timers) (i : ℕ) → Reach 1 s → s.current ≡ some i → s.stops ≡ [] → Stopped s i
run-stop s i h at quiet = elim (Inv-Going s i (Reach-no_fault s h).0 at quiet) [
  | going cs c a live q e f ↦
      subst (λ t. Stopped t i) (sym f)
        (subst (λ j. Stopped (at_last cs c a) j) (sym e)
          (subst (λ d. Stopped (at_last cs d a) (length cs))
            (sym (awake_lem c live q (not_exited c live q)))
            (held-Stopped cs c.opts c.counter c.accumulated_ms a)))
]
