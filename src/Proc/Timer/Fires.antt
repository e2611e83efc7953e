-- ===== src/Proc/Timer/Fires.antt =====
-- The timer (src/bas/proc/dbgthread.c) fires when its interval is over, and stops when it is told.
use bas_c.Common.{
  ℕ, zero, suc, ◌+◌, ◌-◌, ◌*◌, ◌/◌, ◌%◌, ◌^◌, ◌≤◌, ◌<◌, ◌≡◌, refl, sym, ap, ◌∙◌, inl, inr, false,
  some, List, [], ◌∷◌, ◌++◌, append-nil, arith, ℤ, pos, negsuc, length, get_elem?, set, replicate,
  Bool-cases,
}
use bas_c.Proc.Timer.{
  TimerOptions, TimerContext, Timers, round, moves, step, thread_round, after_round, timer_round,
  or_default, Action, actions, run, run-moves,
}
use bas_c.Proc.Timer.Alone.{Reach-no_fault}
use bas_c.Proc.Timer.Shape.{
  Reach, Inv, idle, busy, IsLive, no_call, first_half, second_half, get-last,
}

get-set :
    {A : Type 0} (l : List A) (i : ℕ) (x y : A)
    → get_elem? l i ≡ some x
    → get_elem? (set l i y) i ≡ some y
get-set [] i x y h = cc
get-set (z ∷ l) zero x y h = refl
get-set (z ∷ l) (suc i) x y h = get-set l i x y h

set-set : {A : Type 0} (l : List A) (i : ℕ) (x y : A) → set (set l i x) i y ≡ set l i y
set-set [] i x y = refl
set-set (z ∷ l) zero x y = refl
set-set (z ∷ l) (suc i) x y = ap (λ t. z ∷ t) (set-set l i x y)

-- A context whose thread runs and was not told to quit.
abbrev pub awake : TimerOptions → ℕ → ℕ → TimerContext
awake o n a = record {
  quit = false;
  opts = o;
  counter = n;
  accumulated_ms = a;
  exited = false;
  freed = false;
}

-- The context when it fires.
abbrev pub fired : TimerContext → TimerContext
fired c = record c { accumulated_ms = 0; counter = (c.counter + 1) % 2 ^ 64 }

-- The state when the i-th context has fired.
abbrev pub after_firing : Timers → ℕ → TimerContext → Timers
after_firing s i c = record s {
  contexts = set s.contexts i (fired c);
  done = s.done ++ actions (fired c);
}

module _ (s : Timers) (i : ℕ) (o : TimerOptions) (n a : ℕ)
    (place : get_elem? s.contexts i ≡ some (awake o n a)) (small : a ≤ 2147483500) where
  round_fires :
      or_default o.interval_ms ≤ a + 100 → step (round i) s ≡ moves (after_firing s i (awake o n a))
  unfolding step thread_round after_round timer_round
  round_fires over = rw place (ground (arith, small, over))

  round_waits :
      a + 100 < or_default o.interval_ms
      → step (round i) s
        ≡ moves
            (record s { contexts = set s.contexts i (awake o n (a + 100)); done = s.done ++ [] })
  unfolding step thread_round after_round timer_round
  round_waits under = rw place (ground (arith, small, under))

run-none : (s : Timers) → run [] s ≡ moves s
unfolding run
run-none s = refl

rounds_fire :
    (r : ℕ) (s : Timers) (i : ℕ) (o : TimerOptions) (n a : ℕ)
    → get_elem? s.contexts i ≡ some (awake o n a)
    → a + 100 * r ≤ 2147483500
    → or_default o.interval_ms ≤ a + 100 * r + 100
    → (0 < r → a + 100 * r < or_default o.interval_ms)
    → run (replicate (suc r) (round i)) s ≡ moves (after_firing s i (awake o n a))
rounds_fire zero s i o n a place small over under =
    run-moves (round i) [] s _
      (round_fires s i o n a place (omega (arith, small)) (omega (arith, over)))
    ∙ run-none (after_firing s i (awake o n a))
rounds_fire (suc r) s i o n a place small over under =
    run-moves (round i) (replicate (suc r) (round i)) s _
      (round_waits s i o n a place (omega (arith, small)) (omega (arith, under)))
    ∙ rounds_fire r
        (record s { contexts = set s.contexts i (awake o n (a + 100)); done = s.done ++ [] }) i o n
        (a + 100) (get-set s.contexts i (awake o n a) (awake o n (a + 100)) place)
        (omega (arith, small)) (omega (arith, over)) (λ p. omega (arith, under))
    ∙ rw (set-set s.contexts i (awake o n (a + 100)) (fired (awake o n a)), append-nil s.done) refl

-- How many rounds pass before the one that fires.
abbrev idle_rounds : TimerContext → ℕ
idle_rounds c = (or_default c.opts.interval_ms - c.accumulated_ms - 1) / 100

or_default_positive : (z : ℤ) → 0 < or_default z
unfolding or_default
or_default_positive (pos zero) = omega arith
or_default_positive (pos (suc n)) = omega arith
or_default_positive (negsuc n) = omega arith

pub awake_lem :
    (c : TimerContext)
    → IsLive c
    → c.quit ≡ false
    → c.exited ≡ false
    → c ≡ awake c.opts c.counter c.accumulated_ms
awake_lem c live q x = rw (q, x, live.kept) refl

live_fires :
    (s : Timers) (i : ℕ) (c : TimerContext)
    → IsLive c
    → c.quit ≡ false
    → c.exited ≡ false
    → get_elem? s.contexts i ≡ some c
    → run (replicate (suc (idle_rounds c)) (round i)) s ≡ moves (after_firing s i c)
live_fires s i c live q x place =
    rounds_fire (idle_rounds c) s i c.opts c.counter c.accumulated_ms
      (place ∙ ap some (awake_lem c live q x))
      (omega (arith, live.small, live.interval, live.whole)) (omega arith)
      (λ p. omega (arith, or_default_positive c.opts.interval_ms))
    ∙ ap (λ d. moves (after_firing s i d)) (sym (awake_lem c live q x))

pub not_exited : (c : TimerContext) → IsLive c → c.quit ≡ false → c.exited ≡ false
not_exited c live q = elim (Bool-cases c.exited) [
  | inl e ↦ absurd (cc (live.told e, q))
  | inr e ↦ e
]

-- A state with a context whose thread runs, which no call stops.
pub data Going (s : Timers) (i : ℕ) : Type 0 where
  going :
      (cs : List TimerContext) (c : TimerContext) (a : List Action)
      → IsLive c
      → c.quit ≡ false
      → i ≡ length cs
      → s ≡ record { current = some (length cs); contexts = cs ++ c ∷ []; stops = []; done = a }
      → Going s i

pub Inv-Going : (s : Timers) (i : ℕ) → Inv s → s.current ≡ some i → s.stops ≡ [] → Going s i
Inv-Going _ i (idle cs a d) at quiet = cc
Inv-Going _ i (busy cs c _ a d live (no_call q)) at quiet = going cs c a live q (cc (at)) refl
Inv-Going _ i (busy cs c _ a d live (first_half q)) at quiet = cc
Inv-Going _ i (busy cs c _ a d live (second_half q)) at quiet = cc

-- In a state that is reached with one call of `stop_timer_thread` at a time and intervals up to
-- 2147483600 ms, while no call waits: after at most one round for each 100 ms of the interval that
-- has begun, the thread of `s_timer_ctx` counts one more and does what its flags say.
pub rounds-fire :
    (s : Timers) (i : ℕ)
    → Reach 1 s
    → s.current ≡ some i
    → s.stops ≡ []
    → (c : TimerContext) × (r : ℕ) × (get_elem? s.contexts i ≡ some c)
      × (100 * r < or_default c.opts.interval_ms)
      × (run (replicate (suc r) (round i)) s ≡ moves (after_firing s i c))
rounds-fire s i h at quiet = elim (Inv-Going s i (Reach-no_fault s h).0 at quiet) [
  | going cs c a live q e f ↦
      let place : get_elem? s.contexts i ≡ some c =
        ap (λ t. get_elem? t.contexts i) f ∙ rw e (get-last cs c) in
      (
        c,
        idle_rounds c,
        place,
        omega (arith, or_default_positive c.opts.interval_ms),
        live_fires s i c live q (not_exited c live q) place,
      )
]
