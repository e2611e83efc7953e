-- ===== src/Proc/Timer/Shape.antt =====
-- The states of the timer (src/bas/proc/dbgthread.c) that are reached, and the invariant of those
-- reached with one call of `stop_timer_thread` at a time.
use bas_c.Common.{
  ℕ, zero, suc, ◌%◌, ◌≤◌, ◌<◌, ◌≡◌, refl, ap, ◌⊎◌, inl, inr, Bool, true, false, none, some, List,
  [], ◌∷◌, ◌++◌, length, get_elem?, All,
}
use bas_c.Proc.Timer.{
  TimerContext, Timers, StopPc, waiting, joining, Event, start, stop, advance, round, Outcome,
  moves, blocked, faults, step, no_timers, change, or_default, Action,
}

-- The longest interval for which `accumulated_ms` stays an int.
abbrev pub longest : ℕ
longest = 2147483600

-- At most `n` calls of `stop_timer_thread` at a time, and no interval that is too long.
unfoldable pub IsAllowed : ℕ → Timers → Event → Type 0
IsAllowed n s (start calloc create mkstemp none) = Unit
IsAllowed n s (start calloc create mkstemp (some o)) = or_default o.interval_ms ≤ longest
IsAllowed n s stop = length s.stops < n
IsAllowed n s (advance k) = Unit
IsAllowed n s (round i) = Unit

-- The states that the events lead to from the start of the program.
pub data Reach (n : ℕ) : Timers → Type 0 where
  here : Reach n no_timers
  next : {s t : Timers} (e : Event) → Reach n s → IsAllowed n s e → step e s ≡ moves t → Reach n t

abbrev pub IsDead : TimerContext → Type 0
IsDead c = (c.freed ≡ true) × (c.exited ≡ true)

-- A context that is not freed.
pub record IsLive (c : TimerContext) : Type 0 where
  pub kept : c.freed ≡ false
  pub interval : or_default c.opts.interval_ms ≤ longest
  pub whole : c.accumulated_ms % 100 ≡ 0
  pub small : c.accumulated_ms ≤ 2147483500
  pub told : c.exited ≡ true → c.quit ≡ true

-- Where the call of `stop_timer_thread` for the context `i` is, if there is one.
pub data Stopping (i : ℕ) (quit : Bool) : List StopPc → Type 0 where
  no_call : quit ≡ false → Stopping i quit []
  first_half : quit ≡ true → Stopping i quit (waiting ∷ [])
  second_half : quit ≡ true → Stopping i quit (joining i ∷ [])

-- At most the last context is not freed, and it is that of `s_timer_ctx`.
pub data Inv : Timers → Type 0 where
  idle :
      (cs : List TimerContext) (a : List Action)
      → All IsDead cs
      → Inv (record { current = none; contexts = cs; stops = []; done = a })
  busy :
      (cs : List TimerContext) (c : TimerContext) (l : List StopPc) (a : List Action)
      → All IsDead cs
      → IsLive c
      → Stopping (length cs) c.quit l
      → Inv (record { current = some (length cs); contexts = cs ++ c ∷ []; stops = l; done = a })

pub change-last :
    (cs : List TimerContext) (c : TimerContext) (f : TimerContext → TimerContext)
    → change (cs ++ c ∷ []) (length cs) f ≡ cs ++ f c ∷ []
unfolding change
change-last [] c f = refl
change-last (d ∷ cs) c f = ap (λ t. d ∷ t) (change-last cs c f)

pub get-last :
    (cs : List TimerContext) (c : TimerContext) → get_elem? (cs ++ c ∷ []) (length cs) ≡ some c
get-last [] c = refl
get-last (d ∷ cs) c = get-last cs c

-- What the i-th context is.
pub data Whose (cs : List TimerContext) (c : TimerContext) (i : ℕ) : Type 0 where
  nobody : get_elem? (cs ++ c ∷ []) i ≡ none → Whose cs c i
  dead : (d : TimerContext) → get_elem? (cs ++ c ∷ []) i ≡ some d → IsDead d → Whose cs c i
  last : i ≡ length cs → Whose cs c i

pub whose : (cs : List TimerContext) (c : TimerContext) (i : ℕ) → All IsDead cs → Whose cs c i
whose [] c zero h = last refl
whose [] c (suc i) h = nobody refl
whose (d ∷ cs) c zero h = dead d refl h.0
whose (d ∷ cs) c (suc i) h = elim (whose cs c i h.1) [
  | nobody e ↦ nobody e
  | dead d' e p ↦ dead d' e p
  | last e ↦ last (ap suc e)
]

pub none-IsDead :
    (cs : List TimerContext) (i : ℕ)
    → All IsDead cs
    → (get_elem? cs i ≡ none) ⊎ ((d : TimerContext) × (get_elem? cs i ≡ some d) × IsDead d)
none-IsDead [] i h = inl refl
none-IsDead (d ∷ cs) zero h = inr (d, refl, h.0)
none-IsDead (d ∷ cs) (suc i) h = none-IsDead cs i h.1

-- What an outcome may be.
unfoldable pub IsFine : Outcome → Type 0
IsFine (moves s) = Inv s
IsFine blocked = Unit
IsFine faults = ⊥
