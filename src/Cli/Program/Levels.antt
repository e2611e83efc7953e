-- ===== src/Cli/Program/Levels.antt =====
-- The options for less and for more messages (src/bas/cli/program.c).
use bas_c.Common.{
  ℕ, zero, suc, ◌+◌, ◌-◌, ◌^◌, ◌<◌, ◌≡◌, refl, ap, true, some, List, [], ◌∷◌, arith, Bytes, ℤ, pos,
  negsuc, ltb, All,
}
use bas_c.Base.CString.{str_eq}
use bas_c.Log.Logger.{Logger, logger_less, logger_more, up, down, with_level}
use bas_c.Cli.Program.{
  Settings, skip_dashes, is_short, first_is, less, more, each_logger, apply_option,
  parse_option_defaults,
}

-- A level as its distance from the smallest int.
abbrev pub offset : ℤ → ℕ
offset (pos n) = n + 2 ^ 31
offset (negsuc n) = 2 ^ 31 - 1 - n

-- An int that is neither the smallest nor the largest.
abbrev pub Inside : ℤ → Type 0
Inside z = (0 < offset z) × (offset z < 2 ^ 32 - 1)

-- The loggers of the second list are those of the first, each with a level of one more.
abbrev pub AllRaised : List Logger → List Logger → Type 0
AllRaised [] [] = Unit
AllRaised [] (m ∷ ms) = ⊥
AllRaised (l ∷ ls) [] = ⊥
AllRaised (l ∷ ls) (m ∷ ms) =
    (offset m.level ≡ offset l.level + 1) × (record m { level = l.level } ≡ l) × AllRaised ls ms

-- The levels of the second are those of the first and one more, and nothing else is different.
pub record Raised (s t : Settings) : Type 0 where
  pub level : offset t.log_level ≡ offset s.log_level + 1
  pub loggers : AllRaised s.loggers t.loggers
  pub same : record t { log_level = s.log_level; loggers = s.loggers } ≡ s

up_lem : (z : ℤ) → Inside z → (y : ℤ) × (up z ≡ some y) × (offset y ≡ offset z + 1)
unfolding up
up_lem (pos n) h =
    let small : ltb n 2147483647 ≡ true = ground (arith, h) in
    (pos (n + 1), rw small refl, omega arith)
up_lem (negsuc zero) h = (pos 0, refl, omega arith)
up_lem (negsuc (suc n)) h = (negsuc n, refl, omega (arith, h))

down_lem : (z : ℤ) → Inside z → (y : ℤ) × (down z ≡ some y) × (offset z ≡ offset y + 1)
unfolding down
down_lem (negsuc n) h =
    let small : ltb n 2147483647 ≡ true = ground (arith, h) in
    (negsuc (n + 1), rw small refl, omega (arith, h))
down_lem (pos zero) h = (negsuc 0, refl, omega arith)
down_lem (pos (suc n)) h = (pos n, refl, omega arith)

more_lem :
    (ls : List Logger)
    → All (λ l. Inside l.level) ls
    → (ms : List Logger) × (each_logger logger_more ls ≡ some ms) × AllRaised ls ms
unfolding each_logger logger_more
more_lem [] h = ([], refl, tt)
more_lem (l ∷ ls) (h, hs) =
    let (y, e, o) = up_lem l.level h in
    let (ms, es, os) = more_lem ls hs in
    let one : logger_more l ≡ some (record l { level = y }) = ap (with_level l) e in
    (record l { level = y } ∷ ms, rw (one, each_logger) (rw es refl), (o, refl, os))

less_lem :
    (ls : List Logger)
    → All (λ l. Inside l.level) ls
    → (ms : List Logger) × (each_logger logger_less ls ≡ some ms) × AllRaised ms ls
unfolding each_logger logger_less
less_lem [] h = ([], refl, tt)
less_lem (l ∷ ls) (h, hs) =
    let (y, e, o) = down_lem l.level h in
    let (ms, es, os) = less_lem ls hs in
    let one : logger_less l ≡ some (record l { level = y }) = ap (with_level l) e in
    (record l { level = y } ∷ ms, rw (one, each_logger) (rw es refl), (o, refl, os))

-- Any option that starts with `-v` is one for more messages and any that starts with `-q` is one for
-- less, whatever follows: the first makes the level of the program and those of all loggers larger
-- by one, the second makes them smaller by one, and nothing else changes. No level is the smallest or
-- the largest int.
pub parse_option_defaults-levels :
    (a val : Bytes) (s : Settings)
    → Inside s.log_level
    → All (λ l. Inside l.level) s.loggers
    → ((t : Settings) × (parse_option_defaults (b'-' ∷ b'v' ∷ a) val s ≡ some (true, t))
        × Raised s t)
      × ((t : Settings) × (parse_option_defaults (b'-' ∷ b'q' ∷ a) val s ≡ some (true, t))
          × Raised t s)
unfolding parse_option_defaults apply_option is_short skip_dashes first_is str_eq more less
parse_option_defaults-levels a val s h hs =
    let (y, e, o) = up_lem s.log_level h in
    let (ms, es, os) = more_lem s.loggers hs in
    let (z, e', o') = down_lem s.log_level h in
    let (ls, es', os') = less_lem s.loggers hs in
    (
      (
        record s { log_level = y; loggers = ms },
        rw (e, es) refl,
        record { level = o; loggers = os; same = refl },
      ),
      (
        record s { log_level = z; loggers = ls },
        rw (e', es') refl,
        record { level = o'; loggers = os'; same = refl },
      ),
    )
