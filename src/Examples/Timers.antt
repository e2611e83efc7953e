-- ===== src/Examples/Timers.antt =====
-- src/bas/proc/dbgthread.c: a timer of 250 ms that says when it is triggered.
use bas_c.Common.{
  ℕ, suc, ◌*◌, ◌≤◌, ◌<◌, ◌≡◌, refl, ◌≢◌, inl, inr, true, false, Option, none, some, List, [], ◌∷◌,
  ◌++◌, arith, Bytes, codes, pos, get_elem?, replicate, All,
}
use bas_c.Base.Decimal.{decimal, starts_digit, strtoul, sign, skip_spaces, isdigit, digits}
use bas_c.Base.Str.{endswith}
use bas_c.Base.CString.{isspace, str_eq}
use bas_c.Base.Tokens.Loop.{Item}
use bas_c.Cli.Alloc.{ok}
use bas_c.Cli.Args.Wildcard.{contains_wildcard}
use bas_c.Cli.Args.Word.Spelled.{Spells_same}
use bas_c.Cli.Args.Parse.Whole.{plain}
use bas_c.Proc.Console.{timer, run_command, trim_line, cut_end, is_end, tolower}
use bas_c.Proc.Console.Timers.{run_command-timer}
use bas_c.Proc.Timer.{
  TimerOptions, TimerContext, Timers, Event, triggered, stop, stop_enter, updated, change, start,
  round, moves, faults, step, no_timers, start_timer_thread, new_context, new_file, or_default, run,
  thread_round, timer_round, after_round, actions,
}
use bas_c.Proc.Timer.Alone.{Reach-no_fault}
use bas_c.Proc.Timer.Shape.{IsAllowed, Reach, here, next, Inv}
use bas_c.Proc.Timer.Fires.{after_firing, rounds-fire}
use bas_c.Proc.Timer.Stops.{Stopped, run-stop}
use bas_c.Proc.Timer.Overlap.{Overlaps, overlap-faults}
use bas_c.Proc.Timer.Temp.{IsNoDump, run-no_dumps}
use bas_c.Proc.Timer.Interval.{
  parse_interval_ms, in_unit, skip_blanks, is_blank, seconds, scale_text, parse_interval_ms-decimal,
}
use bas_c.Proc.Timer.Command.{run_timer_cmd}
use bas_c.Proc.Timer.Forms.{dumps, file, number, all_words, run_timer_cmd-forms}

abbrev quarter : TimerOptions
quarter = record {
  interval_ms = pos 250;
  do_stackdump = false;
  do_health = true;
  do_dump_fd = false;
  stackdump_file = [];
}

abbrev first : TimerContext
first = record {
  quit = false;
  opts = quarter;
  counter = 0;
  accumulated_ms = 0;
  exited = false;
  freed = false;
}

abbrev started : Timers
started = record { current = some 0; contexts = first ∷ []; stops = []; done = [] }

abbrev no_mkstemp : Bytes → Option Bytes
no_mkstemp p = none

started-Reach : Reach 1 started
unfolding step start_timer_thread new_context new_file or_default IsAllowed
started-Reach = next (start true true no_mkstemp (some quarter)) here (omega arith) refl

-- The third round fires.
run_fires : run (round 0 ∷ round 0 ∷ round 0 ∷ []) started ≡ moves (after_firing started 0 first)
unfolding run step thread_round timer_round after_round actions or_default
run_fires = refl

Reach-no_fault_example :
    Inv started × ((e : Event) → IsAllowed 1 started e → step e started ≢ faults)
Reach-no_fault_example = Reach-no_fault started started-Reach

rounds-fire_example :
    (c : TimerContext) × (r : ℕ) × (get_elem? started.contexts 0 ≡ some c)
    × (100 * r < or_default c.opts.interval_ms)
    × (run (replicate (suc r) (round 0)) started ≡ moves (after_firing started 0 c))
rounds-fire_example = rounds-fire started 0 started-Reach refl refl

run-stop_example : Stopped started 0
run-stop_example = run-stop started 0 started-Reach refl refl

short-IsAllowed : or_default quarter.interval_ms ≤ 2147483600
unfolding or_default
short-IsAllowed = omega arith

overlap-faults_example : Overlaps no_mkstemp quarter started 0
overlap-faults_example = overlap-faults no_mkstemp quarter started 0 started-Reach refl refl

-- `mkstemp` where it may make the file.
abbrev fills : Bytes → Option Bytes
fills p = elim (endswith p (codes "XXXXXX")) [ none ↦ none | some s ↦ some (codes "/tmp/abcdef") ]

fills_refuses : (p : Bytes) → endswith p (codes "XXXXXX") ≡ none → fills p ≡ none
fills_refuses p h = rw (h, fills) refl

-- A timer for stack dumps with an interval of 100 ms that fires, is told to do so again, and is stopped.
abbrev asks : Event
asks = start true true fills (some (record quarter { interval_ms = pos 100; do_stackdump = true }))

abbrev dumping : List Event
dumping = asks ∷ round 0 ∷ asks ∷ stop ∷ []

run-no_dumps_example : All IsNoDump (triggered 1 ∷ [])
unfolding run step start_timer_thread stop_enter change updated new_context new_file endswith str_eq
    thread_round after_round timer_round actions or_default
run-no_dumps_example =
    run-no_dumps dumping _ ((refl, fills_refuses), (tt, ((refl, fills_refuses), (tt, tt)))) refl

parse_interval_ms_runs : parse_interval_ms (codes "5 s") ≡ pos 5000
unfolding parse_interval_ms strtoul starts_digit sign skip_spaces isspace isdigit digits in_unit
    skip_blanks is_blank
parse_interval_ms_runs = refl

parse_interval_ms-decimal_example :
    parse_interval_ms (decimal 5 ++ (codes " " ++ scale_text (seconds true))) ≡ pos 5000
unfolding is_blank
parse_interval_ms-decimal_example =
    parse_interval_ms-decimal 5 (codes " ") (seconds true) (omega arith) (refl, tt)

run_timer_cmd-forms_example :
    (run_timer_cmd true true no_mkstemp
      (all_words (dumps true ∷ file (codes "x") ∷ number (codes "7") ∷ []))
      no_timers).0
    ≡ start true true no_mkstemp (
        some (record {
          interval_ms = pos 7;
          do_stackdump = true;
          do_health = false;
          do_dump_fd = false;
          stackdump_file = codes "x";
        }))
unfolding parse_interval_ms strtoul starts_digit sign skip_spaces isspace isdigit digits in_unit
    skip_blanks is_blank
run_timer_cmd-forms_example =
    run_timer_cmd-forms true true no_mkstemp no_timers
      (dumps true ∷ file (codes "x") ∷ number (codes "7") ∷ []) (tt, (tt, (refl, tt)))

-- The line `Timer -s 5`.
abbrev timer_line : List Item
timer_line =
    record { raw = codes "Timer"; tok = codes "Timer"; gap = codes " " }
    ∷ record { raw = codes "-s"; tok = codes "-s"; gap = codes " " }
    ∷ record { raw = codes "5"; tok = codes "5"; gap = [] }
    ∷ []

run_command-timer_example :
    (run_command (λ p s. false) (codes "  Timer -s 5\n") []
      ≡ ok (timer (codes "-s" ∷ codes "5" ∷ [])))
    × ((run_timer_cmd true true no_mkstemp (codes "-s" ∷ codes "5" ∷ []) started).0
        ≡ start true true no_mkstemp
            (some (record quarter { interval_ms = pos 5; do_stackdump = true; do_health = false })))
unfolding isspace contains_wildcard trim_line cut_end is_end skip_blanks is_blank tolower
    starts_digit parse_interval_ms strtoul sign skip_spaces isdigit digits in_unit
run_command-timer_example =
    run_command-timer (λ p s. false) true true no_mkstemp started (codes "  Timer -s 5\n") b'T'
      (codes "imer -s 5") timer_line
      (plain (codes "Timer") ∷ plain (codes "-s") ∷ plain (codes "5") ∷ []) (codes "Timer")
      (dumps true ∷ number (codes "5") ∷ []) refl refl
      (
        (
          refl,
          Spells_same (codes "Timer") (
            (refl, omega arith, omega arith, omega arith),
            (
              (refl, omega arith, omega arith, omega arith),
              (
                (refl, omega arith, omega arith, omega arith),
                (
                  (refl, omega arith, omega arith, omega arith),
                  ((refl, omega arith, omega arith, omega arith), tt),
                ),
              ),
            ),
          ),
        ),
        omega arith,
        (refl, tt),
        inl (omega arith),
        (
          (
            refl,
            Spells_same (codes "-s") (
              (refl, omega arith, omega arith, omega arith),
              ((refl, omega arith, omega arith, omega arith), tt),
            ),
          ),
          omega arith,
          (refl, tt),
          inl (omega arith),
          (
            (refl, Spells_same (codes "5") ((refl, omega arith, omega arith, omega arith), tt)),
            omega arith,
            tt,
            inr refl,
            tt,
          ),
        ),
      )
      refl
      (
        (omega arith, (omega arith, (omega arith, (omega arith, (omega arith, tt))))),
        ((omega arith, (omega arith, tt)), ((omega arith, tt), tt)),
      )
      refl (inr refl) (tt, (refl, tt))
