-- ===== src/Proc/Timer/Forms.antt =====
-- The options of the console command `timer` (src/bas/proc/dbgthread.c) in any order.
use bas_c.Common.{
  zero, suc, ◌≡◌, refl, sym, ap, ◌∙◌, Bool, true, false, not, ◌||◌, Option, some, List, [], ◌∷◌,
  ◌++◌, arith, Bytes, codes, ℤ, pos, negsuc, if◌then◌else◌, All,
}
use bas_c.Base.CString.{str_eq}
use bas_c.Base.Decimal.{starts_digit, isdigit}
use bas_c.Proc.Timer.{TimerOptions, Timers, start, stop, file_field}
use bas_c.Proc.Timer.Interval.{parse_interval_ms}
use bas_c.Proc.Timer.Command.{
  Request, every, takes_value, with_value, lone, timer_args, no_options, or_health, timer_event,
  run_timer_cmd,
}

-- An option as it can be written; true for the short form of its name.
pub data TimerOption : Type 0 where
  dumps : Bool → TimerOption
  health : Bool → TimerOption
  fds : Bool → TimerOption
  file : Bytes → TimerOption
  ends : Bool → TimerOption
  interval : Bool → Bytes → TimerOption
  number : Bytes → TimerOption

abbrev pub words : TimerOption → List Bytes
words (dumps b) = (if b then codes "-s" else codes "--stackdump") ∷ []
words (health b) = (if b then codes "-h" else codes "--health") ∷ []
words (fds b) = (if b then codes "-d" else codes "--dump-fd") ∷ []
words (file f) = codes "-f" ∷ f ∷ []
words (ends b) = (if b then codes "-q" else codes "--quit") ∷ []
words (interval b t) = (if b then codes "-w" else codes "--interval") ∷ t ∷ []
words (number t) = t ∷ []

abbrev pub IsOption : TimerOption → Type 0
IsOption (number t) = starts_digit t ≡ true
IsOption _ = Unit

abbrev pub all_words : List TimerOption → List Bytes
all_words [] = []
all_words (o ∷ l) = words o ++ all_words l

-- The kinds of an option.
abbrev pub is_dumps : TimerOption → Bool
is_dumps (dumps b) = true
is_dumps _ = false

abbrev pub is_health : TimerOption → Bool
is_health (health b) = true
is_health _ = false

abbrev pub is_fds : TimerOption → Bool
is_fds (fds b) = true
is_fds _ = false

abbrev pub is_ends : TimerOption → Bool
is_ends (ends b) = true
is_ends _ = false

abbrev pub has : (TimerOption → Bool) → List TimerOption → Bool
has p [] = false
has p (o ∷ l) = p o || has p l

-- The last file, and the last interval of more than 0 ms, behind those given before.
abbrev pub last_file : List TimerOption → Bytes → Bytes
last_file [] d = d
last_file (file f ∷ l) d = last_file l (file_field f)
last_file (o ∷ l) d = last_file l d

abbrev pub if_positive : ℤ → ℤ → ℤ
if_positive (pos (suc n)) d = pos (suc n)
if_positive z d = d

abbrev pub last_interval : List TimerOption → ℤ → ℤ
last_interval [] d = d
last_interval (interval b t ∷ l) d = last_interval l (if_positive (parse_interval_ms t) d)
last_interval (number t ∷ l) d = last_interval l (if_positive (parse_interval_ms t) d)
last_interval (o ∷ l) d = last_interval l d

abbrev pub wanted : List TimerOption → Request → Request
wanted l r = record {
  opts = record {
    interval_ms = last_interval l r.opts.interval_ms;
    do_stackdump = r.opts.do_stackdump || has is_dumps l;
    do_health = r.opts.do_health || has is_health l;
    do_dump_fd = r.opts.do_dump_fd || has is_fds l;
    stackdump_file = last_file l r.opts.stackdump_file;
  };
  quit = r.quit || has is_ends l;
}

lone_first :
    (a : Bytes) (l : List Bytes) (r : Request)
    → takes_value a ≡ false
    → timer_args (a ∷ l) r ≡ timer_args l (lone a r)
unfolding timer_args
lone_first a [] r h = refl
lone_first a (b ∷ l) r h = rw (h, timer_args) refl

value_first :
    (a b : Bytes) (l : List Bytes) (r : Request)
    → takes_value a ≡ true
    → timer_args (a ∷ b ∷ l) r ≡ timer_args l (with_value a b r)
unfolding timer_args
value_first a b l r h = rw (h, timer_args) refl

every_lem :
    (z : ℤ) (r : Request)
    → every z r
      ≡ record r { opts = record r.opts { interval_ms = if_positive z r.opts.interval_ms } }
unfolding every
every_lem (pos zero) r = refl
every_lem (pos (suc n)) r = refl
every_lem (negsuc n) r = refl

or_true : (b : Bool) → (b || true) ≡ true
or_true true = refl
or_true false = refl

or_false : (b : Bool) → (b || false) ≡ b
or_false true = refl
or_false false = refl

timer_args_none : (r : Request) → timer_args [] r ≡ r
unfolding timer_args
timer_args_none r = refl

-- What one option makes of the request.
abbrev made : TimerOption → Request → Request
made (dumps b) r = record r { opts = record r.opts { do_stackdump = true } }
made (health b) r = record r { opts = record r.opts { do_health = true } }
made (fds b) r = record r { opts = record r.opts { do_dump_fd = true } }
made (file f) r = record r { opts = record r.opts { stackdump_file = file_field f } }
made (ends b) r = record r { quit = true }
made (interval b t) r = every (parse_interval_ms t) r
made (number t) r = every (parse_interval_ms t) r

no_dash : (t : Bytes) (w : Bytes) → starts_digit t ≡ true → str_eq t (b'-' ∷ w) ≡ false
unfolding str_eq starts_digit isdigit
no_dash [] w h = refl
no_dash (c ∷ t) w h = ground (arith, h)

lone_number :
    (t : Bytes) (r : Request) → starts_digit t ≡ true → lone t r ≡ every (parse_interval_ms t) r
unfolding lone takes_value
lone_number t r h =
    rw
      (
        no_dash t (codes "s") h,
        no_dash t (codes "-stackdump") h,
        no_dash t (codes "h") h,
        no_dash t (codes "-health") h,
        no_dash t (codes "d") h,
        no_dash t (codes "-dump-fd") h,
        no_dash t (codes "f") h,
        no_dash t (codes "w") h,
        no_dash t (codes "-interval") h,
        no_dash t (codes "q") h,
        no_dash t (codes "-quit") h,
        h,
      )
      refl

number_lone : (t : Bytes) → starts_digit t ≡ true → takes_value t ≡ false
unfolding takes_value
number_lone t h =
    rw (no_dash t (codes "f") h, no_dash t (codes "w") h, no_dash t (codes "-interval") h) refl

made_lem :
    (o : TimerOption) (l : List Bytes) (r : Request)
    → IsOption o
    → timer_args (words o ++ l) r ≡ timer_args l (made o r)
unfolding lone takes_value str_eq with_value
made_lem (dumps true) l r h = lone_first (codes "-s") l r refl
made_lem (dumps false) l r h = lone_first (codes "--stackdump") l r refl
made_lem (health true) l r h = lone_first (codes "-h") l r refl
made_lem (health false) l r h = lone_first (codes "--health") l r refl
made_lem (fds true) l r h = lone_first (codes "-d") l r refl
made_lem (fds false) l r h = lone_first (codes "--dump-fd") l r refl
made_lem (file f) l r h = value_first (codes "-f") f l r refl
made_lem (ends true) l r h = lone_first (codes "-q") l r refl
made_lem (ends false) l r h = lone_first (codes "--quit") l r refl
made_lem (interval true t) l r h = value_first (codes "-w") t l r refl
made_lem (interval false t) l r h = value_first (codes "--interval") t l r refl
made_lem (number t) l r h =
    lone_first t l r (number_lone t h) ∙ ap (λ q. timer_args l q) (lone_number t r h)

wanted-made :
    (o : TimerOption) (l : List TimerOption) (r : Request) → wanted l (made o r) ≡ wanted (o ∷ l) r
wanted-made (dumps b) l r = rw (or_true r.opts.do_stackdump) refl
wanted-made (health b) l r = rw (or_true r.opts.do_health) refl
wanted-made (fds b) l r = rw (or_true r.opts.do_dump_fd) refl
wanted-made (file f) l r = refl
wanted-made (ends b) l r = rw (or_true r.quit) refl
wanted-made (interval b t) l r = rw (every_lem (parse_interval_ms t) r) refl
wanted-made (number t) l r = rw (every_lem (parse_interval_ms t) r) refl

or_none : (r : Request) → wanted [] r ≡ r
or_none r =
    rw
      (
        or_false r.opts.do_stackdump,
        or_false r.opts.do_health,
        or_false r.opts.do_dump_fd,
        or_false r.quit,
      )
      refl

timer_args-wanted :
    (l : List TimerOption) (r : Request) → All IsOption l → timer_args (all_words l) r ≡ wanted l r
timer_args-wanted [] r h = timer_args_none r ∙ sym (or_none r)
timer_args-wanted (o ∷ l) r h =
    made_lem o (all_words l) r h.0 ∙ timer_args-wanted l (made o r) h.1 ∙ wanted-made o l r

-- The options of a timer with an interval and a file, and the default.
abbrev flagged : Bool → Bool → Bool → ℤ → Bytes → TimerOptions
flagged d h f i p = record {
  interval_ms = i;
  do_stackdump = d;
  do_health = h;
  do_dump_fd = f;
  stackdump_file = p;
}

or_health_lem :
    (d h f : Bool) (i : ℤ) (p : Bytes)
    → or_health (flagged d h f i p) ≡ flagged d (h || not (d || f)) f i p
unfolding or_health
or_health_lem true h f i p = rw (or_false h) refl
or_health_lem false true f i p = refl
or_health_lem false false true i p = refl
or_health_lem false false false i p = refl

-- The options that a list asks for.
abbrev pub chosen : List TimerOption → TimerOptions
chosen l = record {
  interval_ms = last_interval l (pos 2000);
  do_stackdump = has is_dumps l;
  do_health = has is_health l || not (has is_dumps l || has is_fds l);
  do_dump_fd = has is_fds l;
  stackdump_file = last_file l [];
}

-- The options of the console command `timer`, in any order and any number, by any of their names: with
-- `-q` among them it stops the timer. Without, it starts it with the last interval of more than 0 ms
-- or 2000, the last file, cut to 259 bytes, and the flags that are named, or `health` where none is.
pub run_timer_cmd-forms :
    (calloc create : Bool) (mkstemp : Bytes → Option Bytes) (s : Timers) (l : List TimerOption)
    → All IsOption l
    → (run_timer_cmd calloc create mkstemp (all_words l) s).0
      ≡ (if has is_ends l then stop else start calloc create mkstemp (some (chosen l)))
unfolding run_timer_cmd timer_event
run_timer_cmd-forms calloc create mkstemp s l h =
    rw
      (
        timer_args-wanted l (record { opts = no_options; quit = false }) h,
        or_health_lem (has is_dumps l) (has is_health l) (has is_fds l) (last_interval l (pos 2000))
            (last_file l []),
      )
      refl
