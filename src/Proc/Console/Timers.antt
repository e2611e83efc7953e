-- ===== src/Proc/Console/Timers.antt =====
-- A line of the console (src/bas/proc/dbgthread.c) that asks for the timer.
use bas_c.Common.{
  ℕ, ◌≡◌, refl, ap, ◌∙◌, ◌⊎◌, inl, inr, Bool, Option, none, some, List, [], ◌∷◌, Bytes, codes,
  if◌then◌else◌, All, map,
}
use bas_c.Base.CString.{str_eq}
use bas_c.Base.Tokens.Loop.{Item, spell, toks, Spaced}
use bas_c.Cli.Alloc.{ok}
use bas_c.Cli.Args.Parse.{args_parse}
use bas_c.Cli.Args.Parse.Words.{IsArg}
use bas_c.Cli.Args.Parse.Whole.{Form, written, denoted, IsForm, each, wild_of, args_parse-forms}
use bas_c.Proc.Timer.{Timers, start, stop}
use bas_c.Proc.Timer.Command.{run_timer_cmd}
use bas_c.Proc.Timer.Forms.{
  TimerOption, IsOption, all_words, has, is_ends, chosen, run_timer_cmd-forms,
}
use bas_c.Proc.Console.{
  timer, tolower, arg_is, is_one, command_of, parsed_command, command_in, run_command, trim_line,
}

named_timer :
    (name low : Bytes) (args : List Bytes)
    → map tolower name ≡ low
    → (low ≡ codes "w") ⊎ (low ≡ codes "timer")
    → command_of (name ∷ args) ≡ timer args
unfolding command_of is_one arg_is str_eq tolower
named_timer name low args e (inl p) = rw (e, p) refl
named_timer name low args e (inr p) = rw (e, p) refl

parsed_args :
    (fnmatch : Bytes → Bytes → Bool) (c : ℕ) (t : Bytes) (is : List Item) (forms : List Form)
    → c ∷ t ≡ spell is
    → Spaced IsArg is
    → toks is ≡ map written forms
    → All IsForm forms
    → command_in fnmatch (c ∷ t) []
      ≡ ok (command_of (each (wild_of fnmatch none none) (each denoted forms)))
unfolding command_in parsed_command
parsed_args fnmatch c t is forms e spaced w f =
    ap (λ r. parsed_command r)
      (ap (λ l. args_parse fnmatch none none l []) e
        ∙ args_parse-forms fnmatch none none [] is forms tt tt spaced w f)

-- With memory, a line that is left as arguments when it is trimmed, as `args_parse-forms` spells them,
-- with `timer` or `w` in any case as the first text and options of the timer as the others: it is
-- the command of the timer, which stops it where `-q` is among them, and else starts it with what
-- they ask for.
pub run_command-timer :
    (fnmatch : Bytes → Bytes → Bool) (calloc create : Bool) (mkstemp : Bytes → Option Bytes)
    (s : Timers) (line : Bytes) (c : ℕ) (t : Bytes) (is : List Item) (forms : List Form)
    (name : Bytes) (l : List TimerOption)
    → trim_line line ≡ c ∷ t
    → c ∷ t ≡ spell is
    → Spaced IsArg is
    → toks is ≡ map written forms
    → All IsForm forms
    → each (wild_of fnmatch none none) (each denoted forms) ≡ name ∷ all_words l
    → (map tolower name ≡ codes "w") ⊎ (map tolower name ≡ codes "timer")
    → All IsOption l
    → (run_command fnmatch line [] ≡ ok (timer (all_words l)))
      × ((run_timer_cmd calloc create mkstemp (all_words l) s).0
          ≡ (if has is_ends l then stop else start calloc create mkstemp (some (chosen l))))
unfolding run_command
run_command-timer fnmatch calloc create mkstemp s line c t is forms name l trimmed e spaced w f
      texts named ok_options =
    (
      rw (trimmed, parsed_args fnmatch c t is forms e spaced w f, texts)
          (ap (λ k. ok k) (named_timer name (map tolower name) (all_words l) refl named)),
      run_timer_cmd-forms calloc create mkstemp s l ok_options,
    )
