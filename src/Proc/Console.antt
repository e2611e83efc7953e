-- ===== src/Proc/Console.antt =====
-- The console of src/bas/proc/dbgthread.c: `run_command`, and the loop over the lines that
-- `str_getline` returns. What a command prints is left out, but for the timer's.
pub mod Timers
use bas_c.Common.{
  ℕ, ◌+◌, Bool, ◌&&◌, ◌||◌, Option, none, some, List, [], ◌∷◌, Bytes, codes, leb, ◌==◌,
  if◌then◌else◌, map,
}
use bas_c.Base.CString.{str_eq}
use bas_c.Base.Getline.{Answers}
use bas_c.Cli.Alloc.{Result, ok, failed, double_free, out_of_fuel}
use bas_c.Cli.Args.Parse.{args_parse}
use bas_c.Proc.Timer.Interval.{skip_blanks}

-- `line[n - 1] == '\n' || line[n - 1] == '\r' || line[n - 1] == ' '`
unfoldable pub is_end : ℕ → Bool
is_end c = c == b'\n' || c == b'\r' || c == b' '

-- The loop that cuts the end: a byte stays if it, or one behind it, is none of these.
unfoldable pub cut_end : Bytes → Bytes
cut_end [] = []
cut_end (c ∷ s) = keep (cut_end s)
  where
    keep : Bytes → Bytes
    keep [] = if is_end c then [] else c ∷ []
    keep (d ∷ t) = c ∷ d ∷ t

unfoldable pub trim_line : Bytes → Bytes
trim_line line = skip_blanks (cut_end line)

unfoldable pub tolower : ℕ → ℕ
tolower c = if leb 65 c && leb c 90 then c + 32 else c

-- `strcasecmp(arg, cmd) == 0`
unfoldable pub arg_is : Bytes → Bytes → Bool
arg_is arg cmd = str_eq (map tolower arg) (map tolower cmd)

pub data Command : Type 0 where
  nothing : Command
  parse_error : Command
  backtrace : Option Bytes → Command
  threads : Command
  list_fd : Command
  timer : List Bytes → Command
  help : Command
  status : Command
  actions : Command
  action : Bytes → List Bytes → Command
  exit : Command
  unknown : Command

-- The file of `run_bt_backtrace_stackdump`: none for one that `mkstemp` makes.
unfoldable pub out_file : List Bytes → Option Bytes
out_file [] = none
out_file (a ∷ []) = none
out_file (a ∷ b ∷ l) =
    let rest = out_file (b ∷ l) in if str_eq a (codes "-f") then named b else rest
  where
    named : Bytes → Option Bytes
    named [] = none
    named (c ∷ s) = some (c ∷ s)

unfoldable pub do_action : List Bytes → Command
do_action [] = actions
do_action (name ∷ args) = action name args

unfoldable pub is_one : Bytes → Bytes → Bytes → Bool
is_one arg a b = arg_is arg a || arg_is arg b

-- The command that the arguments ask for.
unfoldable pub command_of : List Bytes → Command
command_of [] = nothing
command_of (name ∷ args) =
    if is_one name (codes "bt") (codes "backtrace") || arg_is name (codes "stackdump")
    then backtrace (out_file args)
    else if is_one name (codes "t") (codes "threads")
    then threads
    else if is_one name (codes "f") (codes "list-fd")
    then list_fd
    else if is_one name (codes "w") (codes "timer")
    then timer args
    else if is_one name (codes "h") (codes "help")
    then help
    else if str_eq name (codes "\\s") || arg_is name (codes "status")
    then status
    else if arg_is name (codes "do")
    then do_action args
    else if arg_is name (codes "exit")
    then exit
    else unknown

-- What `args_parse` leads to.
unfoldable pub parsed_command : Result (List Bytes × Answers) → Result Command
parsed_command (ok r) = ok (command_of r.0)
parsed_command failed = ok parse_error
parsed_command double_free = double_free
parsed_command out_of_fuel = out_of_fuel

module _ (fnmatch : Bytes → Bytes → Bool) where
  unfoldable pub command_in : Bytes → Answers → Result Command
  command_in [] an = ok nothing
  command_in (c ∷ s) an = parsed_command (args_parse fnmatch none none (c ∷ s) an)

  unfoldable pub run_command : Bytes → Answers → Result Command
  run_command line an = command_in (trim_line line) an
