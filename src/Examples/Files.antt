-- ===== src/Examples/Files.antt =====
-- src/bas/io/file.c and src/bas/cli/program.c: a small file, and a handler that succeeds.
use bas_c.Common.{
  ℕ, suc, ◌≡◌, refl, inr, true, false, none, some, [], ◌∷◌, arith, codes, pos, negsuc,
}
use bas_c.Io.File.{outside, load_file}
use bas_c.Io.File.Content.{Holds, load_file-Holds, load_file-outside}
use bas_c.Cli.Program.{Settings, Caller, one_file, parse_option_defaults, process_files}
use bas_c.Cli.Program.Files.{process_files-none}
use bas_c.Log.Logger.{Logger}
use bas_c.Cli.Program.Levels.{Raised, parse_option_defaults-levels}

load_file-Holds_example :
    Holds
      (codes "twelve bytes")
      2
      1
      (load_file [] (some (record { rest = codes "twelve bytes"; fails = none })) 2 1)
load_file-Holds_example = load_file-Holds (codes "twelve bytes") 2 1 (omega arith) (omega arith)

load_file-outside_example :
    load_file [] (some (record { rest = codes "x"; fails = none })) 20 0 ≡ outside
load_file-outside_example = load_file-outside b'x' [] 20 0 (omega arith) (omega arith) (omega arith)

-- A caller that counts the calls of its handler.
abbrev counting : Caller ℕ
counting = record {
  fopen = λ path w. (true, w);
  handler = λ path w. (true, suc w);
  complain = λ path w. w;
}

process_files-none_example : process_files counting false 100 (codes "a" ∷ codes "b" ∷ []) 0 ≡ none
unfolding one_file
process_files-none_example =
    process_files-none counting false 100 b'a' [] (codes "b" ∷ []) 0 (inr (λ w. refl))

abbrev one_logger : Logger
one_logger = record {
  level = negsuc 0;
  level_default = pos 1;
  header = [];
  color_error = [];
  color_warn = [];
  color_mesg = [];
  color_info = [];
  color_log = [];
  color_debug = [];
  color_trace = [];
  color_reset = [];
}

abbrev settings : Settings
settings = record {
  error_continue = false;
  force = false;
  log_level = pos 0;
  loggers = one_logger ∷ [];
  version_shown = false;
  bad = none;
}

parse_option_defaults-levels_example :
    ((t : Settings) × (parse_option_defaults (codes "-verbatim") [] settings ≡ some (true, t))
      × Raised settings t)
    × ((t : Settings) × (parse_option_defaults (codes "-qerbatim") [] settings ≡ some (true, t))
        × Raised t settings)
parse_option_defaults-levels_example =
    parse_option_defaults-levels (codes "erbatim") [] settings (omega arith, omega arith)
      ((omega arith, omega arith), tt)
