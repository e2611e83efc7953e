-- ===== src/Examples/Options.antt =====
-- src/bas/cli/opt_parser.c: a command line with clustered letters.
use bas_c.Common.{◌≡◌, refl, false, Option, none, some, List, [], ◌∷◌, arith, Bytes, codes, pos}
use bas_c.Base.CString.{str_eq}
use bas_c.Cli.OptParser.{OptParser, LongOption, init, opt_parse_long}
use bas_c.Cli.OptParser.Bounds.{Runs, opt_parse_long-Runs}

abbrev line : List (Option Bytes)
line = some (codes "prog") ∷ some (codes "-ab") ∷ some (codes "--size=3") ∷ none ∷ []

abbrev options : List LongOption
options = record { name = codes "size"; has_arg = 1; flag = false; val = pos b's' } ∷ []

abbrev third : OptParser
third = record init { optind = 2 }

opt_parse_long_runs :
    opt_parse_long 3 line (codes "ab") options third
    ≡ some (record {
      ret = pos b's';
      parser = record init { optind = 3; optarg = some (codes "3") };
      longindex = some 0;
      flagged = none;
      message = none;
    })
unfolding opt_parse_long str_eq
opt_parse_long_runs = refl

opt_parse_long-Runs_example : Runs 3 line init (opt_parse_long 3 line (codes "ab") options init)
opt_parse_long-Runs_example = opt_parse_long-Runs 3 line (codes "ab") options init (omega arith)
