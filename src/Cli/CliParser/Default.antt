-- ===== src/Cli/CliParser/Default.antt =====
-- `default_args_parser` of src/bas/cli/cli_parser.c: a parser whose arguments `args_parse` reads. The
-- answers to its allocations are an argument, and how it ends is a result, as in Cli.Args.
use bas_c.Common.{
  ◌<◌, ◌≡◌, subst, Bool, Option, none, some, List, [], ◌∷◌, ◌++◌, Bytes, length, All, map,
}
use bas_c.Base.Str.Trim.{IsDark, Ends}
use bas_c.Base.Tokens.Loop.{Item, spell, toks, Spaced}
use bas_c.Base.Getline.{Answers}
use bas_c.Cli.Alloc.{M, Result, ok, failed, double_free, out_of_fuel}
use bas_c.Cli.Args.Wildcard.{Enum}
use bas_c.Cli.Args.Parse.{args_parse}
use bas_c.Cli.Args.Parse.Words.{IsArg}
use bas_c.Cli.Args.Parse.Whole.{
  Form, written, denoted, IsForm, each, wild_of, Short, args_parse-forms,
}
use bas_c.Cli.CliParser.{World, CliParser, get_alias}
use bas_c.Cli.CliParser.Redirect.Parts.{IsPlain, text_of, out_file}
use bas_c.Cli.CliParser.Statement.{dispatch, execute_statement}
use bas_c.Cli.CliParser.Statement.Command.{
  IsName, IsTight, statement_of, redirection_of, execute_statement-dispatch,
}

module _ (fnmatch : Bytes → Bytes → Bool) (enum : Option Enum) (current : Option Bytes) where
  unfoldable pub default_args_parser : Bytes → M (List Bytes)
  unfolding args_parse
  default_args_parser line = args_parse fnmatch enum current line

  -- What a parser gets where a call of `default_args_parser` ends so; a call that frees memory twice, or
  -- has no end in the model, says nothing about it.
  abbrev pub Gets :
      {S : Type 0}
      → Option (List Bytes) × World S
      → World S
      → Result (List Bytes × Answers)
      → Type 0
  Gets r w (ok (args, an)) = r ≡ (some args, w)
  Gets r w failed = r ≡ (none, w)
  Gets r w double_free = Unit
  Gets r w out_of_fuel = Unit

  -- The argument parser of this parser is `default_args_parser`, with memory.
  abbrev pub UsesDefault : {S : Type 0} → CliParser S → Type 0
  UsesDefault {S} parser =
      (text : Bytes) (w : World S)
      → Gets (parser.args_parser text w) w (default_args_parser text [])

  -- With memory, with `default_args_parser` as the argument parser and with listings of fewer than
  -- 2 ^ 59 items, a statement of a command, its arguments, a pipe, an input and an output goes to
  -- the handlers with the texts of the arguments and the strings for the items in their braces,
  -- those with wildcards replaced by their matches, also where the wildcards stood in quotes. The
  -- statement is shorter than 1024 bytes, has no white space at its ends and no operator in its
  -- parts; the name is a word of fewer than 256 bytes without `#` at its start and no alias; and
  -- there are at most 63 arguments in the end.
  pub execute_statement-forms :
      {S : Type 0} (parser : CliParser S) (name : Bytes) (is : List Item) (forms : List Form)
      (pipe inp : Option Bytes) (out : Option (Bool × Bytes)) (w : World S)
      → IsName name
      → IsTight (spell is)
      → Short fnmatch enum current enum
      → Spaced IsArg is
      → toks is ≡ map written forms
      → All IsForm forms
      → IsPlain (name ++ b' ' ∷ spell is)
      → IsPlain (text_of pipe)
      → IsPlain (text_of inp)
      → IsPlain (out_file out)
      → Ends IsDark (statement_of name (spell is) pipe inp out)
      → length (statement_of name (spell is) pipe inp out) < 1024
      → UsesDefault parser
      → length (each (wild_of fnmatch enum current) (each denoted forms)) < 64
      → get_alias parser w name ≡ none
      → execute_statement parser (statement_of name (spell is) pipe inp out) w
        ≡ dispatch parser parser.handlers name
            (name ∷ each (wild_of fnmatch enum current) (each denoted forms))
            (redirection_of pipe inp out)
            w
  unfolding default_args_parser
  execute_statement-forms parser name is forms pipe inp out w n t short spaced e hf pc pp pi po ends
        fits same few free =
      execute_statement-dispatch parser name (spell is) pipe inp out
        (each (wild_of fnmatch enum current) (each denoted forms)) w w n t pc pp pi po ends fits
        (subst (Gets (parser.args_parser (spell is) w) w)
          (args_parse-forms fnmatch enum current [] is forms short tt spaced e hf)
          (same (spell is) w))
        few free
