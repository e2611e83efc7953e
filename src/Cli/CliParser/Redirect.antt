-- ===== src/Cli/CliParser/Redirect.antt =====
-- `cli_parser_parse_redirections` of src/bas/cli/cli_parser.c. The strings of a redirection point
-- into the command, behind the NUL that ends what is left of it: later NULs are written before them.
pub mod Parts
use bas_c.Common.{
  ℕ, ◌-◌, ◌≡◌, refl, Bool, true, false, not, ◌||◌, Option, none, some, List, [], ◌∷◌, ◌++◌, Bytes,
  codes, ◌==◌, if◌then◌else◌, length, get_or,
}
use bas_c.Base.Str.{ltrim, rtrim}

-- The text behind `needle`, if the text begins with it.
unfoldable pub behind : Bytes → Bytes → Option Bytes
behind [] s = some s
behind (n ∷ needle) [] = none
behind (n ∷ needle) (c ∷ s) = if c == n then behind needle s else none

-- `strstr`: the text before the first `needle`, and that behind it.
unfoldable pub strstr : Bytes → Bytes → Option (Bytes × Bytes)
unfolding behind
strstr needle [] = elim (behind needle []) [ some rest ↦ some ([], rest) | none ↦ none ]
strstr needle (c ∷ s) =
    let later : Option (Bytes × Bytes) = elim (strstr needle s) [
      | some parts ↦ some (c ∷ parts.0, parts.1)
      | none ↦ none
    ] in
    elim (behind needle (c ∷ s)) [ some rest ↦ some ([], rest) | none ↦ later ]

-- `strrchr`: the text before the last `d`, and that behind it.
unfoldable pub strrchr : ℕ → Bytes → Option (Bytes × Bytes)
strrchr d [] = none
strrchr d (c ∷ s) = elim (strrchr d s) [
  | some parts ↦ some (c ∷ parts.0, parts.1)
  | none ↦ if c == d then some ([], s) else none
]

-- The first of the needles that is in the text.
unfoldable pub strstr_any : List Bytes → Bytes → Option (Bytes × Bytes)
unfolding strstr
strstr_any [] s = none
strstr_any (needle ∷ needles) s = elim (strstr needle s) [
  | some parts ↦ some parts
  | none ↦ strstr_any needles s
]

unfoldable pub trim_whitespace : Bytes → Bytes
unfolding ltrim rtrim
trim_whitespace s = rtrim (ltrim s)

pub record Redirection : Type 0 where
  pub output_file : Option Bytes
  pub input_file : Option Bytes
  pub pipe_command : Option Bytes
  pub append_mode : Bool

-- An operator with white space on both sides, behind it, before it.
abbrev pub spaced : Bytes → List Bytes
spaced op = (b' ' ∷ (op ++ b' ' ∷ [])) ∷ (op ++ b' ' ∷ []) ∷ (b' ' ∷ op) ∷ []

abbrev pub last_byte : Bytes → ℕ
last_byte s = get_or s (length s - 1) 0

-- `>` without spaces: the last one, if it is not behind another.
unfoldable pub last_gt : Bytes → Option (Bytes × Bytes)
unfolding strrchr
last_gt s = elim (strrchr b'>' s) [
  | some parts ↦ if length parts.0 == 0 || not (last_byte parts.0 == b'>') then some parts else none
  | none ↦ none
]

-- The command, and the output with its mode.
unfoldable pub take_output : Bytes → Bytes × Option Bytes × Bool
take_output s = elim (strstr_any (spaced (b'>' ∷ b'>' ∷ []) ++ (b'>' ∷ b'>' ∷ []) ∷ []) s) [
  | some parts ↦ (parts.0, some (trim_whitespace parts.1), true)
  | none ↦ elim (strstr_any (spaced (b'>' ∷ [])) s) [
    | some parts ↦ (parts.0, some (trim_whitespace parts.1), false)
    | none ↦ elim (last_gt s) [
      | some parts ↦ (parts.0, some (trim_whitespace parts.1), false)
      | none ↦ (s, none, false)
    ]
  ]
]

-- The command and what is behind the operator `d`, for `<` and `|`.
unfoldable pub take_part : ℕ → Bytes → Bytes × Option Bytes
take_part d s = elim (strstr_any (spaced (d ∷ [])) s) [
  | some parts ↦ (parts.0, some (trim_whitespace parts.1))
  | none ↦ elim (strrchr d s) [
    | some parts ↦ (parts.0, some (trim_whitespace parts.1))
    | none ↦ (s, none)
  ]
]

-- The command that is left, and the redirection.
unfoldable pub parse_redirections : Bytes → Bytes × Redirection
unfolding rtrim
parse_redirections cmd =
    let (cmd1, out, append) = take_output cmd in
    let (cmd2, inp) = take_part b'<' cmd1 in
    let (cmd3, pipe) = take_part b'|' cmd2 in
    (
      rtrim cmd3,
      record { output_file = out; input_file = inp; pipe_command = pipe; append_mode = append },
    )
