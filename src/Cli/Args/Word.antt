-- ===== src/Cli/Args/Word.antt =====
-- `skip_whitespace` and `parse_arg` of src/bas/cli/args.c.
pub mod Spelled
pub mod Room
use bas_c.Common.{
  ℕ, ◌+◌, ◌*◌, ◌%◌, ◌^◌, Bool, true, false, not, ◌||◌, Option, none, some, [], ◌∷◌, ◌++◌, Bytes,
  leb, ◌==◌, if◌then◌else◌, length,
}
use bas_c.Base.CString.{isspace}
use bas_c.Cli.Alloc.{failed, M, pure, stop, ◌>>=◌, ◌>>◌, alloc}

unfoldable pub skip_whitespace : Bytes → Bytes
unfolding isspace
skip_whitespace [] = []
skip_whitespace (c ∷ s) = if isspace c then skip_whitespace s else c ∷ s

-- `if (len + 1 >= capacity) { capacity *= 2; realloc }`
unfoldable pub grown : ℕ → ℕ → M ℕ
unfolding alloc
grown len capacity =
    if leb capacity (len + 1) then (do alloc; pure (capacity * 2 % 2 ^ 64)) else pure capacity

-- The state of the loop: `quote_char`, `escaped`, the bytes of `result`, its block, and the text
-- from `line` on.
pub record Scan : Type 0 where
  pub quote_char : ℕ
  pub escaped : Bool
  pub result : Bytes
  pub capacity : ℕ
  pub line : Bytes

-- One byte is stored behind the others.
unfoldable pub store : Scan → ℕ → Bytes → M Scan
unfolding grown
store s c line = do
  capacity ← grown (length s.result) s.capacity
  pure (record s { escaped = false; result = s.result ++ c ∷ []; capacity = capacity; line = line })

-- One round at the byte `c`; `none` is the `break`.
unfoldable pub round : Scan → ℕ → Bytes → M (Option Scan)
unfolding store isspace
round s c line =
    let stored : M (Option Scan) = (do s' ← store s c line; pure (some s')) in
    if s.escaped
    then stored
    else if c == b'\\'
    then pure (some (record s { escaped = true; line = line }))
    else if not (s.quote_char == 0)
    then (if c == s.quote_char
        then pure (some (record s { quote_char = 0; line = line }))
        else stored)
    else if c == b'\'' || c == b'"'
    then pure (some (record s { quote_char = c; line = line }))
    else if isspace c
    then pure none
    else stored

-- `while (*line)`, over the text from `line` on.
unfoldable pub scan : Scan → Bytes → M Scan
unfolding round
scan s [] = pure s
scan s (c ∷ line) = do next ← round s c line; elim next [ some s' ↦ scan s' line | none ↦ pure s ]

-- The argument, or `none` for NULL with no error, the size of its block, and the text from
-- `*line_ptr` on.
pub record Word : Type 0 where
  pub text : Option Bytes
  pub capacity : ℕ
  pub rest : Bytes

abbrev pub opened : Bytes → Scan
opened line = record { quote_char = 0; escaped = false; result = []; capacity = 64; line = line }

-- Behind the loop: a quote that is still open is an error.
unfoldable pub finish_word : Scan → M Word
finish_word s =
    if not (s.quote_char == 0)
    then stop failed
    else pure (record { text = some s.result; capacity = s.capacity; rest = s.line })

unfoldable pub parse_arg_at : Bytes → M Word
unfolding scan finish_word
parse_arg_at [] = pure (record { text = none; capacity = 64; rest = [] })
parse_arg_at (c ∷ line) = do s ← scan (opened (c ∷ line)) (c ∷ line); finish_word s

unfoldable pub parse_arg : Bytes → M Word
unfolding alloc skip_whitespace parse_arg_at
parse_arg line = do alloc; parse_arg_at (skip_whitespace line)
