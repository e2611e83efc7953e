-- ===== src/Proc/Gdb.antt =====
-- The listings of gdb: src/bas/proc/format_gdb.c, the parser of src/bas/proc/format_backtrace.c, and
-- what src/bas/proc/stackdump.c prints of them. A text is a line with its line feed; `got` says which
-- allocations of a call get memory. A frame number that overflows its int, where C is undefined, ends in
-- `none` like a line that is no frame. Free functions have no part in the values.
pub mod Listing
pub mod Pieces
pub mod Header
pub mod Frames
pub mod RoundTrip
pub mod Whole
use bas_c.Common.{
  ℕ, zero, suc, ◌+◌, ◌-◌, ◌*◌, ◌/◌, ◌%◌, ◌^◌, Bool, true, false, ◌&&◌, ◌||◌, Option, none, some,
  List, [], ◌∷◌, Bytes, codes, ℤ, pos, ltb, leb, ◌==◌, if◌then◌else◌, length, drop, ◌>>=◌,
}
use bas_c.Base.CString.{strn_eq}
use bas_c.Base.Decimal.{isdigit, starts_digit, strtol_int}
use bas_c.Proc.Timer.{is_empty}
use bas_c.Proc.Timer.Interval.{skip_blanks}

pub record StackFrame : Type 0 where
  pub frame_number : ℕ
  pub address : Option Bytes
  pub method : Option Bytes
  pub params : Option Bytes
  pub file : Option Bytes
  pub line : ℤ
  pub raw_line : Bytes

pub record ThreadInfo : Type 0 where
  pub thread_id : ℤ
  pub name : Option Bytes
  pub lwp : ℤ
  pub frames : List StackFrame

-- The blocks that a call allocates.
pub data Block : Type 0 where
  whole : Block
  raw : Block
  text : Block

-- `strstr`: the text from the first occurrence on.
unfoldable pub strstr : Bytes → Bytes → Option Bytes
strstr [] w = if is_empty w then some [] else none
strstr (c ∷ s) w =
    let rest = strstr s w in if strn_eq (c ∷ s) w (length w) then some (c ∷ s) else rest

-- The text up to the first byte given, and what stands behind it, if there is one.
unfoldable pub up_to : ℕ → Bytes → Option (Bytes × Bytes)
up_to b [] = none
up_to b (c ∷ s) = let rest = up_to b s in if c == b then some ([], s) else onto c rest
  where
    onto : ℕ → Option (Bytes × Bytes) → Option (Bytes × Bytes)
    onto c none = none
    onto c (some (w, r)) = some (c ∷ w, r)

unfoldable pub not_empty : Bytes → Option Bytes
not_empty [] = none
not_empty (c ∷ s) = some (c ∷ s)

-- The name between the first two quotes of a line.
unfoldable pub quoted_name : Bytes → Option Bytes
quoted_name line = up_to b'"' line >>= (λ q. up_to b'"' q.1 >>= (λ r. not_empty r.0))

unfoldable pub lwp_in : Bytes → ℤ
lwp_in p = elim (strstr p (codes "(LWP ")) [
  | none ↦ pos 0
  | some s ↦ if starts_digit (drop 5 s) then (strtol_int (drop 5 s)).0 else pos 0
]

unfoldable pub or_empty : Option Bytes → Bytes
or_empty none = []
or_empty (some s) = s

module _ (got : Block → Bool) where
  unfoldable pub gdb_output_thread_info_parse : Bytes → Option ThreadInfo
  gdb_output_thread_info_parse line =
      let p = skip_blanks line in
      let (id, rest) = strtol_int (drop 7 p) in
      if strn_eq p (codes "Thread ") 7 && got whole && starts_digit (drop 7 p)
      then some (record {
        thread_id = id;
        name = if got text then some (or_empty (quoted_name line)) else none;
        lwp = lwp_in rest;
        frames = [];
      })
      else none

-- The loop over the digits behind `#`: `num`, and the text behind them; `none` where `num`, an int,
-- overflows.
unfoldable pub frame_digits : ℕ → Bytes → Option (ℕ × Bytes)
frame_digits n [] = some (n, [])
frame_digits n (c ∷ s) =
    let m = n * 10 + (c - 48) in
    let rest = frame_digits m s in
    if isdigit c then (if ltb m (2 ^ 31) then rest else none) else some (n, c ∷ s)

-- The number behind `#`: one that ends in 0 before an x is followed by an address.
unfoldable pub after_number : ℕ × Bytes → ℕ × Bytes
after_number (n, []) = (n, [])
after_number (n, c ∷ s) =
    if ltb 0 n && (c == b'x' || c == b'X') && n % 10 == 0
    then (n / 10, b'0' ∷ c ∷ s)
    else (n, c ∷ s)

unfoldable pub isxdigit : ℕ → Bool
isxdigit c = isdigit c || (leb 65 c && leb c 70) || (leb 97 c && leb c 102)

unfoldable pub hex : Bytes → Bytes × Bytes
hex [] = ([], [])
hex (c ∷ s) = let (w, r) = hex s in if isxdigit c then (c ∷ w, r) else ([], c ∷ s)

unfoldable pub take_address : Bytes → Option Bytes × Bytes
take_address (z ∷ x ∷ s) =
    let (w, r) = hex s in
    if z == b'0' && (x == b'x' || x == b'X') then (some (z ∷ x ∷ w), r) else (none, z ∷ x ∷ s)
take_address s = (none, s)

unfoldable pub skip_in : Bytes → Bytes
skip_in s = if strn_eq s (codes "in ") 3 then drop 3 s else s

unfoldable pub take_symbol : Bytes → Bytes × Bytes
take_symbol [] = ([], [])
take_symbol (c ∷ s) =
    let (w, r) = take_symbol s in
    if strn_eq (c ∷ s) (codes " at ") 4 || strn_eq (c ∷ s) (codes " (") 2
    then ([], c ∷ s)
    else (c ∷ w, r)

-- The depth behind a byte, for a depth that is not 0.
unfoldable pub new_depth : ℕ → ℕ → ℕ
new_depth c d = if c == b'(' then suc (suc d) else if c == b')' then d else suc d

-- The loop over the arguments: the text it passes, the depth at its end, and what is behind.
unfoldable pub parens : ℕ → Bytes → Bytes × ℕ × Bytes
parens d [] = ([], d, [])
parens zero (c ∷ s) = ([], zero, c ∷ s)
parens (suc d) (c ∷ s) = let (w, e, r) = parens (new_depth c d) s in (c ∷ w, e, r)

unfoldable pub take_params : Bytes → Option Bytes × Bytes
take_params [] = (none, [])
take_params (c ∷ s) =
    let (w, e, r) = parens 1 s in
    if c == b'(' then (if e == 0 then some (c ∷ w) else none, r) else (none, c ∷ s)

-- The text before the first colon of the line that a digit follows, and the text behind it.
unfoldable pub file_part : Bytes → Option (Bytes × Bytes)
file_part [] = none
file_part (c ∷ s) =
    let rest = file_part s in
    if c == b'\n' || c == b'\r'
    then none
    else if c == b':' && starts_digit s
    then some ([], s)
    else onto c rest
  where
    onto : ℕ → Option (Bytes × Bytes) → Option (Bytes × Bytes)
    onto c none = none
    onto c (some (w, r)) = some (c ∷ w, r)

unfoldable pub take_file : Bytes → Option Bytes × ℤ
take_file s = if strn_eq s (codes "at ") 3 then named (file_part (drop 3 s)) else (none, pos 0)
  where
    named : Option (Bytes × Bytes) → Option Bytes × ℤ
    named none = (none, pos 0)
    named (some ([], r)) = (none, pos 0)
    named (some (c ∷ w, r)) = (some (c ∷ w), (strtol_int r).0)

abbrev pub kept : Bool → Option Bytes → Option Bytes
kept true o = o
kept false o = none

-- The fields of a frame, of what the loop over the digits leaves.
unfoldable pub frame_fields : (Block → Bool) → Bytes → ℕ × Bytes → StackFrame
frame_fields got line num =
    let (n, p1) = after_number num in
    let (a, p2) = take_address (skip_blanks p1) in
    let (m, p3) = take_symbol (skip_in (skip_blanks p2)) in
    let (q, p4) = take_params (skip_blanks p3) in
    let (f, l) = take_file (skip_blanks p4) in
    record {
      frame_number = n;
      address = kept (got text) a;
      method = kept (got text) (not_empty m);
      params = kept (got text) q;
      file = kept (got text) f;
      line = l;
      raw_line = line;
    }

unfoldable pub frame_at : (Block → Bool) → Bytes → Bytes → Option StackFrame
frame_at got line [] = none
frame_at got line (c ∷ s) =
    if c == b'#' && starts_digit s && got whole && got raw
    then elim (frame_digits 0 s) [ none ↦ none | some num ↦ some (frame_fields got line num) ]
    else none

unfoldable pub gdb_output_stack_frame_parse : (Block → Bool) → Bytes → Option StackFrame
gdb_output_stack_frame_parse got line = frame_at got line (skip_blanks line)
