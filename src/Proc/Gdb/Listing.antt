-- ===== src/Proc/Gdb/Listing.antt =====
-- The loops over the lines of a listing (src/bas/proc/format_gdb.c and format_backtrace.c), and the
-- threads that src/bas/proc/stackdump.c prints. The lines are those that `str_getline` returns.
use bas_c.Common.{
  suc, Bool, true, false, not, ◌&&◌, ◌||◌, Option, none, some, List, [], ◌∷◌, ◌++◌, Bytes, codes, ℤ,
  pos, negsuc, ◌==◌, if◌then◌else◌, take, ◌>>=◌,
}
use bas_c.Base.CString.{str_eq, strn_eq}
use bas_c.Base.Decimal.{decimal}
use bas_c.Proc.Timer.Interval.{skip_blanks}
use bas_c.Proc.Gdb.{
  StackFrame, ThreadInfo, Block, whole, text, strstr, up_to, not_empty,
  gdb_output_thread_info_parse, gdb_output_stack_frame_parse,
}

unfoldable pub is_gdb_noise_line : Bytes → Bool
is_gdb_noise_line line =
    let p = skip_blanks line in
    strn_eq p (codes "[New LWP ") 9
    || strn_eq p (codes "[Thread debugging using libthread_db enabled]") 47
    || strn_eq p (codes "Using host libthread_db library ") 32

unfoldable pub is_thread_header : Bytes → Bool
is_thread_header line = strn_eq (skip_blanks line) (codes "Thread ") 7

-- `result`, and whether `current` is its last thread; it is NULL otherwise.
pub record Listing : Type 0 where
  pub result : List ThreadInfo
  pub current : Bool

abbrev pub with_frame : StackFrame → ThreadInfo → ThreadInfo
with_frame f t = record t { frames = t.frames ++ f ∷ [] }

unfoldable pub on_last : List ThreadInfo → (ThreadInfo → ThreadInfo) → List ThreadInfo
on_last [] f = []
on_last (t ∷ []) f = f t ∷ []
on_last (t ∷ u ∷ l) f = t ∷ on_last (u ∷ l) f

abbrev pub starts_frame : Bytes → Bool
starts_frame [] = false
starts_frame (c ∷ s) = c == b'#'

unfoldable pub add_thread : Option ThreadInfo → Listing → Listing
add_thread none l = record l { current = false }
add_thread (some t) l = record { result = l.result ++ t ∷ []; current = true }

unfoldable pub add_frame : Option StackFrame → Listing → Listing
add_frame none l = l
add_frame (some f) l = record l { result = on_last l.result (with_frame f) }

module _ (got : Block → Bool) where
  unfoldable pub gdb_line : Bytes → Listing → Listing
  gdb_line line l =
      if is_gdb_noise_line line
      then l
      else if is_thread_header line
      then add_thread (gdb_output_thread_info_parse got line) l
      else if l.current && starts_frame line
      then add_frame (gdb_output_stack_frame_parse got line) l
      else l

  unfoldable pub gdb_lines : List Bytes → Listing → Listing
  gdb_lines [] l = l
  gdb_lines (line ∷ ls) l = gdb_lines ls (gdb_line line l)

  unfoldable pub gdb_output_parse : List Bytes → List ThreadInfo
  gdb_output_parse ls = (gdb_lines ls (record { result = []; current = false })).result

unfoldable pub is_backtrace_thread_header : Bytes → Bool
is_backtrace_thread_header line =
    let p = skip_blanks line in has (strstr p (codes "===")) && has (strstr p (codes "Thread"))
  where
    has : Option Bytes → Bool
    has none = false
    has (some s) = true

-- The name between the first parentheses; behind it, whether its memory is there.
unfoldable pub backtrace_thread_name_from_line : Bool → Bytes → Option Bytes
backtrace_thread_name_from_line memory line =
    if memory
    then or_current (up_to b'(' line >>= (λ p. up_to b')' p.1 >>= (λ r. not_empty r.0)))
    else none
  where
    or_current : Option Bytes → Option Bytes
    or_current none = some (codes "current")
    or_current (some s) = some s

-- Where there is no memory for the name, there is none for `str_dup("?")`.
unfoldable pub backtrace_thread : (Block → Bool) → Bytes → ThreadInfo
backtrace_thread got line = record {
  thread_id = pos 0;
  name = backtrace_thread_name_from_line (got text) line;
  lwp = pos 0;
  frames = [];
}

unfoldable pub backtrace_line : (Block → Bool) → Bytes → Listing → Listing
backtrace_line got line l =
    if is_backtrace_thread_header line
    then add_thread (if got whole then some (backtrace_thread got line) else none) l
    else if l.current && starts_frame line
    then add_frame (gdb_output_stack_frame_parse got line) l
    else l

unfoldable pub backtrace_lines : (Block → Bool) → List Bytes → Listing → Listing
backtrace_lines got [] l = l
backtrace_lines got (line ∷ ls) l = backtrace_lines got ls (backtrace_line got line l)

unfoldable pub backtrace_parse : (Block → Bool) → List Bytes → List ThreadInfo
backtrace_parse got ls = (backtrace_lines got ls (record { result = []; current = false })).result

abbrev pub finds : Option Bytes → Bytes → Bool
finds none w = false
finds (some s) w = elim (strstr s w) [ none ↦ false | some r ↦ true ]

unfoldable pub frames_have : List StackFrame → Bytes → Bool
frames_have [] w = false
frames_have (f ∷ fs) w = finds f.method w || finds (some f.raw_line) w || frames_have fs w

unfoldable pub thread_has_method : ThreadInfo → Bytes → Bool
thread_has_method t w = frames_have t.frames w

unfoldable pub is_excluded_name : Option Bytes → Bool
is_excluded_name none = false
is_excluded_name (some name) =
    str_eq name (codes "pool-0")
    || str_eq name (codes "pool-1")
    || str_eq name (codes "pool-spawner")
    || str_eq name (codes "gmain")
    || str_eq name (codes "gdbus")
    || strn_eq name (codes "[pango]") 7
    || str_eq name (codes "libusb_event")

unfoldable pub is_thread_included : ThreadInfo → Bool
is_thread_included t =
    not (is_excluded_name t.name || thread_has_method t (codes "HttpDaemon::serverLoop"))

pub record ColorSchema : Type 0 where
  pub reset : Bytes
  pub header : Bytes
  pub frame_index : Bytes
  pub symbol : Bytes
  pub params : Bytes
  pub location : Bytes

-- `%d`
unfoldable pub decimal_int : ℤ → Bytes
decimal_int (pos n) = decimal n
decimal_int (negsuc n) = b'-' ∷ decimal (suc n)

abbrev pub is_positive : ℤ → Bool
is_positive (pos (suc n)) = true
is_positive _ = false

abbrev pub name_text : Option Bytes → Bytes
name_text none = codes "?"
name_text (some s) = s

unfoldable pub thread_info_format : ThreadInfo → ColorSchema → Bytes
thread_info_format t s =
    let lwp = if is_positive t.lwp then codes " (LWP " ++ decimal_int t.lwp ++ codes ")" else [] in
    let buf =
      codes "Thread "
      ++ decimal_int t.thread_id
      ++ lwp
      ++ codes " \""
      ++ name_text t.name
      ++ codes "\"\n" in
    s.header ++ take 255 buf ++ s.reset

-- What stands around a text that is there and not empty.
unfoldable pub around : Bytes → Option Bytes → Bytes → Bytes
around before none after = []
around before (some []) after = []
around before (some (c ∷ s)) after = before ++ (c ∷ s) ++ after

unfoldable pub stack_frame_format : StackFrame → ColorSchema → Bytes
stack_frame_format f s =
    s.frame_index
    ++ codes "#"
    ++ decimal f.frame_number
    ++ s.reset
    ++ around (codes " ") f.address (codes " in ")
    ++ around s.symbol f.method s.reset
    ++ around (codes " " ++ s.params) f.params s.reset
    ++ around (codes " at " ++ s.location) f.file
        ((if is_positive f.line then codes ":" ++ decimal_int f.line else []) ++ s.reset)
    ++ codes "\n"

unfoldable pub frames_format : List StackFrame → ColorSchema → Bytes
frames_format [] s = []
frames_format (f ∷ fs) s = codes "    " ++ stack_frame_format f s ++ frames_format fs s

-- `thread_info_list_format`; the flag is whether a thread was printed before.
unfoldable pub threads_format : Bool → List ThreadInfo → ColorSchema → Bytes
threads_format behind [] s = []
threads_format behind (t ∷ ts) s = elim (is_thread_included t) [
  | true ↦
      (if behind then codes "\n" else [])
      ++ thread_info_format t s
      ++ frames_format t.frames s
      ++ threads_format true ts s
  | false ↦ threads_format behind ts s
]

unfoldable pub thread_info_list_format : List ThreadInfo → ColorSchema → Bytes
thread_info_list_format ts s = threads_format false ts s

-- `gdb_output_highlight_fd`: what is printed of the lines of a file.
unfoldable pub gdb_output_highlight_fd : (Block → Bool) → List Bytes → ColorSchema → Bytes
gdb_output_highlight_fd got ls s = thread_info_list_format (gdb_output_parse got ls) s

unfoldable pub backtrace_highlight_fd : (Block → Bool) → List Bytes → ColorSchema → Bytes
backtrace_highlight_fd got ls s = thread_info_list_format (backtrace_parse got ls) s
