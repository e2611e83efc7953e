-- ===== src/Examples/Listings.antt =====
-- src/bas/proc/format_gdb.c: a listing of one thread with two frames.
use bas_c.Common.{◌≡◌, refl, true, none, some, [], ◌∷◌, arith, codes}
use bas_c.Base.Decimal.{decimal, decimal_onto, isdigit}
use bas_c.Base.CString.{strn_eq}
use bas_c.Proc.Timer.Interval.{skip_blanks, is_blank}
use bas_c.Proc.Gdb.{
  isxdigit, frame_digits, gdb_output_stack_frame_parse, gdb_output_thread_info_parse,
}
use bas_c.Proc.Gdb.Pieces.{Nested, nothing, other, group}
use bas_c.Proc.Gdb.Frames.{Parts, IsFrame, at, from, parts_text, frame_of, stack_frame_parse-forms}
use bas_c.Proc.Gdb.RoundTrip.{
  plain, spaced-IsFrame, thread_of, parse-stack_frame_format, parse-thread_info_format,
}
use bas_c.Proc.Gdb.Header.{Header, header_text}
use bas_c.Proc.Gdb.Listing.{
  stack_frame_format, thread_info_format, gdb_output_parse, is_gdb_noise_line,
}
use bas_c.Proc.Gdb.Whole.{Trace, IsTrace, trace_lines, trace_thread, gdb_output_parse-threads}

abbrev main_frame : Parts
main_frame = record {
  number = 3;
  gap = codes "  ";
  digits_of = codes "7f1a";
  name = codes "main";
  args = codes "n=f(1)";
  place = at (codes "a.c") 10;
}

abbrev wait_frame : Parts
wait_frame = record main_frame { number = 12; gap = []; args = []; place = from (codes "libc.so") }

args-Nested : Nested (codes "n=f(1)")
args-Nested =
    other (λ e. cc) (λ e. cc)
      (other (λ e. cc) (λ e. cc)
        (other (λ e. cc) (λ e. cc) (group (other (λ e. cc) (λ e. cc) nothing) nothing)))

main-IsFrame : IsFrame main_frame
unfolding is_blank isxdigit isdigit
main-IsFrame = record {
  int = omega arith;
  blank = (refl, (refl, tt));
  apart = λ e. absurd (cc (e));
  digit = (refl, (refl, (refl, (refl, tt))));
  named = λ e. cc (e);
  calm = ground arith;
  nested = args-Nested;
  placed = ground arith;
}

wait-IsFrame : IsFrame wait_frame
unfolding isxdigit isdigit
wait-IsFrame = record {
  int = omega arith;
  blank = tt;
  apart = λ e. (omega arith, omega arith);
  digit = (refl, (refl, (refl, (refl, tt))));
  named = λ e. cc (e);
  calm = ground arith;
  nested = nothing;
  placed = tt;
}

abbrev one_header : Header
one_header = record {
  id = 2;
  process = 3116497;
  address = codes "7f1a8b0196c0";
  name = codes "pool-1";
  tail = codes ")\n";
}

header_text_runs :
    header_text one_header ≡ codes "Thread 2 (Thread 0x7f1a8b0196c0 (LWP 3116497) \"pool-1\")\n"
unfolding decimal decimal_onto
header_text_runs = refl

abbrev one_thread : Trace
one_thread = record { header = one_header; frames = main_frame ∷ wait_frame ∷ [] }

one_thread-IsTrace : IsTrace one_thread
unfolding isxdigit isdigit
one_thread-IsTrace = record {
  headed = record {
    int = omega arith;
    process_int = omega arith;
    hexadecimal = ground arith;
    named = λ e. cc (e);
    bare = ground arith;
  };
  framed = (main-IsFrame, (wait-IsFrame, tt));
}

decimal_runs : decimal 120 ≡ codes "120"
unfolding decimal decimal_onto
decimal_runs = refl

frame_digits_runs :
    (frame_digits 0 (codes "2147483640x1") ≡ some (2147483640, codes "x1"))
    × (frame_digits 0 (codes "2147483650x1") ≡ none)
unfolding frame_digits isdigit
frame_digits_runs = (refl, refl)

stack_frame_parse-forms_example :
    gdb_output_stack_frame_parse (λ b. true) (parts_text wait_frame) ≡ some (frame_of wait_frame)
stack_frame_parse-forms_example = stack_frame_parse-forms wait_frame wait-IsFrame

parse-stack_frame_format_example :
    gdb_output_stack_frame_parse (λ b. true) (stack_frame_format (frame_of main_frame) plain)
    ≡ some
        (record (frame_of main_frame) { raw_line = stack_frame_format (frame_of main_frame) plain })
parse-stack_frame_format_example =
    parse-stack_frame_format main_frame (spaced-IsFrame main_frame main-IsFrame) (omega arith)

parse-thread_info_format_example :
    gdb_output_thread_info_parse
      (λ b. true)
      (thread_info_format (thread_of 2 31 (codes "pool")) plain)
    ≡ some (thread_of 2 31 (codes "pool"))
unfolding decimal decimal_onto
parse-thread_info_format_example =
    parse-thread_info_format 2 31 (codes "pool") (omega arith) (omega arith) (omega arith)
      (λ e. cc (e)) (ground arith) (omega arith)

gdb_output_parse-threads_example :
    gdb_output_parse (λ b. true) (codes "[New LWP 7]" ∷ trace_lines (one_thread ∷ []))
    ≡ trace_thread one_thread ∷ []
unfolding is_gdb_noise_line skip_blanks is_blank strn_eq
gdb_output_parse-threads_example =
    gdb_output_parse-threads (codes "[New LWP 7]" ∷ []) (one_thread ∷ []) (refl, tt)
      (one_thread-IsTrace, tt)
