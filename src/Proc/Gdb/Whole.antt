-- ===== src/Proc/Gdb/Whole.antt =====
-- A whole listing of gdb is read as its threads with their frames (src/bas/proc/format_gdb.c).
use bas_c.Common.{
  ◌≡◌, refl, sym, ap, ◌∙◌, Bool, true, false, ◌&&◌, some, List, [], ◌∷◌, ◌++◌, append_assoc,
  append-nil, Bytes, codes, if◌then◌else◌, All, map,
}
use bas_c.Base.CString.{strn_eq}
use bas_c.Proc.Timer.Interval.{skip_blanks, is_blank}
use bas_c.Proc.Gdb.{ThreadInfo, Block, gdb_output_stack_frame_parse}
use bas_c.Proc.Gdb.Frames.{Parts, parts_text, IsFrame, frame_of, stack_frame_parse-forms}
use bas_c.Proc.Gdb.RoundTrip.{thread_of}
use bas_c.Proc.Gdb.Header.{Header, IsHeader, header_text, header_parse}
use bas_c.Proc.Gdb.Listing.{
  Listing, with_frame, on_last, add_thread, add_frame, gdb_line, gdb_lines, gdb_output_parse,
  is_gdb_noise_line, is_thread_header,
}

-- A thread of a listing: its line, and the lines of its frames with an empty line behind them.
pub record Trace : Type 0 where
  pub header : Header
  pub frames : List Parts

pub record IsTrace (t : Trace) : Type 0 where
  pub headed : IsHeader t.header
  pub framed : All IsFrame t.frames

-- The thread of a header.
abbrev pub header_thread : Header → ThreadInfo
header_thread x = thread_of x.id x.process x.name

abbrev pub trace_lines : List Trace → List Bytes
trace_lines [] = []
trace_lines (t ∷ ts) =
    header_text t.header ∷ (map parts_text t.frames ++ (codes "\n" ∷ trace_lines ts))

abbrev pub trace_thread : Trace → ThreadInfo
trace_thread t = record (header_thread t.header) { frames = map frame_of t.frames }

abbrev all : Block → Bool
all b = true

on_last_lem :
    (ts : List ThreadInfo) (t : ThreadInfo) (f : ThreadInfo → ThreadInfo)
    → on_last (ts ++ t ∷ []) f ≡ ts ++ f t ∷ []
unfolding on_last
on_last_lem [] t f = refl
on_last_lem (u ∷ []) t f = refl
on_last_lem (u ∷ v ∷ ts) t f = ap (λ l. u ∷ l) (on_last_lem (v ∷ ts) t f)

lines_append :
    (ls ms : List Bytes) (l : Listing)
    → gdb_lines all (ls ++ ms) l ≡ gdb_lines all ms (gdb_lines all ls l)
unfolding gdb_lines
lines_append [] ms l = refl
lines_append (x ∷ ls) ms l = lines_append ls ms (gdb_line all x l)

frame_line :
    (x : Parts) (l : Listing)
    → IsFrame x
    → l.current ≡ true
    → gdb_line all (parts_text x) l ≡ add_frame (some (frame_of x)) l
unfolding gdb_line is_gdb_noise_line is_thread_header skip_blanks is_blank strn_eq
frame_line x l f c = rw (c, stack_frame_parse-forms x f) refl

thread_line :
    (x : Header) (l : Listing)
    → IsHeader x
    → gdb_line all (header_text x) l ≡ add_thread (some (header_thread x)) l
unfolding gdb_line is_gdb_noise_line is_thread_header skip_blanks is_blank strn_eq
thread_line x l h = rw (header_parse x h) refl

if_never : {A : Type 0} (b : Bool) (x y : A) → (if b && false then x else y) ≡ y
if_never true x y = refl
if_never false x y = refl

empty_line : (l : Listing) → gdb_line all (codes "\n") l ≡ l
unfolding gdb_line is_gdb_noise_line is_thread_header skip_blanks is_blank strn_eq
empty_line l = if_never l.current (add_frame (gdb_output_stack_frame_parse all (codes "\n")) l) l

-- The lines from one on, where it is known what it does.
lines_cons :
    (x : Bytes) (ls : List Bytes) (l m : Listing)
    → gdb_line all x l ≡ m
    → gdb_lines all (x ∷ ls) l ≡ gdb_lines all ls m
unfolding gdb_lines
lines_cons x ls l m e = ap (λ k. gdb_lines all ls k) e

-- The lines of the frames, behind the line of their thread.
added :
    (x : Parts) (ts : List ThreadInfo) (t : ThreadInfo)
    → add_frame (some (frame_of x)) (record { result = ts ++ t ∷ []; current = true })
      ≡ record { result = ts ++ with_frame (frame_of x) t ∷ []; current = true }
unfolding add_frame
added x ts t = rw (on_last_lem ts t (with_frame (frame_of x))) refl

frames_lines :
    (xs : List Parts) (ts : List ThreadInfo) (t : ThreadInfo)
    → All IsFrame xs
    → gdb_lines all (map parts_text xs) (record { result = ts ++ t ∷ []; current = true })
      ≡ record {
        result = ts ++ record t { frames = t.frames ++ map frame_of xs } ∷ [];
        current = true;
      }
unfolding gdb_lines
frames_lines [] ts t h = rw (append-nil t.frames) refl
frames_lines (x ∷ xs) ts t h =
    lines_cons (parts_text x) (map parts_text xs) (record { result = ts ++ t ∷ []; current = true })
      (record { result = ts ++ with_frame (frame_of x) t ∷ []; current = true })
      (frame_line x (record { result = ts ++ t ∷ []; current = true }) h.0 refl ∙ added x ts t)
    ∙ frames_lines xs ts (with_frame (frame_of x) t) h.1
    ∙ rw (append_assoc t.frames (frame_of x ∷ []) (map frame_of xs)) refl

-- The threads with one more.
abbrev behind : Trace → Listing → Listing
behind t l = record { result = l.result ++ trace_thread t ∷ []; current = true }

begun :
    (t : Trace) (l : Listing)
    → add_thread (some (header_thread t.header)) l
      ≡ record { result = l.result ++ header_thread t.header ∷ []; current = true }
unfolding add_thread
begun t l = refl

lines_none : (l : Listing) → (gdb_lines all [] l).result ≡ l.result
unfolding gdb_lines
lines_none l = refl

traces_lines :
    (ts : List Trace) (l : Listing)
    → All IsTrace ts
    → (gdb_lines all (trace_lines ts) l).result ≡ l.result ++ map trace_thread ts
traces_lines [] l h = lines_none l ∙ sym (append-nil l.result)
traces_lines (t ∷ ts) l (p, h) =
    ap (λ k. k.result)
      (lines_cons (header_text t.header) (map parts_text t.frames ++ (codes "\n" ∷ trace_lines ts))
          l (record { result = l.result ++ header_thread t.header ∷ []; current = true })
          (thread_line t.header l p.headed ∙ begun t l)
        ∙ lines_append (map parts_text t.frames) (codes "\n" ∷ trace_lines ts)
            (record { result = l.result ++ header_thread t.header ∷ []; current = true })
        ∙ ap (λ k. gdb_lines all (codes "\n" ∷ trace_lines ts) k)
            (frames_lines t.frames l.result (header_thread t.header) p.framed)
        ∙ lines_cons (codes "\n") (trace_lines ts) (behind t l) (behind t l)
            (empty_line (behind t l)))
    ∙ traces_lines ts (behind t l) h
    ∙ append_assoc l.result (trace_thread t ∷ []) (map trace_thread ts)

noise_lines :
    (ls : List Bytes) (l : Listing)
    → All (λ s. is_gdb_noise_line s ≡ true) ls
    → gdb_lines all ls l ≡ l
unfolding gdb_lines gdb_line
noise_lines [] l h = refl
noise_lines (s ∷ ls) l h = rw h.0 (noise_lines ls l h.1)

-- With memory, a listing of gdb is read as its threads in order, each with its frames in order:
-- lines of noise, and for each thread its header, the lines of its frames and an empty one. A header
-- holds the number of the thread, its address in hexadecimal digits, the number of its process, both
-- numbers below 2 ^ 31, and its name between quotes, which is not empty and without quotes; those of
-- the frames are as `stack_frame_parse-forms` says.
pub gdb_output_parse-threads :
    (noise : List Bytes) (ts : List Trace)
    → All (λ s. is_gdb_noise_line s ≡ true) noise
    → All IsTrace ts
    → gdb_output_parse all (noise ++ trace_lines ts) ≡ map trace_thread ts
unfolding gdb_output_parse
gdb_output_parse-threads noise ts h k =
    ap (λ l. l.result)
      (lines_append noise (trace_lines ts) (record { result = []; current = false })
        ∙ ap (λ l. gdb_lines all (trace_lines ts) l)
            (noise_lines noise (record { result = []; current = false }) h))
    ∙ traces_lines ts (record { result = []; current = false }) k
