-- ===== src/Proc/Gdb/RoundTrip.antt =====
-- What src/bas/proc/stackdump.c prints without colours is read again by src/bas/proc/format_gdb.c.
use bas_c.Common.{
  ℕ, zero, suc, ◌^◌, ◌≤◌, ◌<◌, ◌≡◌, refl, ap, ◌∙◌, ◌≢◌, true, some, [], ◌∷◌, ◌++◌, append_assoc,
  append-nil, arith, Bytes, codes, pos, length, All, All-append, take_more,
}
use bas_c.Base.CString.{strn_eq}
use bas_c.Base.Decimal.{
  isdigit, starts_digit, decimal, decimal-digits, starts_digit-decimal, IsBehind,
}
use bas_c.Proc.Timer.Interval.{skip_blanks, is_blank}
use bas_c.Proc.Gdb.{
  ThreadInfo, gdb_output_stack_frame_parse, gdb_output_thread_info_parse, up_to, strstr,
  quoted_name, lwp_in, not_empty, or_empty,
}
use bas_c.Proc.Gdb.Frames.{
  Place, IsPlace, at, from, nowhere, Parts, parts_text, IsFrame, frame_of, stack_frame_parse-forms,
  strtol_decimal,
}
use bas_c.Proc.Gdb.Listing.{
  ColorSchema, around, decimal_int, stack_frame_format, thread_info_format,
}

abbrev pub plain : ColorSchema
plain = record {
  reset = [];
  header = [];
  frame_index = [];
  symbol = [];
  params = [];
  location = [];
}

-- A place that is printed whole.
abbrev pub IsPrinted : Place → Type 0
IsPrinted (at f l) = 0 < l
IsPrinted (from t) = ⊥
IsPrinted nowhere = Unit

format_at :
    (n : ℕ) (h : Bytes) (w p f : Bytes) (l : ℕ)
    → w ≢ []
    → f ≢ []
    → 0 < l
    → stack_frame_format
        (frame_of (record {
          number = n;
          gap = codes " ";
          digits_of = h;
          name = w;
          args = p;
          place = at f l;
        }))
        plain
      ≡ parts_text (record {
        number = n;
        gap = codes " ";
        digits_of = h;
        name = w;
        args = p;
        place = at f l;
      })
unfolding stack_frame_format around decimal_int
format_at n h [] p f l ne nf z = absurd (ne refl)
format_at n h (c ∷ w) p [] l ne nf z = absurd (nf refl)
format_at n h (c ∷ w) p (d ∷ f) zero ne nf z = absurd (omega arith)
format_at n h (c ∷ w) p (d ∷ f) (suc l) ne nf z = simp (append_assoc, append-nil) refl

format_nowhere :
    (n : ℕ) (h w p : Bytes)
    → w ≢ []
    → stack_frame_format
        (frame_of (record {
          number = n;
          gap = codes " ";
          digits_of = h;
          name = w;
          args = p;
          place = nowhere;
        }))
        plain
      ≡ parts_text (record {
        number = n;
        gap = codes " ";
        digits_of = h;
        name = w;
        args = p;
        place = nowhere;
      })
unfolding stack_frame_format around
format_nowhere n h [] p ne = absurd (ne refl)
format_nowhere n h (c ∷ w) p ne = simp (append_assoc, append-nil) refl

-- The same frame as it is printed.
abbrev pub spaced : Parts → Parts
spaced x = record x { gap = codes " " }

format_lem :
    (x : Parts)
    → IsFrame (spaced x)
    → IsPrinted x.place
    → stack_frame_format (frame_of x) plain ≡ parts_text (spaced x)
unfolding stack_frame_format
format_lem x f h = go x.place f.placed h
  where
    go :
        (q : Place)
        → IsPlace q
        → IsPrinted q
        → stack_frame_format (frame_of (record x { place = q })) plain
          ≡ parts_text (record x { gap = codes " "; place = q })
    go (at g l) (ok, full, b) h = format_at x.number x.digits_of x.name x.args g l f.named full h
    go (from t) p h = absurd h
    go nowhere p h = format_nowhere x.number x.digits_of x.name x.args f.named

pub spaced-IsFrame : (x : Parts) → IsFrame x → IsFrame (spaced x)
unfolding is_blank
spaced-IsFrame x f = record {
  int = f.int;
  blank = (refl, tt);
  apart = λ e. absurd (cc (e));
  digit = f.digit;
  named = f.named;
  calm = f.calm;
  nested = f.nested;
  placed = f.placed;
}

-- With memory, a frame with address, name and arguments, and with a file and a line number that is
-- not 0, or with neither, is read again from what `stack_frame_format` prints of it without colours;
-- `raw_line` is then the line that was printed.
pub parse-stack_frame_format :
    (x : Parts)
    → IsFrame (spaced x)
    → IsPrinted x.place
    → gdb_output_stack_frame_parse (λ b. true) (stack_frame_format (frame_of x) plain)
      ≡ some (record (frame_of x) { raw_line = stack_frame_format (frame_of x) plain })
parse-stack_frame_format x f h = rw (format_lem x f h) (stack_frame_parse-forms (spaced x) f)

pub up_to_all : (b : ℕ) (a r : Bytes) → All (λ c. c ≢ b) a → up_to b (a ++ (b ∷ r)) ≡ some (a, r)
unfolding up_to
up_to_all b [] r h = ground arith
up_to_all b (c ∷ a) r h = rw (up_to_all b a r h.1) (ground (arith, h.0))

-- The name and the number of a thread as gdb or `thread_info_format` spells them.
abbrev thread_text : ℕ → ℕ → Bytes → Bytes
thread_text n m w =
    codes "Thread "
    ++ (decimal n ++ (codes " (LWP " ++ (decimal m ++ (codes ") \"" ++ (w ++ codes "\"\n")))))

-- The thread of such a line.
abbrev pub thread_of : ℕ → ℕ → Bytes → ThreadInfo
thread_of n m w = record { thread_id = pos n; name = some w; lwp = pos m; frames = [] }

abbrev pub IsBare : Bytes → Type 0
IsBare w = All (λ c. c ≢ b'"') w

pub digits-IsBare : (w : Bytes) → All (λ c. isdigit c ≡ true) w → IsBare w
unfolding isdigit
digits-IsBare [] h = tt
digits-IsBare (c ∷ w) h = (ground (arith, h.0), digits-IsBare w h.1)

before_name : ℕ → ℕ → Bytes
before_name n m = codes "Thread " ++ (decimal n ++ (codes " (LWP " ++ (decimal m ++ codes ") ")))

before-IsBare : (n m : ℕ) → IsBare (before_name n m)
unfolding before_name
before-IsBare n m =
    All-append (λ c. c ≢ b'"') (codes "Thread ") _ (ground arith)
      (All-append (λ c. c ≢ b'"') (decimal n) _ (digits-IsBare (decimal n) (decimal-digits n))
        (All-append (λ c. c ≢ b'"') (codes " (LWP ") _ (ground arith)
          (All-append (λ c. c ≢ b'"') (decimal m) _ (digits-IsBare (decimal m) (decimal-digits m))
            (ground arith))))

thread_text_split :
    (n m : ℕ) (w : Bytes) → thread_text n m w ≡ before_name n m ++ (b'"' ∷ (w ++ codes "\"\n"))
unfolding before_name
thread_text_split n m w = simp (append_assoc) refl

name_lem : (n m : ℕ) (w : Bytes) → w ≢ [] → IsBare w → quoted_name (thread_text n m w) ≡ some w
unfolding quoted_name not_empty
name_lem n m [] ne h = absurd (ne refl)
name_lem n m (c ∷ w) ne h =
    rw
      (
        thread_text_split n m (c ∷ w),
        up_to_all b'"' (before_name n m) ((c ∷ w) ++ codes "\"\n") (before-IsBare n m),
      )
      (rw (up_to_all b'"' (c ∷ w) (codes "\n") h) refl)

lwp_lem :
    (m : ℕ) (r : Bytes)
    → m < 2 ^ 31
    → IsBehind r
    → lwp_in (codes " (LWP " ++ (decimal m ++ r)) ≡ pos m
unfolding lwp_in strstr strn_eq
lwp_lem m r h b = rw (starts_digit-decimal m r (omega (arith, h)), strtol_decimal m r h b) refl

thread_format :
    (n m : ℕ) (w : Bytes)
    → length (thread_text n (suc m) w) ≤ 255
    → thread_info_format (thread_of n (suc m) w) plain ≡ thread_text n (suc m) w
unfolding thread_info_format decimal_int
thread_format n m w l = simp (append_assoc, append-nil) (take_more 255 (thread_text n (suc m) w) l)

pub thread_start : (r : Bytes) → skip_blanks (codes "Thread " ++ r) ≡ codes "Thread " ++ r
unfolding skip_blanks is_blank
thread_start r = refl

thread_parse :
    (n m : ℕ) (w : Bytes)
    → n < 2 ^ 31
    → m < 2 ^ 31
    → w ≢ []
    → IsBare w
    → gdb_output_thread_info_parse (λ b. true) (thread_text n m w) ≡ some (thread_of n m w)
unfolding gdb_output_thread_info_parse strn_eq or_empty starts_digit isdigit
thread_parse n m w hn hm ne h =
    rw
      (
        thread_start
            (decimal n ++ (codes " (LWP " ++ (decimal m ++ (codes ") \"" ++ (w ++ codes "\"\n"))))),
        starts_digit-decimal n
            (codes " (LWP " ++ (decimal m ++ (codes ") \"" ++ (w ++ codes "\"\n"))))
            (omega (arith, hn)),
        strtol_decimal n (codes " (LWP " ++ (decimal m ++ (codes ") \"" ++ (w ++ codes "\"\n")))) hn
            refl,
        lwp_lem m (codes ") \"" ++ (w ++ codes "\"\n")) hm refl,
        name_lem n m w ne h,
      )
      refl

-- With memory, a thread with a name without quotes and with numbers below 2 ^ 31, that of its process
-- not 0, is read again from the line that `thread_info_format` prints of it without colours, if
-- this has at most 255 bytes. The frames are lines of their own.
pub parse-thread_info_format :
    (n m : ℕ) (w : Bytes)
    → n < 2 ^ 31
    → 0 < m
    → m < 2 ^ 31
    → w ≢ []
    → IsBare w
    → length (thread_text n m w) ≤ 255
    → gdb_output_thread_info_parse (λ b. true) (thread_info_format (thread_of n m w) plain)
      ≡ some (thread_of n m w)
parse-thread_info_format n zero w hn z hm ne h l = absurd (omega arith)
parse-thread_info_format n (suc m) w hn z hm ne h l =
    ap (λ t. gdb_output_thread_info_parse (λ b. true) t) (thread_format n m w l)
    ∙ thread_parse n (suc m) w hn hm ne h
