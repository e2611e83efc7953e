-- ===== src/Proc/Gdb/Header.antt =====
-- The header of a thread as gdb prints it, and how src/bas/proc/format_gdb.c reads it:
-- `Thread 2 (Thread 0x7f1a8b0196c0 (LWP 3116497) "pool-1")`.
use bas_c.Common.{
  ℕ, ◌^◌, ◌<◌, ◌≡◌, refl, ◌≢◌, true, false, some, [], ◌∷◌, ◌++◌, append_assoc, arith, Bytes, codes,
  pos, ◌==◌, All, All-append,
}
use bas_c.Base.CString.{strn_eq}
use bas_c.Base.Decimal.{
  isdigit, starts_digit, decimal, decimal-digits, starts_digit-decimal, IsBehind,
}
use bas_c.Proc.Gdb.{
  gdb_output_thread_info_parse, isxdigit, strstr, quoted_name, lwp_in, not_empty, or_empty,
}
use bas_c.Proc.Gdb.Frames.{strtol_decimal}
use bas_c.Proc.Gdb.RoundTrip.{thread_of, IsBare, up_to_all, digits-IsBare, thread_start}

-- The number of a thread, that of its process, its address in hexadecimal digits, its name, and what
-- stands behind the name: `)` or `):` and a line feed.
pub record Header : Type 0 where
  pub id : ℕ
  pub process : ℕ
  pub address : Bytes
  pub name : Bytes
  pub tail : Bytes

pub record IsHeader (x : Header) : Type 0 where
  pub int : x.id < 2 ^ 31
  pub process_int : x.process < 2 ^ 31
  pub hexadecimal : All (λ d. isxdigit d ≡ true) x.address
  pub named : x.name ≢ []
  pub bare : IsBare x.name

-- What stands before the name.
abbrev before_quote : ℕ → ℕ → Bytes → Bytes
before_quote n m a =
    codes "Thread "
    ++ (decimal n ++ (codes " (Thread 0x" ++ (a ++ (codes " (LWP " ++ (decimal m ++ codes ") ")))))

abbrev pub header_text : Header → Bytes
header_text x =
    codes "Thread "
    ++ (decimal x.id
        ++ (codes " (Thread 0x"
            ++ (x.address
                ++ (codes " (LWP "
                    ++ (decimal x.process ++ (codes ") \"" ++ (x.name ++ (b'"' ∷ x.tail))))))))

hex-IsBare : (a : Bytes) → All (λ d. isxdigit d ≡ true) a → IsBare a
unfolding isxdigit isdigit
hex-IsBare [] h = tt
hex-IsBare (c ∷ a) h = (ground (arith, h.0), hex-IsBare a h.1)

before-IsBare : (n m : ℕ) (a : Bytes) → All (λ d. isxdigit d ≡ true) a → IsBare (before_quote n m a)
before-IsBare n m a h =
    All-append (λ c. c ≢ b'"') (codes "Thread ") _ (ground arith)
      (All-append (λ c. c ≢ b'"') (decimal n) _ (digits-IsBare (decimal n) (decimal-digits n))
        (All-append (λ c. c ≢ b'"') (codes " (Thread 0x") _ (ground arith)
          (All-append (λ c. c ≢ b'"') a _ (hex-IsBare a h)
            (All-append (λ c. c ≢ b'"') (codes " (LWP ") _ (ground arith)
              (All-append (λ c. c ≢ b'"') (decimal m) _
                (digits-IsBare (decimal m) (decimal-digits m)) (ground arith))))))

header_text_split :
    (x : Header)
    → header_text x ≡ before_quote x.id x.process x.address ++ (b'"' ∷ (x.name ++ (b'"' ∷ x.tail)))
header_text_split x = simp (append_assoc) refl

header_name : (x : Header) → IsHeader x → quoted_name (header_text x) ≡ some x.name
unfolding quoted_name not_empty
header_name x h =
    rw
      (
        header_text_split x,
        up_to_all b'"' (before_quote x.id x.process x.address) (x.name ++ (b'"' ∷ x.tail))
            (before-IsBare x.id x.process x.address h.hexadecimal),
      )
      (rw (up_to_all b'"' x.name x.tail h.bare) (full x.name h.named))
  where
    full : (w : Bytes) → w ≢ [] → not_empty w ≡ some w
    full [] ne = absurd (ne refl)
    full (c ∷ w) ne = refl

-- No digit of the address starts `(LWP `.
strstr_hex :
    (a s : Bytes)
    → All (λ d. isxdigit d ≡ true) a
    → strstr (a ++ s) (codes "(LWP ") ≡ strstr s (codes "(LWP ")
unfolding strstr strn_eq isxdigit isdigit
strstr_hex [] s h = refl
strstr_hex (c ∷ a) s (h, hs) =
    let other : (c == b'(') ≡ false = ground (arith, h) in rw other (strstr_hex a s hs)

header_strstr :
    (a s : Bytes)
    → All (λ d. isxdigit d ≡ true) a
    → strstr (codes " (Thread 0x" ++ (a ++ (codes " (LWP " ++ s))) (codes "(LWP ")
      ≡ some (codes "(LWP " ++ s)
unfolding strstr strn_eq
header_strstr a s h = strstr_hex a (codes " (LWP " ++ s) h

header_lwp :
    (a r : Bytes) (m : ℕ)
    → All (λ d. isxdigit d ≡ true) a
    → m < 2 ^ 31
    → IsBehind r
    → lwp_in (codes " (Thread 0x" ++ (a ++ (codes " (LWP " ++ (decimal m ++ r)))) ≡ pos m
unfolding lwp_in
header_lwp a r m h small b =
    rw (header_strstr a (decimal m ++ r) h, lwp_in)
      (rw (starts_digit-decimal m r (omega (arith, small)), strtol_decimal m r small b) refl)

-- With memory, the header is read as the thread that it describes.
pub header_parse :
    (x : Header)
    → IsHeader x
    → gdb_output_thread_info_parse (λ b. true) (header_text x)
      ≡ some (thread_of x.id x.process x.name)
unfolding gdb_output_thread_info_parse strn_eq or_empty starts_digit isdigit
header_parse x h =
    let end = codes ") \"" ++ (x.name ++ (b'"' ∷ x.tail)) in
    let rest =
      codes " (Thread 0x" ++ (x.address ++ (codes " (LWP " ++ (decimal x.process ++ end))) in
    rw
      (
        thread_start (decimal x.id ++ rest),
        starts_digit-decimal x.id rest (omega (arith, h.int)),
        strtol_decimal x.id rest h.int refl,
        header_lwp x.address end x.process h.hexadecimal h.process_int refl,
        header_name x h,
      )
      refl
