-- ===== src/Cli/CliParser/Redirect/Parts.antt =====
-- The parts that `cli_parser_parse_redirections` finds in a command.
use bas_c.Common.{
  ℕ, ◌+◌, ◌≤◌, ◌<◌, ◌≡◌, refl, ◌≢◌, inl, inr, Bool, true, false, Option, none, some, List, [], ◌∷◌,
  ◌++◌, append-nil, arith, Bytes, ◌==◌, if◌then◌else◌, All, Bool-cases,
}
use bas_c.Base.Str.{rtrim}
use bas_c.Cli.CliParser.Redirect.{
  behind, strstr, strrchr, strstr_any, trim_whitespace, last_gt, take_output, take_part, spaced,
  parse_redirections,
}

-- How often the byte is in the text.
abbrev pub count : ℕ → Bytes → ℕ
count d [] = 0
count d (c ∷ s) = (if c == d then 1 else 0) + count d s

count-append : (d : ℕ) (a b : Bytes) → count d (a ++ b) ≡ count d a + count d b
count-append d [] b = omega arith
count-append d (c ∷ a) b = omega (arith, count-append d a b)

behind_few : (d : ℕ) (needle s : Bytes) → count d s < count d needle → behind needle s ≡ none
unfolding behind
behind_few d [] s lt = absurd (omega arith)
behind_few d (n ∷ needle) [] lt = refl
behind_few d (n ∷ needle) (c ∷ s) lt = elim (Bool-cases (c == n)) [
  | inl e ↦ rw e (behind_few d needle s (ground (arith, e, lt)))
  | inr e ↦ rw e refl
]

-- A text with fewer of a byte than the needle does not hold the needle.
strstr_few : (d : ℕ) (needle s : Bytes) → count d s < count d needle → strstr needle s ≡ none
unfolding strstr
strstr_few d needle [] lt = rw (behind_few d needle [] lt, strstr) refl
strstr_few d needle (c ∷ s) lt =
    rw (behind_few d needle (c ∷ s) lt, strstr_few d needle s (omega (arith, lt)), strstr) refl

strrchr_few : (d : ℕ) (s : Bytes) → count d s ≡ 0 → strrchr d s ≡ none
unfolding strrchr
strrchr_few d [] h = refl
strrchr_few d (c ∷ s) h = rw (strrchr_few d s (omega (arith, h))) (ground (arith, h))

behind-append : (a b : Bytes) → behind a (a ++ b) ≡ some b
unfolding behind
behind-append [] b = refl
behind-append (c ∷ a) b = ground (arith, behind-append a b)

-- An operator with white space on both sides, in a text that does not hold its first byte before it.
strstr-operator :
    (d : ℕ) (more a b : Bytes)
    → d ≢ b' '
    → count d a ≡ 0
    → strstr (b' ' ∷ d ∷ more) (a ++ b' ' ∷ d ∷ (more ++ b)) ≡ some (a, b)
unfolding strstr
strstr-operator d more [] b ne h = rw (behind-append (b' ' ∷ d ∷ more) b, strstr) refl
strstr-operator d more (c ∷ []) b ne h =
    let early : behind (b' ' ∷ d ∷ more) (c ∷ b' ' ∷ d ∷ (more ++ b)) ≡ none =
      unfold behind in ground (arith, ne) in
    rw (early, strstr-operator d more [] b ne refl, strstr) refl
strstr-operator d more (c ∷ e ∷ a) b ne h =
    let early : behind (b' ' ∷ d ∷ more) (c ∷ e ∷ (a ++ b' ' ∷ d ∷ (more ++ b))) ≡ none =
      unfold behind in ground (arith, h) in
    rw (early, strstr-operator d more (e ∷ a) b ne (omega (arith, h)), strstr) refl

-- An operator between spaces, and what follows it; nothing where there is none.
abbrev pub part : Bytes → Option Bytes → Bytes
part op none = []
part op (some x) = b' ' ∷ (op ++ b' ' ∷ x)

abbrev pub trimmed : Option Bytes → Option Bytes
trimmed none = none
trimmed (some x) = some (trim_whitespace x)

strstr_any-operator :
    (d : ℕ) (more a b : Bytes) (needles : List Bytes)
    → d ≢ b' '
    → count d a ≡ 0
    → strstr_any ((b' ' ∷ d ∷ more) ∷ needles) (a ++ b' ' ∷ d ∷ (more ++ b)) ≡ some (a, b)
unfolding strstr_any
strstr_any-operator d more a b needles ne h = rw (strstr-operator d more a b ne h, strstr_any) refl

strstr_any_few :
    (d k : ℕ) (needles : List Bytes) (s : Bytes)
    → count d s < k
    → All (λ needle. k ≤ count d needle) needles
    → strstr_any needles s ≡ none
unfolding strstr_any
strstr_any_few d k [] s lt h = refl
strstr_any_few d k (needle ∷ needles) s lt (h, hs) =
    rw (strstr_few d needle s (omega (arith, lt, h)), strstr_any)
      (strstr_any_few d k needles s lt hs)

take_part-none : (d : ℕ) (s : Bytes) → count d s ≡ 0 → take_part d s ≡ (s, none)
unfolding take_part
take_part-none d s h =
    rw
      (
        strstr_any_few d 1 (spaced (d ∷ [])) s (omega (arith, h))
            (ground arith, (ground arith, (ground arith, tt))),
        strrchr_few d s h,
        take_part,
      )
      refl

take_part-part :
    (d : ℕ) (a : Bytes) (x : Option Bytes)
    → d ≢ b' '
    → count d a ≡ 0
    → take_part d (a ++ part (d ∷ []) x) ≡ (a, trimmed x)
take_part-part d a (some x) ne h =
    unfold take_part in
    rw
      (
        strstr_any-operator d (b' ' ∷ []) a x ((d ∷ b' ' ∷ []) ∷ (b' ' ∷ d ∷ []) ∷ []) ne h,
        take_part,
      )
      refl
take_part-part d a none ne h = rw (append-nil a) (take_part-none d a h)

-- The output of a command: appended to or written, and the file.
abbrev pub written : Option (Bool × Bytes) → Bytes
written none = []
written (some o) = part (if o.0 then b'>' ∷ b'>' ∷ [] else b'>' ∷ []) (some o.1)

abbrev pub output_of : Option (Bool × Bytes) → Option Bytes
output_of none = none
output_of (some o) = some (trim_whitespace o.1)

abbrev pub appends : Option (Bool × Bytes) → Bool
appends none = false
appends (some o) = o.0

abbrev pub out_file : Option (Bool × Bytes) → Bytes
out_file none = []
out_file (some o) = o.1

-- With fewer than two `>` none of the four searches for `>>` finds one.
no_append :
    (s : Bytes)
    → count b'>' s < 2
    → strstr_any
        ((b' ' ∷ b'>' ∷ b'>' ∷ b' ' ∷ [])
          ∷ (b'>' ∷ b'>' ∷ b' ' ∷ [])
          ∷ (b' ' ∷ b'>' ∷ b'>' ∷ [])
          ∷ (b'>' ∷ b'>' ∷ [])
          ∷ [])
        s
      ≡ none
no_append s lt =
    strstr_any_few b'>' 2 _ s lt (omega arith, (omega arith, (omega arith, (omega arith, tt))))

take_output-none : (s : Bytes) → count b'>' s ≡ 0 → take_output s ≡ (s, none, false)
unfolding take_output
take_output-none s h =
    let no_write : strstr_any (spaced (b'>' ∷ [])) s ≡ none =
      strstr_any_few b'>' 1 (spaced (b'>' ∷ [])) s (omega (arith, h))
        (omega arith, (omega arith, (omega arith, tt))) in
    let no_last : last_gt s ≡ none = unfold last_gt in rw (strrchr_few b'>' s h, last_gt) refl in
    rw (no_append s (omega (arith, h)), no_write, no_last, take_output) refl

take_output-written :
    (a : Bytes) (out : Option (Bool × Bytes))
    → count b'>' a ≡ 0
    → count b'>' (out_file out) ≡ 0
    → take_output (a ++ written out) ≡ (a, output_of out, appends out)
unfolding take_output
take_output-written a none h h' = rw (append-nil a) (take_output-none a h)
take_output-written a (some (true, x)) h h' =
    rw
      (
        (strstr_any-operator b'>' (b'>' ∷ b' ' ∷ []) a x
            ((b'>' ∷ b'>' ∷ b' ' ∷ []) ∷ (b' ' ∷ b'>' ∷ b'>' ∷ []) ∷ (b'>' ∷ b'>' ∷ []) ∷ [])
            (omega arith) h),
        take_output,
      )
      refl
take_output-written a (some (false, x)) h h' =
    rw
      (
        no_append (a ++ b' ' ∷ b'>' ∷ b' ' ∷ x)
            (omega (arith, h, h', count-append b'>' a (b' ' ∷ b'>' ∷ b' ' ∷ x))),
        take_output,
      )
      (rw
        (strstr_any-operator b'>' (b' ' ∷ []) a x ((b'>' ∷ b' ' ∷ []) ∷ (b' ' ∷ b'>' ∷ []) ∷ [])
          (omega arith) h)
        refl)

-- No operator is in the text.
abbrev pub IsPlain : Bytes → Type 0
IsPlain s = (count b'>' s ≡ 0) × (count b'<' s ≡ 0) × (count b'|' s ≡ 0)

abbrev pub text_of : Option Bytes → Bytes
text_of none = []
text_of (some x) = x

count-part :
    (d o : ℕ) (a : Bytes) (x : Option Bytes)
    → d ≢ b' '
    → d ≢ o
    → count d a ≡ 0
    → count d (text_of x) ≡ 0
    → count d (a ++ part (o ∷ []) x) ≡ 0
count-part d o a none sp ne h h' = rw (append-nil a) h
count-part d o a (some x) sp ne h h' = ground (arith, count-append d a (b' ' ∷ o ∷ b' ' ∷ x))

-- A command with a pipe, an input and an output in this order, each between spaces or missing, is
-- split into the command and the three texts, without the white space around them; none of the four
-- holds an operator.
pub parse_redirections-parts :
    (cmd : Bytes) (pipe inp : Option Bytes) (out : Option (Bool × Bytes))
    → IsPlain cmd
    → IsPlain (text_of pipe)
    → IsPlain (text_of inp)
    → IsPlain (out_file out)
    → parse_redirections (((cmd ++ part (b'|' ∷ []) pipe) ++ part (b'<' ∷ []) inp) ++ written out)
      ≡ (
        rtrim cmd,
        record {
          output_file = output_of out;
          input_file = trimmed inp;
          pipe_command = trimmed pipe;
          append_mode = appends out;
        },
      )
unfolding parse_redirections
parse_redirections-parts cmd pipe inp out (g, l, p) (g', l', p') (g'', l'', p'') (g3, l3, p3) =
    let before_in = cmd ++ part (b'|' ∷ []) pipe in
    let before_out = before_in ++ part (b'<' ∷ []) inp in
    let no_gt : count b'>' before_in ≡ 0 =
      count-part b'>' b'|' cmd pipe (omega arith) (omega arith) g g' in
    let no_lt : count b'<' before_in ≡ 0 =
      count-part b'<' b'|' cmd pipe (omega arith) (omega arith) l l' in
    let no_out : count b'>' before_out ≡ 0 =
      count-part b'>' b'<' before_in inp (omega arith) (omega arith) no_gt g'' in
    rw
      (
        take_output-written before_out out no_out g3,
        take_part-part b'<' before_in inp (omega arith) no_lt,
        take_part-part b'|' cmd pipe (omega arith) p,
      )
      refl

-- A pipe behind an output, both between spaces in texts without operators, is not seen: it is a part
-- of the file's name.
pub parse_redirections-pipe_behind :
    (cmd file next : Bytes)
    → IsPlain cmd
    → IsPlain file
    → IsPlain next
    → parse_redirections (cmd ++ written (some (false, file ++ part (b'|' ∷ []) (some next)))) ≡ (
      rtrim cmd,
      record {
        output_file = some (trim_whitespace (file ++ part (b'|' ∷ []) (some next)));
        input_file = none;
        pipe_command = none;
        append_mode = false;
      },
    )
unfolding parse_redirections
parse_redirections-pipe_behind cmd file next (g, l, p) (g', l', p') (g'', l'', p'') =
    let whole = file ++ part (b'|' ∷ []) (some next) in
    let no_gt : count b'>' whole ≡ 0 =
      count-part b'>' b'|' file (some next) (omega arith) (omega arith) g' g'' in
    rw
      (
        take_output-written cmd (some (false, whole)) g no_gt,
        take_part-none b'<' cmd l,
        take_part-none b'|' cmd p,
      )
      refl
