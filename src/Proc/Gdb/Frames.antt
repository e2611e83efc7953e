-- ===== src/Proc/Gdb/Frames.antt =====
-- The lines of gdb that describe a frame are read as the frame (src/bas/proc/format_gdb.c).
use bas_c.Common.{
  ℕ, ◌+◌, ◌-◌, ◌*◌, ◌/◌, ◌%◌, ◌^◌, ◌≤◌, ◌<◌, min, ◌≡◌, refl, ap, ◌∙◌, subst, ◌≢◌, inl, inr, Bool,
  true, false, ◌&&◌, Option, none, some, [], ◌∷◌, ◌++◌, arith, Bytes, codes, ℤ, pos, ltb, ◌==◌,
  if◌then◌else◌, All, Bool-cases, if_elim, lt→ltb,
}
use bas_c.Base.CString.{strn_eq}
use bas_c.Base.Decimal.{
  isdigit, digits, starts_digit, strtol_int, decimal, decimal_cons, digits-decimal,
  digits-decimal_on, starts_digit-decimal, IsBehind,
}
use bas_c.Proc.Timer.Interval.{skip_blanks, is_blank, IsBlanks}
use bas_c.Proc.Gdb.{
  StackFrame, not_empty, frame_digits, after_number, isxdigit, take_address, skip_in, new_depth,
  parens, take_params, file_part, take_file, frame_fields, frame_at, gdb_output_stack_frame_parse,
}
use bas_c.Proc.Gdb.Pieces.{
  skip_blanks_all, skip_blanks_none, hex_all, IsCalm, take_symbol_all, Nested, parens-Nested,
  file_part_all,
}

-- Where a frame is: a line of a file, a library, or neither.
pub data Place : Type 0 where
  at : Bytes → ℕ → Place
  from : Bytes → Place
  nowhere : Place

abbrev pub place_text : Place → Bytes
place_text (at f l) = codes " at " ++ (f ++ (b':' ∷ (decimal l ++ codes "\n")))
place_text (from t) = codes " from " ++ (t ++ codes "\n")
place_text nowhere = codes "\n"

-- The line of a frame with an address, and with the blanks `gap` behind the number.
abbrev pub frame_text : ℕ → Bytes → Bytes → Bytes → Bytes → Place → Bytes
frame_text n gap h w p place =
    b'#'
    ∷ (decimal n
        ++ (gap
            ++ (codes "0x"
                ++ (h
                    ++ (codes " in "
                        ++ (w ++ (codes " (" ++ (p ++ (codes ")" ++ place_text place)))))))))

abbrev pub place_file : Place → Option Bytes
place_file (at f l) = some f
place_file (from t) = none
place_file nowhere = none

abbrev pub place_line : Place → ℤ
place_line (at f l) = pos l
place_line (from t) = pos 0
place_line nowhere = pos 0

abbrev pub IsPlace : Place → Type 0
IsPlace (at f l) = All (λ b. (b ≢ b':') × (b ≢ b'\n') × (b ≢ b'\r')) f × (f ≢ []) × (l < 2 ^ 31)
IsPlace (from t) = Unit
IsPlace nowhere = Unit

int_lem : (n : ℕ) → n < 2 ^ 31 → min n (2 ^ 63 - 1) % 2 ^ 32 ≡ n
int_lem n h = omega (arith, h)

pub strtol_decimal :
    (n : ℕ) (s : Bytes) → n < 2 ^ 31 → IsBehind s → strtol_int (decimal n ++ s) ≡ (pos n, s)
unfolding strtol_int
strtol_decimal n s h b =
    rw (digits-decimal n s (omega (arith, h)) b, int_lem n h, lt→ltb n (2 ^ 31) h) refl

file_cons :
    (f s : Bytes) (l : ℕ)
    → f ≢ []
    → file_part s ≡ some (f, decimal l ++ codes "\n")
    → l < 2 ^ 31
    → take_file (codes "at " ++ s) ≡ (some f, pos l)
unfolding take_file strn_eq starts_digit isdigit
file_cons [] s l h e b = absurd (h refl)
file_cons (c ∷ f) s l h e b = rw (e, strtol_decimal l (codes "\n") b refl) refl

file_line :
    (f : Bytes) (l : ℕ)
    → All (λ b. (b ≢ b':') × (b ≢ b'\n') × (b ≢ b'\r')) f
    → l < 2 ^ 31
    → file_part (f ++ (b':' ∷ (decimal l ++ codes "\n"))) ≡ some (f, decimal l ++ codes "\n")
file_line f l h b =
    let (c, d, e, i) = decimal_cons l (omega (arith, b)) in
    rw e (file_part_all f c (d ++ codes "\n") h i)

no_file : (s : Bytes) → strn_eq s (codes "at ") 3 ≡ false → take_file s ≡ (none, pos 0)
unfolding take_file
no_file s h = rw h refl

take_place :
    (p : Place) → IsPlace p → take_file (skip_blanks (place_text p)) ≡ (place_file p, place_line p)
unfolding skip_blanks is_blank strn_eq
take_place (at f l) (ok, full, b) =
    file_cons f (f ++ (b':' ∷ (decimal l ++ codes "\n"))) l full (file_line f l ok b) b
take_place (from t) h = no_file (codes "from " ++ (t ++ codes "\n")) refl
take_place nowhere h = no_file (codes "\n") refl

digits_grow : (n : ℕ) (s : Bytes) → n ≤ (digits n s).0
unfolding digits
digits_grow n [] = omega arith
digits_grow n (c ∷ s) =
    if_elim (λ (q : ℕ × Bytes). n ≤ q.0) (isdigit c) (digits (n * 10 + (c - 48)) s) (n, c ∷ s)
      (λ _. omega (arith, digits_grow (n * 10 + (c - 48)) s)) (λ _. omega arith)

-- A number that fits an int is read.
frame_digits-digits :
    (n : ℕ) (s : Bytes) → (digits n s).0 < 2 ^ 31 → frame_digits n s ≡ some (digits n s)
unfolding frame_digits digits
frame_digits-digits n [] h = refl
frame_digits-digits n (c ∷ s) h = elim (Bool-cases (isdigit c)) [
  | inl e ↦
      let m = n * 10 + (c - 48) in
      let fits : (digits m s).0 < 2 ^ 31 =
        subst (λ b. (if b then digits m s else (n, c ∷ s)).0 < 2 ^ 31) e h in
      let small : ltb m (2 ^ 31) ≡ true =
        lt→ltb m (2 ^ 31) (omega (arith, fits, digits_grow m s)) in
      rw (e, small) (frame_digits-digits m s fits)
  | inr e ↦ rw e refl
]

-- The number and the gap before `0x`.
abbrev numbered : ℕ → Bytes → Bytes → ℕ × Bytes
numbered n gap r = after_number (digits 0 (decimal n ++ (gap ++ (b'0' ∷ b'x' ∷ r))))

ten_times : (n : ℕ) → (n * 10 + 0) / 10 ≡ n
ten_times n = omega arith

number_close :
    (n : ℕ) (r : Bytes) → 0 < n → after_number (digits n (b'0' ∷ b'x' ∷ r)) ≡ (n, b'0' ∷ b'x' ∷ r)
unfolding digits isdigit after_number
number_close n r z = if_true _ _ _ test ∙ ap (λ m. (m, b'0' ∷ b'x' ∷ r)) (ten_times n)
  where
    if_true : {A : Type 0} (b : Bool) (x y : A) → b ≡ true → (if b then x else y) ≡ x
    if_true _ x y e = rw e refl

    test : (ltb 0 (n * 10 + 0) && true && (n * 10 + 0) % 10 == 0) ≡ true
    test = ground (arith, z)

number_far : (n g : ℕ) (s : Bytes) → is_blank g ≡ true → after_number (n, g ∷ s) ≡ (n, g ∷ s)
unfolding after_number is_blank
number_far n g s h = ground (arith, h)

blank-IsBehind : (g : ℕ) (s : Bytes) → is_blank g ≡ true → IsBehind (g ∷ s)
unfolding starts_digit isdigit is_blank
blank-IsBehind g s h = ground (arith, h)

zero_dark : is_blank b'0' ≡ false
unfolding is_blank
zero_dark = refl

number_gap :
    (n : ℕ) (gap r : Bytes)
    → n < 2 ^ 31
    → IsBlanks gap
    → (gap ≡ [] → (0 < n) × (n * 10 < 2 ^ 31))
    → ((numbered n gap r).0 ≡ n) × (skip_blanks (numbered n gap r).1 ≡ b'0' ∷ b'x' ∷ r)
number_gap n [] r h blank z =
    rw (digits-decimal_on n (b'0' ∷ b'x' ∷ r) (omega (arith, h)), number_close n r (z refl).0)
      (refl, skip_blanks_none b'0' (b'x' ∷ r) zero_dark)
number_gap n (g ∷ gap) r h blank z =
    rw
      (
        digits-decimal n (g ∷ (gap ++ (b'0' ∷ b'x' ∷ r))) (omega (arith, h))
            (blank-IsBehind g (gap ++ (b'0' ∷ b'x' ∷ r)) blank.0),
        number_far n g (gap ++ (b'0' ∷ b'x' ∷ r)) blank.0,
      )
      (
        refl,
        skip_blanks_all (g ∷ gap) (b'0' ∷ b'x' ∷ r) blank
            ∙ skip_blanks_none b'0' (b'x' ∷ r) zero_dark,
      )

digits_close : (n : ℕ) (r : Bytes) → (digits n (b'0' ∷ b'x' ∷ r)).0 ≡ n * 10
unfolding digits isdigit
digits_close n r = omega arith

number_int :
    (n : ℕ) (gap r : Bytes)
    → n < 2 ^ 31
    → IsBlanks gap
    → (gap ≡ [] → (0 < n) × (n * 10 < 2 ^ 31))
    → (digits 0 (decimal n ++ (gap ++ (b'0' ∷ b'x' ∷ r)))).0 < 2 ^ 31
number_int n [] r h blank z =
    rw (digits-decimal_on n (b'0' ∷ b'x' ∷ r) (omega (arith, h)))
      (omega (arith, digits_close n r, (z refl).1))
number_int n (g ∷ gap) r h blank z =
    rw
      (digits-decimal n (g ∷ (gap ++ (b'0' ∷ b'x' ∷ r))) (omega (arith, h))
        (blank-IsBehind g (gap ++ (b'0' ∷ b'x' ∷ r)) blank.0))
      h

parens_done : (r : Bytes) → parens 0 r ≡ ([], 0, r)
unfolding parens
parens_done [] = refl
parens_done (c ∷ r) = refl

params_lem :
    (p r : Bytes)
    → Nested p
    → take_params (b'(' ∷ (p ++ (b')' ∷ r))) ≡ (some (b'(' ∷ (p ++ codes ")")), r)
unfolding take_params parens new_depth
params_lem p r h = rw (parens-Nested 0 (b')' ∷ r) h, parens_done r) refl

-- The parts of the line of a frame.
pub record Parts : Type 0 where
  pub number : ℕ
  pub gap : Bytes
  pub digits_of : Bytes
  pub name : Bytes
  pub args : Bytes
  pub place : Place

abbrev pub parts_text : Parts → Bytes
parts_text x = frame_text x.number x.gap x.digits_of x.name x.args x.place

pub record IsFrame (x : Parts) : Type 0 where
  pub int : x.number < 2 ^ 31
  pub blank : IsBlanks x.gap
  pub apart : x.gap ≡ [] → (0 < x.number) × (x.number * 10 < 2 ^ 31)
  pub digit : All (λ d. isxdigit d ≡ true) x.digits_of
  pub named : x.name ≢ []
  pub calm : IsCalm x.name
  pub nested : Nested x.args
  pub placed : IsPlace x.place

abbrev pub frame_of : Parts → StackFrame
frame_of x = record {
  frame_number = x.number;
  address = some (codes "0x" ++ x.digits_of);
  method = some x.name;
  params = some (b'(' ∷ (x.args ++ codes ")"));
  file = place_file x.place;
  line = place_line x.place;
  raw_line = parts_text x;
}

some_name : (w : Bytes) → w ≢ [] → not_empty w ≡ some w
unfolding not_empty
some_name [] h = absurd (h refl)
some_name (c ∷ w) h = refl

address_lem :
    (h r : Bytes)
    → All (λ d. isxdigit d ≡ true) h
    → take_address (b'0' ∷ b'x' ∷ (h ++ (b' ' ∷ r))) ≡ (some (b'0' ∷ b'x' ∷ h), b' ' ∷ r)
unfolding take_address isxdigit isdigit
address_lem h r d = rw (hex_all h b' ' r d refl) refl

in_lem : (r : Bytes) → skip_in (skip_blanks (codes " in " ++ r)) ≡ r
unfolding skip_in skip_blanks is_blank strn_eq
in_lem r = refl

open_lem : (r : Bytes) → skip_blanks (codes " (" ++ r) ≡ b'(' ∷ r
unfolding skip_blanks is_blank
open_lem r = refl

-- The text behind the number and the gap.
abbrev behind_gap : Parts → Bytes
behind_gap x =
    x.digits_of
    ++ (codes " in " ++ (x.name ++ (codes " (" ++ (x.args ++ (codes ")" ++ place_text x.place)))))

fields_lem :
    (line : Bytes) (x : Parts)
    → IsFrame x
    → frame_fields
        (λ b. true)
        line
        (digits 0 (decimal x.number ++ (x.gap ++ (b'0' ∷ b'x' ∷ behind_gap x))))
      ≡ record (frame_of x) { raw_line = line }
unfolding frame_fields
fields_lem line x f =
    let (n, g) = number_gap x.number x.gap (behind_gap x) f.int f.blank f.apart in
    rw
      (
        n,
        g,
        address_lem x.digits_of
            (codes "in "
              ++ (x.name ++ (codes " (" ++ (x.args ++ (codes ")" ++ place_text x.place)))))
            f.digit,
        in_lem (x.name ++ (codes " (" ++ (x.args ++ (codes ")" ++ place_text x.place)))),
        take_symbol_all x.name (x.args ++ (codes ")" ++ place_text x.place)) f.calm,
        open_lem (x.args ++ (codes ")" ++ place_text x.place)),
        params_lem x.args (place_text x.place) f.nested,
        take_place x.place f.placed,
        some_name x.name f.named,
      )
      refl

hash_dark : is_blank b'#' ≡ false
unfolding is_blank
hash_dark = refl

-- With memory, the line of a frame is read as the frame: a number below 2 ^ 31 and blanks, or a
-- number that is not 0 and is at most 214748364 with nothing behind it, an address, a name that is
-- not empty and in which no blank stands before `(` or `a` or at the end, arguments in parentheses
-- that match, and a file that is not empty and has neither a colon nor a line end, with a line
-- number below 2 ^ 31, or a library, or neither.
pub stack_frame_parse-forms :
    (x : Parts)
    → IsFrame x
    → gdb_output_stack_frame_parse (λ b. true) (parts_text x) ≡ some (frame_of x)
unfolding gdb_output_stack_frame_parse frame_at
stack_frame_parse-forms x f =
    rw
      (
        skip_blanks_none b'#' (decimal x.number ++ (x.gap ++ (b'0' ∷ b'x' ∷ behind_gap x)))
            hash_dark,
        starts_digit-decimal x.number (x.gap ++ (b'0' ∷ b'x' ∷ behind_gap x))
            (omega (arith, f.int)),
        frame_digits-digits 0 (decimal x.number ++ (x.gap ++ (b'0' ∷ b'x' ∷ behind_gap x)))
            (number_int x.number x.gap (behind_gap x) f.int f.blank f.apart),
        fields_lem (parts_text x) x f,
      )
      refl
