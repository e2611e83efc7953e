-- ===== src/Proc/Gdb/Pieces.antt =====
-- The pieces of a line of gdb, as the loops of src/bas/proc/format_gdb.c pass them.
use bas_c.Common.{
  ℕ, suc, ◌≡◌, refl, sym, ap, ◌∙◌, subst, ◌≢◌, true, false, some, [], ◌∷◌, ◌++◌, append_assoc,
  arith, Bytes, All,
}
use bas_c.Base.CString.{strn_eq}
use bas_c.Base.Decimal.{isdigit, starts_digit}
use bas_c.Proc.Timer.Interval.{skip_blanks, is_blank, IsBlanks}
use bas_c.Proc.Gdb.{isxdigit, hex, take_symbol, new_depth, parens, file_part}

pub skip_blanks_all : (b s : Bytes) → IsBlanks b → skip_blanks (b ++ s) ≡ skip_blanks s
unfolding skip_blanks
skip_blanks_all [] s h = refl
skip_blanks_all (c ∷ b) s h = rw h.0 (skip_blanks_all b s h.1)

pub skip_blanks_none : (c : ℕ) (s : Bytes) → is_blank c ≡ false → skip_blanks (c ∷ s) ≡ c ∷ s
unfolding skip_blanks
skip_blanks_none c s h = rw h refl

pub hex_all :
    (h : Bytes) (c : ℕ) (s : Bytes)
    → All (λ d. isxdigit d ≡ true) h
    → isxdigit c ≡ false
    → hex (h ++ c ∷ s) ≡ (h, c ∷ s)
unfolding hex
hex_all [] c s p q = rw q refl
hex_all (d ∷ h) c s p q = rw (p.0, hex_all h c s p.1 q) refl

-- No blank stands before `(` or `a`, or at the end.
abbrev pub IsCalm : Bytes → Type 0
IsCalm [] = Unit
IsCalm (c ∷ []) = c ≢ b' '
IsCalm (c ∷ d ∷ s) = (c ≡ b' ' → (d ≢ b'(') × (d ≢ b'a')) × IsCalm (d ∷ s)

pub take_symbol_all :
    (w r : Bytes) → IsCalm w → take_symbol (w ++ (b' ' ∷ b'(' ∷ r)) ≡ (w, b' ' ∷ b'(' ∷ r)
unfolding take_symbol strn_eq
take_symbol_all [] r h = refl
take_symbol_all (c ∷ []) r h = ground (arith, h)
take_symbol_all (c ∷ d ∷ s) r h = rw (take_symbol_all (d ∷ s) r h.1) (ground (arith, h.0))

-- A text whose parentheses match.
pub data Nested : Bytes → Type 0 where
  nothing : Nested []
  other : {c : ℕ} {s : Bytes} → c ≢ b'(' → c ≢ b')' → Nested s → Nested (c ∷ s)
  group : {a s : Bytes} → Nested a → Nested s → Nested (b'(' ∷ (a ++ (b')' ∷ s)))

abbrev prefixed : Bytes → Bytes × ℕ × Bytes → Bytes × ℕ × Bytes
prefixed a (w, e, r) = (a ++ w, e, r)

depth_same : (c d : ℕ) → c ≢ b'(' → c ≢ b')' → new_depth c d ≡ suc d
unfolding new_depth
depth_same c d x y = ground (arith, x, y)

pub parens-Nested :
    {a : Bytes} (d : ℕ) (r : Bytes)
    → Nested a
    → parens (suc d) (a ++ r) ≡ prefixed a (parens (suc d) r)
unfolding parens new_depth
parens-Nested d r nothing = refl
parens-Nested d r (other {c} {s} x y n) = rw (depth_same c d x y, parens-Nested d r n) refl
parens-Nested d r (group {a} {s} n m) =
    ap (λ p. prefixed (b'(' ∷ []) p)
      (subst (λ t. parens (suc (suc d)) t ≡ prefixed a (prefixed (b')' ∷ s) (parens (suc d) r)))
        (sym (append_assoc a (b')' ∷ s) r))
        (parens-Nested (suc d) (b')' ∷ (s ++ r)) n
          ∙ ap (λ p. prefixed a (prefixed (b')' ∷ []) p)) (parens-Nested d r m)))
    ∙ ap (λ t. (b'(' ∷ t, (parens (suc d) r).1, (parens (suc d) r).2))
        (sym (append_assoc a (b')' ∷ s) (parens (suc d) r).0))

pub file_part_all :
    (f : Bytes) (c : ℕ) (s : Bytes)
    → All (λ b. (b ≢ b':') × (b ≢ b'\n') × (b ≢ b'\r')) f
    → isdigit c ≡ true
    → file_part (f ++ (b':' ∷ c ∷ s)) ≡ some (f, c ∷ s)
unfolding file_part starts_digit
file_part_all [] c s h d = rw d refl
file_part_all (b ∷ f) c s h d = rw (file_part_all f c s h.1 d) (ground (arith, h.0))
