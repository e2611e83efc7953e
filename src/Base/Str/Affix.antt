-- ===== src/Base/Str/Affix.antt =====
-- What `startswith`, `endswith` and `chomp` of str.c return.
use bas_c.Common.{
  ℕ, zero, suc, ◌-◌, ◌≤◌, ◌≡◌, refl, sym, ap, ◌∙◌, ◌≢◌, ◌↔◌, true, some, [], ◌∷◌, ◌++◌,
  append_assoc, arith, Bytes, length, get_or, take, drop, length-append, take-append-drop,
  take-length-append, drop-length-append,
}
use bas_c.Base.CString.{strn_eq, str_eq→eq, str_eq_refl}
use bas_c.Base.Str.{startswith, endswith, chomp_byte, chomp}
use bas_c.Base.Str.Trim.{Ends}

strn_eq-append : (t r : Bytes) → strn_eq (t ++ r) t (length t) ≡ true
unfolding strn_eq
strn_eq-append [] r = refl
strn_eq-append (y ∷ t) r = ground (arith, strn_eq-append t r)

strn_eq→append : (s t : Bytes) → strn_eq s t (length t) ≡ true → s ≡ t ++ drop (length t) s
unfolding strn_eq
strn_eq→append s [] h = refl
strn_eq→append [] (y ∷ t) h = ground arith
strn_eq→append (x ∷ s) (y ∷ t) h = ground (arith, strn_eq→append s t)

-- `startswith` returns the text behind `t` exactly when the text begins with `t`.
pub startswith-eq-some : (s t r : Bytes) → (startswith s t ≡ some r) ↔ (s ≡ t ++ r)
unfolding startswith
startswith-eq-some s t r = (
  λ h. ground (arith, strn_eq→append s t),
  λ e. rw (e, strn_eq-append t r, drop-length-append t r),
)

drop_all : (a t : Bytes) → drop (length (a ++ t) - length t) (a ++ t) ≡ t
drop_all a t =
    let e : length (a ++ t) - length t ≡ length a = omega (arith, length-append a t) in
    rw (e, drop-length-append a t)

endswith→append : (s t r : Bytes) → endswith s t ≡ some r → (r ≡ t) × (length t ≤ length s)
unfolding endswith
endswith→append s t r h = ground (arith, str_eq→eq (drop (length s - length t) s) t)

endswith→drop : (s t r : Bytes) → endswith s t ≡ some r → r ≡ drop (length s - length t) s
unfolding endswith
endswith→drop s t r h = ground arith

endswith-append : (a t : Bytes) → endswith (a ++ t) t ≡ some t
unfolding endswith
endswith-append a t = rw (drop_all a t, str_eq_refl t) (ground (arith, length-append a t))

-- `endswith` returns the suffix `t` itself, exactly when the text ends with `t`.
pub endswith-eq-some :
    (s t r : Bytes) → (endswith s t ≡ some r) ↔ ((r ≡ t) × ((a : Bytes) × (s ≡ a ++ t)))
endswith-eq-some s t r = (
  λ h.
      let n = length s - length t in
      let e = (endswith→append s t r h).0 in
      (
        e,
        (
          take n s,
          sym (take-append-drop n s) ∙ ap (λ u. take n s ++ u) (sym (endswith→drop s t r h) ∙ e),
        ),
      ),
  λ (e, p). rw (p.1, e) (endswith-append p.0 t),
)

length_snoc : (s : Bytes) (c : ℕ) → length (s ++ c ∷ []) ≡ suc (length s)
length_snoc s c = omega (arith, length-append s (c ∷ []))

get_or_snoc : (s : Bytes) (c : ℕ) → get_or (s ++ c ∷ []) (length s) 0 ≡ c
get_or_snoc [] c = refl
get_or_snoc (d ∷ s) c = get_or_snoc s c

chomp_byte-append : (c : ℕ) (s : Bytes) → chomp_byte c (s ++ c ∷ []) ≡ s
unfolding chomp_byte
chomp_byte-append c s =
    let e : length (s ++ c ∷ []) - 1 ≡ length s = omega (arith, length_snoc s c) in
    rw (e, get_or_snoc s c, take-length-append s (c ∷ [])) (ground (arith, length_snoc s c))

Ends→last : (P : ℕ → Type 0) (n : ℕ) (s : Bytes) → length s ≡ suc n → Ends P s → P (get_or s n 0)
Ends→last P n [] h p = absurd (omega arith)
Ends→last P zero (c ∷ []) h p = p
Ends→last P zero (c ∷ d ∷ s) h p = absurd (omega arith)
Ends→last P (suc n) (c ∷ []) h p = absurd (omega arith)
Ends→last P (suc n) (c ∷ d ∷ s) h p = Ends→last P n (d ∷ s) (omega arith) p

chomp_byte_keep : (c : ℕ) (s : Bytes) → Ends (λ d. d ≢ c) s → chomp_byte c s ≡ s
unfolding chomp_byte
chomp_byte_keep c [] h = refl
chomp_byte_keep c (d ∷ s) h = ground (arith, Ends→last (λ d. d ≢ c) (length s) (d ∷ s) refl h)

-- Of a text that ends with neither CR nor LF, `chomp` gives back the text itself, whether CR LF,
-- LF, CR or nothing stands behind it.
pub chomp-append :
    (s : Bytes)
    → Ends (λ d. d ≢ b'\n') s
    → Ends (λ d. d ≢ b'\r') s
    → (chomp (s ++ b'\r' ∷ b'\n' ∷ []) ≡ s)
      × (chomp (s ++ b'\n' ∷ []) ≡ s)
      × (chomp (s ++ b'\r' ∷ []) ≡ s)
      × (chomp s ≡ s)
unfolding chomp
chomp-append s h k = (
  rw (← append_assoc s (b'\r' ∷ []) (b'\n' ∷ []), chomp_byte-append b'\n' (s ++ b'\r' ∷ []))
      (chomp_byte-append b'\r' s),
  rw (chomp_byte-append b'\n' s) (chomp_byte_keep b'\r' s k),
  rw (chomp_byte_keep b'\n' (s ++ b'\r' ∷ []) (Ends-append s)) (chomp_byte-append b'\r' s),
  rw (chomp_byte_keep b'\n' s h) (chomp_byte_keep b'\r' s k),
)
  where
    Ends-append : (t : Bytes) → Ends (λ d. d ≢ b'\n') (t ++ b'\r' ∷ [])
    Ends-append [] = omega arith
    Ends-append (c ∷ []) = omega arith
    Ends-append (c ∷ d ∷ t) = Ends-append (d ∷ t)
