-- ===== src/Cli/Args/Parse/Words.antt =====
-- The first pass of `args_parse` reads back the arguments that a line was made of.
use bas_c.Common.{
  ℕ, zero, suc, ◌+◌, ◌*◌, ◌%◌, ◌^◌, ◌<◌, ◌≡◌, refl, sym, ap, ◌∙◌, inl, inr, some, List, [], ◌∷◌,
  ◌++◌, append-nil, arith, Bytes, leb, length, All, Bool-cases, length-append,
}
use bas_c.Base.Str.Trim.{IsSpace}
use bas_c.Base.Tokens.Loop.{Item, spell, toks, Spaced, Opens-spell}
use bas_c.Cli.Alloc.{ok, alloc}
use bas_c.Cli.Args.Word.{skip_whitespace, Word, parse_arg}
use bas_c.Cli.Args.Word.Spelled.{Spells, StartsWord, skip-append, skip-StartsWord, parse_arg-Spells}
use bas_c.Cli.Args.Parse.{room, parse_raw}

-- An argument as it is written, and what it stands for.
abbrev pub IsArg : Item → Type 0
IsArg i = StartsWord i.raw × Spells 0 i.raw 0 i.tok

skip_blank : (g : Bytes) → All IsSpace g → skip_whitespace g ≡ []
unfolding skip_whitespace
skip_blank [] h = refl
skip_blank (c ∷ g) (h, hs) = rw h (skip_blank g hs)

room_total : (count capacity : ℕ) → (c : ℕ) × (room count capacity [] ≡ ok (c, []))
unfolding room alloc
room_total count capacity = elim (Bool-cases (leb capacity count)) [
  | inl e ↦ (capacity * 2 % 2 ^ 64, rw e)
  | inr e ↦ (capacity, rw e)
]

StartsWord-cons : (s : Bytes) → StartsWord s → (c : ℕ) × (r : Bytes) × (s ≡ c ∷ r)
StartsWord-cons [] h = absurd h
StartsWord-cons (c ∷ s) h = (c, s, refl)

-- One round of the loop, at text that is not blank.
parse_raw-suc :
    (fuel count capacity c : ℕ) (p s : Bytes) (w : Word) (arg : Bytes) (args : List Bytes)
    → skip_whitespace p ≡ c ∷ s
    → parse_arg (c ∷ s) [] ≡ ok (w, [])
    → w.text ≡ some arg
    → ((larger : ℕ) → parse_raw fuel w.rest (count + 1) larger [] ≡ ok (args, []))
    → parse_raw (suc fuel) p count capacity [] ≡ ok (arg ∷ args, [])
unfolding parse_raw
parse_raw-suc fuel count capacity c p s w arg args skip run text later =
    let (larger, e) = room_total count capacity in
    rw (skip, parse_raw) (rw run (rw (text) (rw e (rw (later larger) refl))))

-- With fuel for the length of the text, the first pass returns the arguments that it was made of.
pub parse_raw-spell :
    (fuel : ℕ) (g : Bytes) (is : List Item) (count capacity : ℕ)
    → All IsSpace g
    → Spaced IsArg is
    → length (g ++ spell is) < fuel
    → parse_raw fuel (g ++ spell is) count capacity [] ≡ ok (toks is, [])
parse_raw-spell zero g is count capacity hg h lt = absurd (omega arith)
parse_raw-spell (suc fuel) g [] count capacity hg h lt =
    unfold parse_raw in rw (append-nil g, skip_blank g hg, parse_raw) refl
parse_raw-spell (suc fuel) g (i ∷ is) count capacity hg ((starts, d), some_raw, gap, between, h)
      lt =
    let tail = i.gap ++ spell is in
    let (c, s, e) = StartsWord-cons i.raw starts in
    let (block, run) =
      parse_arg-Spells [] i.raw i.tok tail tt starts d (Opens-spell i.gap is gap between) in
    parse_raw-suc fuel count capacity c (g ++ (i.raw ++ tail)) (s ++ tail) _ i.tok (toks is)
      (skip-append g (i.raw ++ tail) hg
        ∙ (skip-StartsWord i.raw tail starts ∙ ap (λ t. t ++ tail) e))
      (ap (λ t. parse_arg (t ++ tail) []) (sym e) ∙ run) refl
      (λ larger.
        parse_raw-spell fuel i.gap is (count + 1) larger gap h
          (omega (arith, length-append g (i.raw ++ tail), length-append i.raw tail)))
