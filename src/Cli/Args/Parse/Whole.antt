-- ===== src/Cli/Args/Parse/Whole.antt =====
-- `args_parse` as a whole: what it makes of a line of arguments with braces and patterns.
use bas_c.Common.{
  suc, ◌*◌, ◌%◌, ◌^◌, ◌<◌, ◌≡◌, refl, sym, ap, ◌∙◌, ◌≢◌, inl, inr, Bool, true, false, Option, none,
  some, List, [], ◌∷◌, ◌++◌, append_assoc, append-nil, arith, Bytes, leb, if◌then◌else◌, length,
  All, Bool-cases, map,
}
use bas_c.Base.Str.Trim.{IsSpace}
use bas_c.Base.StringList.Join.{joined_by}
use bas_c.Base.Tokens.Loop.{Item, spell, toks, Spaced}
use bas_c.Base.Getline.{Answers}
use bas_c.Cli.Alloc.{Result, ok, bind, M, ask, alloc}
use bas_c.Cli.Args.Brace.{contains_brace}
use bas_c.Cli.Args.Brace.Items.{
  IsItem, comma, around, split_at-append, split_at-none, expand_brace-items,
}
use bas_c.Cli.Args.Wildcard.{Enum, contains_wildcard, expand_wildcard}
use bas_c.Cli.Args.Wildcard.Matches.{listing_of, matches_of, expand_wildcard-matching}
use bas_c.Cli.Args.Parse.{
  Args, push, push_matches, finish_args, add_wild, add_expansions, add_arg, add_all, args_parse,
}
use bas_c.Cli.Args.Parse.Words.{IsArg, parse_raw-spell}

-- The call leaves these arguments in the array.
abbrev Adds : Result (Args × Answers) → List Bytes → Type 0
Adds r xs = (a : Args) × (r ≡ ok (a, [])) × (a.args ≡ xs)

push_total : (shared : Bool) (a : Args) (x : Bytes) → Adds (push shared a x []) (a.args ++ x ∷ [])
unfolding push ask
push_total shared a x =
    let added = a.args ++ x ∷ [] in
    elim (Bool-cases (leb a.capacity (length a.args))) [
      | inl e ↦ (record { args = added; capacity = a.capacity * 2 % 2 ^ 64 }, rw e refl, refl)
      | inr e ↦ (record a { args = added }, rw e refl, refl)
    ]

push_matches_total :
    (shared : Bool) (a : Args) (ms : List Bytes) → Adds (push_matches shared a ms []) (a.args ++ ms)
unfolding push_matches
push_matches_total shared a [] = (a, refl, sym (append-nil a.args))
push_matches_total shared a (m ∷ ms) =
    let (a1, run, e1) = push_total shared a m in
    let (a2, later, e2) = push_matches_total true a1 ms in
    (a2, rw run later, e2 ∙ (ap (λ t. t ++ ms) e1 ∙ append_assoc a.args (m ∷ []) ms))

finish_args_total : (a : Args) → finish_args a [] ≡ ok (a.args, [])
unfolding finish_args alloc
finish_args_total a = elim (Bool-cases (leb a.capacity (length a.args))) [
  | inl e ↦ rw e refl
  | inr e ↦ rw e refl
]

-- An argument as it is meant: a text without braces, or one with a list of items in braces.
pub data Form : Type 0 where
  plain : Bytes → Form
  braced : Bytes → Bytes → List Bytes → Bytes → Form

-- The text of an argument, with its quotes taken away.
abbrev pub written : Form → Bytes
written (plain text) = text
written (braced prefix x xs suffix) = prefix ++ b'{' ∷ (joined_by comma (x ∷ xs) ++ b'}' ∷ suffix)

abbrev pub denoted : Form → List Bytes
denoted (plain text) = text ∷ []
denoted (braced prefix x xs suffix) = map (around prefix suffix) (x ∷ xs)

abbrev pub IsForm : Form → Type 0
IsForm (plain text) = All (λ c. c ≢ b'{') text
IsForm (braced prefix x xs suffix) = All (λ c. c ≢ b'{') prefix × IsItem x × All IsItem xs

-- The strings of a list of lists.
abbrev pub each {ℓ} : {A : Type ℓ} → (A → List Bytes) → List A → List Bytes
each f [] = []
each f (x ∷ xs) = f x ++ each f xs

each-append :
    (f : Bytes → List Bytes) (xs ys : List Bytes) → each f xs ++ each f ys ≡ each f (xs ++ ys)
each-append f [] ys = refl
each-append f (x ∷ xs) ys = append_assoc (f x) _ _ ∙ ap (λ t. f x ++ t) (each-append f xs ys)

contains_brace_plain : (s : Bytes) → All (λ c. c ≢ b'{') s → contains_brace s ≡ false
unfolding contains_brace
contains_brace_plain s h = rw (split_at-none b'{' s h, contains_brace) refl

pub contains_brace_braced :
    (p s : Bytes) → All (λ c. c ≢ b'{') p → contains_brace (p ++ b'{' ∷ s) ≡ true
unfolding contains_brace
contains_brace_braced p s h = rw (split_at-append b'{' p s h, contains_brace) refl

module _ (fnmatch : Bytes → Bytes → Bool) (enum : Option Enum) (current : Option Bytes) where
  -- The matches of a pattern; itself where it has none, and where they cannot be listed.
  abbrev pub or_itself : Bytes → Option (List Bytes) → List Bytes
  or_itself text (some (m ∷ ms)) = m ∷ ms
  or_itself text (some []) = text ∷ []
  or_itself text none = text ∷ []

  abbrev pub listed : Bytes → Option Enum → Option (List Bytes)
  listed text none = some []
  listed text (some e) = matches_of fnmatch current e text

  abbrev pub wild_of : Bytes → List Bytes
  wild_of text = if contains_wildcard text then or_itself text (listed text enum) else text ∷ []

  -- Every listing has fewer than 2 ^ 59 items.
  abbrev pub Short : Option Enum → Type 0
  Short none = Unit
  Short (some e) = (text : Bytes) → length (listing_of current e text).items < 2 ^ 59

  listed_total :
      (found : Option Enum) (text : Bytes)
      → Short found
      → expand_wildcard fnmatch current found text [] ≡ ok (listed text found, [])
  unfolding expand_wildcard
  listed_total none text short = refl
  listed_total (some e) text short = expand_wildcard-matching fnmatch current e text (short text)

  add_wild_found :
      (shared : Bool) (a : Args) (text : Bytes) (found : Option (List Bytes))
      → contains_wildcard text ≡ true
      → expand_wildcard fnmatch current enum text [] ≡ ok (found, [])
      → Adds (add_wild fnmatch enum current shared a text []) (a.args ++ or_itself text found)
  unfolding add_wild
  add_wild_found shared a text none w run =
      let (a', e, h) = push_total shared a text in (a', rw w (rw run e), h)
  add_wild_found shared a text (some []) w run =
      let (a', e, h) = push_total shared a text in (a', rw w (rw run e), h)
  add_wild_found shared a text (some (m ∷ ms)) w run =
      let (a', e, h) = push_matches_total shared a (m ∷ ms) in (a', rw w (rw run e), h)

  add_wild_total :
      (shared : Bool) (a : Args) (text : Bytes)
      → Short enum
      → Adds (add_wild fnmatch enum current shared a text []) (a.args ++ wild_of text)
  unfolding add_wild
  add_wild_total shared a text short = elim (Bool-cases (contains_wildcard text)) [
    | inl w ↦
        let (a', e, h) =
          add_wild_found shared a text (listed text enum) w (listed_total enum text short) in
        (a', e, h ∙ rw w refl)
    | inr w ↦ let (a', e, h) = push_total shared a text in (a', rw w e, h ∙ rw w refl)
  ]

  -- One call behind another.
  Adds-bind :
      (r : Result (Args × Answers)) (f : Args → M Args) (xs ys : List Bytes)
      → Adds r xs
      → ((a : Args) → a.args ≡ xs → Adds (f a []) ys)
      → Adds (bind r (λ (a, later). f a later)) ys
  Adds-bind r f xs ys (a, e, h) k = let (a', e', h') = k a h in (a', rw e e', h')

  add_expansions_total :
      (shared : Bool) (a : Args) (es : List Bytes)
      → Short enum
      → Adds (add_expansions fnmatch enum current shared a es []) (a.args ++ each wild_of es)
  unfolding add_expansions
  add_expansions_total shared a [] short = (a, refl, sym (append-nil a.args))
  add_expansions_total shared a (e ∷ es) short =
      Adds-bind (add_wild fnmatch enum current shared a e [])
        (λ a'. add_expansions fnmatch enum current true a' es) (a.args ++ wild_of e) _
        (add_wild_total shared a e short)
        (λ a' h.
          let (a2, run, h2) = add_expansions_total true a' es short in
          (a2, run, h2 ∙ (ap (λ t. t ++ each wild_of es) h ∙ append_assoc a.args (wild_of e) _)))

  add_arg_total :
      (a : Args) (form : Form)
      → Short enum
      → IsForm form
      → Adds
          (add_arg fnmatch enum current a (written form) [])
          (a.args ++ each wild_of (denoted form))
  unfolding add_arg
  add_arg_total a (plain text) short h =
      let (a', run, h') = add_wild_total false a text short in
      (a', rw (contains_brace_plain text h) run, h' ∙ ap (λ t. a.args ++ t) (sym (append-nil _)))
  add_arg_total a (braced prefix x xs suffix) short (hp, hx, hxs) =
      let (a', run, h') =
        add_expansions_total false a (map (around prefix suffix) (x ∷ xs)) short in
      (
        a',
        rw (contains_brace_braced prefix _ hp)
            (rw (expand_brace-items prefix suffix x xs hp hx hxs) run),
        h',
      )

  add_all_total :
      (a : Args) (forms : List Form)
      → Short enum
      → All IsForm forms
      → Adds
          (add_all fnmatch enum current a (map written forms) [])
          (a.args ++ each wild_of (each denoted forms))
  unfolding add_all
  add_all_total a [] short h = (a, refl, sym (append-nil a.args))
  add_all_total a (form ∷ forms) short (h, hs) =
      Adds-bind (add_arg fnmatch enum current a (written form) [])
        (λ a'. add_all fnmatch enum current a' (map written forms)) _ _
        (add_arg_total a form short h)
        (λ a' e.
          let (a2, run, h2) = add_all_total a' forms short hs in
          (
            a2,
            run,
            h2
                ∙ (ap (λ t. t ++ each wild_of (each denoted forms)) e
                    ∙ (append_assoc a.args _ _
                        ∙ ap (λ t. a.args ++ t)
                            (each-append wild_of (denoted form) (each denoted forms)))),
          ))

  -- With memory and listings of fewer than 2 ^ 59 items, a line of arguments with white space between,
  -- each spelled with its quotes closed for a text without `{` or for one with a list of plain items
  -- in its first braces, is read as the texts and the strings for the items, those with wildcards
  -- replaced by their matches, also where the wildcards stood in quotes.
  pub args_parse-forms :
      (g : Bytes) (is : List Item) (forms : List Form)
      → Short enum
      → All IsSpace g
      → Spaced IsArg is
      → toks is ≡ map written forms
      → All IsForm forms
      → args_parse fnmatch enum current (g ++ spell is) []
        ≡ ok (each wild_of (each denoted forms), [])
  unfolding args_parse alloc
  args_parse-forms g is forms short hg h e hf =
      let (a, run, ha) = add_all_total (record { args = []; capacity = 16 }) forms short hf in
      rw (parse_raw-spell (suc (length (g ++ spell is))) g is 0 16 hg h (omega arith))
        (rw e (rw run (rw (finish_args_total a, ha) refl)))
