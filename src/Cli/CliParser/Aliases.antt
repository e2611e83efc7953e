-- ===== src/Cli/CliParser/Aliases.antt =====
-- The aliases of a parser, and how a command that is one is expanded.
use bas_c.Common.{
  ℕ, zero, suc, ◌≤◌, ◌<◌, ◌≡◌, refl, sym, ap, ◌∙◌, inl, inr, true, false, Option, none, some, List,
  [], ◌∷◌, ◌++◌, append_assoc, arith, Bytes, codes, negsuc, if◌then◌else◌, length, Bool-cases,
  length-append, take_more,
}
use bas_c.Base.CString.{str_eq, str_eq→eq}
use bas_c.Util.PrefixMap
use bas_c.Util.PrefixMap.{PrefixMap, is_found}
use bas_c.Base.StringList.Join.{joined_by}
use bas_c.Util.PrefixMap.Buckets.{IsValid}
use bas_c.Util.PrefixMap.Laws.{add-Writes, remove-Writes, get-add-remove, contains_lem}
use bas_c.Cli.CliParser.{World, CliParser, get_alias, set_alias, remove_alias, emit_error}
use bas_c.Cli.CliParser.Redirect.{Redirection}
use bas_c.Cli.CliParser.Statement.Slots.{store_inside}
use bas_c.Cli.CliParser.Statement.{
  returned, clip, expanded_cmd, append_args, expanded, expand_aliases, dispatch,
}

none_found : {A : Type 0} (o : Option A) → is_found o ≡ false → o ≡ none
none_found none h = refl
none_found (some a) h = absurd (cc h)

kept :
    (m : PrefixMap Bytes) (name other : Bytes)
    → PrefixMap.get m name ≡ none
    → PrefixMap.get m other ≡ (if str_eq name other then none else PrefixMap.get m other)
kept m name other h = elim (Bool-cases (str_eq name other)) [
  | inl e ↦ rw e (ap (PrefixMap.get m) (sym (str_eq→eq name other e)) ∙ h)
  | inr e ↦ rw e refl
]

abbrev pub blank : Bytes
blank = b' ' ∷ []

module _ {S : Type 0} where
  -- The parser has a table of aliases of its own, and the table is valid.
  abbrev pub HasAliases : World S → Type 0
  HasAliases w = (m : PrefixMap Bytes) × (w.alias_map ≡ some m) × IsValid m

  -- With memory, an alias that is set has the value at its name, and every other name the value that
  -- it had; a table of aliases stays one.
  pub get_alias-set_alias :
      (parser : CliParser S) (w : World S) (name other value : Bytes)
      → HasAliases w
      → ((set_alias true true true w name value).0 ≡ true)
        × HasAliases (set_alias true true true w name value).1
        × (get_alias parser (set_alias true true true w name value).1 other
            ≡ (if str_eq name other then some value else get_alias parser w other))
  unfolding get_alias set_alias
  get_alias-set_alias parser w name other value (m, e, valid) =
      let writes = add-Writes m name (some value) valid in
      (
        rw e refl,
        (_, rw e refl, writes.valid),
        rw e (get-add-remove m name other (some value) valid).0,
      )

  -- With memory, an alias is removed exactly where it has a value; then it has none, every other name
  -- keeps its value, and the table is valid.
  pub get_alias-remove_alias :
      (parser : CliParser S) (w : World S) (name other : Bytes)
      → HasAliases w
      → HasAliases (remove_alias w name).1
        × (get_alias parser (remove_alias w name).1 other
            ≡ (if str_eq name other then none else get_alias parser w other))
        × ((remove_alias w name).0 ≡ is_found (get_alias parser w name))
  unfolding get_alias remove_alias
  get_alias-remove_alias parser w name other (m, e, valid) =
      elim (Bool-cases (PrefixMap.contains m name)) [
        | inl there ↦
            let writes = (remove-Writes m name valid).0 in
            (
              (_, rw (e, there) refl, writes.valid),
              rw (e, there) (get-add-remove m name other none valid).1,
              rw (e, there) refl,
            )
        | inr gone ↦
            let nothing = none_found (PrefixMap.get m name) (sym (contains_lem m name) ∙ gone) in
            (
              (m, rw (e, gone) refl, valid),
              rw (e, gone) (kept m name other nothing),
              rw (e, gone) refl,
            )
      ]

joined_by-append :
    (a b : Bytes) (xs : List Bytes)
    → joined_by blank ((a ++ b) ∷ xs) ≡ a ++ joined_by blank (b ∷ xs)
joined_by-append a b [] = refl
joined_by-append a b (x ∷ xs) = append_assoc a b _

length-head : (a : Bytes) (xs : List Bytes) → length a ≤ length (joined_by blank (a ∷ xs))
length-head a [] = omega arith
length-head a (x ∷ xs) = omega (arith, length-append a (blank ++ joined_by blank (x ∷ xs)))

-- The value and the arguments with blanks between them, where they fit.
append_args-joined_by :
    (cmd : Bytes) (args : List Bytes)
    → length (joined_by blank (cmd ∷ args)) < 1024
    → append_args cmd args ≡ joined_by blank (cmd ∷ args)
unfolding append_args
append_args-joined_by cmd [] fits = refl
append_args-joined_by cmd (arg ∷ args) fits =
    let front = cmd ++ blank in
    let whole : joined_by blank ((front ++ arg) ∷ args)
        ≡ cmd ++ (blank ++ joined_by blank (arg ∷ args)) =
      joined_by-append front arg args ∙ append_assoc cmd blank _ in
    let within : length (joined_by blank ((front ++ arg) ∷ args)) < 1024 =
      omega (arith, fits, ap length whole) in
    let head : length (front ++ arg) ≤ length (joined_by blank ((front ++ arg) ∷ args)) =
      length-head (front ++ arg) args in
    rw
      (
        take_more 1023 front (omega (arith, within, head, length-append front arg)),
        take_more 1023 (front ++ arg) (omega (arith, within, head)),
      )
      (append_args-joined_by (front ++ arg) args within ∙ whole)

module _ {S : Type 0} (parser : CliParser S) where
  -- Where each name of a set is an alias, and whatever the arguments are, its value with them is read
  -- as a command with a name of the set again and at most 64 strings in all, a command of the set is
  -- refused with a message when the rounds are over.
  pub expand_aliases-circular :
      (Bad : Bytes → Type 0) (n : ℕ) (redir : Redirection) (name : Bytes) (parsed argv : List Bytes)
      (w : World S)
      → ((x : Bytes)
          → Bad x
          → (v : Bytes) × (get_alias parser w x ≡ some v)
            × ((args : List Bytes)
                → (y : Bytes) × (more : List Bytes) × (parser.args_parser (expanded_cmd v args) w
                    ≡ (some (y ∷ more), w))
                  × Bad (clip 256 y)
                  × (length (y ∷ more) < 65)))
      → Bad name
      → expand_aliases parser n redir name parsed argv w
        ≡ returned
            (negsuc 0)
            (emit_error parser (codes "Too many alias expansions (possible circular alias)") w)
  unfolding expand_aliases expanded
  expand_aliases-circular Bad zero redir name parsed argv w leads bad = refl
  expand_aliases-circular Bad (suc n) redir name parsed argv w leads bad =
      let (v, e, next) = leads name bad in
      let (y, more, run, bad', few) = next parsed in
      let inside = store_inside 0 (y ∷ more) (omega (arith, few)) in
      rw (e, expand_aliases)
        (rw run (
          rw inside
            (expand_aliases-circular Bad n redir (clip 256 y) (y ∷ more) (y ∷ more) w leads bad')))

  -- One round: the command that the value and the arguments make, when they fit.
  expand_aliases-suc :
      (n : ℕ) (redir : Redirection) (name v y : Bytes) (parsed argv args : List Bytes)
      (w w' : World S)
      → get_alias parser w name ≡ some v
      → length (joined_by blank (v ∷ parsed)) < 1024
      → parser.args_parser (joined_by blank (v ∷ parsed)) w ≡ (some (y ∷ args), w')
      → length (y ∷ args) < 65
      → length y < 256
      → expand_aliases parser (suc n) redir name parsed argv w
        ≡ expand_aliases parser n redir y (y ∷ args) (y ∷ args) w'
  unfolding expand_aliases expanded expanded_cmd
  expand_aliases-suc n redir name v y parsed argv args w w' e fits run few short =
      let inside = store_inside 0 (y ∷ args) (omega (arith, few)) in
      let text : expanded_cmd v parsed ≡ joined_by blank (v ∷ parsed) =
        ap (λ t. append_args t parsed)
          (take_more 1023 v (omega (arith, fits, length-head v parsed)))
        ∙ append_args-joined_by v parsed fits in
      rw (e, expand_aliases)
        (ap (λ t. expanded parser (expand_aliases parser n redir) (parser.args_parser t w)) text
          ∙ rw (run, inside, take_more 255 y (omega (arith, short))) refl)

  -- A command that is an alias goes to the handlers as the command that the alias and the arguments,
  -- joined by blanks, are read as, when that is no alias again.
  pub expand_aliases-dispatch :
      (redir : Redirection) (name v y : Bytes) (parsed argv args : List Bytes) (w w' : World S)
      → get_alias parser w name ≡ some v
      → length (joined_by blank (v ∷ parsed)) < 1024
      → parser.args_parser (joined_by blank (v ∷ parsed)) w ≡ (some (y ∷ args), w')
      → length (y ∷ args) < 65
      → length y < 256
      → get_alias parser w' y ≡ none
      → expand_aliases parser 10 redir name parsed argv w
        ≡ dispatch parser parser.handlers y (y ∷ args) redir w'
  unfolding expand_aliases
  expand_aliases-dispatch redir name v y parsed argv args w w' e fits run few short free =
      expand_aliases-suc 9 redir name v y parsed argv args w w' e fits run few short
      ∙ rw (free, expand_aliases) refl

  -- Where an alias leads to a second one, the name of the second stays among its arguments: the text
  -- that is read next is the value of the second, its name, and its arguments. Both texts fit their
  -- buffer, and the third command is no alias.
  pub expand_aliases-keeps_name :
      (redir : Redirection) (name v y u z : Bytes) (parsed argv args more : List Bytes)
      (w w' w'' : World S)
      → get_alias parser w name ≡ some v
      → length (joined_by blank (v ∷ parsed)) < 1024
      → parser.args_parser (joined_by blank (v ∷ parsed)) w ≡ (some (y ∷ args), w')
      → length (y ∷ args) < 65
      → length y < 256
      → get_alias parser w' y ≡ some u
      → length (joined_by blank (u ∷ y ∷ args)) < 1024
      → parser.args_parser (joined_by blank (u ∷ y ∷ args)) w' ≡ (some (z ∷ more), w'')
      → length (z ∷ more) < 65
      → length z < 256
      → get_alias parser w'' z ≡ none
      → expand_aliases parser 10 redir name parsed argv w
        ≡ dispatch parser parser.handlers z (z ∷ more) redir w''
  unfolding expand_aliases
  expand_aliases-keeps_name redir name v y u z parsed argv args more w w' w'' e fits run few short
        e' fits' run' few' short' free =
      expand_aliases-suc 9 redir name v y parsed argv args w w' e fits run few short
      ∙ (expand_aliases-suc 8 redir y u z (y ∷ args) (y ∷ args) more w' w'' e' fits' run' few'
            short'
          ∙ rw (free, expand_aliases) refl)
