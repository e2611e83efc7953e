-- ===== src/Cli/OptParser/Bounds.antt =====
-- Every call of the option parser returns; `optind` stays within `argc`, and a call that returns an
-- option moves on.
use bas_c.Common.{
  ℕ, suc, ◌+◌, ◌≤◌, ◌<◌, ◌≡◌, refl, sym, ap, ◌∙◌, ◌⊎◌, inl, inr, true, false, not, ◌&&◌, Option,
  none, some, List, [], ◌∷◌, arith, Bytes, negsuc, leb, ◌==◌, get_or, drop, Bool-cases,
  Option-cases, if_elim,
}
use bas_c.Base.CString.{str_eq}
use bas_c.Cli.OptParser.{
  OptParser, LongOption, Parsed, over, next_arg, find_long_option, find_short_option, split_equals,
  take_long, long_option, take_short, bad_short, is_current, at_arg, letter, parse_at, parse_fuel,
  opt_parse_long,
}

-- The parser moved to a later element of `argv`, or to the next letter of the one it is at.
abbrev pub Ahead : OptParser → OptParser → Type 0
Ahead p q =
    (p.optind < q.optind)
    ⊎ ((q.optind ≡ p.optind)
        × (q.current_arg ≡ some p.optind)
        × (q.short_opt_pos ≡ (at_arg p).short_opt_pos + 1))

-- What holds of a call: `optind` stays within `argc` and does not go back, and the result is -1 or
-- the parser moved on.
pub record Steps (argc : ℕ) (p : OptParser) (r : Parsed) : Type 0 where
  pub inside : r.parser.optind ≤ argc
  pub forward : p.optind ≤ r.parser.optind
  pub ahead : (r.ret ≡ negsuc 0) ⊎ Ahead p r.parser

module _ (argc : ℕ) (argv : List (Option Bytes)) where
  take_long-Steps :
      (p : OptParser) (name : Bytes) (equals : Option Bytes) (i : ℕ) (o : LongOption)
      → p.optind < argc
      → Steps argc p (take_long argc argv p name equals i o)
  unfolding take_long
  take_long-Steps p name none i o h = record {
    inside = ground arith;
    forward = ground arith;
    ahead = inr (inl (ground arith));
  }
  take_long-Steps p name (some value) i o h = record {
    inside = ground arith;
    forward = ground arith;
    ahead = inr (inl (ground arith));
  }

  long_option-Steps :
      (longopts : List LongOption) (p : OptParser) (text : Bytes)
      → p.optind < argc
      → Steps argc p (long_option argc argv longopts p text)
  unfolding long_option
  long_option-Steps longopts p text h =
      elim (Option-cases (find_long_option longopts (split_equals text).0)) [
        | inl e ↦
            rw (e, long_option)
              (record {
                inside = omega arith;
                forward = omega arith;
                ahead = inr (inl (omega arith));
              })
        | inr (found, e) ↦
            rw (e, long_option)
              (take_long-Steps p (split_equals text).0 (split_equals text).1 found.0 found.1 h)
      ]

  take_short-Steps :
      (p : OptParser) (arg : Bytes) (c kind : ℕ)
      → p.optind < argc
      → p.current_arg ≡ some p.optind
      → Steps argc p (take_short argc argv p arg c kind)
  unfolding take_short
  take_short-Steps p arg c kind h e = record {
    inside = ground arith;
    forward = ground arith;
    ahead = ground arith;
  }

  bad_short-Steps :
      (p : OptParser) (arg : Bytes) (c : ℕ)
      → p.optind < argc
      → p.current_arg ≡ some p.optind
      → Steps argc p (bad_short p arg c)
  unfolding bad_short
  bad_short-Steps p arg c h e = record {
    inside = ground arith;
    forward = ground arith;
    ahead = ground arith;
  }

  at_arg-current :
      (p : OptParser) → ((at_arg p).optind ≡ p.optind) × ((at_arg p).current_arg ≡ some p.optind)
  at_arg-current p = ground arith

  at_arg_twice : (p : OptParser) → (at_arg (at_arg p)).short_opt_pos ≡ (at_arg p).short_opt_pos
  at_arg_twice p = ground arith

  at_arg_fresh : (p : OptParser) → is_current p ≡ false → (at_arg p).short_opt_pos ≡ 1
  at_arg_fresh p e = ground arith

  -- Being at the string changes neither the index nor what a step from there means.
  at_arg-Steps : (p : OptParser) (r : Parsed) → Steps argc (at_arg p) r → Steps argc p r
  at_arg-Steps p r s =
      let e = (at_arg-current p).0 in
      record { inside = s.inside; forward = omega (arith, s.forward, e); ahead = ahead s.ahead }
    where
      ahead : (r.ret ≡ negsuc 0) ⊎ Ahead (at_arg p) r.parser → (r.ret ≡ negsuc 0) ⊎ Ahead p r.parser
      ahead (inl a) = inl a
      ahead (inr (inl a)) = inr (inl (omega (arith, a, at_arg-current p)))
      ahead (inr (inr (a, b, c))) = inr (
          inr (
            a ∙ (at_arg-current p).0,
            b ∙ ap some (at_arg-current p).0,
            c ∙ ap (λ n. n + 1) (at_arg_twice p),
          ))

  letter-Steps :
      (optstring : Bytes) (p : OptParser) (arg : Bytes) (c : ℕ)
      → p.optind < argc
      → p.current_arg ≡ some p.optind
      → Steps argc p (letter argc argv optstring p arg c)
  unfolding letter
  letter-Steps optstring p arg c h e = elim (Option-cases (find_short_option optstring c)) [
    | inl n ↦ rw (n, letter) (bad_short-Steps p arg c h e)
    | inr (kind, n) ↦ rw (n, letter) (take_short-Steps p arg c kind h e)
  ]

  -- A call returns, and its result is a step.
  abbrev pub Runs : OptParser → Option Parsed → Type 0
  Runs p m = (r : Parsed) × (m ≡ some r) × Steps argc p r

  over-Runs : (p q : OptParser) → p.optind ≤ q.optind → q.optind ≤ argc → Runs p (some (over q))
  over-Runs p q h l = (over q, refl, record { inside = l; forward = h; ahead = inl refl })

  again-Steps : (p : OptParser) (r : Parsed) → Steps argc (next_arg (at_arg p)) r → Steps argc p r
  again-Steps p r s =
      let (e, _) = at_arg-current p in
      record {
        inside = s.inside;
        forward = omega (arith, s.forward, e);
        ahead = inr (inl (omega (arith, s.forward, e)));
      }

  parse_at-Runs :
      (again : OptParser → Option Parsed) (optstring : Bytes) (longopts : List LongOption)
      (p : OptParser) (arg : Bytes)
      → p.optind < argc
      → (is_current p ≡ true → Runs (next_arg (at_arg p)) (again (next_arg (at_arg p))))
      → Runs p (parse_at argc argv again optstring longopts p arg)
  unfolding parse_at
  parse_at-Runs again optstring longopts p arg h rec =
      let q = at_arg p in
      let c = get_or arg q.short_opt_pos 0 in
      let (e, e') = at_arg-current p in
      if_elim (Runs p) (not (get_or arg 0 0 == b'-')) _ _
        (λ t. over-Runs p p (omega arith) (omega arith))
        (λ t.
          if_elim (Runs p) (str_eq arg (b'-' ∷ b'-' ∷ [])) _ _
            (λ u. over-Runs p _ (omega arith) (omega arith))
            (λ u.
              if_elim (Runs p) (get_or arg 1 0 == b'-' && not (get_or arg 2 0 == 0)) _ _
                (λ v. (_, refl, long_option-Steps longopts p (drop 2 arg) h))
                (λ v.
                  if_elim (Runs p) (not (get_or arg 1 0 == 0) && not (get_or arg 1 0 == b'-')) _ _
                    (λ w.
                      if_elim (Runs p) (c == 0) _ _
                        (λ x. elim (Bool-cases (is_current p)) [
                          | inl cur ↦ let (r, run, s) = rec cur in (r, run, again-Steps p r s)
                          | inr new ↦
                              let same = ap (λ i. get_or arg i 0) (at_arg_fresh p new) in
                              absurd (ground arith)
                        ])
                        (λ x. (
                          _,
                          refl,
                          at_arg-Steps p _
                              (letter-Steps optstring q arg c (omega arith) (e' ∙ ap some (sym e))),
                        )))
                    (λ w. over-Runs p _ (omega arith) (omega arith)))))

  -- The same where `argv[optind]` may be NULL.
  slot-Runs :
      (again : OptParser → Option Parsed) (optstring : Bytes) (longopts : List LongOption)
      (p : OptParser) (m : Option Bytes)
      → p.optind < argc
      → (is_current p ≡ true → Runs (next_arg (at_arg p)) (again (next_arg (at_arg p))))
      → Runs p (elim m [
        | some arg ↦ parse_at argc argv again optstring longopts p arg
        | none ↦ some (over p)
      ])
  slot-Runs again optstring longopts p (some arg) h rec =
      parse_at-Runs again optstring longopts p arg h rec
  slot-Runs again optstring longopts p none h rec = over-Runs p p (omega arith) (omega arith)

  -- The call forgets the argument of the last option.
  cleared-Steps :
      (p : OptParser) (r : Parsed) → Steps argc (record p { optarg = none }) r → Steps argc p r
  cleared-Steps p r s = record { inside = s.inside; forward = s.forward; ahead = ahead s.ahead }
    where
      ahead :
          (r.ret ≡ negsuc 0) ⊎ Ahead (record p { optarg = none }) r.parser
          → (r.ret ≡ negsuc 0) ⊎ Ahead p r.parser
      ahead (inl a) = inl a
      ahead (inr (inl a)) = inr (inl a)
      ahead (inr (inr (a, b, c))) = inr (inr (a, b, ground arith))

  level-Runs :
      (fuel : ℕ) (optstring : Bytes) (longopts : List LongOption) (p : OptParser)
      → p.optind ≤ argc
      → (p.optind < argc
          → is_current p ≡ true
          → Runs (next_arg (at_arg (record p { optarg = none }))) (
              parse_fuel argc argv fuel optstring longopts
                (next_arg (at_arg (record p { optarg = none })))))
      → Runs p (parse_fuel argc argv (suc fuel) optstring longopts p)
  unfolding parse_fuel
  level-Runs fuel optstring longopts p h rec =
      let q = record p { optarg = none } in
      if_elim (Runs p) (argc == 0) _ _ (λ t. over-Runs p p (omega arith) h)
        (λ t.
          if_elim (Runs p) (leb argc p.optind) _ _ (λ u. over-Runs p q (omega arith) h)
            (λ u.
              let l : p.optind < argc = ground arith in
              let (r, run, s) =
                slot-Runs (parse_fuel argc argv fuel optstring longopts) optstring longopts q
                  (get_or argv p.optind none) l (rec l) in
              (r, run, cleared-Steps p r s)))

  -- A call with `optind` within `argc` returns; it keeps `optind` within `argc` and does not move
  -- it back; and it returns -1, or the parser is at a later element, or at the next letter.
  pub opt_parse_long-Runs :
      (optstring : Bytes) (longopts : List LongOption) (p : OptParser)
      → p.optind ≤ argc
      → Runs p (opt_parse_long argc argv optstring longopts p)
  unfolding opt_parse_long
  opt_parse_long-Runs optstring longopts p h = level-Runs 1 optstring longopts p h (λ l cur.
      let q = next_arg (at_arg (record p { optarg = none })) in
      level-Runs 0 optstring longopts q
        (omega (arith, (at_arg-current (record p { optarg = none })).0))
        (λ _ no. absurd (false-true no)))
    where
      false-true : false ≡ true → ⊥
      false-true e = ground arith
