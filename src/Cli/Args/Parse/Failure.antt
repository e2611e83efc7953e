-- ===== src/Cli/Args/Parse/Failure.antt =====
-- `args_parse` where memory runs out behind the first string that `expand_brace` has made.
use bas_c.Common.{
  ℕ, zero, suc, ◌<◌, ◌≡◌, refl, sym, ◌∙◌, ◌≢◌, Bool, true, false, Option, List, [], ◌∷◌, ◌++◌,
  append-nil, arith, Bytes, length, All, length-append,
}
use bas_c.Base.Getline.{Answers}
use bas_c.Base.StringList.Join.{joined_by}
use bas_c.Cli.Alloc.{ok, double_free, ask}
use bas_c.Cli.Args.Brace.{
  enlarge, add_expansion, after_item, brace_round, brace_items, copies, expand_brace, refused,
}
use bas_c.Cli.Args.Brace.Items.{IsItem, comma, item-start, joined_by-plain, split_at-append}
use bas_c.Cli.Args.Wildcard.{Enum}
use bas_c.Cli.Args.Parse.{Args, add_arg}
use bas_c.Cli.Args.Parse.Whole.{written, braced, contains_brace_braced}

-- The string for the second item cannot be allocated.
brace_items-refused :
    (fuel : ℕ) (prefix suffix x y : Bytes) (ys : List Bytes) (an : Answers)
    → IsItem x
    → All IsItem (y ∷ ys)
    → length (joined_by comma (x ∷ y ∷ ys)) < fuel
    → brace_items fuel prefix suffix (joined_by comma (x ∷ y ∷ ys)) [] 0 (true ∷ true ∷ false ∷ an)
      ≡ ok (refused true, an)
unfolding brace_round add_expansion enlarge after_item ask
brace_items-refused zero prefix suffix x y ys an h hs lt = absurd (omega arith)
brace_items-refused (suc zero) prefix suffix x y ys an h hs lt =
    absurd (omega (arith, length-append x (comma ++ joined_by comma (y ∷ ys))))
brace_items-refused (suc (suc fuel)) prefix suffix x y [] an h (h', hs) lt =
    item-start (suc fuel) prefix suffix x (comma ++ y) [] 0 _ h refl
    ∙ (rw (sym (append-nil y)) (item-start fuel prefix suffix y [] _ 8 (false ∷ an) h' tt))
brace_items-refused (suc (suc fuel)) prefix suffix x y (z ∷ zs) an h (h', hs) lt =
    item-start (suc fuel) prefix suffix x (comma ++ joined_by comma (y ∷ z ∷ zs)) [] 0 _ h refl
    ∙ item-start fuel prefix suffix y (comma ++ joined_by comma (z ∷ zs)) _ 8 (false ∷ an) h' refl

expand_brace-refused :
    (c : ℕ) (prefix suffix x y : Bytes) (ys : List Bytes) (an : Answers)
    → All (λ c'. c' ≢ b'{') (c ∷ prefix)
    → IsItem x
    → All IsItem (y ∷ ys)
    → expand_brace
        (written (braced (c ∷ prefix) x (y ∷ ys) suffix))
        (true ∷ true ∷ true ∷ true ∷ false ∷ an)
      ≡ ok (refused true, an)
unfolding expand_brace copies ask
expand_brace-refused c prefix suffix x y ys an hp h hs =
    let content = joined_by comma (x ∷ y ∷ ys) in
    rw
      (
        split_at-append b'{' (c ∷ prefix) (content ++ b'}' ∷ suffix) hp,
        split_at-append b'}' content suffix (joined_by-plain x (y ∷ ys) h hs),
        expand_brace,
      )
      (brace_items-refused (suc (length content)) (c ∷ prefix) suffix x y ys an h hs (omega arith))

-- Where the argument has a prefix and two items in its braces, and the memory for the second
-- string is the first that is not there, an array is freed twice.
pub add_arg-double_free :
    (fnmatch : Bytes → Bytes → Bool) (enum : Option Enum) (current : Option Bytes) (a : Args)
    (c : ℕ) (prefix suffix x y : Bytes) (ys : List Bytes) (an : Answers)
    → All (λ c'. c' ≢ b'{') (c ∷ prefix)
    → IsItem x
    → All IsItem (y ∷ ys)
    → add_arg fnmatch enum current a
        (written (braced (c ∷ prefix) x (y ∷ ys) suffix))
        (true ∷ true ∷ true ∷ true ∷ false ∷ an)
      ≡ double_free
unfolding add_arg
add_arg-double_free fnmatch enum current a c prefix suffix x y ys an hp h hs =
    rw (contains_brace_braced (c ∷ prefix) _ hp)
      (rw (expand_brace-refused c prefix suffix x y ys an hp h hs) refl)
