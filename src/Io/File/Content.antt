-- ===== src/Io/File/Content.antt =====
-- What `load_file` (src/bas/io/file.c) returns, and where it writes.
use bas_c.Common.{
  ℕ, zero, suc, ◌+◌, ◌-◌, ◌*◌, ◌%◌, ◌^◌, ◌≤◌, ◌<◌, ◌≡◌, refl, ap, ◌∙◌, subst, ◌⊎◌, inl, inr, Bool,
  true, false, not, ◌&&◌, none, some, [], ◌∷◌, ◌++◌, append_assoc, arith, Bytes, ltb, leb,
  if◌then◌else◌, length, take, drop, if_elim, ltb→lt, lt→ltb, le→leb, length-append, length-take,
  length-drop, take-append-drop, take_more,
}
use bas_c.Io.File.{
  Loaded, loaded, outside, room, remaining, grow, stops_here, after_block, load_blocks, load_stream,
  load_file, held_then, returned, is_empty,
}

remaining_lem : (c o p : ℕ) → o + p ≤ c → c < 2 ^ 64 → remaining c o p ≡ c - o - p
unfolding remaining
remaining_lem c o p h b = omega (arith, h, b)

le_or_lt : (a b : ℕ) → (a ≤ b) ⊎ (b < a)
le_or_lt a b = omega arith

grow_fits : (f c o p n : ℕ) → o + p + n ≤ c → c < 2 ^ 64 → grow (suc f) [] c o p n ≡ room c []
unfolding grow
grow_fits f c o p n h b =
    rw (remaining_lem c o p (omega (arith, h)) b, le→leb n (c - o - p) (omega (arith, h))) refl

grow_more :
    (f c o p n : ℕ)
    → o + p ≤ c
    → c < o + p + n
    → c < 2 ^ 64
    → grow (suc f) [] c o p n ≡ grow f [] (c * 2) o p n
unfolding grow
grow_more f c o p n h l b =
    rw (remaining_lem c o p h b) (if_else (leb n (c - o - p)) _ _ (ground (arith, h, l)))
  where
    if_else : {A : Type 0} (b : Bool) (x y : A) → b ≡ false → (if b then x else y) ≡ y
    if_else _ x y e = rw e refl

-- A capacity for the block that was read.
abbrev Fits : ℕ → ℕ → ℕ → ℕ → Type 0
Fits c o p n =
    (d : ℕ) × (grow 64 [] c o p n ≡ room d [])
    × (o + p + n ≤ d)
    × (c ≤ d)
    × ((d ≤ c) ⊎ (d < 2 * (o + p + n)))

module _ (c o p n : ℕ) (low : 16 ≤ c) (h : o + p ≤ c) (small : n ≤ 64) (b : c < 2 ^ 60) where
  twice-Fits : c < o + p + n → Fits c o p n
  twice-Fits l = elim (le_or_lt (o + p + n) (c * 2)) [
    | inl e ↦ (
      c * 2,
      grow_more 63 c o p n h l (omega (arith, b)) ∙ grow_fits 62 (c * 2) o p n e (omega (arith, b)),
      e,
      omega arith,
      inr (omega (arith, l)),
    )
    | inr l2 ↦ elim (le_or_lt (o + p + n) (c * 2 * 2)) [
      | inl e ↦ (
        c * 2 * 2,
        grow_more 63 c o p n h l (omega (arith, b))
            ∙ grow_more 62 (c * 2) o p n (omega (arith, h)) l2 (omega (arith, b))
            ∙ grow_fits 61 (c * 2 * 2) o p n e (omega (arith, b)),
        e,
        omega arith,
        inr (omega (arith, l2)),
      )
      | inr l3 ↦ (
        c * 2 * 2 * 2,
        grow_more 63 c o p n h l (omega (arith, b))
            ∙ grow_more 62 (c * 2) o p n (omega (arith, h)) l2 (omega (arith, b))
            ∙ grow_more 61 (c * 2 * 2) o p n (omega (arith, h)) l3 (omega (arith, b))
            ∙ grow_fits 60 (c * 2 * 2 * 2) o p n (omega (arith, h, low, small)) (omega (arith, b)),
        omega (arith, h, low, small),
        omega arith,
        inr (omega (arith, l3)),
      )
    ]
  ]

  grow-Fits : Fits c o p n
  grow-Fits = elim (le_or_lt (o + p + n) c) [
    | inl e ↦ (c, grow_fits 63 c o p n e (omega (arith, b)), e, omega arith, inl (omega arith))
    | inr l ↦ twice-Fits l
  ]

-- The whole content is stored, in a block with room for `mem_off` before and `padding` behind it.
abbrev pub Holds : Bytes → ℕ → ℕ → Loaded → Type 0
Holds content mem_off padding r =
    (size : ℕ) × (r ≡ loaded content size) × (mem_off + length content + padding ≤ size)

held_same : (c d : ℕ) → held_then c c d ≡ d
held_same c d = ground arith

never : (b c : Bool) → c ≡ false → (b && c) ≡ false
never true c e = e
never false c e = refl

-- A round that reads a block for which there is room.
block_step :
    (f : ℕ) (rest : Bytes) (c d m p : ℕ) (stored : Bytes)
    → grow 64 [] c (m + length stored) p (length (take 64 rest)) ≡ room d []
    → m + length stored + length (take 64 rest) ≤ d
    → load_blocks (suc f) [] (record { rest = rest; fails = none }) c c stored m p ≡ (
        if ltb (length rest) 64
        then returned (stored ++ take 64 rest) d
        else load_blocks f []
            (record { rest = drop 64 rest; fails = none })
            d
            d
            (stored ++ take 64 rest)
            m
            p)
unfolding load_blocks stops_here after_block
block_step f rest c d m p stored e h =
    rw (e, load_blocks)
      (rw
        (
          held_same c d,
          never (not (is_empty (take 64 rest))) (ltb d (m + length stored + length (take 64 rest)))
              (ground (arith, h)),
        )
        refl)

kept_lem : (s : Bytes) (d : ℕ) → 16 ≤ d → returned s d ≡ loaded s d
unfolding returned
kept_lem s d h = ground (arith, h)

not_ltb : (a b : ℕ) → ltb a b ≡ false → b ≤ a
not_ltb a b h = ground (arith, h)

whole_lem : (stored rest : Bytes) → (stored ++ take 64 rest) ++ drop 64 rest ≡ stored ++ rest
whole_lem stored rest =
    append_assoc stored (take 64 rest) (drop 64 rest)
    ∙ ap (λ t. stored ++ t) (take-append-drop 64 rest)

last-Holds :
    (rest : Bytes) (d m p : ℕ) (stored : Bytes)
    → length rest < 64
    → 16 ≤ d
    → m + length stored + p + length (take 64 rest) ≤ d
    → Holds (stored ++ rest) m p (returned (stored ++ take 64 rest) d)
last-Holds rest d m p stored l low fit = (
  d,
  rw (take_more 64 rest (omega (arith, l))) (kept_lem (stored ++ rest) d low),
  omega (arith, fit, length-append stored rest, length-take 64 rest, l),
)

blocks-Holds :
    (f : ℕ) (rest : Bytes) (c m p : ℕ) (stored : Bytes)
    → length rest < f
    → 16 ≤ c
    → m + length stored + p ≤ c
    → c ≤ 2 * (m + length stored + p) + 160
    → m + length stored + length rest + p < 2 ^ 58
    → Holds
        (stored ++ rest)
        m
        p
        (load_blocks f [] (record { rest = rest; fails = none }) c c stored m p)
blocks-Holds zero rest c m p stored fuel low fit tight few = absurd (omega (arith, fuel))
blocks-Holds (suc f) rest c m p stored fuel low fit tight few =
    let (d, e, room_there, up, near) =
      grow-Fits c (m + length stored) p (length (take 64 rest)) low fit
        (omega (arith, length-take 64 rest)) (omega (arith, tight, few)) in
    rw (block_step f rest c d m p stored e (omega (arith, room_there))) (
      if_elim (Holds (stored ++ rest) m p) (ltb (length rest) 64) _ _
        (λ l. last-Holds rest d m p stored (ltb→lt _ _ l) (omega (arith, up, low)) room_there)
        (λ l.
          let lens = length-append stored (take 64 rest) in
          let full = not_ltb (length rest) 64 l in
          let taken = length-take 64 rest in
          let left = length-drop 64 rest in
          subst
            (λ t. Holds t m p (
              load_blocks f [] (record { rest = drop 64 rest; fails = none }) d d
                (stored ++ take 64 rest) m p))
            (whole_lem stored rest)
            (blocks-Holds f (drop 64 rest) d m p (stored ++ take 64 rest)
              (omega (arith, left, full, fuel)) (omega (arith, up, low))
              (omega (arith, lens, room_there)) (omega (arith, lens, near, tight, taken))
              (omega (arith, lens, taken, left, full, few)))))

-- With memory, and `mem_off` and `padding` of at most 16 bytes in all: a file of fewer than 2 ^ 57
-- bytes that can be read is stored whole, in a block with room for `mem_off` before and `padding`
-- behind it.
pub load_file-Holds :
    (content : Bytes) (mem_off padding : ℕ)
    → mem_off + padding ≤ 16
    → length content < 2 ^ 57
    → Holds content mem_off padding
        (load_file [] (some (record { rest = content; fails = none })) mem_off padding)
unfolding load_file load_stream
load_file-Holds content m p h b =
    blocks-Holds (suc (length content)) content 16 m p [] (omega arith) (omega arith)
      (omega (arith, h)) (omega arith) (omega (arith, h, b))

add_zero : (n : ℕ) → n + 0 ≡ n
add_zero n = omega arith

grow_wraps :
    (f m p n : ℕ)
    → 16 < m
    → m ≤ 2 ^ 62
    → p ≤ 2 ^ 62
    → n ≤ 64
    → grow (suc f) [] 16 m p n ≡ room 16 []
unfolding grow remaining
grow_wraps f m p n h b b' small =
    rw (le→leb n ((16 + 2 * 2 ^ 64 - m - p) % 2 ^ 64) (omega (arith, h, b, b', small))) refl

outside_step :
    (f c : ℕ) (s : Bytes) (m p : ℕ)
    → 16 < m
    → grow 64 [] 16 m p (length (take 64 (c ∷ s))) ≡ room 16 []
    → load_blocks (suc f) [] (record { rest = c ∷ s; fails = none }) 16 16 [] m p ≡ outside
unfolding load_blocks stops_here
outside_step f c s m p h e =
    rw (add_zero m, e, load_blocks, lt→ltb 16 (m + 0 + length (take 64 (c ∷ s))) (omega (arith, h)))
      refl

-- With memory: where `mem_off` is over 16, and it and `padding` are at most 2 ^ 62, the first bytes of
-- a file that is not empty are written behind the block.
pub load_file-outside :
    (c : ℕ) (s : Bytes) (mem_off padding : ℕ)
    → 16 < mem_off
    → mem_off ≤ 2 ^ 62
    → padding ≤ 2 ^ 62
    → load_file [] (some (record { rest = c ∷ s; fails = none })) mem_off padding ≡ outside
unfolding load_file load_stream
load_file-outside c s m p h b b' =
    outside_step (length (c ∷ s)) c s m p h
      (grow_wraps 63 m p (length (take 64 (c ∷ s))) h b b' (omega (arith, length-take 64 (c ∷ s))))
