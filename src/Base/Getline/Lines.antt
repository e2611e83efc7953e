-- ===== src/Base/Getline/Lines.antt =====
-- `str_getline` stays within its block, loses no byte, and returns exactly one line.
use bas_c.Common.{
  ℕ, suc, ◌+◌, ◌^◌, ◌<◌, ◌≡◌, refl, sym, ap, Bool, true, false, not, ◌&&◌, ◌||◌, none, some, [],
  ◌∷◌, ◌++◌, append_assoc, append-nil, arith, Bytes, leb, ◌==◌, if◌then◌else◌, length, if_elim,
  if_same, ==_iff, length-append,
}
use bas_c.Base.Tokens.Lines.{IsLine}
use bas_c.Base.Getline.{Buffer, Got, Answers, answer, later, doubled, getline_loop, getline_open}

-- What holds of a call that returned `k`: `k` bytes are stored, the NUL behind them lies in the
-- block, and the bytes stored and the bytes left are those that were there.
pub record Kept (all : Bytes) (k : ℕ) (g : Got) : Type 0 where
  pub counted : k ≡ length g.stored
  pub fits : length g.stored < g.buffer.size
  pub kept : g.stored ++ g.stream.rest ≡ all

-- A round stores its byte inside the block.
room_round :
    (len n rest : ℕ)
    → len < n
    → len + suc rest < 2 ^ 62
    → len + 1 < (if leb n (len + 1) then doubled n else n)
unfolding doubled
room_round len n rest room small = ground arith

some_eq : (a b : ℕ) → some a ≡ some b → a ≡ b
some_eq a b h = ground arith

getline_loop-Kept :
    (an : Answers) (stored : Bytes) (n : ℕ) (rest : Bytes) (k : ℕ)
    → length stored < n
    → length stored + length rest < 2 ^ 62
    → (getline_loop an stored n rest).ret ≡ some k
    → Kept (stored ++ rest) k (getline_loop an stored n rest)
unfolding getline_loop
getline_loop-Kept an stored n [] k room small h = record {
  counted = ground arith;
  fits = room;
  kept = refl;
}
getline_loop-Kept an stored n (c ∷ rest) k room small h =
    let full = leb n (length stored + 1) in
    let n' = if full then doubled n else n in
    let room' = room_round (length stored) n (length rest) room small in
    let e = length-append stored (c ∷ []) in
    let ih =
      getline_loop-Kept (if full then later an else an) (stored ++ c ∷ []) n' rest k
        (omega (arith, e, room')) (omega (arith, e)) in
    if_elim P (full && not (answer an)) _ _ (λ p q. absurd (cc))
      (λ p.
        if_elim P (c == b'\n') _ _
          (λ p q. record {
            counted = omega (arith, some_eq (length stored + 1) k q, e);
            fits = omega (arith, e, room');
            kept = append_assoc stored (c ∷ []) rest;
          })
          (λ p. rw (append_assoc stored (c ∷ []) rest) at ih))
      h
  where
    P : Got → Type 0
    P g = g.ret ≡ some k → Kept (stored ++ c ∷ rest) k g

-- Whatever the allocator answers, with fewer than 2 ^ 62 bytes left to read: where `str_getline` returns a length, before the end of the
-- stream, it has stored that many bytes, the NUL behind them lies inside the block, and no byte of
-- the stream is lost.
pub str_getline-Kept :
    (an : Answers) (b : Buffer) (rest : Bytes) (k : ℕ)
    → length rest < 2 ^ 62
    → (getline_open an b (record { rest = rest; eof = false })).ret ≡ some k
    → Kept rest k (getline_open an b (record { rest = rest; eof = false }))
unfolding getline_open
str_getline-Kept an b rest k small =
    if_elim P (not b.alive || b.size == 0) _ _
      (λ p.
        if_elim P (answer an) _ _
          (λ q. getline_loop-Kept (later an) [] 128 rest k (omega arith) (omega arith))
          (λ q h. absurd (cc)))
      (λ p. getline_loop-Kept an [] b.size rest k (ground arith) (omega arith))
  where
    P : Got → Type 0
    P g = g.ret ≡ some k → Kept rest k g

-- A call that fails in its loop has taken a byte from the stream that is stored nowhere.
pub getline_loop-loses :
    (an : Answers) (stored : Bytes) (n : ℕ) (rest : Bytes)
    → (getline_loop an stored n rest).ret ≡ none
    → (c : ℕ) × ((getline_loop an stored n rest).stored
          ++ c ∷ (getline_loop an stored n rest).stream.rest
        ≡ stored ++ rest)
unfolding getline_loop
getline_loop-loses an stored n [] h = absurd (cc)
getline_loop-loses an stored n (c ∷ rest) h =
    let full = leb n (length stored + 1) in
    let n' = if full then doubled n else n in
    let ih = getline_loop-loses (if full then later an else an) (stored ++ c ∷ []) n' rest in
    if_elim P (full && not (answer an)) _ _ (λ p q. (c, refl))
      (λ p.
        if_elim P (c == b'\n') _ _ (λ p q. absurd (cc))
          (λ p. rw (append_assoc stored (c ∷ []) rest) at ih))
      h
  where
    P : Got → Type 0
    P g = g.ret ≡ none → (d : ℕ) × (g.stored ++ d ∷ g.stream.rest ≡ stored ++ c ∷ rest)

-- A call returned the length of `text`, stored it, and left `r`.
pub record GotLine (text r : Bytes) (eof : Bool) (g : Got) : Type 0 where
  pub ret : g.ret ≡ some (length text)
  pub stored : g.stored ≡ text
  pub rest : g.stream.rest ≡ r
  pub ended : g.stream.eof ≡ eof

and_false : (b : Bool) → b && false ≡ true → ⊥
and_false true h = cc
and_false false h = cc

-- With memory, the loop reads to the line feed.
getline_loop_line :
    (stored : Bytes) (n : ℕ) (l r : Bytes)
    → IsLine l
    → GotLine (stored ++ (l ++ b'\n' ∷ [])) r false (getline_loop [] stored n (l ++ b'\n' ∷ r))
unfolding getline_loop
getline_loop_line stored n [] r h =
    if_elim (GotLine (stored ++ b'\n' ∷ []) r false) (leb n (length stored + 1) && false) _ _
      (λ p. absurd (and_false _ p))
      (λ p. record {
        ret = ap some (sym (length-append stored (b'\n' ∷ [])));
        stored = refl;
        rest = refl;
        ended = refl;
      })
getline_loop_line stored n (c ∷ l) r (h, hs) =
    let n' = if leb n (length stored + 1) then doubled n else n in
    let ih : GotLine (stored ++ (c ∷ l ++ b'\n' ∷ [])) r false
        (getline_loop [] (stored ++ c ∷ []) n' (l ++ b'\n' ∷ r)) =
      rw (append_assoc stored (c ∷ []) (l ++ b'\n' ∷ [])) at
        (getline_loop_line (stored ++ c ∷ []) n' l r hs) in
    if_elim (GotLine (stored ++ (c ∷ l ++ b'\n' ∷ [])) r false) (leb n (length stored + 1) && false)
      _ _ (λ p. absurd (and_false _ p))
      (λ p.
        if_elim (GotLine (stored ++ (c ∷ l ++ b'\n' ∷ [])) r false) (c == b'\n') _ _
          (λ q. absurd (h ((==_iff c b'\n').0 q)))
          (λ q. rw (if_same {A = Answers} (leb n (length stored + 1)) []) ih))

-- At the end of the stream, the loop returns what is left.
getline_loop_last :
    (stored : Bytes) (n : ℕ) (l : Bytes)
    → IsLine l
    → GotLine (stored ++ l) [] true (getline_loop [] stored n l)
unfolding getline_loop
getline_loop_last stored n [] h =
    rw (append-nil stored) (record { ret = refl; stored = refl; rest = refl; ended = refl })
getline_loop_last stored n (c ∷ l) (h, hs) =
    let n' = if leb n (length stored + 1) then doubled n else n in
    let ih : GotLine (stored ++ c ∷ l) [] true (getline_loop [] (stored ++ c ∷ []) n' l) =
      rw (append_assoc stored (c ∷ []) l) at (getline_loop_last (stored ++ c ∷ []) n' l hs) in
    if_elim (GotLine (stored ++ c ∷ l) [] true) (leb n (length stored + 1) && false) _ _
      (λ p. absurd (and_false _ p))
      (λ p.
        if_elim (GotLine (stored ++ c ∷ l) [] true) (c == b'\n') _ _
          (λ q. absurd (h ((==_iff c b'\n').0 q)))
          (λ q. rw (if_same {A = Answers} (leb n (length stored + 1)) []) ih))

-- With memory, `str_getline` stores the next line with its line feed, returns its length, and
-- leaves the stream behind it; at the end of the stream it does so for the text that is left.
pub str_getline_line :
    (b : Buffer) (l r : Bytes)
    → IsLine l
    → GotLine
        (l ++ b'\n' ∷ [])
        r
        false
        (getline_open [] b (record { rest = l ++ b'\n' ∷ r; eof = false }))
      × GotLine l [] true (getline_open [] b (record { rest = l; eof = false }))
unfolding getline_open
str_getline_line b l r h = (
  if_elim (GotLine (l ++ b'\n' ∷ []) r false) (not b.alive || b.size == 0) _ _
      (λ p. getline_loop_line [] 128 l r h) (λ p. getline_loop_line [] b.size l r h),
  if_elim (GotLine l [] true) (not b.alive || b.size == 0) _ _ (λ p. getline_loop_last [] 128 l h)
      (λ p. getline_loop_last [] b.size l h),
)
