-- ===== src/Base/Getline.antt =====
-- `str_getline` of src/bas/base/str.c: reading one line into a buffer that grows.
pub mod Lines
use bas_c.Common.{
  ℕ, ◌+◌, ◌*◌, ◌%◌, ◌^◌, Bool, true, false, not, ◌&&◌, ◌||◌, Option, none, some, List, [], ◌∷◌,
  ◌++◌, Bytes, leb, ◌==◌, if◌then◌else◌, length,
}

-- A `FILE *` that is read byte by byte.
pub record Stream : Type 0 where
  pub rest : Bytes
  pub eof : Bool

-- `*lineptr`, an whether it is not NULL, and `*n`, which is then the size of its block.
pub record Buffer : Type 0 where
  pub alive : Bool
  pub size : ℕ

-- The value returned (`none` is -1), the bytes stored at the start of the block, and what the
-- arguments point to afterwards.
pub record Got : Type 0 where
  pub ret : Option ℕ
  pub stored : Bytes
  pub buffer : Buffer
  pub stream : Stream

-- The answers of `malloc` and `realloc`, in order; past the end of the list they succeed.
abbrev pub Answers : Type 0
Answers = List Bool

abbrev pub answer : Answers → Bool
answer [] = true
answer (a ∷ more) = a

abbrev pub later : Answers → Answers
later [] = []
later (a ∷ more) = more

-- `*n * 2`, in a `size_t`
unfoldable pub doubled : ℕ → ℕ
doubled n = (n * 2) % 2 ^ 64

-- The loop and the return behind it. `stored` are the `len` bytes so far, `n` is `*n`.
unfoldable pub getline_loop : Answers → Bytes → ℕ → Bytes → Got
unfolding doubled
getline_loop an stored n [] = record {
  ret = some (length stored);
  stored = stored;
  buffer = record { alive = true; size = n };
  stream = record { rest = []; eof = true };
}
getline_loop an stored n (c ∷ rest) =
    let full = leb n (length stored + 1) in
    let n' = if full then doubled n else n in
    let more = getline_loop (if full then later an else an) (stored ++ c ∷ []) n' rest in
    if full && not (answer an)
    then record {
      ret = none;
      stored = stored;
      buffer = record { alive = true; size = n };
      stream = record { rest = rest; eof = false };
    }
    else if c == b'\n'
    then record {
      ret = some (length stored + 1);
      stored = stored ++ c ∷ [];
      buffer = record { alive = true; size = n' };
      stream = record { rest = rest; eof = false };
    }
    else more

-- The call with arguments that are not NULL.
unfoldable pub getline_open : Answers → Buffer → Stream → Got
unfolding getline_loop
getline_open an b s =
    if s.eof
    then record { ret = some 0; stored = []; buffer = b; stream = s }
    else if not b.alive || b.size == 0
    then (if answer an then getline_loop (later an) [] 128 s.rest else record {
      ret = none;
      stored = [];
      buffer = record { alive = false; size = 128 };
      stream = s;
    })
    else getline_loop an [] b.size s.rest

-- An argument that is NULL gives -1 and nothing is read.
unfoldable pub str_getline : Answers → Option Buffer → Option Stream → Option Got
unfolding getline_open
str_getline an none s = none
str_getline an (some b) none = none
str_getline an (some b) (some s) = some (getline_open an b s)
