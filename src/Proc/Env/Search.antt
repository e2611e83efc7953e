-- ===== src/Proc/Env/Search.antt =====
-- Which file `path_find` returns.
use bas_c.Common.{
  ℕ, ◌<◌, ◌≡◌, refl, ap, ◌∙◌, true, false, Option, none, some, List, [], ◌∷◌, ◌++◌, arith, Bytes,
  leb, ◌==◌, length, All,
}
use bas_c.Base.StringList.Join.{joined_by}
use bas_c.Cli.CliParser.Redirect.Parts.{count}
use bas_c.Proc.Env.{entries, found, missing, join, path_max, is_executable, search, path_find}

abbrev pub colon : Bytes
colon = b':' ∷ []

entries-append : (a b : Bytes) → count b':' a ≡ 0 → entries (a ++ b':' ∷ b) ≡ a ∷ entries b
unfolding entries
entries-append [] b h = refl
entries-append (c ∷ a) b h =
    let other : (c == b':') ≡ false = ground (arith, h) in
    rw (other, entries-append a b (omega (arith, h))) refl

entries_one : (a : Bytes) → count b':' a ≡ 0 → entries a ≡ a ∷ []
unfolding entries
entries_one [] h = refl
entries_one (c ∷ a) h =
    let other : (c == b':') ≡ false = ground (arith, h) in
    rw (other, entries_one a (omega (arith, h))) refl

-- No string of the list holds a colon.
abbrev pub Apart : List Bytes → Type 0
Apart = All (λ d. count b':' d ≡ 0)

entries-joined_by :
    (d : Bytes) (ds : List Bytes) → Apart (d ∷ ds) → entries (joined_by colon (d ∷ ds)) ≡ d ∷ ds
entries-joined_by d [] (h, hs) = entries_one d h
entries-joined_by d (e ∷ ds) (h, hs) =
    entries-append d (joined_by colon (e ∷ ds)) h ∙ ap (λ t. d ∷ t) (entries-joined_by e ds hs)

module _ (stat : Bytes → Option ℕ) where
  -- Directories that are named, short enough, and do not have the file as an executable.
  abbrev pub Lack : Bytes → List Bytes → Type 0
  Lack name = All (λ d.
      (0 < length d)
      × (length (join d name) < path_max)
      × (is_executable stat (join d name) ≡ false))

  search-append :
      (name : Bytes) (before after : List Bytes)
      → Lack name before
      → search stat name (before ++ after) ≡ search stat name after
  unfolding search
  search-append name [] after h = refl
  search-append name ([] ∷ before) after ((some_there, short, no_file), hs) = absurd (omega arith)
  search-append name ((c ∷ d) ∷ before) after ((some_there, short, no_file), hs) =
      let fits : leb path_max (length (join (c ∷ d) name)) ≡ false = ground (arith, short) in
      rw (fits, no_file) (search-append name before after hs)

  search-found :
      (name dir : Bytes) (after : List Bytes)
      → 0 < length dir
      → length (join dir name) < path_max
      → is_executable stat (join dir name) ≡ true
      → search stat name (dir ∷ after) ≡ found (join dir name)
  unfolding search
  search-found name [] after some_there short there = absurd (omega arith)
  search-found name (c ∷ dir) after some_there short there =
      let fits : leb path_max (length (join (c ∷ dir) name)) ≡ false = ground (arith, short) in
      rw (fits, there) refl

  -- With the directories of `PATH` between colons, the first call of `path_find`, which makes the table
  -- `pathv`, and every later call, which reads the table and no longer `PATH`, return the path in
  -- the first directory that has the file as an executable: the directory as it is spelled in `PATH`,
  -- a slash and the name, so a relative path for a relative directory. The directories up to this
  -- one are not empty, and their paths are shorter than `PATH_MAX`.
  pub path_find-first :
      (name d dir : Bytes) (ds before after : List Bytes) (later : Option Bytes)
      → d ∷ ds ≡ before ++ dir ∷ after
      → Apart (d ∷ ds)
      → Lack name before
      → 0 < length dir
      → length (join dir name) < path_max
      → is_executable stat (join dir name) ≡ true
      → (path_find stat (some (joined_by colon (d ∷ ds))) none name
          ≡ (found (join dir name), d ∷ ds))
        × (path_find stat later (some (d ∷ ds)) name ≡ (found (join dir name), d ∷ ds))
  unfolding path_find
  path_find-first name d dir ds before after later e h lack some_there short there =
      let result : search stat name (d ∷ ds) ≡ found (join dir name) =
        ap (search stat name) e
        ∙ (search-append name before (dir ∷ after) lack
            ∙ search-found name dir after some_there short there) in
      (rw (entries-joined_by d ds h) (ap (λ r. (r, d ∷ ds)) result), ap (λ r. (r, d ∷ ds)) result)

  -- An empty directory in `PATH` ends the search: the directories behind it are not looked at.
  pub path_find_empty :
      (name d : Bytes) (ds before after : List Bytes)
      → d ∷ ds ≡ before ++ [] ∷ after
      → Apart (d ∷ ds)
      → Lack name before
      → path_find stat (some (joined_by colon (d ∷ ds))) none name ≡ (missing, d ∷ ds)
  unfolding path_find search
  path_find_empty name d ds before after e h lack = rw (entries-joined_by d ds h) (
      ap (λ r. (r, d ∷ ds)) (ap (search stat name) e ∙ search-append name before ([] ∷ after) lack))
