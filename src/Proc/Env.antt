-- ===== src/Proc/Env.antt =====
-- src/bas/proc/env.c, built for Linux. `getenv`, `stat`, `readlink` and `realpath` are arguments;
-- `stat` returns the mode of a file that exists. The result of `str_dup` is not tested: there is
-- memory.
pub mod Search
pub mod Self
use bas_c.Io.{path_normalize}
use bas_c.Common.{
  ℕ, ◌+◌, ◌-◌, ◌/◌, ◌%◌, Bool, false, not, ◌||◌, Option, none, some, List, [], ◌∷◌, ◌++◌, Bytes,
  codes, ltb, leb, ◌==◌, if◌then◌else◌, length, get_or, take,
}

-- The strings in `pathv`, between its NULs: each `:` has become one.
unfoldable pub entries : Bytes → List Bytes
entries [] = [] ∷ []
entries (c ∷ s) =
    let rest = entries s in
    if c == b':' then [] ∷ rest else elim rest [ [] ↦ (c ∷ []) ∷ [] | e ∷ es ↦ (c ∷ e) ∷ es ]

-- What a search returns: a copy of the path, NULL, or nothing since `join` is too small.
pub data SearchResult : Type 0 where
  found : Bytes → SearchResult
  missing too_long : SearchResult

abbrev pub path_max : ℕ
path_max = 4096

abbrev pub join : Bytes → Bytes → Bytes
join dir name = dir ++ b'/' ∷ name

module _ (stat : Bytes → Option ℕ) where
  -- One of `S_IXUSR`, `S_IXGRP` and `S_IXOTH` is set in the mode of the file.
  unfoldable pub is_executable : Bytes → Bool
  is_executable path = elim (stat path) [
    | some mode ↦ mode / 64 % 2 == 1 || (mode / 8 % 2 == 1 || mode % 2 == 1)
    | none ↦ false
  ]

  -- `while (*p)`: an empty string ends the search.
  unfoldable pub search : Bytes → List Bytes → SearchResult
  unfolding is_executable
  search name [] = missing
  search name ([] ∷ dirs) = missing
  search name ((c ∷ dir) ∷ dirs) =
      let rest = search name dirs in
      let path = join (c ∷ dir) name in
      if leb path_max (length path)
      then too_long
      else if is_executable path
      then found path
      else rest

  -- The result, and `pathv` afterwards; `pathenv` is what `getenv` returns.
  unfoldable pub path_find : Option Bytes → Option (List Bytes) → Bytes → SearchResult × List Bytes
  unfolding entries search
  path_find pathenv (some pathv) name = (search name pathv, pathv)
  path_find (some path) none name = (search name (entries path), entries path)
  path_find none none name = (search name (entries []), entries [])

  -- `none` where `path_find` fails.
  unfoldable pub path_find_norm :
      (Bytes → Option Bytes) → Option Bytes → Option (List Bytes) → Bytes → Option (Option Bytes)
  path_find_norm realpath pathenv pathv name =
      if get_or name 0 0 == b'/'
      then some (path_normalize realpath name)
      else elim (path_find pathenv pathv name).0 [
        | found path ↦ some (path_normalize realpath path)
        | missing ↦ some (path_normalize realpath name)
        | too_long ↦ none
      ]

-- The first of `tmp_dir`, `TMP`, `TEMP` and `/tmp` that there is.
unfoldable pub temp_dir : (Bytes → Option Bytes) → Option Bytes → Bytes
temp_dir getenv (some dir) = dir
temp_dir getenv none = elim (getenv (codes "TMP")) [
  | some dir ↦ dir
  | none ↦ elim (getenv (codes "TEMP")) [ some dir ↦ dir | none ↦ codes "/tmp" ]
]

-- What is stored in the `size` bytes of `path_out`; `strncpy` stores no NUL where the text is as long
-- as the buffer.
pub record Stored : Type 0 where
  pub text : Bytes
  pub ends : Bool

unfoldable pub etempl : (Bytes → Option Bytes) → ℕ → Option Bytes → Option Bytes → Stored
unfolding temp_dir
etempl getenv size templ dir =
    let name : Bytes = elim templ [ some t ↦ t | none ↦ codes "XXXXXX" ] in
    if get_or name 0 0 == b'/'
    then record { text = take size name; ends = ltb (length name) size }
    else record { text = take (size - 1) (join (temp_dir getenv dir) name); ends = ltb 0 size }

-- The number that is returned, and the bytes before the NUL in a buffer of `size` bytes. `link` is
-- what `/proc/self/exe` points to.
unfoldable pub get_self_exe_path : Option Bytes → Option ℕ → ℕ × Bytes
get_self_exe_path link none = (1024, [])
get_self_exe_path none (some size) = (if size == 0 then 1024 else 0, [])
get_self_exe_path (some path) (some size) =
    if size == 0 then (1024, []) else (let kept = take (size - 1) path in (length kept, kept))

-- `none` is NULL; `alive` is the answer of `malloc`.
unfoldable pub self_exe_dup : Bool → Option Bytes → Option Bytes
unfolding get_self_exe_path
self_exe_dup alive link =
    let (needed, stack_buf) = get_self_exe_path link (some 1024) in
    let (final_len, heap_buf) = get_self_exe_path link (some (needed + 1)) in
    if needed == 0
    then none
    else if ltb needed 1024
    then some stack_buf
    else if not alive
    then none
    else if final_len == 0 || ltb needed final_len
    then none
    else some heap_buf

-- The result, and `g_self_exe` afterwards.
unfoldable pub self_exe : Bool → Option Bytes → Option Bytes → Option Bytes × Option Bytes
unfolding self_exe_dup
self_exe alive link (some path) = (some path, some path)
self_exe alive link none = let path = self_exe_dup alive link in (path, path)
