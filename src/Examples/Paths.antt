-- ===== src/Examples/Paths.antt =====
-- src/bas/proc/env.c: a search in two directories.
use bas_c.Common.{
  ℕ, ◌≡◌, refl, true, Option, none, some, [], ◌∷◌, arith, Bytes, codes, if◌then◌else◌,
}
use bas_c.Proc.Env.{found, path_find, is_executable, etempl}
use bas_c.Proc.Env.Search.{path_find-first}
use bas_c.Base.CString.{str_eq}

-- There is one file, and everyone may execute it.
abbrev one_file : Bytes → Option ℕ
one_file path = if str_eq path (codes "/bin/ls") then some 73 else none

etempl_runs :
    etempl (λ name. none) 10 (some (codes "fileXXXXXX")) none
    ≡ record { text = codes "/tmp/file"; ends = true }
unfolding etempl
etempl_runs = refl

path_find-first_example :
    (path_find one_file (some (codes "/usr:/bin:/x")) none (codes "ls")
      ≡ (found (codes "/bin/ls"), codes "/usr" ∷ codes "/bin" ∷ codes "/x" ∷ []))
    × (path_find one_file none (some (codes "/usr" ∷ codes "/bin" ∷ codes "/x" ∷ [])) (codes "ls")
        ≡ (found (codes "/bin/ls"), codes "/usr" ∷ codes "/bin" ∷ codes "/x" ∷ []))
unfolding is_executable str_eq
path_find-first_example =
    path_find-first one_file (codes "ls") (codes "/usr") (codes "/bin")
      (codes "/bin" ∷ codes "/x" ∷ []) (codes "/usr" ∷ []) (codes "/x" ∷ []) none refl
      (refl, (refl, (refl, tt))) ((omega arith, omega arith, refl), tt) (omega arith) (omega arith)
      refl
