-- ===== src/Base/Wstring.antt =====
-- src/bas/base/wstring.c: strings of 16-bit units, as the list of the units before the NUL. NULL is
-- `none`.
pub mod Order
pub mod Strstr
use bas_c.Common.{
  Bytes, ℕ, zero, suc, ◌+◌, ◌-◌, max, Bool, true, false, not, Option, none, some, List, [], ◌∷◌,
  Bytes, ℤ, pos, negsuc, ltb, ◌==◌, if◌then◌else◌, length,
}

abbrev pub Wide : Type 0
Wide = List ℕ

-- The loop of `wstring_cmp` and the tests behind it.
unfoldable pub cmp_units : Wide → Wide → ℤ
cmp_units [] [] = pos 0
cmp_units [] (y ∷ b) = negsuc 0
cmp_units (x ∷ a) [] = pos 1
cmp_units (x ∷ a) (y ∷ b) =
    let rest = cmp_units a b in if ltb x y then negsuc 0 else if ltb y x then pos 1 else rest

unfoldable pub wstring_cmp : Option Wide → Option Wide → ℤ
unfolding cmp_units
wstring_cmp none none = pos 0
wstring_cmp none (some b) = pos 1
wstring_cmp (some a) none = negsuc 0
wstring_cmp (some a) (some b) = cmp_units a b

-- The inner loop of `wstring_strstr`: whether the needle stands at the start.
unfoldable pub matches_at : Wide → Wide → Bool
matches_at haystack [] = true
matches_at [] (c ∷ needle) = false
matches_at (d ∷ haystack) (c ∷ needle) =
    let rest = matches_at haystack needle in if not (d == c) then false else rest

-- The outer loop, with `k` rounds left, at the text from unit `i` on.
unfoldable pub strstr_loop : Wide → ℕ → Wide → Option Wide
unfolding matches_at
strstr_loop needle zero haystack = none
strstr_loop needle (suc k) [] = if matches_at [] needle then some [] else none
strstr_loop needle (suc k) (c ∷ haystack) =
    let rest = strstr_loop needle k haystack in
    if matches_at (c ∷ haystack) needle then some (c ∷ haystack) else rest

-- The text from the place on, or `none` for NULL.
unfoldable pub wstring_strstr : Wide → Wide → Option Wide
unfolding strstr_loop
wstring_strstr haystack [] = some haystack
wstring_strstr haystack (c ∷ needle) =
    if ltb (length haystack) (length (c ∷ needle))
    then none
    else strstr_loop (c ∷ needle) (length haystack - length (c ∷ needle) + 1) haystack

-- A NUL ends the list, so the length is that of the list; NULL has none.
unfoldable pub wstring_len : Option Wide → ℕ
wstring_len none = 0
wstring_len (some str) = length str

-- `alive` is the answer of `malloc`.
unfoldable pub wstring_dup : Bool → Option Wide → Option Wide
wstring_dup alive none = none
wstring_dup alive (some str) = if alive then some str else none

-- `while (ascii[i] != 0 && i < max_len - 1)`: the units stored, with `room` units left.
unfoldable pub ascii_units : Bytes → ℕ → Wide
ascii_units [] room = []
ascii_units (c ∷ ascii) zero = []
ascii_units (c ∷ ascii) (suc room) = c ∷ ascii_units ascii room

-- The string stored in `wide`, or `none` where nothing is stored. `ascii` is `none` for NULL.
unfoldable pub wstring_from_ascii : Option Bytes → ℕ → Option Wide
unfolding ascii_units
wstring_from_ascii ascii zero = none
wstring_from_ascii none (suc max) = some []
wstring_from_ascii (some ascii) (suc max) = some (ascii_units ascii max)
