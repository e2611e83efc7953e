-- ===== src/Base/Str.antt =====
-- src/bas/base/str.c. A `char *` is the bytes from it up to the NUL; a NUL that the code writes into
-- a buffer cuts the text before it from the text behind it, so a function that moves a cursor
-- returns both. A NULL result is `none`.
pub mod Trim
pub mod Affix
use bas_c.Common.{
  ℕ, zero, suc, ◌-◌, Bool, true, false, ◌&&◌, Option, none, some, [], ◌∷◌, Bytes, ltb, ◌==◌,
  if◌then◌else◌, length, get_or, take, drop,
}
use bas_c.Base.CString.{isspace, str_eq, strn_eq}

-- `a` and `b` may be NULL.
unfoldable pub streq : Option Bytes → Option Bytes → Bool
unfolding str_eq
streq none none = true
streq none (some b) = false
streq (some a) none = false
streq (some a) (some b) = str_eq a b

-- `alive` is the answer of `malloc`.
unfoldable pub str_dup : Bool → Option Bytes → Option Bytes
str_dup alive none = none
str_dup alive (some s) = if alive then some (take (length s) s) else none

unfoldable pub startswith : Bytes → Bytes → Option Bytes
unfolding strn_eq
startswith s t = let n = length t in if strn_eq s t n then some (drop n s) else none

unfoldable pub endswith : Bytes → Bytes → Option Bytes
unfolding str_eq
endswith s t =
    let ns = length s in
    let nt = length t in
    if ltb ns nt
    then none
    else if str_eq (drop (ns - nt) s) t
    then some (drop (ns - nt) s)
    else none

-- `while (isspace(*s)) s++`, which stops at the NUL
unfoldable pub ltrim : Bytes → Bytes
unfolding isspace
ltrim [] = []
ltrim (c ∷ s) = if isspace c then ltrim s else c ∷ s

-- `n` bytes are left before `end`; a NUL at `n` cuts the text.
unfoldable pub rtrim_from : ℕ → Bytes → Bytes
unfolding isspace
rtrim_from zero s = s
rtrim_from (suc n) s =
    let rest = rtrim_from n (take n s) in if isspace (get_or s n 0) then rest else s

unfoldable pub rtrim : Bytes → Bytes
unfolding rtrim_from
rtrim s = rtrim_from (length s) s

unfoldable pub trim : Bytes → Bytes
unfolding ltrim rtrim
trim s = rtrim (ltrim s)

unfoldable pub chop : Bytes → Bytes
chop s = let len = length s in if len == 0 then s else take (len - 1) s

-- `if (len > 0 && *end == c) { *end-- = '\0'; len--; }`
unfoldable pub chomp_byte : ℕ → Bytes → Bytes
chomp_byte c s =
    let len = length s in if ltb 0 len && get_or s (len - 1) 0 == c then take (len - 1) s else s

unfoldable pub chomp : Bytes → Bytes
unfolding chomp_byte
chomp s = chomp_byte b'\r' (chomp_byte b'\n' s)
