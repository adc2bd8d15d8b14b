-- ===== src/Libc/User.antt =====
-- userspace/libc/src/string.c: the programs' own string functions, over the same memory.
pub mod Agree
pub mod Overrun
use quantum_kernel.Libc.{byte_diff}
use quantum_kernel.Prelude.{
  mul-le, sub-mul, length-drop, get_or-drop, le→leb, to_int, ltb, leb, if◌then◌else◌, bit, u8, u16,
  u32, ltb→lt, lt→ltb, le→ltb, ==_iff, Bool-cases, Option-cases, length, get_or, set, take, drop,
  length-append, length-set, get_or-set_self, get_or-set_ne, replicate, ℤ, pos, negsuc, is_neg,
  sign_extend, ℕ, zero, suc, ◌+◌, ◌-◌, ◌*◌, ◌/◌, ◌%◌, ◌^◌, ◌≤◌, ◌<◌, min, max, ◌≡◌, refl, sym, ap,
  ap₂, ◌∙◌, ◌≢◌, ◌↔◌, ◌⊎◌, inl, inr, Bool, true, false, ◌&&◌, ◌||◌, not, Option, none, some, List,
  [], ◌∷◌, ◌++◌, map, append-nil, append_assoc, arith, ◌==◌,
}
use quantum_kernel.Bytes.{Bytes, write8}

unfoldable pub memset : ℕ → ℕ → ℕ → Bytes → Bytes
memset p c zero m = m
memset p c (suc n) m = memset (p + 1) c n (write8 m p c)

unfoldable pub memcpy : ℕ → ℕ → ℕ → Bytes → Bytes
memcpy d s zero m = m
memcpy d s (suc n) m = memcpy (d + 1) (s + 1) n (write8 m d (m s))

unfoldable pub memcmp : ℕ → ℕ → ℕ → Bytes → ℤ
memcmp p1 p2 zero m = pos 0
memcmp p1 p2 (suc n) m =
    let rest = memcmp (p1 + 1) (p2 + 1) n m in
    if not (m p1 == m p2) then byte_diff (m p1) (m p2) else rest

-- `while (*s++) len++;`
unfoldable pub strlen : ℕ → ℕ → ℕ → Bytes → Option ℕ
strlen zero s len m = none
strlen (suc fuel) s len m =
    let rest = strlen fuel (s + 1) (len + 1) m in if m s == 0 then some len else rest

unfoldable pub strcpy : ℕ → ℕ → ℕ → Bytes → Option Bytes
strcpy zero d src m = none
strcpy (suc fuel) d src m =
    let m' = write8 m d (m src) in
    let rest = strcpy fuel (d + 1) (src + 1) m' in if m src == 0 then some m' else rest

-- `while (n && (*dst++ = *src++)) n--;`: `n`, `dst` and the memory behind the loop.
unfoldable pub copy_until : ℕ → ℕ → ℕ → Bytes → ℕ × ℕ × Bytes
copy_until zero d s m = (0, d, m)
copy_until (suc n) d s m =
    let m' = write8 m d (m s) in
    let rest = copy_until n (d + 1) (s + 1) m' in if m s == 0 then (suc n, d + 1, m') else rest

unfoldable pub strncpy : ℕ → ℕ → ℕ → Bytes → Bytes
strncpy d s n m = let (n', d', m') = copy_until n d s m in memset d' 0 n' m'

unfoldable pub strcmp : ℕ → ℕ → ℕ → Bytes → Option ℤ
strcmp zero s1 s2 m = none
strcmp (suc fuel) s1 s2 m =
    let rest = strcmp fuel (s1 + 1) (s2 + 1) m in
    if not (m s1 == 0) && (m s1 == m s2) then rest else some (byte_diff (m s1) (m s2))

unfoldable pub strncmp : ℕ → ℕ → ℕ → Bytes → ℤ
strncmp s1 s2 zero m = pos 0
strncmp s1 s2 (suc n) m =
    let rest = strncmp (s1 + 1) (s2 + 1) n m in
    if not (m s1 == 0) && (m s1 == m s2) then rest else byte_diff (m s1) (m s2)

-- The address found, if any; `c` is converted to a `char`.
unfoldable pub strchr : ℕ → ℕ → ℕ → Bytes → Option (Option ℕ)
strchr zero s c m = none
strchr (suc fuel) s c m =
    let rest = strchr fuel (s + 1) c m in
    if m s == 0 then some none else if m s == u8 c then some (some s) else rest

unfoldable pub string_end : ℕ → ℕ → Bytes → Option ℕ
string_end zero d m = none
string_end (suc fuel) d m =
    let rest = string_end fuel (d + 1) m in if m d == 0 then some d else rest

unfoldable pub strcat : ℕ → ℕ → ℕ → ℕ → Bytes → Option Bytes
strcat fuel fuel' d src m = elim (string_end fuel d m) [
  | none ↦ none
  | some e ↦ strcpy fuel' e src m
]
