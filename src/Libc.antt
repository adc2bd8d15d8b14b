-- ===== src/Libc.antt =====
-- src/lib/libc.c, src/lib/string.c, src/lib/katoi.c and userspace/libc/src/string.c: memory as one
-- function from addresses to bytes, which source and destination share, and pointers that do not
-- pass the end of the address space. A loop that looks for a terminator takes fuel; `none` means
-- that the fuel ran out.
pub mod Copy
pub mod Text
pub mod Number
mod Tests
pub mod User
use quantum_kernel.Prelude.{
  mul-le, sub-mul, length-drop, get_or-drop, le→leb, to_int, ltb, leb, if◌then◌else◌, bit, u8, u16,
  u32, ltb→lt, lt→ltb, le→ltb, ==_iff, Bool-cases, Option-cases, length, get_or, set, take, drop,
  length-append, length-set, get_or-set_self, get_or-set_ne, replicate, ℤ, pos, negsuc, is_neg,
  sign_extend, ℕ, zero, suc, ◌+◌, ◌-◌, ◌*◌, ◌/◌, ◌%◌, ◌^◌, ◌≤◌, ◌<◌, min, max, ◌≡◌, refl, sym, ap,
  ap₂, ◌∙◌, ◌≢◌, ◌↔◌, ◌⊎◌, inl, inr, Bool, true, false, ◌&&◌, ◌||◌, not, Option, none, some, List,
  [], ◌∷◌, ◌++◌, map, append-nil, append_assoc, arith, ◌==◌,
}
use quantum_kernel.Bytes.{Bytes, write8}

unfoldable pub memset : ℕ → ℕ → ℕ → Bytes → Bytes
memset p value zero m = m
memset p value (suc num) m = memset (p + 1) value num (write8 m p value)

unfoldable pub memcpy : ℕ → ℕ → ℕ → Bytes → Bytes
memcpy d s zero m = m
memcpy d s (suc n) m = memcpy (d + 1) (s + 1) n (write8 m d (m s))

-- `a - b` of two bytes, as an `int`.
abbrev pub byte_diff : ℕ → ℕ → ℤ
byte_diff a b = if leb b a then pos (a - b) else negsuc (b - a - 1)

unfoldable pub memcmp : ℕ → ℕ → ℕ → Bytes → ℤ
memcmp p1 p2 zero m = pos 0
memcmp p1 p2 (suc n) m =
    let rest = memcmp (p1 + 1) (p2 + 1) n m in
    if m p1 == m p2 then rest else byte_diff (m p1) (m p2)

-- `while (s[len]) len++;`
unfoldable pub strlen : ℕ → ℕ → ℕ → Bytes → Option ℕ
strlen zero s len m = none
strlen (suc fuel) s len m =
    let rest = strlen fuel s (len + 1) m in if m (s + len) == 0 then some len else rest

unfoldable pub strcmp : ℕ → ℕ → ℕ → Bytes → Option ℤ
strcmp zero s1 s2 m = none
strcmp (suc fuel) s1 s2 m =
    let rest = strcmp fuel (s1 + 1) (s2 + 1) m in
    if not (m s1 == 0) && (m s1 == m s2) then rest else some (byte_diff (m s1) (m s2))

-- The loop of `strncmp` with `n` rounds left, where the pointers have moved along.
unfoldable pub strncmp_loop : ℕ → ℕ → ℕ → Bytes → ℤ
strncmp_loop s1 s2 zero m = pos 0
strncmp_loop s1 s2 (suc n) m =
    let rest = strncmp_loop (s1 + 1) (s2 + 1) n m in
    if not (m s1 == m s2) || (m s1 == 0) || (m s2 == 0) then byte_diff (m s1) (m s2) else rest

-- The count is an `int`.
unfoldable pub strncmp : ℕ → ℕ → ℤ → Bytes → ℤ
strncmp s1 s2 (pos n) m = strncmp_loop s1 s2 n m
strncmp s1 s2 (negsuc _) m = pos 0

-- `while ((*d++ = *src++));`
unfoldable pub strcpy : ℕ → ℕ → ℕ → Bytes → Option Bytes
strcpy zero d src m = none
strcpy (suc fuel) d src m =
    let rest = strcpy fuel (d + 1) (src + 1) (write8 m d (m src)) in
    if m src == 0 then some (write8 m d (m src)) else rest

-- The first loop of `strncpy`, up to the end of the string: the rounds left, the next address and the
-- memory.
unfoldable pub copy_text : ℕ → ℕ → ℕ → Bytes → ℕ × ℕ × Bytes
copy_text zero d src m = (zero, d, m)
copy_text (suc n) d src m =
    let rest = copy_text n (d + 1) (src + 1) (write8 m d (m src)) in
    if m src == 0 then (suc n, d, m) else rest

-- The second loop stores zeros in the rounds left; the count is an `int`.
unfoldable pub strncpy : ℕ → ℕ → ℤ → Bytes → Bytes
strncpy d src (pos n) m = let (n', d', m') = copy_text n d src m in memset d' 0 n' m'
strncpy d src (negsuc _) m = m

-- `while (*d) d++;`
unfoldable pub string_end : ℕ → ℕ → Bytes → Option ℕ
string_end zero d m = none
string_end (suc fuel) d m =
    let rest = string_end fuel (d + 1) m in if m d == 0 then some d else rest

unfoldable pub strcat : ℕ → ℕ → ℕ → ℕ → Bytes → Option Bytes
strcat fuel fuel' d src m = elim (string_end fuel d m) [
  | none ↦ none
  | some e ↦ strcpy fuel' e src m
]
