-- ===== src/Libc/Number.antt =====
-- Numbers as text: `atoi` and `itoa` of src/lib/libc.c, and `katoi` of src/lib/katoi.c. The text
-- that is read is a C string, the list of its bytes; the text that is written stands in memory.
pub mod Digits
pub mod Print
pub mod RoundTrip
use quantum_kernel.Prelude.{
  mul-le, sub-mul, length-drop, get_or-drop, le→leb, to_int, ltb, leb, if◌then◌else◌, bit, u8, u16,
  u32, ltb→lt, lt→ltb, le→ltb, ==_iff, Bool-cases, Option-cases, length, get_or, set, take, drop,
  length-append, length-set, get_or-set_self, get_or-set_ne, replicate, ℤ, pos, negsuc, is_neg,
  sign_extend, ℕ, zero, suc, ◌+◌, ◌-◌, ◌*◌, ◌/◌, ◌%◌, ◌^◌, ◌≤◌, ◌<◌, min, max, ◌≡◌, refl, sym, ap,
  ap₂, ◌∙◌, ◌≢◌, ◌↔◌, ◌⊎◌, inl, inr, Bool, true, false, ◌&&◌, ◌||◌, not, Option, none, some, List,
  [], ◌∷◌, ◌++◌, map, append-nil, append_assoc, arith, ◌==◌,
}
use quantum_kernel.Bytes.{Bytes, write8}

-- The loop over the digits; `result`, an `int`, is kept as its 32 bits.
unfoldable pub number : List ℕ → ℕ → ℕ
number [] result = result
number (c ∷ cs) result =
    let rest = number cs (u32 (result * 10 + (c - b'0'))) in
    if leb b'0' c && leb c b'9' then rest else result

-- `sign * result` with the sign -1.
abbrev pub negate : ℕ → ℕ
negate result = u32 (2 ^ 32 - result)

-- From the sign on.
unfoldable pub signed : List ℕ → ℤ
signed [] = pos 0
signed (c ∷ cs) =
    if c == b'-'
    then to_int (negate (number cs 0))
    else if c == b'+'
    then to_int (number cs 0)
    else to_int (number (c ∷ cs) 0)

unfoldable pub skip_spaces : List ℕ → List ℕ
skip_spaces [] = []
skip_spaces (c ∷ cs) =
    let rest = skip_spaces cs in if c == b' ' || c == 9 || c == 10 then rest else c ∷ cs

unfoldable pub atoi : List ℕ → ℤ
atoi str = signed (skip_spaces str)

-- `katoi` skips no line ends.
unfoldable pub skip_blanks : List ℕ → List ℕ
skip_blanks [] = []
skip_blanks (c ∷ cs) = let rest = skip_blanks cs in if c == b' ' || c == 9 then rest else c ∷ cs

unfoldable pub katoi : List ℕ → ℤ
katoi str = signed (skip_blanks str)

-- `"0123456789abcdef"[d]`
abbrev pub digit_char : ℕ → ℕ
digit_char d = if ltb d 10 then b'0' + d else b'a' + (d - 10)

-- `while (value) { … }` for a value that is not negative: `ptr`, and the memory.
unfoldable pub put_digits : ℕ → ℕ → ℕ → ℕ → Bytes → Option (ℕ × Bytes)
put_digits zero value base ptr m = none
put_digits (suc fuel) value base ptr m =
    let quotient = value / base in
    let m' = write8 m ptr (digit_char (value - quotient * base)) in
    let rest = put_digits fuel quotient base (ptr + 1) m' in
    if value == 0 then some (ptr, m) else rest

-- The loop that turns the text round, between `ptr1` and `ptr`.
unfoldable pub turn_round : ℕ → ℕ → ℕ → Bytes → Option Bytes
turn_round zero ptr1 ptr m = none
turn_round (suc fuel) ptr1 ptr m =
    let rest = turn_round fuel (ptr1 + 1) (ptr - 1) (write8 (write8 m ptr (m ptr1)) ptr1 (m ptr)) in
    if ltb ptr1 ptr then rest else some m

-- `*ptr-- = '\0'` and the loop; each round brings the pointers two closer.
unfoldable pub finish : ℕ → ℕ → Bytes → Option Bytes
finish str ptr m = turn_round (ptr - str + 1) str (ptr - 1) (write8 m ptr 0)

-- A value that is not 0, without its sign.
unfoldable pub put_number : ℕ → Bool → ℕ → ℕ → ℕ → Bytes → Option Bytes
put_number fuel is_negative value str base m = elim (put_digits fuel value base str m) [
  | none ↦ none
  | some (ptr, m') ↦
      if is_negative then finish str (ptr + 1) (write8 m' ptr b'-') else finish str ptr m'
]

-- `none` also where C leaves the result open: a negative value in a base other than 10, whose digits
-- are read in front of the table, and the negation of the least `int`.
unfoldable pub itoa : ℕ → ℤ → ℕ → ℕ → Bytes → Option Bytes
itoa fuel value str base m =
    if ltb base 2 || ltb 16 base then some (write8 m str 0) else elim value [
      | pos n ↦
          if n == 0
          then some (write8 (write8 m str b'0') (str + 1) 0)
          else put_number fuel false n str base m
      | negsuc n ↦
          if (base == 10) && ltb (n + 1) (2 ^ 31)
          then put_number fuel true (n + 1) str base m
          else none
    ]
