-- ===== src/Bytes.antt =====
-- Memory that C code addresses by byte: a buffer is a function from offsets to bytes. Little-endian
-- loads and stores through casted pointers, and the block operations of src/lib/libc.c in closed
-- form (the loops themselves are in `Libc`).
pub mod Laws
use quantum_kernel.Prelude.{
  ℕ, zero, suc, [], ◌∷◌, ◌+◌, ◌-◌, ◌*◌, ◌/◌, ◌%◌, Bool, ◌&&◌, List, ltb, leb, ◌==◌, if◌then◌else◌,
  get_or, length,
}

abbrev pub Bytes : Type 0
Bytes = ℕ → ℕ

abbrev pub zeros : Bytes
zeros k = 0

-- `buffer[o] = v`
unfoldable pub write8 : Bytes → ℕ → ℕ → Bytes
write8 b o v k = if k == o then v % 256 else b k

-- `*(uint16_t*)(buffer + o)`
unfoldable pub read16 : Bytes → ℕ → ℕ
read16 b o = b o + b (o + 1) * 256

unfoldable pub write16 : Bytes → ℕ → ℕ → Bytes
write16 b o v k = if k == o then v % 256 else if k == o + 1 then v / 256 % 256 else b k

-- `*(uint32_t*)(buffer + o)`
unfoldable pub read32 : Bytes → ℕ → ℕ
read32 b o = b o + b (o + 1) * 256 + b (o + 2) * 65536 + b (o + 3) * 16777216

unfoldable pub write32 : Bytes → ℕ → ℕ → Bytes
write32 b o v k =
    if k == o
    then v % 256
    else if k == o + 1
    then v / 256 % 256
    else if k == o + 2
    then v / 65536 % 256
    else if k == o + 3
    then v / 16777216 % 256
    else b k

-- `memcpy(dst + d, src + s, n)` between two buffers
unfoldable pub copy : Bytes → ℕ → Bytes → ℕ → ℕ → Bytes
copy dst d src s n k = if leb d k && ltb k (d + n) then src (s + (k - d)) else dst k

-- `memset(b + o, v, n)`
unfoldable pub fill : Bytes → ℕ → ℕ → ℕ → Bytes
fill b o v n k = if leb o k && ltb k (o + n) then v else b k

-- A copy out of a literal of bytes.
unfoldable pub store_list : Bytes → ℕ → List ℕ → Bytes
store_list b o xs k = if leb o k && ltb k (o + length xs) then get_or xs (k - o) 0 else b k

-- What the pointer `b + o` addresses.
abbrev pub from : Bytes → ℕ → Bytes
from b o k = b (o + k)

-- `n` bytes at `o`.
unfoldable pub load_list : ℕ → Bytes → ℕ → List ℕ
load_list zero b o = []
load_list (suc n) b o = b o ∷ load_list n b (o + 1)
