-- ===== src/Libc/Copy.antt =====
-- The block operations of src/lib/libc.c in closed form.
use quantum_kernel.Libc.{memset, memcpy}
use quantum_kernel.Prelude.{ℕ, zero, suc, ◌+◌, ◌%◌, ◌≤◌, ◌<◌, ◌≡◌, ◌⊎◌, arith}
use quantum_kernel.Bytes.{Bytes, write8, copy, fill}

-- `memset` writes the bytes of its range and no other.
pub memset-fill : (n p v : ℕ) (m : Bytes) (k : ℕ) → memset p v n m k ≡ fill m p (v % 256) n k
unfolding memset fill write8
memset-fill zero p v m k = ground arith
memset-fill (suc n) p v m k = ground (arith, memset-fill n (p + 1) v (write8 m p v) k)

-- Two ranges for which a copy from the first byte on is right: apart, or the destination first.
abbrev pub Forward : ℕ → ℕ → ℕ → Type 0
Forward d s n = (d ≤ s) ⊎ (s + n ≤ d)

-- `memcpy` of bytes, to a destination that does not start inside the source behind its first byte:
-- every byte of the destination is the source's byte from before the call, and no other changes.
pub memcpy-copy :
    (n d s : ℕ) (m : Bytes) (k : ℕ)
    → ((a : ℕ) → m a < 256)
    → Forward d s n
    → memcpy d s n m k ≡ copy m d m s n k
unfolding memcpy copy write8
memcpy-copy zero d s m k small way = ground arith
memcpy-copy (suc n) d s m k small way =
    ground (arith, memcpy-copy n (d + 1) (s + 1) (write8 m d (m s)) k, small s)
