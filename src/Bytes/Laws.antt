-- ===== src/Bytes/Laws.antt =====
-- Loads after stores.
use quantum_kernel.Prelude.{
  zero, suc, List, [], ◌∷◌, get_or, ℕ, ◌+◌, ◌^◌, ◌≤◌, ◌<◌, ◌≡◌, ◌⊎◌, arith, List, ◌∷◌, get_or, ◌-◌,
  suc,
}
use quantum_kernel.Bytes.{Bytes, read16, write16, read32, write32, copy, store_list}

module _ (b : Bytes) where
  pub read16-write16 : (o v : ℕ) → v < 2 ^ 16 → read16 (write16 b o v) o ≡ v
  unfolding read16 write16
  read16-write16 o v h = ground arith

  pub read32-write32 : (o v : ℕ) → v < 2 ^ 32 → read32 (write32 b o v) o ≡ v
  unfolding read32 write32
  read32-write32 o v h = ground arith

  pub read32-write32_apart :
      (o p v : ℕ) → (o + 4 ≤ p) ⊎ (p + 4 ≤ o) → read32 (write32 b o v) p ≡ read32 b p
  unfolding read32 write32
  read32-write32_apart o p v h = ground arith

pub read32-copy :
    (dst src : Bytes) (n p : ℕ) → p + 4 ≤ n → read32 (copy dst 0 src 0 n) p ≡ read32 src p
unfolding read32 copy
read32-copy dst src n p h = ground arith

-- Memory of bytes.
abbrev pub AllBytes : List ℕ → Type 0
AllBytes [] = Unit
AllBytes (x ∷ xs) = (x < 256) × AllBytes xs

get_or-small : (xs : List ℕ) (i : ℕ) → AllBytes xs → get_or xs i 0 < 256
get_or-small [] i h = omega arith
get_or-small (x ∷ xs) zero h = h.0
get_or-small (x ∷ xs) (suc i) h = get_or-small xs i h.1

pub store_list_small :
    (b : Bytes) (o : ℕ) (xs : List ℕ)
    → ((a : ℕ) → b a < 256)
    → AllBytes xs
    → (a : ℕ) → store_list b o xs a < 256
unfolding store_list
store_list_small b o xs h k a = ground (arith, h a, get_or-small xs (a - o) k)
