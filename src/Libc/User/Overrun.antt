-- ===== src/Libc/User/Overrun.antt =====
-- `strncpy` of userspace/libc/src/string.c on a string shorter than its count.
use quantum_kernel.Libc.Copy.{memset-fill}
use quantum_kernel.Libc.User.Agree.{memset_agrees}
use mathlib.Core.Path.{subst}
use quantum_kernel.Libc.Text.{IsString, rounds, IsString-write8, rounds-length}
use quantum_kernel.Libc.User.{copy_until, strncpy, memset}
use quantum_kernel.Prelude.{
  length, ℕ, suc, ◌+◌, ◌-◌, ◌%◌, ◌≤◌, ◌<◌, ◌≡◌, sym, ap, ◌∙◌, ◌⊎◌, List, [], ◌∷◌, arith,
}
use quantum_kernel.Bytes.{Bytes, write8, fill}

-- A count of `n` more than the string's bytes.
abbrev past : List ℕ → ℕ → ℕ
past [] n = n
past (_ ∷ cs) n = suc (past cs n)

past-length : (cs : List ℕ) (n : ℕ) → past cs n ≡ length cs + n
past-length [] n = omega arith
past-length (_ ∷ cs) n = omega (arith, past-length cs n)

-- The first loop leaves the count of the bytes behind the string, the terminator's included, and has
-- copied the terminator.
copy_until_lem :
    (cs : List ℕ) (n d s : ℕ) (m : Bytes)
    → IsString m s cs
    → (d + past cs (suc n) ≤ s) ⊎ (s + rounds cs ≤ d)
    → ((copy_until (past cs (suc n)) d s m).0 ≡ suc n)
      × ((copy_until (past cs (suc n)) d s m).1 ≡ d + rounds cs)
unfolding copy_until IsString
copy_until_lem [] n d s m h apart = ground arith
copy_until_lem (c ∷ cs) n d s m h apart =
    let h' = IsString-write8 cs (s + 1) d (m s) m (ground arith) h.2 in
    let rest = copy_until_lem cs n (d + 1) (s + 1) (write8 m d (m s)) h' (ground arith) in
    ground (arith, rest)

padded :
    (cs : List ℕ) (k d s : ℕ) (m : Bytes)
    → IsString m s cs
    → (d + past cs (suc k) ≤ s) ⊎ (s + rounds cs ≤ d)
    → strncpy d s (past cs (suc k)) m (d + past cs (suc k)) ≡ 0
unfolding strncpy fill
padded cs k d s m h apart =
    let n = past cs (suc k) in
    let (left, from, m') = copy_until n d s m in
    let loop = copy_until_lem cs k d s m h apart in
    let e : memset from 0 left m' (d + n) ≡ fill m' from (0 % 256) left (d + n) =
      ap (λ f. f (d + n)) (memset_agrees left from 0 m') ∙ memset-fill left from 0 m' (d + n) in
    ground (arith, e, loop, past-length cs (suc k), rounds-length cs)

-- `strncpy` of a program, with a count greater than the length of the string and the destination
-- apart from it: the byte behind the `n` bytes of the destination is overwritten with 0.
pub strncpy_overruns :
    (cs : List ℕ) (n d s : ℕ) (m : Bytes)
    → IsString m s cs
    → length cs < n
    → (d + n ≤ s) ⊎ (s + rounds cs ≤ d)
    → strncpy d s n m (d + n) ≡ 0
unfolding strncpy fill
strncpy_overruns cs n d s m h short apart =
    let k = n - (length cs + 1) in
    let e : n ≡ past cs (suc k) = omega (arith, past-length cs (suc k)) in
    subst (λ c. strncpy d s c m (d + c) ≡ 0) (sym e) (padded cs k d s m h (ground (arith, e)))
