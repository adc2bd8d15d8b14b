-- ===== src/Fat/Tests/Writes.antt =====
-- The theorems on `fat32_write` of src/fs/fat32.c at concrete inputs.
use quantum_kernel.Prelude.{
  ltb, if◌then◌else◌, pos, ℕ, zero, suc, ◌≡◌, refl, inr, some, [], ◌∷◌, arith,
}
use quantum_kernel.Bytes.{zeros}
use quantum_kernel.Fat.Tests.{state, state-Holds, file, chain, table}
use quantum_kernel.Fat.File.{ReadResult, read, seek}
use quantum_kernel.Fat.Write.{WriteResult, write}
use quantum_kernel.Fat.Write.Apart.{Distinct, and, empty, NotIn}
use quantum_kernel.Fat.Write.Call.{write_lem, WritesFile}
use quantum_kernel.Fat.Write.RoundTrip.{read-write}

other_cluster : NotIn 3 (5 ∷ [])
other_cluster zero hi e = absurd (omega arith)
other_cluster (suc i) hi e = absurd (omega arith)

pub chain-Distinct : Distinct (3 ∷ 5 ∷ [])
chain-Distinct = and other_cluster (and (λ i hi e. absurd (omega arith)) empty)

-- A hundred bytes from position 500 on, over the end of the first cluster.
write_lem_example :
    (o : WriteResult) × (write (some file) (some (λ k. k)) 100 state ≡ some (inr o))
    × WritesFile file (λ k. k) 100 (3 ∷ 5 ∷ []) state table o
write_lem_example =
    write_lem file (λ k. k) 100 state table (3 ∷ 5 ∷ []) state-Holds refl chain chain-Distinct
      (omega arith) (omega arith) (omega arith)

read-write_example :
    (o : WriteResult) × (r : ReadResult) × (write (some file) (some (λ k. k)) 100 state
      ≡ some (inr o))
    × (read (some (seek o.file 500 0).1) (some zeros) 100 o.state ≡ some (inr r))
    × (o.result ≡ pos 100)
    × (r.result ≡ pos 100)
    × ((k : ℕ) → r.buffer k ≡ (if ltb k 100 then k else 0))
read-write_example =
    read-write file (λ k. k) zeros 100 state table (3 ∷ 5 ∷ []) state-Holds refl chain
      chain-Distinct (omega arith) (omega arith) (omega arith) (omega arith)
