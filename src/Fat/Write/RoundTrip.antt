-- ===== src/Fat/Write/RoundTrip.antt =====
-- What `fat32_write` of src/fs/fat32.c stores, `fat32_read` returns.
use quantum_kernel.Fat.Write.Apart.{Distinct}
use quantum_kernel.Fat.File.Chain.{Links, stream}
use quantum_kernel.Fat.Table.View.{Holds}
use quantum_kernel.Bytes.{Bytes}
use quantum_kernel.Prelude.{
  to_int, ltb, if◌then◌else◌, length, ℕ, ◌+◌, ◌-◌, ◌*◌, ◌^◌, ◌≤◌, ◌<◌, min, ◌≡◌, sym, ap, ◌∙◌, inr,
  true, some, List, arith,
}
use mathlib.Core.Path.{subst}
use native.Mathlib.Nat.{mod-eq_of_lt}
use quantum_kernel.Fat.{State}
use quantum_kernel.Fat.File.{File, ReadResult, read, seek}
use quantum_kernel.Fat.Write.{WriteResult, write}
use quantum_kernel.Fat.Write.Call.{write_lem}
use quantum_kernel.Fat.File.Reads.Call.{read_lem}

seek_back :
    (f : File) (position : ℕ)
    → f.is_open ≡ true
    → position < 2 ^ 32
    → (seek f position 0).1 ≡ record f { position = position }
unfolding seek
seek_back f position opened small =
    rw opened (ap (λ p. record f { position = p; is_open = true }) (mod-eq_of_lt small))

-- That a read of the file returns all of these bytes.
abbrev Returns : File → Bytes → Bytes → ℕ → State → Type 0
Returns g buffer into size s =
    (r : ReadResult) × (read (some g) (some into) size s ≡ some (inr r))
    × (r.result ≡ to_int size)
    × ((k : ℕ) → r.buffer k ≡ (if ltb k size then buffer k else into k))

-- A read from a position where the chain holds the bytes.
read_back :
    (g : File) (buffer into : Bytes) (size : ℕ) (s : State) (t : ℕ → ℕ) (cs : List ℕ)
    → Holds s t
    → g.is_open ≡ true
    → Links s.fs t g.first_cluster cs
    → g.position < g.file_size
    → g.position + size ≤ g.file_size
    → g.file_size ≤ length cs * s.fs.bytes_per_cluster
    → g.position + size < 2 ^ 32
    → ((k : ℕ) → k < size → stream s cs (g.position + k) ≡ buffer k)
    → Returns g buffer into size s
read_back g buffer into size s t cs h opened links before inside enough small bytes =
    let (r, does, all) = read_lem g into size s t cs h opened links before enough small in
    let whole : min size (g.file_size - g.position) ≡ size = omega arith in
    (r, does, all.result ∙ ap to_int whole, λ k. all.bytes k ∙ ground (arith, bytes k))

-- What `fat32_write` stores at a position of an open file, a `fat32_seek` back to it and a
-- `fat32_read` of the same size return: under the conditions of a write that has room, with the
-- file's size inside its chain, both calls end and return the size, and the bytes read are those
-- written.
pub read-write :
    (f : File) (buffer into : Bytes) (size : ℕ) (s : State) (t : ℕ → ℕ) (cs : List ℕ)
    → Holds s t
    → f.is_open ≡ true
    → Links s.fs t f.first_cluster cs
    → Distinct cs
    → 0 < size
    → f.position + size ≤ length cs * s.fs.bytes_per_cluster
    → f.file_size ≤ length cs * s.fs.bytes_per_cluster
    → f.position + size < 2 ^ 32
    → (o : WriteResult) × (r : ReadResult) × (write (some f) (some buffer) size s ≡ some (inr o))
      × (read (some (seek o.file f.position 0).1) (some into) size o.state ≡ some (inr r))
      × (o.result ≡ to_int size)
      × (r.result ≡ to_int size)
      × ((k : ℕ) → r.buffer k ≡ (if ltb k size then buffer k else into k))
read-write f buffer into size s t cs h opened links apart some_left enough inside small =
    let (o, wrote, w) =
      write_lem f buffer size s t cs h opened links apart some_left enough small in
    let g : File = record (o.file) { position = f.position } in
    let opened' : g.is_open ≡ true = w.still_open ∙ opened in
    let (r, does, result, bytes) =
      subst (λ g'. Returns g' buffer into size o.state)
        (sym (seek_back o.file f.position opened' (omega arith)))
        (read_back g buffer into size o.state t cs w.holds opened'
          (rw (w.same_fs, w.same_first) links) (omega (arith, w.grown)) (omega (arith, w.grown))
          (rw w.same_fs (omega (arith, w.grown))) small
          (λ k hk. w.bytes (f.position + k) (omega arith) ∙ ground arith)) in
    (o, r, wrote, does, w.result, result, bytes)
