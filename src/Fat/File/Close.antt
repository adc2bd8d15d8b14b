-- ===== src/Fat/File/Close.antt =====
-- `fat32_close` of src/fs/fat32.c and the file's directory entry.
use quantum_kernel.Fat.File.Chain.{read_cluster-Quiet, Quiet, Quiet-Holds, Quiet-content}
use quantum_kernel.Fat.Cluster.RoundTrip.{read_cluster_lem, write_cluster_lem}
use quantum_kernel.Fat.Cluster.Laws.{content}
use quantum_kernel.Fat.Cluster.{read_cluster, write_cluster}
use quantum_kernel.Fat.Table.View.{Holds, InRange}
use quantum_kernel.Fat.{State, Fs}
use quantum_kernel.Bytes.{Bytes, write32, read32, write16, read16}
use quantum_kernel.Fat.File.{File, close}
use mathlib.Core.Path.{subst}
use quantum_kernel.Prelude.{
  ℤ, pos, ℕ, ◌+◌, ◌*◌, ◌/◌, ◌%◌, ◌^◌, ◌≤◌, ◌<◌, ◌≡◌, refl, sym, ◌∙◌, ◌≢◌, ◌⊎◌, true, false, arith,
}

-- The three stores into the entry at `o`.
stored_entry : File → Bytes → ℕ → Bytes
stored_entry f b o =
    let sized = write32 b (o + 28) f.file_size in
    let low = write16 sized (o + 26) (f.first_cluster % 2 ^ 16) in
    write16 low (o + 20) (f.first_cluster / 2 ^ 16 % 2 ^ 16)

-- The entry at `o` of a directory's cluster has the file's size and first cluster.
pub record IsEntry (f : File) (b : Bytes) (o : ℕ) : Type 0 where
  pub size : read32 b (o + 28) ≡ f.file_size
  pub cluster : read16 b (o + 26) + read16 b (o + 20) * 2 ^ 16 ≡ f.first_cluster

module _ (f : File) (b : Bytes) (o : ℕ) where
  stored_kept :
      (k : ℕ)
      → (k < o + 20) ⊎ ((o + 22 ≤ k) × (k < o + 26)) ⊎ (o + 32 ≤ k)
      → stored_entry f b o k ≡ b k
  unfolding stored_entry write16 write32
  stored_kept k apart = ground arith

  stored-IsEntry :
      (b' : Bytes)
      → ((k : ℕ) → k < o + 32 → b' k ≡ stored_entry f b o k)
      → f.file_size < 2 ^ 32
      → f.first_cluster < 2 ^ 32
      → IsEntry f b' o
  unfolding stored_entry write16 write32 read16 read32
  stored-IsEntry b' same small_size small_cluster = record {
    size =
        let e0 = same (o + 28) (omega arith) in
        let e1 = same (o + 28 + 1) (omega arith) in
        let e2 = same (o + 28 + 2) (omega arith) in
        let e3 = same (o + 28 + 3) (omega arith) in ground (arith, e0, e1, e2, e3);
    cluster =
        let e0 = same (o + 26) (omega arith) in
        let e1 = same (o + 26 + 1) (omega arith) in
        let e2 = same (o + 20) (omega arith) in
        let e3 = same (o + 20 + 1) (omega arith) in ground (arith, e0, e1, e2, e3);
  }

-- What `fat32_close` leaves of an open file, its directory entry and the other clusters.
pub record Closed (f : File) (s : State) (t : ℕ → ℕ) (o : ℤ × File × State) : Type 0 where
  pub result : o.0 ≡ pos 0
  pub file : o.1 ≡ record f { is_open = false }
  pub holds : Holds o.2 t
  pub entry : IsEntry f (content o.2 f.dir_cluster) f.dir_entry_offset
  pub kept :
      (k : ℕ)
      → k < s.fs.bytes_per_cluster
      → (k < f.dir_entry_offset + 20)
        ⊎ ((f.dir_entry_offset + 22 ≤ k) × (k < f.dir_entry_offset + 26))
        ⊎ (f.dir_entry_offset + 32 ≤ k)
      → content o.2 f.dir_cluster k ≡ content s f.dir_cluster k
  pub others :
      (d k : ℕ)
      → InRange s.fs d
      → d ≢ f.dir_cluster
      → k < s.fs.bytes_per_cluster
      → content o.2 d k ≡ content s d k

-- The state that the entry's cluster is written from.
filled : File → State → State
filled f s = record ((read_cluster f.dir_cluster s).1) {
  cluster_buffer =
      stored_entry f (read_cluster f.dir_cluster s).1.cluster_buffer f.dir_entry_offset;
}

close-filled :
    (f : File) (s : State)
    → f.is_open ≡ true
    → (read_cluster f.dir_cluster s).0 ≡ true
    → close f s
      ≡ (pos 0, record f { is_open = false }, (write_cluster f.dir_cluster (filled f s)).1)
unfolding close filled stored_entry
close-filled f s opened done = simp (opened, done)

filled-Quiet :
    (f : File) (s : State) → Quiet s (read_cluster f.dir_cluster s).1 → Quiet s (filled f s)
unfolding filled
filled-Quiet f s q = record {
  same_fs = q.same_fs;
  same_dir = q.same_dir;
  same_sectors = q.same_sectors;
  same_faults = q.same_faults;
}

-- `fat32_close` of an open file on a mounted volume whose disk does not fail, where the file's entry
-- lies inside a cluster of the volume and its size and first cluster are 32-bit numbers: it returns
-- 0 and marks the file closed; the entry on disk then has the file's size and first cluster; no other
-- byte of that cluster, no byte of another cluster and no entry of the table changes.
pub close_lem :
    (f : File) (s : State) (t : ℕ → ℕ)
    → Holds s t
    → f.is_open ≡ true
    → InRange s.fs f.dir_cluster
    → f.dir_entry_offset + 32 ≤ s.fs.bytes_per_cluster
    → f.file_size < 2 ^ 32
    → f.first_cluster < 2 ^ 32
    → Closed f s t (close f s)
unfolding filled
close_lem f s t h opened range inside small_size small_cluster =
    let c = f.dir_cluster in
    let o = f.dir_entry_offset in
    let (done, bytes, _) = read_cluster_lem h c range in
    let q = filled-Quiet f s (read_cluster-Quiet h c range) in
    let h' = Quiet-Holds q h in
    let range' : InRange (filled f s).fs c = subst (λ g. InRange g c) (sym q.same_fs) range in
    let fits : (k : ℕ) → k < s.fs.bytes_per_cluster → k < (filled f s).fs.bytes_per_cluster =
      λ k. subst (λ (g : Fs). k < g.bytes_per_cluster) (sym q.same_fs) in
    let (_, _, held, own, other) = write_cluster_lem h' c range' in
    subst (Closed f s t) (sym (close-filled f s opened done)) (record {
      result = refl;
      file = refl;
      holds = held;
      entry =
          stored-IsEntry f _ o _ (λ k near. own k (fits k (omega arith))) small_size small_cluster;
      kept = λ k near apart. own k (fits k near) ∙ stored_kept f _ o k apart ∙ bytes k near;
      others = λ d k there ne near.
          other d k (subst (λ g. InRange g d) (sym q.same_fs) there) ne (fits k near)
          ∙ Quiet-content q d k;
    })
