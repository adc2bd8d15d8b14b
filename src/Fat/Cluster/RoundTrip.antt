-- ===== src/Fat/Cluster/RoundTrip.antt =====
-- What src/fs/fat32.c writes to a cluster is what it reads back, and other clusters keep their bytes.
use quantum_kernel.Fat.Table.Entries.{entry, entry_lba, entry_lba-lt}
use quantum_kernel.Disk.{Disk, IsReliable}
use quantum_kernel.Fat.Cluster.Laws.{
  cluster_lba, content, cluster_lba-le, cluster_to_lba-eq, read_parts_lem, cluster_lba-pos,
  write_parts_lem,
}
use mathlib.Core.Path.{fun_ext, subst}
use quantum_kernel.Prelude.{
  mul-le, ltb, leb, if◌then◌else◌, ℕ, ◌+◌, ◌-◌, ◌*◌, ◌/◌, ◌%◌, ◌^◌, ◌≤◌, ◌<◌, ◌≡◌, sym, ap, ◌≢◌,
  true, ◌&&◌, arith, ◌==◌,
}
use quantum_kernel.Fat.{Fs, State, IsMounted}
use quantum_kernel.Fat.Cluster.{read_cluster, write_cluster, read_parts, write_parts}
use quantum_kernel.Fat.Table.View.{InRange, Holds}

-- Distinct clusters do not overlap on disk.
cluster_lba-inj :
    (f : Fs) (c d : ℕ) → 2 ≤ c → c < d → cluster_lba f c + f.sectors_per_cluster ≤ cluster_lba f d
cluster_lba-inj f c d lo h =
    omega (arith, mul-le (c - 2) (d - 2) f.sectors_per_cluster (omega arith))

part-lt :
    {f : Fs} → IsMounted f → (k : ℕ) → k < f.bytes_per_cluster → k / 512 < f.sectors_per_cluster
part-lt m k h = omega (arith, m.cluster_bytes)

module _ {s : State} {t : ℕ → ℕ} (h : Holds s t) (c : ℕ) (r : InRange s.fs c) where
  lba_fits : cluster_lba s.fs c + 0 + s.fs.sectors_per_cluster ≤ 2 ^ 28
  lba_fits = omega (arith, cluster_lba-le h.mounted c r, h.mounted.data_fits)

  read_cluster_parts :
      read_cluster c s ≡ read_parts s.fs.sectors_per_cluster (cluster_lba s.fs c) 0 s
  unfolding read_cluster
  read_cluster_parts =
      rw (cluster_to_lba-eq h.mounted c r) (ground (arith, cluster_lba-pos h.mounted c r))

  write_cluster_parts :
      write_cluster c s ≡ write_parts s.fs.sectors_per_cluster (cluster_lba s.fs c) 0 s
  unfolding write_cluster
  write_cluster_parts =
      rw (cluster_to_lba-eq h.mounted c r) (ground (arith, cluster_lba-pos h.mounted c r))

  -- `fat32_read_cluster` fills the buffer with the cluster's bytes, and writes nothing.
  pub read_cluster_lem :
      let (done, s') = read_cluster c s in
      (done ≡ true)
      × ((k : ℕ) → k < s.fs.bytes_per_cluster → s'.cluster_buffer k ≡ content s c k)
      × (s' ≡ record s {
        cluster_buffer = s'.cluster_buffer;
        disk = record (s.disk) { clock = s'.disk.clock };
      })
  unfolding content
  read_cluster_lem =
      let (done, same, bytes) =
        read_parts_lem s.fs.sectors_per_cluster (cluster_lba s.fs c) 0 s h.reliable lba_fits in
      rw read_cluster_parts (done, (λ k hk. ground (arith, bytes k, part-lt h.mounted k hk)), same)

  -- A disk on which the sectors of the cluster, and no others, have the buffer's bytes.
  module _ (d : Disk) (reliable : IsReliable d)
      (bytes : (a k : ℕ)
        → d.sectors a k ≡ (
            if leb (cluster_lba s.fs c + 0) a
              && ltb a (cluster_lba s.fs c + 0 + s.fs.sectors_per_cluster)
            then s.cluster_buffer ((a - cluster_lba s.fs c) * 512 + k)
            else s.disk.sectors a k)) where
    stored-Holds : Holds (record s { disk = d }) t
    unfolding entry
    stored-Holds = record {
      mounted = h.mounted;
      reliable = reliable;
      table = λ i e hi he.
          let same : d.sectors (entry_lba s.fs i e) ≡ s.disk.sectors (entry_lba s.fs i e) =
            fun_ext
              λ k. ground (arith, bytes (entry_lba s.fs i e) k, entry_lba-lt h.mounted i e hi he) in
          rw same (h.table i e hi he);
    }

    stored_self :
        (k : ℕ)
        → k < s.fs.bytes_per_cluster
        → content (record s { disk = d }) c k ≡ s.cluster_buffer k
    unfolding content
    stored_self k hk =
        ground (arith, bytes (cluster_lba s.fs c + k / 512) (k % 512), part-lt h.mounted k hk, same)
      where
        same : (cluster_lba s.fs c + k / 512 - cluster_lba s.fs c) * 512 + k % 512 ≡ k
        same = omega arith

    stored_other :
        (e k : ℕ)
        → InRange s.fs e
        → e ≢ c
        → k < s.fs.bytes_per_cluster
        → content (record s { disk = d }) e k ≡ content s e k
    unfolding content
    stored_other e k re ne hk = ground (
      arith,
      bytes (cluster_lba s.fs e + k / 512) (k % 512),
      part-lt h.mounted k hk,
      cluster_lba-inj s.fs c e,
      cluster_lba-inj s.fs e c,
    )

  -- `fat32_write_cluster` stores the buffer in the cluster, and changes no other sector.
  pub write_cluster_lem :
      let (done, s') = write_cluster c s in
      (done ≡ true)
      × (s' ≡ record s { disk = s'.disk })
      × Holds s' t
      × ((k : ℕ) → k < s.fs.bytes_per_cluster → content s' c k ≡ s.cluster_buffer k)
      × ((d k : ℕ)
          → InRange s.fs d
          → d ≢ c
          → k < s.fs.bytes_per_cluster
          → content s' d k ≡ content s d k)
  write_cluster_lem =
      let (done, same, reliable, bytes) =
        write_parts_lem s.fs.sectors_per_cluster (cluster_lba s.fs c) 0 s h.reliable lba_fits in
      let d = (write_parts s.fs.sectors_per_cluster (cluster_lba s.fs c) 0 s).1.disk in
      rw write_cluster_parts (
        done,
        same,
        subst (λ u. Holds u t) (sym same) (stored-Holds d reliable bytes),
        subst
            (λ (u : State).
              (k : ℕ) → k < s.fs.bytes_per_cluster → content u c k ≡ s.cluster_buffer k)
            (sym same) (stored_self d reliable bytes),
        subst
            (λ (u : State).
              (e k : ℕ)
              → InRange s.fs e
              → e ≢ c
              → k < s.fs.bytes_per_cluster
              → content u e k ≡ content s e k)
            (sym same) (stored_other d reliable bytes),
      )

-- On a mounted volume whose disk does not fail: after `fat32_write_cluster` of cluster `c`, a
-- `fat32_read_cluster` of any cluster `d` of the volume succeeds, and gives the bytes written if `d`
-- is `c` and otherwise the bytes that `d` had before.
pub read_cluster-write_cluster :
    {s : State} {t : ℕ → ℕ} (c d : ℕ)
    → Holds s t
    → InRange s.fs c
    → InRange s.fs d
    → let (wrote, s1) = write_cluster c s in
      let (done, s2) = read_cluster d s1 in
      (wrote ≡ true)
      × (done ≡ true)
      × ((k : ℕ)
          → k < s.fs.bytes_per_cluster
          → s2.cluster_buffer k ≡ (if d == c then s.cluster_buffer k else content s d k))
read_cluster-write_cluster {s} {t} c d h rc rd =
    let (wrote, same, h1, own, other) = write_cluster_lem h c rc in
    let fs1 : (write_cluster c s).1.fs ≡ s.fs = ap (λ (u : State). u.fs) same in
    let (done, bytes, _) = read_cluster_lem h1 d (rw fs1 rd) in
    (wrote, done, λ k hk. ground (arith, bytes k (rw fs1 hk), own k hk, other d k rd))
