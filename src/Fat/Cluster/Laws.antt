-- ===== src/Fat/Cluster/Laws.antt =====
-- Reading and writing a cluster of src/fs/fat32.c on a disk that does not fail.
use quantum_kernel.Bytes.{copy, from}
use quantum_kernel.Fat.Table.Entries.{in_range}
use quantum_kernel.Disk.{IsReliable}
use quantum_kernel.Fat.Cluster.{read_parts, read_part, write_part, write_parts}
use quantum_kernel.Fat.Table.{cluster_to_lba}
use quantum_kernel.Disk
use quantum_kernel.Prelude.{
  mul-le, ltb, leb, if◌then◌else◌, u32, ℕ, zero, suc, ◌+◌, ◌-◌, ◌*◌, ◌/◌, ◌%◌, ◌^◌, ◌≤◌, ◌<◌, ◌≡◌,
  refl, true, ◌&&◌, arith, ◌==◌,
}
use quantum_kernel.Fat.{Fs, State, IsMounted}
use quantum_kernel.Fat.Table.View.{InRange}

-- The first sector of a cluster.
abbrev pub cluster_lba : Fs → ℕ → ℕ
cluster_lba f c = f.cluster_begin_lba + (c - 2) * f.sectors_per_cluster

-- The bytes of a cluster on disk.
unfoldable pub content : State → ℕ → ℕ → ℕ
content s c k = s.disk.sectors (cluster_lba s.fs c + k / 512) (k % 512)

module _ {f : Fs} (m : IsMounted f) (c : ℕ) (r : InRange f c) where
  pub cluster_lba-le :
      cluster_lba f c + f.sectors_per_cluster
      ≤ f.cluster_begin_lba + f.total_clusters * f.sectors_per_cluster
  cluster_lba-le =
      omega (arith, mul-le (c - 2) f.total_clusters f.sectors_per_cluster (omega arith))

  pub cluster_lba-pos : 0 < f.cluster_begin_lba
  cluster_lba-pos =
      omega (arith, m.copies_fit, m.table_fits, mul-le 0 f.num_fats f.boot.fat_size_32 m.has_fat)

  -- `fat32_cluster_to_lba` does not wrap.
  pub cluster_to_lba-eq : cluster_to_lba f c ≡ cluster_lba f c
  unfolding cluster_to_lba
  cluster_to_lba-eq =
      rw (in_range m c r.1 r.0) (omega (arith, cluster_lba-le, m.data_fits, m.has_sector))

part_read : ℕ → ℕ → State → State
part_read lba i s = record s {
  disk = Disk.tick s.disk;
  cluster_buffer = copy s.cluster_buffer (i * 512) (s.disk.sectors (lba + i)) 0 512;
}

read_part_ok :
    (lba i : ℕ) (s : State)
    → IsReliable s.disk
    → lba + i < 2 ^ 28
    → read_part lba i s ≡ (true, part_read lba i s)
unfolding read_part part_read
read_part_ok lba i s r fits = ground (arith, r s.disk.clock)

part_written : ℕ → ℕ → State → State
part_written lba i s = record s {
  disk = record (Disk.tick s.disk) {
    sectors = λ a. if a == lba + i then from s.cluster_buffer (i * 512) else s.disk.sectors a;
  };
}

write_part_ok :
    (lba i : ℕ) (s : State)
    → IsReliable s.disk
    → lba + i < 2 ^ 28
    → write_part lba i s ≡ (true, part_written lba i s)
unfolding write_part part_written
write_part_ok lba i s r fits =
    let same : u32 (lba + i) % 2 ^ 28 ≡ lba + i = omega arith in rw (r s.disk.clock, same)

part_bytes :
    (lba i : ℕ) (s : State) (a k : ℕ)
    → (part_written lba i s).disk.sectors a k
      ≡ (if a == lba + i then s.cluster_buffer ((a - lba) * 512 + k) else s.disk.sectors a k)
unfolding part_written
part_bytes lba i s a k = ground arith

-- The buffer from byte `i * 512` on takes the sectors from `lba + i` on.
pub read_parts_lem :
    (n lba i : ℕ) (s : State)
    → IsReliable s.disk
    → lba + i + n ≤ 2 ^ 28
    → let (done, s') = read_parts n lba i s in
      (done ≡ true)
      × (s' ≡ record s {
        cluster_buffer = s'.cluster_buffer;
        disk = record (s.disk) { clock = s'.disk.clock };
      })
      × ((k : ℕ)
          → s'.cluster_buffer k ≡ (
              if leb (i * 512) k && ltb k ((i + n) * 512)
              then s.disk.sectors (lba + k / 512) (k % 512)
              else s.cluster_buffer k))
unfolding read_parts part_read copy
read_parts_lem zero lba i s r fits = (refl, refl, λ k. ground arith)
read_parts_lem (suc n) lba i s r fits =
    let (done, same, bytes) = read_parts_lem n lba (i + 1) (part_read lba i s) r (omega arith) in
    rw (read_part_ok lba i s r (omega arith)) (done, same, λ k. ground (arith, bytes k))

-- Sectors from `lba + i` on take what the buffer holds for them.
pub write_parts_lem :
    (n lba i : ℕ) (s : State)
    → IsReliable s.disk
    → lba + i + n ≤ 2 ^ 28
    → let (done, s') = write_parts n lba i s in
      (done ≡ true)
      × (s' ≡ record s { disk = s'.disk })
      × IsReliable s'.disk
      × ((a k : ℕ)
          → s'.disk.sectors a k ≡ (
              if leb (lba + i) a && ltb a (lba + i + n)
              then s.cluster_buffer ((a - lba) * 512 + k)
              else s.disk.sectors a k))
unfolding write_parts part_written
write_parts_lem zero lba i s r fits = (refl, refl, r, λ a k. ground arith)
write_parts_lem (suc n) lba i s r fits =
    let (done, same, r', bytes) =
      write_parts_lem n lba (i + 1) (part_written lba i s) r (omega arith) in
    rw (write_part_ok lba i s r (omega arith))
      (done, same, r', λ a k. ground (arith, bytes a k, part_bytes lba i s a k))
