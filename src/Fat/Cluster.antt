-- ===== src/Fat/Cluster.antt =====
-- `fat32_read_cluster` and `fat32_write_cluster` of src/fs/fat32.c. Every caller passes
-- `cluster_buffer`, so the buffer is that field of the state.
pub mod Laws
pub mod RoundTrip
use quantum_kernel.Disk
use quantum_kernel.Bytes.{copy, from}
use quantum_kernel.Prelude.{
  mul-le, ltb, leb, if◌then◌else◌, bit, u8, u16, u32, ltb→lt, lt→ltb, le→ltb, ==_iff, Bool-cases,
  Option-cases, length, get_or, set, take, drop, length-append, length-set, get_or-set_self,
  get_or-set_ne, replicate, ℤ, pos, negsuc, is_neg, sign_extend, ℕ, zero, suc, ◌+◌, ◌-◌, ◌*◌, ◌/◌,
  ◌%◌, ◌^◌, ◌≤◌, ◌<◌, min, max, ◌≡◌, refl, sym, ap, ap₂, ◌∙◌, ◌≢◌, ◌↔◌, ◌⊎◌, inl, inr, Bool, true,
  false, ◌&&◌, ◌||◌, not, Option, none, some, List, [], ◌∷◌, ◌++◌, map, append-nil, append_assoc,
  arith, ◌==◌,
}
use quantum_kernel.Fat.{State, sector_size}
use quantum_kernel.Fat.Table.{cluster_to_lba}

-- `ata_read_sector(lba + i, buffer + i * FAT32_SECTOR_SIZE)`
unfoldable pub read_part : ℕ → ℕ → State → Bool × State
read_part lba i s = elim (Disk.load (u32 (lba + i)) s.disk) [
  | none ↦ (false, record s { disk = Disk.tick s.disk })
  | some b ↦ (
    true,
    record s {
      disk = Disk.tick s.disk;
      cluster_buffer = copy s.cluster_buffer (i * sector_size) b 0 sector_size;
    },
  )
]

-- The loop of `fat32_read_cluster`, with `n` sectors left from sector `i` on.
unfoldable pub read_parts : ℕ → ℕ → ℕ → State → Bool × State
read_parts zero lba i s = (true, s)
read_parts (suc n) lba i s =
    let (done, s') = read_part lba i s in
    let rest = read_parts n lba (i + 1) s' in if done then rest else (false, s')

unfoldable pub read_cluster : ℕ → State → Bool × State
read_cluster cluster s =
    let lba = cluster_to_lba s.fs cluster in
    if lba == 0 then (false, s) else read_parts s.fs.sectors_per_cluster lba 0 s

-- `ata_write_sector(lba + i, buffer + i * FAT32_SECTOR_SIZE)`
unfoldable pub write_part : ℕ → ℕ → State → Bool × State
write_part lba i s =
    let (done, d) = Disk.store (u32 (lba + i)) (from s.cluster_buffer (i * sector_size)) s.disk in
    (done, record s { disk = d })

unfoldable pub write_parts : ℕ → ℕ → ℕ → State → Bool × State
write_parts zero lba i s = (true, s)
write_parts (suc n) lba i s =
    let (done, s') = write_part lba i s in
    let rest = write_parts n lba (i + 1) s' in if done then rest else (false, s')

unfoldable pub write_cluster : ℕ → State → Bool × State
write_cluster cluster s =
    let lba = cluster_to_lba s.fs cluster in
    if lba == 0 then (false, s) else write_parts s.fs.sectors_per_cluster lba 0 s
