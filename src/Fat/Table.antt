-- ===== src/Fat/Table.antt =====
-- The file allocation table of src/fs/fat32.c: `fat32_read_fat`, `fat32_write_fat`,
-- `fat32_alloc_cluster`, `fat32_free_cluster_chain` and `fat32_cluster_to_lba`.
pub mod Alloc
pub mod Entries
pub mod Free
pub mod View
use quantum_kernel.Prelude.{
  ℕ, zero, suc, ◌+◌, ◌-◌, ◌*◌, ◌/◌, ◌%◌, ◌^◌, Bool, true, false, ◌&&◌, ◌||◌, Option, none, some,
  ltb, leb, ◌==◌, if◌then◌else◌, u32,
}
use quantum_kernel.Bytes.{read32, write32}
use quantum_kernel.Fat.{
  Fs, State, sector_size, free_cluster, bad_cluster, eoc_min, eoc_max, read_sector, write_sector,
}

-- `cluster < 2 || cluster >= g_fs.total_clusters + 2`
abbrev pub out_of_range : Fs → ℕ → Bool
out_of_range f cluster = ltb cluster 2 || leb (u32 (f.total_clusters + 2)) cluster

unfoldable pub read_fat : ℕ → State → ℕ × State
read_fat cluster s =
    if out_of_range s.fs cluster
    then (bad_cluster, s)
    else let fat_offset = u32 (cluster * 4) in
      let (done, s') = read_sector (u32 (s.fs.fat_begin_lba + fat_offset / sector_size)) s in
      if done
      then (read32 s'.sector_buffer (fat_offset % sector_size) % 2 ^ 28, s')
      else (bad_cluster, s')

-- One round of the loop of `fat32_write_fat`: the entry in copy `i` of the table.
unfoldable pub write_copy : ℕ → ℕ → ℕ → State → Bool × State
write_copy i cluster value s =
    let fat_offset = u32 (cluster * 4) in
    let fat_sector =
      u32 (s.fs.fat_begin_lba + u32 (i * s.fs.boot.fat_size_32) + fat_offset / sector_size) in
    let (done, s') = read_sector fat_sector s in
    let buffer = write32 s'.sector_buffer (fat_offset % sector_size) value in
    if done then write_sector fat_sector (record s' { sector_buffer = buffer }) else (false, s')

-- The loop, with `n` copies left from copy `i` on.
unfoldable pub write_copies : ℕ → ℕ → ℕ → ℕ → State → Bool × State
write_copies zero i cluster value s = (true, s)
write_copies (suc n) i cluster value s =
    let (done, s') = write_copy i cluster value s in
    let rest = write_copies n (i + 1) cluster value s' in if done then rest else (false, s')

unfoldable pub write_fat : ℕ → ℕ → State → Bool × State
write_fat cluster value s =
    if out_of_range s.fs cluster
    then (false, s)
    else write_copies s.fs.num_fats 0 cluster (value % 2 ^ 28) s

abbrev pub set_next_free : ℕ → State → State
set_next_free c s = record s {
  fs = record (s.fs) { fsinfo = record (s.fs.fsinfo) { next_free = c } };
}

-- `if (cluster >= g_fs.total_clusters + 2) cluster = 2;`
unfoldable pub wrap_cluster : Fs → ℕ → ℕ
wrap_cluster f cluster = if leb (u32 (f.total_clusters + 2)) cluster then 2 else cluster

-- The loop of `fat32_alloc_cluster`, with `n` rounds left.
unfoldable pub alloc_loop : ℕ → ℕ → State → ℕ × State
alloc_loop zero cluster s = (0, s)
alloc_loop (suc n) cluster s =
    let c = wrap_cluster s.fs cluster in
    let (value, s') = read_fat c s in
    let rest = alloc_loop n (u32 (c + 1)) s' in
    if value == free_cluster
    then (c, set_next_free (u32 (c + 1)) (write_fat c eoc_max s').1)
    else rest

unfoldable pub alloc_cluster : State → ℕ × State
alloc_cluster s =
    let cluster = if ltb s.fs.fsinfo.next_free 2 then 2 else s.fs.fsinfo.next_free in
    alloc_loop s.fs.total_clusters cluster s

-- The loop of `fat32_free_cluster_chain`; `none` means that the fuel ran out.
unfoldable pub free_cluster_chain : ℕ → ℕ → State → Option State
free_cluster_chain zero cluster s = none
free_cluster_chain (suc fuel) cluster s =
    let (next, s') = read_fat cluster s in
    let rest = free_cluster_chain fuel next (write_fat cluster free_cluster s').1 in
    if leb 2 cluster && ltb cluster eoc_min && ltb cluster (u32 (s.fs.total_clusters + 2))
    then rest
    else some s

unfoldable pub cluster_to_lba : Fs → ℕ → ℕ
cluster_to_lba f cluster =
    if out_of_range f cluster
    then 0
    else u32 (f.cluster_begin_lba + u32 ((cluster - 2) * f.sectors_per_cluster))
