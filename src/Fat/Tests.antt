-- ===== src/Fat/Tests.antt =====
-- A volume of four clusters of one sector with two copies of its table, behind one reserved sector:
-- the tests of src/fs/fat32.c's model, and its theorems at concrete inputs.
pub mod Writes
pub mod Directories
use quantum_kernel.Fat.File.Close.{Closed, close_lem}
use quantum_kernel.Fat.Cluster.RoundTrip.{read_cluster-write_cluster}
use quantum_kernel.Fat.Cluster.Laws.{content}
use quantum_kernel.Fat.File.Reads.Call.{clamp_size_wraps, ReadsFile, read_lem}
use quantum_kernel.Fat.File.Chain.{Links, link, last}
use quantum_kernel.Fat.File.{File, ReadResult, clamp_size, read, close}
use quantum_kernel.Fat.Cluster.{write_cluster, read_cluster}
use quantum_kernel.Fat.Table.Free.{Reaches, free_cluster_chain_lem}
use quantum_kernel.Fat.Table.Alloc.{Took, alloc_cluster_lem}
use quantum_kernel.Fat.Table.Entries.{entry}
use quantum_kernel.Prelude.{
  if◌then◌else◌, ℕ, ◌+◌, ◌*◌, ◌/◌, ◌%◌, ◌^◌, ◌<◌, ◌≡◌, refl, ◌≢◌, ◌⊎◌, inr, true, false, ◌||◌, some,
  [], ◌∷◌, arith, ◌==◌,
}
use quantum_kernel.Bytes.{copy, Bytes, zeros, read32, write32}
use quantum_kernel.Fat.{BootSector, Fs, State, read_sector, write_sector}
use quantum_kernel.Fat.Table.{
  alloc_cluster, free_cluster_chain, read_fat, write_fat, alloc_loop, wrap_cluster, write_copies,
  write_copy,
}
use quantum_kernel.Fat.Table.View.{Holds, Keeps, InRange, put, read_fat-lookup, write_fat-put}

abbrev pub boot : BootSector
boot = record {
  jmp = [];
  oem = [];
  bytes_per_sector = 512;
  sectors_per_cluster = 1;
  reserved_sectors = 1;
  num_fats = 2;
  root_entries = 0;
  total_sectors_16 = 0;
  media_type = 0xf8;
  fat_size_16 = 0;
  sectors_per_track = 63;
  num_heads = 255;
  hidden_sectors = 0;
  total_sectors_32 = 7;
  fat_size_32 = 1;
  ext_flags = 0;
  fs_version = 0;
  root_cluster = 2;
  fs_info = 0;
  backup_boot = 6;
  reserved = [];
  drive_number = 0x80;
  reserved1 = 0;
  boot_sig = 0x29;
  volume_id = 0;
  volume_label = [];
  fs_type = [];
}

abbrev pub fs : Fs
fs = record {
  boot = boot;
  fsinfo = record { lead_sig = 0; struct_sig = 0; free_count = 0; next_free = 3; trail_sig = 0 };
  fat_begin_lba = 1;
  cluster_begin_lba = 3;
  root_dir_first_cluster = 2;
  sectors_per_cluster = 1;
  bytes_per_cluster = 512;
  total_clusters = 4;
  num_fats = 2;
}

-- Cluster 2 is a chain by itself; 3 leads to 5 and back: a cycle; 4 is free.
abbrev pub table_bytes : Bytes
table_bytes =
    write32
      (write32 (write32 (write32 (write32 zeros 0 0x0fff_fff8) 4 0x0fff_ffff) 8 0x0fff_ffff) 12 5)
      20 3

abbrev pub table : ℕ → ℕ
table c = read32 table_bytes (c % 128 * 4) % 2 ^ 28

abbrev pub state : State
state = record {
  fs = fs;
  sector_buffer = zeros;
  cluster_buffer = λ k. k % 256;
  current_dir_cluster = 2;
  disk = record {
    sectors = λ a. if a == 1 || a == 2 then table_bytes else λ k. (a + k) % 256;
    faults = λ n. false;
    clock = 0;
  };
}

pub state-Holds : Holds state table
unfolding entry
state-Holds = record {
  mounted = omega arith;
  reliable = λ n. refl;
  table = λ i c hi hc.
      let e : (1 + i * 1 + c / 128 == 1 || 1 + i * 1 + c / 128 == 2) ≡ true = ground arith in rw e;
}

-- One free cluster is left; the search from 3 finds it, and the next one finds none.
alloc_finds : ((alloc_cluster state).0 ≡ 4) × ((alloc_cluster (alloc_cluster state).1).0 ≡ 0)
unfolding alloc_cluster alloc_loop wrap_cluster read_fat write_fat write_copies write_copy
    read_sector write_sector read32 write32 copy
alloc_finds = (refl, refl)

read_fat-lookup_example :
    ((read_fat 3 state).0 ≡ 5)
    × ((read_fat 3 state).1.fs ≡ fs)
    × Holds (read_fat 3 state).1 table
    × Keeps state (read_fat 3 state).1
    × ((read_fat 3 state).1.disk.sectors ≡ state.disk.sectors)
unfolding read32 write32
read_fat-lookup_example = read_fat-lookup state-Holds 3 (omega arith)

write_fat-put_example :
    let (done, s') = write_fat 4 0xf000_0009 state in
    (done ≡ true) × (s'.fs ≡ fs) × Holds s' (put table 4 9) × Keeps state s'
write_fat-put_example = write_fat-put state-Holds 4 (omega arith) 0xf000_0009

alloc_cluster_lem_example :
    let (c, s') = alloc_cluster state in
    ((c ≡ 0) × ((d : ℕ) → InRange fs d → table d ≢ 0) × Holds s' table × Keeps state s')
    ⊎ Took state table c s'
alloc_cluster_lem_example = alloc_cluster_lem state-Holds

-- Freeing the cycle.
free_cluster_chain_lem_example :
    (s' : State) × (t' : ℕ → ℕ) × (free_cluster_chain 8 3 state ≡ some s')
    × Holds s' t'
    × ((d : ℕ) → Reaches fs table 3 d → t' d ≡ 0)
    × ((d : ℕ) → ¬ Reaches fs table 3 d → t' d ≡ table d)
    × Keeps state s'
    × (s'.fs ≡ fs)
free_cluster_chain_lem_example = free_cluster_chain_lem 8 3 state-Holds (omega arith)

read_cluster-write_cluster_example :
    let (wrote, s1) = write_cluster 4 state in
    let (done, s2) = read_cluster 5 s1 in
    (wrote ≡ true) × (done ≡ true) × ((k : ℕ) → k < 512 → s2.cluster_buffer k ≡ content state 5 k)
read_cluster-write_cluster_example =
    read_cluster-write_cluster 4 5 state-Holds (omega arith) (omega arith)

-- An open file of 700 bytes in the clusters 3 and 5, at position 500.
abbrev pub file : File
file = record {
  first_cluster = 3;
  current_cluster = 3;
  file_size = 700;
  position = 500;
  dir_cluster = 2;
  dir_entry_offset = 0;
  flags = 1;
  is_open = true;
  attr = 0x20;
}

pub chain : Links fs table 3 (3 ∷ 5 ∷ [])
unfolding read32 write32
chain = link (omega arith) (last (omega arith))

read_lem_example :
    (o : ReadResult) × (read (some file) (some zeros) 100 state ≡ some (inr o))
    × ReadsFile file zeros 100 (3 ∷ 5 ∷ []) state o
read_lem_example =
    read_lem file zeros 100 state table (3 ∷ 5 ∷ []) state-Holds refl chain (omega arith)
      (omega arith) (omega arith)

clamp_size_wraps_example :
    (clamp_size file 0xffff_ffff ≡ 0xffff_ffff) × (200 < clamp_size file 0xffff_ffff)
clamp_size_wraps_example =
    clamp_size_wraps file 0xffff_ffff (omega arith) (omega arith) (omega arith) (omega arith)

close_lem_example : Closed file state table (close file state)
close_lem_example =
    close_lem file state table state-Holds refl (omega arith) (omega arith) (omega arith)
      (omega arith)
