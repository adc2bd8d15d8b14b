-- ===== src/Fat/Table/View.antt =====
-- The abstract view of src/fs/fat32.c's table: one function from clusters to entries, which every
-- copy on disk holds. `fat32_read_fat` and `fat32_write_fat` are its lookup and update.
use quantum_kernel.Bytes.{copy}
use quantum_kernel.Fat.Table.Entries.{
  entry, read_fat-entry, Updates, write_copies-Updates, entry_lba, in_range, clusters-lt,
  entry_lba-eq_first,
}
use quantum_kernel.Fat.Table.{read_fat, write_fat, write_copies, out_of_range}
use quantum_kernel.Disk.{IsReliable}
use quantum_kernel.Disk
use quantum_kernel.Prelude.{
  ℕ, ◌≤◌, if◌then◌else◌, ◌≡◌, arith, ◌<◌, ◌==◌, ◌∙◌, true, ◌+◌, ◌⊎◌, ◌%◌, false, ◌^◌, refl, leb,
  ◌&&◌, ltb,
}
use quantum_kernel.Fat.{Fs, State, IsMounted, bad_cluster, read_sector}

-- A cluster of the volume.
abbrev pub InRange : Fs → ℕ → Type 0
InRange f c = (2 ≤ c) × (c < f.total_clusters + 2)

abbrev pub put : (ℕ → ℕ) → ℕ → ℕ → ℕ → ℕ
put t c v d = if c == d then v else t d

-- The disk does not fail, the volume is mounted, and each copy of its table is `t`.
pub record Holds (s : State) (t : ℕ → ℕ) : Type 0 where
  pub mounted : IsMounted s.fs
  pub reliable : IsReliable s.disk
  pub table : (i c : ℕ) → i < s.fs.num_fats → c < s.fs.total_clusters + 2 → entry s i c ≡ t c

-- What work on the table leaves alone: the geometry, the cluster buffer, and every sector outside
-- the copies of the table.
pub record Keeps (s s' : State) : Type 0 where
  pub same_fs : s'.fs ≡ record (s.fs) { fsinfo = s'.fs.fsinfo }
  pub same_dir : s'.current_dir_cluster ≡ s.current_dir_cluster
  pub same_buffer : s'.cluster_buffer ≡ s.cluster_buffer
  pub outside :
      (lba : ℕ)
      → (lba < s.fs.fat_begin_lba) ⊎ (s.fs.cluster_begin_lba ≤ lba)
      → s'.disk.sectors lba ≡ s.disk.sectors lba

pub Keeps-refl : (s : State) → Keeps s s
Keeps-refl s = record {
  same_fs = refl;
  same_dir = refl;
  same_buffer = refl;
  outside = λ lba out. refl;
}

pub Keeps-trans : {s t u : State} → Keeps s t → Keeps t u → Keeps s u
Keeps-trans {s} {t} {u} a b = record {
  same_fs = ground (arith, a.same_fs, b.same_fs);
  same_dir = b.same_dir ∙ a.same_dir;
  same_buffer = b.same_buffer ∙ a.same_buffer;
  outside = λ lba out. ground (arith, a.same_fs, a.outside lba out, b.outside lba);
}

-- The state after a read that does not fail.
abbrev loaded : ℕ → State → State
loaded c s = record s {
  sector_buffer = copy s.sector_buffer 0 (s.disk.sectors (entry_lba s.fs 0 c)) 0 512;
  disk = Disk.tick s.disk;
}

module _ {s : State} {t : ℕ → ℕ} (h : Holds s t) (c : ℕ) (r : InRange s.fs c) where
  pub read_fat-loaded : (read_fat c s).1 ≡ loaded c s
  unfolding read_fat read_sector
  read_fat-loaded = ground (
    arith,
    h.reliable s.disk.clock,
    in_range h.mounted c r.1 r.0,
    entry_lba-eq_first h.mounted c r.1,
  )

  loaded-Holds : Holds (loaded c s) t
  unfolding entry
  loaded-Holds = record { mounted = h.mounted; reliable = h.reliable; table = h.table }

  loaded-Keeps : Keeps s (loaded c s)
  loaded-Keeps = record {
    same_fs = refl;
    same_dir = refl;
    same_buffer = refl;
    outside = λ lba out. refl;
  }

  -- For a cluster of a mounted volume whose disk does not fail: `fat32_read_fat` returns the table's
  -- entry and changes neither `g_fs` nor a byte of any sector; every copy still holds the table.
  pub read_fat-lookup :
      ((read_fat c s).0 ≡ t c)
      × ((read_fat c s).1.fs ≡ s.fs)
      × Holds (read_fat c s).1 t
      × Keeps s (read_fat c s).1
      × ((read_fat c s).1.disk.sectors ≡ s.disk.sectors)
  read_fat-lookup = (
    read_fat-entry s h.mounted h.reliable c r.1 r.0 ∙ h.table 0 c h.mounted.has_fat r.1,
    rw read_fat-loaded,
    rw read_fat-loaded loaded-Holds,
    rw read_fat-loaded loaded-Keeps,
    rw read_fat-loaded,
  )

  write_fat_copies : (v : ℕ) → write_fat c v s ≡ write_copies s.fs.num_fats 0 c (v % 2 ^ 28) s
  unfolding write_fat
  write_fat_copies v = rw (in_range h.mounted c r.1 r.0)

  updated-Holds :
      (v : ℕ) (s' : State)
      → Updates (λ j. leb 0 j && ltb j (0 + s.fs.num_fats)) c v s s'
      → (s'.fs ≡ s.fs) × Holds s' (put t c v) × Keeps s s'
  updated-Holds v s' u = (
    u.same_fs,
    record {
      mounted = rw u.same_fs h.mounted;
      reliable = u.reliable;
      table = λ i d hi hd. ground (arith, u.same_fs, u.entries i d, h.table i d);
    },
    record {
      same_fs = ground (arith, u.same_fs);
      same_dir = u.same_dir;
      same_buffer = u.same_buffer;
      outside = u.outside;
    },
  )

  -- For a cluster of a mounted volume whose disk does not fail: `fat32_write_fat` succeeds, and then
  -- every copy holds the table with the low 28 bits of the value as the cluster's entry and all other
  -- entries as they were; `g_fs` and the sectors outside the copies do not change.
  pub write_fat-put :
      (v : ℕ)
      → let (done, s') = write_fat c v s in
        (done ≡ true) × (s'.fs ≡ s.fs) × Holds s' (put t c (v % 2 ^ 28)) × Keeps s s'
  write_fat-put v =
      let (done, u) =
        write_copies-Updates s.fs.num_fats 0 c (v % 2 ^ 28) s h.mounted h.reliable r.0 r.1
          (omega arith) (omega arith) in
      rw (write_fat_copies v) (let (a, b, k) = updated-Holds (v % 2 ^ 28) _ u in (done, a, b, k))

-- Outside the volume a read is BAD_CLUSTER and a write is refused.
pub out_of_range_lem :
    (c v : ℕ) (s : State)
    → IsMounted s.fs
    → ¬ InRange s.fs c
    → (read_fat c s ≡ (bad_cluster, s)) × (write_fat c v s ≡ (false, s))
unfolding read_fat write_fat
out_of_range_lem c v s m out =
    let outside : out_of_range s.fs c ≡ true = ground (arith, clusters-lt m) in
    (rw outside, rw outside)
