-- ===== src/Fat/Table/Entries.antt =====
-- The entries of the copies of the table on disk, and what one write does to them.
use quantum_kernel.Bytes.Laws.{read32-copy, read32-write32, read32-write32_apart}
use quantum_kernel.Disk.{IsReliable}
use quantum_kernel.Prelude.{
  mul-le, zero, ℕ, ◌+◌, ◌*◌, ◌/◌, ◌%◌, ◌^◌, ◌≤◌, ◌<◌, arith, ltb, u32, ◌||◌, leb, ◌≡◌, Bool, false,
  if◌then◌else◌, ◌&&◌, ◌==◌, ◌⊎◌, true, sym, refl, ap, ◌∙◌, suc,
}
use quantum_kernel.Bytes.{read32, Bytes, write32, copy}
use quantum_kernel.Disk
use quantum_kernel.Fat.Table.{read_fat, write_copy, write_copies}
use quantum_kernel.Fat.{read_sector, write_sector, Fs, State, IsMounted}

-- The sector of copy `i` that holds the entry of `cluster`.
abbrev pub entry_lba : Fs → ℕ → ℕ → ℕ
entry_lba f i cluster = f.fat_begin_lba + i * f.boot.fat_size_32 + cluster / 128

-- The entry of `cluster` in copy `i`.
unfoldable pub entry : State → ℕ → ℕ → ℕ
entry s i cluster = read32 (s.disk.sectors (entry_lba s.fs i cluster)) (cluster % 128 * 4) % 2 ^ 28

-- The bounds on a mounted volume, with the products left out.
module _ {f : Fs} (m : IsMounted f) where
  pub clusters-lt : f.total_clusters + 2 < 0x0fff_fff7
  clusters-lt = omega (
    arith,
    m.has_fat,
    m.copies_fit,
    m.table_fits,
    m.data_fits,
    mul-le 0 f.num_fats f.boot.fat_size_32 m.has_fat,
    mul-le 0 f.sectors_per_cluster f.total_clusters m.has_sector,
  )

  pub entry_lba-lt :
      (i c : ℕ)
      → i < f.num_fats
      → c < f.total_clusters + 2
      → (entry_lba f i c < f.cluster_begin_lba)
        × (entry_lba f i c < 2 ^ 28)
        × (f.fat_begin_lba ≤ entry_lba f i c)
  entry_lba-lt i c hi hc =
      omega
        (arith, m.copies_fit, m.table_fits, m.data_fits, mul-le i f.num_fats f.boot.fat_size_32 hi)

  -- Distinct copies do not share a sector.
  pub entry_lba-inj :
      (i j c d : ℕ)
      → i < j
      → c < f.total_clusters + 2
      → d < f.total_clusters + 2
      → entry_lba f i c < entry_lba f j d
  entry_lba-inj i j c d h hc hd = omega (arith, m.table_fits, mul-le i j f.boot.fat_size_32 h)

  same_sector :
      (i j c d : ℕ)
      → c < f.total_clusters + 2
      → d < f.total_clusters + 2
      → entry_lba f j d ≡ entry_lba f i c
      → (j ≡ i) × (d / 128 ≡ c / 128)
  same_sector i j c d hc hd e =
      let before : ¬ (i < j) = λ h. omega (arith, entry_lba-inj i j c d h hc hd) in
      let after : ¬ (j < i) = λ h. omega (arith, entry_lba-inj j i d c h hd hc) in
      let ij : i ≡ j = omega arith in
      (sym ij, omega (arith, ap (λ (n : ℕ). n * f.boot.fat_size_32) ij))

module _ {f : Fs} (m : IsMounted f) (c : ℕ) (hc : c < f.total_clusters + 2) where
  -- The driver's 32-bit address of an entry's sector, and the offset in it, do not wrap.
  pub entry_lba-eq :
      (i : ℕ)
      → i < f.num_fats
      → u32 (f.fat_begin_lba + u32 (i * f.boot.fat_size_32) + u32 (c * 4) / 512) % 2 ^ 28
        ≡ entry_lba f i c
  entry_lba-eq i hi =
      omega (arith, clusters-lt m, m.copies_fit, m.data_fits, entry_lba-lt m i c hi hc)

  pub entry_lba-eq_first : u32 (f.fat_begin_lba + u32 (c * 4) / 512) % 2 ^ 28 ≡ entry_lba f 0 c
  entry_lba-eq_first = omega (arith, entry_lba-eq 0 m.has_fat)

  entry_offset-eq : u32 (c * 4) % 512 ≡ c % 128 * 4
  entry_offset-eq = omega (arith, clusters-lt m)

  pub in_range : 2 ≤ c → (ltb c 2 || leb (u32 (f.total_clusters + 2)) c) ≡ false
  in_range h = ground (arith, clusters-lt m)

-- `s'` is `s` but for the entries of `c` in the copies that `picked` names, which hold `v`.
pub record Updates (picked : ℕ → Bool) (c v : ℕ) (s s' : State) : Type 0 where
  pub same_fs : s'.fs ≡ s.fs
  pub same_dir : s'.current_dir_cluster ≡ s.current_dir_cluster
  pub same_buffer : s'.cluster_buffer ≡ s.cluster_buffer
  pub reliable : IsReliable s'.disk
  pub entries :
      (j d : ℕ)
      → j < s.fs.num_fats
      → d < s.fs.total_clusters + 2
      → entry s' j d ≡ (if picked j && c == d then v else entry s j d)
  pub outside :
      (lba : ℕ)
      → (lba < s.fs.fat_begin_lba) ⊎ (s.fs.cluster_begin_lba ≤ lba)
      → s'.disk.sectors lba ≡ s.disk.sectors lba

-- The buffer and the state after a round that does not fail.
abbrev written_buffer : ℕ → ℕ → ℕ → State → Bytes
written_buffer i c v s =
    write32 (copy s.sector_buffer 0 (s.disk.sectors (entry_lba s.fs i c)) 0 512) (c % 128 * 4) v

abbrev written : ℕ → ℕ → ℕ → State → State
written i c v s = record s {
  sector_buffer = written_buffer i c v s;
  disk = record (Disk.tick (Disk.tick s.disk)) {
    sectors = λ a. if a == entry_lba s.fs i c then written_buffer i c v s else s.disk.sectors a;
  };
}

module _ (s : State) (m : IsMounted s.fs) (r : IsReliable s.disk) (c : ℕ)
    (hc : c < s.fs.total_clusters + 2) where
  -- On a disk that does not fail, `fat32_read_fat` returns the entry of the first copy.
  pub read_fat-entry : 2 ≤ c → (read_fat c s).0 ≡ entry s 0 c
  unfolding read_fat read_sector entry
  read_fat-entry h = ground (
    arith,
    r s.disk.clock,
    in_range m c hc h,
    entry_lba-eq_first m c hc,
    entry_offset-eq m c hc,
    read32-copy s.sector_buffer (s.disk.sectors (entry_lba s.fs 0 c)) 512 (c % 128 * 4),
  )

  write_copy-written :
      (i v : ℕ) → i < s.fs.num_fats → 2 ≤ c → write_copy i c v s ≡ (true, written i c v s)
  unfolding write_copy read_sector write_sector
  write_copy-written i v hi h = ground (
    arith,
    r s.disk.clock,
    r (s.disk.clock + 1),
    entry_lba-eq m c hc i hi,
    entry_offset-eq m c hc,
  )

  entry-written :
      (i v : ℕ)
      → i < s.fs.num_fats
      → v < 2 ^ 28
      → (j d : ℕ) → j < s.fs.num_fats
      → d < s.fs.total_clusters + 2
      → entry (written i c v s) j d ≡ (if j == i && c == d then v else entry s j d)
  unfolding entry
  entry-written i v hi hv j d hj hd = ground (
    arith,
    same_sector m i j c d hc hd,
    read32-write32 old (c % 128 * 4) v,
    read32-write32_apart old (c % 128 * 4) (d % 128 * 4) v,
    read32-copy s.sector_buffer (s.disk.sectors (entry_lba s.fs i c)) 512 (d % 128 * 4),
  )
    where
      old : Bytes
      old = copy s.sector_buffer 0 (s.disk.sectors (entry_lba s.fs i c)) 0 512

  written-Updates :
      (i v : ℕ) → i < s.fs.num_fats → v < 2 ^ 28 → Updates (λ j. j == i) c v s (written i c v s)
  written-Updates i v hi hv = record {
    same_fs = refl;
    same_dir = refl;
    same_buffer = refl;
    reliable = r;
    entries = entry-written i v hi hv;
    outside = λ lba out. ground (arith, entry_lba-lt m i c hi hc);
  }

module _ {c v : ℕ} {s : State} where
  Updates-none : (p : ℕ → Bool) → IsReliable s.disk → ((j : ℕ) → p j ≡ false) → Updates p c v s s
  Updates-none p r none_of = record {
    same_fs = refl;
    same_dir = refl;
    same_buffer = refl;
    reliable = r;
    entries = λ j d hj hd. rw (none_of j);
    outside = λ lba out. refl;
  }

  Updates-trans :
      (p q : ℕ → Bool) {t u : State}
      → Updates p c v s t
      → Updates q c v t u
      → (both : ℕ → Bool) → ((j : ℕ) → both j ≡ (p j || q j))
      → Updates both c v s u
  Updates-trans p q {t} {u} a b both e = record {
    same_fs = b.same_fs ∙ a.same_fs;
    same_dir = b.same_dir ∙ a.same_dir;
    same_buffer = b.same_buffer ∙ a.same_buffer;
    reliable = b.reliable;
    entries = λ j d hj hd. ground (arith, a.same_fs, e j, a.entries j d hj hd, b.entries j d);
    outside = λ lba out. ground (arith, a.same_fs, a.outside lba out, b.outside lba);
  }

-- The rounds from copy `i` on succeed, and set the entry in the `n` copies from there.
pub write_copies-Updates :
    (n i c v : ℕ) (s : State)
    → IsMounted s.fs
    → IsReliable s.disk
    → 2 ≤ c
    → c < s.fs.total_clusters + 2
    → v < 2 ^ 28
    → i + n ≤ s.fs.num_fats
    → ((write_copies n i c v s).0 ≡ true)
      × Updates (λ j. leb i j && ltb j (i + n)) c v s (write_copies n i c v s).1
unfolding write_copies
write_copies-Updates zero i c v s m r lo hc hv hn = (refl, Updates-none _ r (λ j. ground arith))
write_copies-Updates (suc n) i c v s m r lo hc hv hn =
    let (done, rest) =
      write_copies-Updates n (i + 1) c v (written i c v s) m r lo hc hv (omega arith) in
    rw (write_copy-written s m r c hc i v (omega arith) lo) (
      done,
      Updates-trans _ _ (written-Updates s m r c hc i v (omega arith) hv) rest _
          (λ j. ground arith),
    )
