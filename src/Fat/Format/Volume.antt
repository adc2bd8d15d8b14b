-- ===== src/Fat/Format/Volume.antt =====
-- A disk that `fat32_format` of src/fs/fat32.c has written is mounted with a geometry in range.
use quantum_kernel.Fat.Format.Written.{IsEmptyVolume, boot_bytes, write_volume_lem}
use quantum_kernel.Fat.Mount.Volume.{IsVolume, begins, mount_lem}
use quantum_kernel.Fat.Mount.{load_boot, load_fsinfo, store_fsinfo, store_boot, mount}
use mathlib.Core.Path.{subst}
use quantum_kernel.Prelude.{
  ℤ, ℕ, ◌+◌, ◌%◌, ◌^◌, ◌≤◌, ◌<◌, ◌≡◌, refl, sym, true, arith, ◌*◌, ◌-◌, ◌/◌, pos, ap₂, ap, ◌∙◌,
}
use quantum_kernel.Disk
use quantum_kernel.Bytes.{write8, write16, write32, read32, read16, store_list, fill}
use quantum_kernel.Fat.{State, write_sector, BootSector, IsMounted}
use quantum_kernel.Fat.Format.{
  put_boot, fat_size_for, new_boot, put_fsinfo, write_volume, format, new_fsinfo,
}

fat_size_bound :
    (total : ℕ)
    → 34 ≤ total
    → total ≤ 2 ^ 28
    → (0 < fat_size_for total)
      × (fat_size_for total < 2 ^ 21)
      × (32 + 2 * fat_size_for total ≤ total)
      × ((total - (32 + 2 * fat_size_for total)) / 8 + 2 ≤ fat_size_for total * 128)
unfolding fat_size_for
fat_size_bound total h k = omega arith

module _ (total : ℕ) (s : State) where
  boot_total : total < 2 ^ 32 → (load_boot (boot_bytes total s)).total_sectors_32 ≡ total
  unfolding load_boot put_boot store_boot new_boot write8 write16 write32 read32 store_list fill
  boot_total h = omega arith

  boot_fat_size :
      fat_size_for total < 2 ^ 32
      → (load_boot (boot_bytes total s)).fat_size_32 ≡ fat_size_for total
  unfolding load_boot put_boot store_boot new_boot write8 write16 write32 read32 store_list fill
  boot_fat_size h = omega arith

  boot_info : (load_boot (boot_bytes total s)).fs_info % 2 ^ 28 ≡ 1
  unfolding load_boot put_boot store_boot new_boot write8 write16 write32 read16 read32 store_list
      fill
  boot_info = refl

  boot_fixed :
      ((load_boot (boot_bytes total s)).bytes_per_sector ≡ 512)
      × ((load_boot (boot_bytes total s)).sectors_per_cluster ≡ 8)
      × ((load_boot (boot_bytes total s)).reserved_sectors ≡ 32)
      × ((load_boot (boot_bytes total s)).num_fats ≡ 2)
      × ((load_boot (boot_bytes total s)).root_cluster ≡ 2)
  unfolding load_boot put_boot store_boot new_boot write8 write16 write32 read16 read32 store_list
      fill
  boot_fixed = (refl, refl, refl, refl, refl)

fixed-IsVolume :
    (f : BootSector) (total size : ℕ)
    → (f.bytes_per_sector ≡ 512)
      × (f.sectors_per_cluster ≡ 8)
      × (f.reserved_sectors ≡ 32)
      × (f.num_fats ≡ 2)
      × (f.root_cluster ≡ 2)
    → f.total_sectors_32 ≡ total
    → f.fat_size_32 ≡ size
    → total ≤ 2 ^ 28
    → 32 + 2 * size ≤ total
    → (total - (32 + 2 * size)) / 8 + 2 ≤ size * 128
    → IsVolume f
fixed-IsVolume f total size (a, b, c, d, e) g h fits inside table =
    let front : begins f ≡ 32 + 2 * size = ap₂ ◌+◌ c (ap₂ ◌*◌ d h) in
    let clusters : (f.total_sectors_32 - begins f) / f.sectors_per_cluster
        ≡ (total - (32 + 2 * size)) / 8 =
      ap₂ ◌/◌ (ap₂ ◌-◌ g front) b in
    record {
      sector_bytes = a;
      has_fat = omega (arith, d);
      few_fats = omega (arith, d);
      has_sector = omega (arith, b);
      buffer_fits = omega (arith, b);
      data_inside = omega (arith, front, g, inside);
      disk_fits = omega (arith, g, fits);
      table_fits = omega (arith, clusters, table, h);
      has_root = omega (arith, e);
    }

pub boot-IsVolume :
    (total : ℕ) (s : State)
    → 34 ≤ total
    → total ≤ 2 ^ 28
    → IsVolume (load_boot (boot_bytes total s))
boot-IsVolume total s h k =
    let (_, small, inside, table) = fat_size_bound total h k in
    fixed-IsVolume (load_boot (boot_bytes total s)) total (fat_size_for total) (boot_fixed total s)
      (boot_total total s (omega (arith, k))) (boot_fat_size total s (omega (arith, small))) k
      inside table

format_done :
    (total : ℕ) (s : State)
    → (write_volume total s).0 ≡ true
    → format total s ≡ mount (write_volume total s).1
unfolding format
format_done total s h = rw (h) refl

-- The FSInfo as it is read back.
stored_info : (t : State) → load_fsinfo (put_fsinfo t).sector_buffer ≡ new_fsinfo
unfolding load_fsinfo put_fsinfo store_fsinfo write32 read32 fill
stored_info t = refl

-- What a format that succeeds leaves: `fat32_mount` has set `g_fs`, the boot sector and the FSInfo
-- are on the disk, the copies of the table and the root directory are empty, and the sectors behind
-- the root directory are as they were.
pub record IsFormatted (total : ℕ) (s : State) (r : ℤ × State) : Type 0 where
  pub result : r.0 ≡ pos 0
  pub mounted : IsMounted r.1.fs
  pub total_sectors : r.1.fs.boot.total_sectors_32 ≡ total
  pub root : r.1.fs.root_dir_first_cluster ≡ 2
  pub info : r.1.fs.fsinfo ≡ new_fsinfo
  pub boot_sector : r.1.disk.sectors 0 ≡ boot_bytes total s
  pub volume : IsEmptyVolume total r.1.disk.sectors
  pub behind : (a : ℕ) → 40 + 2 * fat_size_for total ≤ a → r.1.disk.sectors a ≡ s.disk.sectors a

-- On a disk that does not fail, of 34 sectors at least and at most 2 ^ 28: `fat32_format` returns 0;
-- it writes its boot sector and an FSInfo that reads back as set, both copies of the table, with the
-- first three entries and zeros behind them, and zeros into the root directory's cluster, and leaves
-- the sectors behind it as they were; the volume is mounted with a geometry in range, the given
-- number of sectors and the root directory in cluster 2.
pub format_lem :
    (total : ℕ) (s : State)
    → Disk.IsReliable s.disk
    → 34 ≤ total
    → total ≤ 2 ^ 28
    → IsFormatted total s (format total s)
format_lem total s r h k =
    let (_, small, _, _) = fat_size_bound total h k in
    let w = write_volume_lem total s r (omega (arith, small)) in
    let boot = ap load_boot w.boot in
    let m =
      mount_lem (write_volume total s).1 w.reliable
        (subst IsVolume (sym boot) (boot-IsVolume total s h k)) in
    let fixed = boot_fixed total s in
    let same = m.untouched in
    let info_at : (load_boot ((write_volume total s).1.disk.sectors 0)).fs_info % 2 ^ 28 ≡ 1 =
      ap (λ f. f.fs_info % 2 ^ 28) boot ∙ boot_info total s in
    subst (IsFormatted total s) (sym (format_done total s w.done)) (record {
      result = m.result;
      mounted = m.mounted;
      total_sectors =
          ap (λ f. f.total_sectors_32) (m.boot ∙ boot) ∙ boot_total total s (omega (arith, k));
      root = m.root ∙ ap (λ f. f.root_cluster) boot ∙ fixed.4;
      info =
          m.info
          ∙ ap (λ a. load_fsinfo ((write_volume total s).1.disk.sectors a)) info_at
          ∙ ap load_fsinfo w.info
          ∙ stored_info (write_sector 0 (put_boot total s)).1;
      boot_sector = ap (λ f. f 0) same ∙ w.boot;
      volume = subst (IsEmptyVolume total) (sym same) w.volume;
      behind = λ a lo. ap (λ f. f a) same ∙ w.behind a lo;
    })
