-- ===== src/Fat/Mount/Volume.antt =====
-- What `fat32_mount` of src/fs/fat32.c has to find on the disk for the driver to stay in range.
use mathlib.Core.Path.{subst}
use native.Mathlib.Nat.{div-mul-le_self}
use quantum_kernel.Prelude.{
  ltb, u32, ℤ, pos, ℕ, ◌+◌, ◌-◌, ◌*◌, ◌/◌, ◌%◌, ◌^◌, ◌≤◌, ◌<◌, ◌≡◌, refl, sym, ◌∙◌, true, false,
  arith, ap,
}
use quantum_kernel.Disk
use quantum_kernel.Fat.{BootSector, State, IsMounted, read_sector}
use quantum_kernel.Fat.Mount.{mount, mount_fsinfo, load_boot, load_fsinfo, set_geometry}
use quantum_kernel.Bytes.{copy, read16, read32, load_list}

-- The first sector behind the copies of the table.
abbrev pub begins : BootSector → ℕ
begins f = f.reserved_sectors + f.num_fats * f.fat_size_32

-- A boot sector that describes a volume; `fat32_mount` tests the first and the last of these.
pub record IsVolume (f : BootSector) : Type 0 where
  pub sector_bytes : f.bytes_per_sector ≡ 512
  pub has_fat : 0 < f.num_fats
  pub few_fats : f.num_fats < 256
  pub has_sector : 0 < f.sectors_per_cluster
  pub buffer_fits : f.sectors_per_cluster ≤ 128
  pub data_inside : begins f ≤ f.total_sectors_32
  pub disk_fits : f.total_sectors_32 ≤ 2 ^ 28
  pub table_fits : (f.total_sectors_32 - begins f) / f.sectors_per_cluster + 2 ≤ f.fat_size_32 * 128
  pub has_root : 2 ≤ f.root_cluster

-- A sector read into the buffer.
read_reliable :
    (lba : ℕ) (s : State)
    → Disk.IsReliable s.disk
    → read_sector lba s ≡ (
      true,
      record s {
        disk = Disk.tick s.disk;
        sector_buffer = copy s.sector_buffer 0 (s.disk.sectors (lba % 2 ^ 28)) 0 512;
      },
    )
unfolding read_sector
read_reliable lba s r = rw (r s.disk.clock, read_sector) refl

set_geometry-IsMounted : (s : State) → IsVolume s.fs.boot → IsMounted (set_geometry s).fs
unfolding set_geometry
set_geometry-IsMounted s v =
    let boot = s.fs.boot in
    let no_wrap : u32 (begins boot) ≡ begins boot = omega (arith, v.data_inside, v.disk_fits) in
    let behind : u32 (boot.total_sectors_32 + (2 ^ 32 - u32 (begins boot)))
        ≡ boot.total_sectors_32 - begins boot =
      omega (arith, no_wrap, v.data_inside, v.disk_fits) in
    let total : (set_geometry s).fs.total_clusters
        ≡ (boot.total_sectors_32 - begins boot) / boot.sectors_per_cluster =
      ap (λ n. n / boot.sectors_per_cluster) behind in
    let whole = div-mul-le_self (boot.total_sectors_32 - begins boot) boot.sectors_per_cluster in
    record {
      has_fat = v.has_fat;
      few_fats = v.few_fats;
      copies_fit = omega (arith, no_wrap);
      table_fits = subst (λ n. n + 2 ≤ boot.fat_size_32 * 128) (sym total) v.table_fits;
      has_sector = v.has_sector;
      buffer_fits = v.buffer_fits;
      cluster_bytes = refl;
      data_fits =
          subst (λ n. u32 (begins boot) + n * boot.sectors_per_cluster ≤ 2 ^ 28) (sym total)
            (omega (arith, no_wrap, whole, v.data_inside, v.disk_fits));
    }

-- The state in which the rest of `fat32_mount` goes on.
abbrev booted : State → State
booted s = record s {
  disk = Disk.tick s.disk;
  sector_buffer = copy s.sector_buffer 0 (s.disk.sectors 0) 0 512;
  fs = record s.fs { boot = load_boot (s.disk.sectors 0) };
}

mount_boot :
    (s : State)
    → Disk.IsReliable s.disk
    → (load_boot (s.disk.sectors 0)).bytes_per_sector ≡ 512
    → mount s ≡ mount_fsinfo (booted s)
unfolding mount load_boot copy read16 read32 load_list
mount_boot s r h = rw (read_reliable 0 s r, h, mount) refl

-- The state that `fat32_mount` leaves.
abbrev informed : State → State
informed s = record s {
  disk = Disk.tick s.disk;
  sector_buffer = copy s.sector_buffer 0 (s.disk.sectors (s.fs.boot.fs_info % 2 ^ 28)) 0 512;
  fs = record s.fs { fsinfo = load_fsinfo (s.disk.sectors (s.fs.boot.fs_info % 2 ^ 28)) };
}

root_large : (n : ℕ) → 2 ≤ n → ltb n 2 ≡ false
root_large n h = ground (arith, h)

mount_geometry :
    (s : State)
    → Disk.IsReliable s.disk
    → 2 ≤ s.fs.boot.root_cluster
    → mount_fsinfo s ≡ (pos 0, set_geometry (informed s))
unfolding mount_fsinfo load_fsinfo copy read32
mount_geometry s r h =
    rw (read_reliable s.fs.boot.fs_info s r, root_large s.fs.boot.root_cluster h, mount_fsinfo) refl

-- What a mount that succeeds leaves.
pub record IsMount (s : State) (r : ℤ × State) : Type 0 where
  pub result : r.0 ≡ pos 0
  pub mounted : IsMounted r.1.fs
  pub boot : r.1.fs.boot ≡ load_boot (s.disk.sectors 0)
  pub root : r.1.fs.root_dir_first_cluster ≡ (load_boot (s.disk.sectors 0)).root_cluster
  pub info :
      r.1.fs.fsinfo ≡ load_fsinfo (s.disk.sectors ((load_boot (s.disk.sectors 0)).fs_info % 2 ^ 28))
  pub untouched : r.1.disk.sectors ≡ s.disk.sectors

-- On a disk that does not fail and whose first sector describes a volume, `fat32_mount` returns 0,
-- with a geometry that stays in range, the boot sector, the root directory and the FSInfo of the
-- disk, and writes nothing.
pub mount_lem :
    (s : State)
    → Disk.IsReliable s.disk
    → IsVolume (load_boot (s.disk.sectors 0))
    → IsMount s (mount s)
unfolding set_geometry
mount_lem s r v =
    subst (IsMount s) (sym (mount_boot s r v.sector_bytes ∙ mount_geometry (booted s) r v.has_root))
      (record {
        result = refl;
        mounted = set_geometry-IsMounted (informed (booted s)) v;
        boot = refl;
        root = refl;
        info = refl;
        untouched = refl;
      })
