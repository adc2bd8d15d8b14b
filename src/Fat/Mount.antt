-- ===== src/Fat/Mount.antt =====
-- `fat32_format` and `fat32_mount` of src/fs/fat32.c; the packed structures as bytes of a sector.
pub mod Volume
use quantum_kernel.Prelude.{
  ltb, if◌then◌else◌, u32, ℤ, pos, negsuc, ◌+◌, ◌-◌, ◌*◌, ◌/◌, ◌^◌, not, ◌==◌,
}
use quantum_kernel.Bytes.{Bytes, read16, read32, write8, write16, write32, store_list, load_list}
use quantum_kernel.Fat.{BootSector, FsInfo, State, sector_size, read_sector}

-- `memcpy(&g_fs.boot, sector_buffer, sizeof(fat32_boot_sector_t))`
unfoldable pub load_boot : Bytes → BootSector
load_boot b = record {
  jmp = load_list 3 b 0;
  oem = load_list 8 b 3;
  bytes_per_sector = read16 b 11;
  sectors_per_cluster = b 13;
  reserved_sectors = read16 b 14;
  num_fats = b 16;
  root_entries = read16 b 17;
  total_sectors_16 = read16 b 19;
  media_type = b 21;
  fat_size_16 = read16 b 22;
  sectors_per_track = read16 b 24;
  num_heads = read16 b 26;
  hidden_sectors = read32 b 28;
  total_sectors_32 = read32 b 32;
  fat_size_32 = read32 b 36;
  ext_flags = read16 b 40;
  fs_version = read16 b 42;
  root_cluster = read32 b 44;
  fs_info = read16 b 48;
  backup_boot = read16 b 50;
  reserved = load_list 12 b 52;
  drive_number = b 64;
  reserved1 = b 65;
  boot_sig = b 66;
  volume_id = read32 b 67;
  volume_label = load_list 11 b 71;
  fs_type = load_list 8 b 82;
}

-- `memcpy(sector_buffer, &g_fs.boot, sizeof(fat32_boot_sector_t))`
unfoldable pub store_boot : Bytes → BootSector → Bytes
store_boot b f =
    let b = store_list (store_list b 0 f.jmp) 3 f.oem in
    let b = write16 b 11 f.bytes_per_sector in
    let b = write8 b 13 f.sectors_per_cluster in
    let b = write16 b 14 f.reserved_sectors in
    let b = write8 b 16 f.num_fats in
    let b = write16 (write16 b 17 f.root_entries) 19 f.total_sectors_16 in
    let b = write8 b 21 f.media_type in
    let b = write16 (write16 b 22 f.fat_size_16) 24 f.sectors_per_track in
    let b = write16 b 26 f.num_heads in
    let b = write32 (write32 b 28 f.hidden_sectors) 32 f.total_sectors_32 in
    let b = write32 b 36 f.fat_size_32 in
    let b = write16 (write16 b 40 f.ext_flags) 42 f.fs_version in
    let b = write32 b 44 f.root_cluster in
    let b = write16 (write16 b 48 f.fs_info) 50 f.backup_boot in
    let b = store_list b 52 f.reserved in
    let b = write8 (write8 (write8 b 64 f.drive_number) 65 f.reserved1) 66 f.boot_sig in
    let b = write32 b 67 f.volume_id in store_list (store_list b 71 f.volume_label) 82 f.fs_type

unfoldable pub load_fsinfo : Bytes → FsInfo
load_fsinfo b = record {
  lead_sig = read32 b 0;
  struct_sig = read32 b 484;
  free_count = read32 b 488;
  next_free = read32 b 492;
  trail_sig = read32 b 508;
}

-- Over a buffer of zeros.
unfoldable pub store_fsinfo : Bytes → FsInfo → Bytes
store_fsinfo b f =
    let b = write32 (write32 b 0 f.lead_sig) 484 f.struct_sig in
    let b = write32 (write32 b 488 f.free_count) 492 f.next_free in write32 b 508 f.trail_sig

-- The geometry that `fat32_mount` derives once both structures are read. A `sectors_per_cluster` of 0
-- stops the processor at the division, which gives 0 here.
unfoldable pub set_geometry : State → State
set_geometry s =
    let boot = s.fs.boot in
    let begins = u32 (boot.reserved_sectors + boot.num_fats * boot.fat_size_32) in
    let data_sectors = u32 (boot.total_sectors_32 + (2 ^ 32 - begins)) in
    record s {
      fs = record s.fs {
        fat_begin_lba = boot.reserved_sectors;
        cluster_begin_lba = begins;
        root_dir_first_cluster = boot.root_cluster;
        sectors_per_cluster = boot.sectors_per_cluster;
        bytes_per_cluster = boot.sectors_per_cluster * sector_size;
        num_fats = boot.num_fats;
        total_clusters = data_sectors / boot.sectors_per_cluster;
      };
    }

-- What is set before the return on a root cluster below 2.
unfoldable pub set_begins : State → State
set_begins s =
    let boot = s.fs.boot in
    record s {
      fs = record s.fs {
        fat_begin_lba = boot.reserved_sectors;
        cluster_begin_lba = u32 (boot.reserved_sectors + boot.num_fats * boot.fat_size_32);
        root_dir_first_cluster = boot.root_cluster;
      };
    }

-- The rest of `fat32_mount` behind the test of the sector size.
unfoldable pub mount_fsinfo : State → ℤ × State
mount_fsinfo s =
    let (done, s') = read_sector s.fs.boot.fs_info s in
    let read : State = record s' { fs = record s'.fs { fsinfo = load_fsinfo s'.sector_buffer } } in
    if not done
    then (negsuc 0, s')
    else if ltb read.fs.boot.root_cluster 2
    then (negsuc 0, set_begins read)
    else (pos 0, set_geometry read)

unfoldable pub mount : State → ℤ × State
mount s =
    let (done, s') = read_sector 0 s in
    let read : State = record s' { fs = record s'.fs { boot = load_boot s'.sector_buffer } } in
    if not done
    then (negsuc 0, s')
    else if not (read.fs.boot.bytes_per_sector == sector_size)
    then (negsuc 0, read)
    else mount_fsinfo read
