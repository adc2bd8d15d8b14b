-- ===== src/Fat.antt =====
-- src/fs/fat32.c and include/fs/fat32.h: the FAT32 driver, its static variables as one record.
pub mod Chdir
pub mod Cluster
pub mod File
pub mod Format
pub mod Listing
pub mod Directory
pub mod Create
pub mod Mount
pub mod Name
pub mod Path
pub mod Table
pub mod Write
pub mod Tests
use quantum_kernel.Prelude.{
  ℕ, ◌+◌, ◌*◌, ◌%◌, ◌≤◌, ◌<◌, ◌^◌, ◌≡◌, Bool, true, false, none, some, List,
}
use quantum_kernel.Bytes.{Bytes, copy}
use quantum_kernel.Disk
use quantum_kernel.Disk.{Disk}

-- `fat32_boot_sector_t`
pub record BootSector : Type 0 where
  pub jmp : List ℕ
  pub oem : List ℕ
  pub bytes_per_sector : ℕ
  pub sectors_per_cluster : ℕ
  pub reserved_sectors : ℕ
  pub num_fats : ℕ
  pub root_entries : ℕ
  pub total_sectors_16 : ℕ
  pub media_type : ℕ
  pub fat_size_16 : ℕ
  pub sectors_per_track : ℕ
  pub num_heads : ℕ
  pub hidden_sectors : ℕ
  pub total_sectors_32 : ℕ
  pub fat_size_32 : ℕ
  pub ext_flags : ℕ
  pub fs_version : ℕ
  pub root_cluster : ℕ
  pub fs_info : ℕ
  pub backup_boot : ℕ
  pub reserved : List ℕ
  pub drive_number : ℕ
  pub reserved1 : ℕ
  pub boot_sig : ℕ
  pub volume_id : ℕ
  pub volume_label : List ℕ
  pub fs_type : List ℕ

-- `fat32_fsinfo_t`; of its reserved bytes the driver reads and writes none but as zeros.
pub record FsInfo : Type 0 where
  pub lead_sig : ℕ
  pub struct_sig : ℕ
  pub free_count : ℕ
  pub next_free : ℕ
  pub trail_sig : ℕ

-- `fat32_fs_t`
pub record Fs : Type 0 where
  pub boot : BootSector
  pub fsinfo : FsInfo
  pub fat_begin_lba : ℕ
  pub cluster_begin_lba : ℕ
  pub root_dir_first_cluster : ℕ
  pub sectors_per_cluster : ℕ
  pub bytes_per_cluster : ℕ
  pub total_clusters : ℕ
  pub num_fats : ℕ

-- `g_fs`, the two static buffers, `g_current_dir_cluster`, and the disk behind the driver.
pub record State : Type 0 where
  pub fs : Fs
  pub sector_buffer : Bytes
  pub cluster_buffer : Bytes
  pub current_dir_cluster : ℕ
  pub disk : Disk

abbrev pub sector_size : ℕ
sector_size = 512

abbrev pub free_cluster : ℕ
free_cluster = 0

abbrev pub bad_cluster : ℕ
bad_cluster = 0x0fff_fff7

abbrev pub eoc_min : ℕ
eoc_min = 0x0fff_fff8

abbrev pub eoc_max : ℕ
eoc_max = 0x0fff_ffff

-- `ata_read_sector(lba, sector_buffer)`, and whether it returned ATA_OK.
unfoldable pub read_sector : ℕ → State → Bool × State
read_sector lba s = elim (Disk.load lba s.disk) [
  | none ↦ (false, record s { disk = Disk.tick s.disk })
  | some b ↦ (
    true,
    record s { disk = Disk.tick s.disk; sector_buffer = copy s.sector_buffer 0 b 0 sector_size },
  )
]

-- `ata_write_sector(lba, sector_buffer)`
unfoldable pub write_sector : ℕ → State → Bool × State
write_sector lba s =
    let (done, d) = Disk.store lba s.sector_buffer s.disk in (done, record s { disk = d })

-- What `fat32_mount` has to find for the driver's arithmetic to stay in range: the copies of the
-- table lie before the clusters, a copy has an entry for each cluster, a cluster fits the buffer,
-- and the disk's addresses fit 28 bits.
pub record IsMounted (f : Fs) : Type 0 where
  pub has_fat : 0 < f.num_fats
  pub few_fats : f.num_fats < 256
  pub copies_fit : f.fat_begin_lba + f.num_fats * f.boot.fat_size_32 ≤ f.cluster_begin_lba
  pub table_fits : f.total_clusters + 2 ≤ f.boot.fat_size_32 * 128
  pub has_sector : 0 < f.sectors_per_cluster
  pub buffer_fits : f.sectors_per_cluster ≤ 128
  pub cluster_bytes : f.bytes_per_cluster ≡ f.sectors_per_cluster * 512
  pub data_fits : f.cluster_begin_lba + f.total_clusters * f.sectors_per_cluster ≤ 2 ^ 28
