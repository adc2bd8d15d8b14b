-- ===== src/Fat/Format.antt =====
-- `fat32_format` of src/fs/fat32.c.
mod Tests
pub mod Volume
pub mod Fills
pub mod Written
use quantum_kernel.Prelude.{
  mul-le, sub-mul, length-drop, get_or-drop, le→leb, to_int, ltb, leb, if◌then◌else◌, bit, u8, u16,
  u32, ltb→lt, lt→ltb, le→ltb, ==_iff, Bool-cases, Option-cases, length, get_or, set, take, drop,
  length-append, length-set, get_or-set_self, get_or-set_ne, replicate, ℤ, pos, negsuc, is_neg,
  sign_extend, ℕ, zero, suc, ◌+◌, ◌-◌, ◌*◌, ◌/◌, ◌%◌, ◌^◌, ◌≤◌, ◌<◌, min, max, ◌≡◌, refl, sym, ap,
  ap₂, ◌∙◌, ◌≢◌, ◌↔◌, ◌⊎◌, inl, inr, Bool, true, false, ◌&&◌, ◌||◌, not, Option, none, some, List,
  [], ◌∷◌, ◌++◌, map, append-nil, append_assoc, arith, ◌==◌,
}
use quantum_kernel.Bytes.{Bytes, write8, store_list, fill}
use quantum_kernel.Fat.{BootSector, FsInfo, Fs, State, sector_size, write_sector}
use quantum_kernel.Fat.Mount.{mount, store_boot, store_fsinfo}

-- `((total_sectors - 32) / (8 + (2 * 128))) + 1`
unfoldable pub fat_size_for : ℕ → ℕ
fat_size_for total = u32 (total + (2 ^ 32 - 32)) / 264 + 1

-- The stores into `g_fs.boot`.
unfoldable pub new_boot : ℕ → BootSector
new_boot total = record {
  jmp = 0xeb ∷ 0x58 ∷ 0x90 ∷ [];
  oem = b'M' ∷ b'Y' ∷ b'O' ∷ b'S' ∷ b' ' ∷ b' ' ∷ b' ' ∷ b' ' ∷ [];
  bytes_per_sector = sector_size;
  sectors_per_cluster = 8;
  reserved_sectors = 32;
  num_fats = 2;
  root_entries = 0;
  total_sectors_16 = 0;
  media_type = 0xf8;
  fat_size_16 = 0;
  sectors_per_track = 63;
  num_heads = 255;
  hidden_sectors = 0;
  total_sectors_32 = total;
  fat_size_32 = fat_size_for total;
  ext_flags = 0;
  fs_version = 0;
  root_cluster = 2;
  fs_info = 1;
  backup_boot = 6;
  reserved = replicate 12 0;
  drive_number = 0x80;
  reserved1 = 0;
  boot_sig = 0x29;
  volume_id = 0x12345678;
  volume_label = b'M' ∷ b'Y' ∷ b'O' ∷ b'S' ∷ b' ' ∷ b'D' ∷ b'I' ∷ b'S' ∷ b'K' ∷ b' ' ∷ b' ' ∷ [];
  fs_type = b'F' ∷ b'A' ∷ b'T' ∷ b'3' ∷ b'2' ∷ b' ' ∷ b' ' ∷ b' ' ∷ [];
}

abbrev pub new_fsinfo : FsInfo
new_fsinfo = record {
  lead_sig = 0x4161_5252;
  struct_sig = 0x6141_7272;
  free_count = 0xffff_ffff;
  next_free = 3;
  trail_sig = 0xaa55_0000;
}

-- `memset(sector_buffer, 0, FAT32_SECTOR_SIZE)`
abbrev pub blank : State → State
blank s = record s { sector_buffer = fill s.sector_buffer 0 0 sector_size }

-- The first three entries of the table.
abbrev pub first_entries : List ℕ
first_entries =
    0xf8 ∷ 0xff ∷ 0xff ∷ 0x0f ∷ 0xff ∷ 0xff ∷ 0xff ∷ 0x0f ∷ 0xff ∷ 0xff ∷ 0xff ∷ 0x0f ∷ []

-- What sector `i` of a copy of the table gets.
unfoldable pub table_sector : ℕ → State → State
table_sector i s =
    if i == 0
    then record s { sector_buffer = store_list s.sector_buffer 0 first_entries }
    else blank s

-- The inner loop, with `n` sectors left from sector `i` of the copy at `fat_lba` on.
unfoldable pub format_copy : ℕ → ℕ → ℕ → State → Bool × State
format_copy zero i fat_lba s = (true, s)
format_copy (suc n) i fat_lba s =
    let (done, s') = write_sector (u32 (fat_lba + i)) (table_sector i s) in
    let rest = format_copy n (i + 1) fat_lba s' in if done then rest else (false, s')

-- The loop over the root directory's sectors, with `n` left from sector `i` on.
unfoldable pub clear_root : ℕ → ℕ → ℕ → State → Bool × State
clear_root zero i data_begin s = (true, s)
clear_root (suc n) i data_begin s =
    let (done, s') = write_sector (u32 (data_begin + i)) s in
    let rest = clear_root n (i + 1) data_begin s' in if done then rest else (false, s')

-- The boot sector, up to its transfer.
unfoldable pub put_boot : ℕ → State → State
put_boot total s =
    let boot = new_boot total in
    let s' : State = blank (record s { fs = record s.fs { boot = boot } }) in
    let stored = store_boot s'.sector_buffer boot in
    record s' { sector_buffer = write8 (write8 stored 510 0x55) 511 0xaa }

unfoldable pub put_fsinfo : State → State
put_fsinfo s =
    let s' : State = blank (record s { fs = record s.fs { fsinfo = new_fsinfo } }) in
    record s' { sector_buffer = store_fsinfo s'.sector_buffer new_fsinfo }

-- One transfer or loop after the other, as long as they succeed.
unfoldable pub then_do : Bool × State → (State → Bool × State) → Bool × State
then_do (done, s) f = let after = f s in if done then after else (false, s)

-- Everything but the mounting.
unfoldable pub write_volume : ℕ → State → Bool × State
write_volume total s =
    let fat_size = fat_size_for total in
    let data_begin = u32 (32 + u32 (2 * fat_size)) in
    then_do (write_sector 0 (put_boot total s)) (λ a. then_do (write_sector 1 (put_fsinfo a)) (λ b.
      then_do (format_copy fat_size 0 32 (blank b)) (λ c.
        then_do (format_copy fat_size 0 (u32 (32 + fat_size)) c)
          (λ d. clear_root 8 0 data_begin (blank d)))))

unfoldable pub format : ℕ → State → ℤ × State
format total s =
    let (done, s') = write_volume total s in
    let mounted = mount s' in if done then mounted else (negsuc 0, s')
