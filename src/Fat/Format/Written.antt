-- ===== src/Fat/Format/Written.antt =====
-- The sectors that `fat32_format` of src/fs/fat32.c writes: the boot sector, the FSInfo, both copies
-- of the table and the root directory.
use quantum_kernel.Prelude.{
  u32, ℕ, zero, suc, ◌+◌, ◌*◌, ◌^◌, ◌≤◌, ◌<◌, ◌≡◌, refl, sym, ap, ◌∙◌, inl, inr, Bool, true, arith,
}
use mathlib.Core.Path.{subst}
use quantum_kernel.Disk
use quantum_kernel.Bytes.{Bytes, fill}
use quantum_kernel.Fat.{State, write_sector}
use quantum_kernel.Fat.Format.{
  format_copy, clear_root, table_sector, then_do, blank, put_boot, fat_size_for, put_fsinfo,
  write_volume,
}
use quantum_kernel.Fat.Format.Fills.{
  Fills, Fills-then, IsBlankBehind, new_table, new_table_behind, no_entries, table_sector_disk,
  table_sector_lem, write-Fills, write-buffer, write-stored,
}

Fills-none :
    (a : ℕ) (content : ℕ → Bytes) (t : State)
    → Disk.IsReliable t.disk
    → Fills a 0 content t.disk.sectors (true, t)
Fills-none a content t r = record {
  done = refl;
  reliable = r;
  inside = λ x p lo hi lt. absurd (omega arith);
  outside = λ x out. refl;
}

-- The loop over a copy, and the buffer that it leaves.
pub format_copy-Fills :
    (n i lba : ℕ) (t : State)
    → Disk.IsReliable t.disk
    → IsBlankBehind t
    → lba + i + n ≤ 2 ^ 28
    → Fills (lba + i) n (new_table lba) t.disk.sectors (format_copy n i lba t)
      × IsBlankBehind (format_copy n i lba t).1
unfolding format_copy
format_copy-Fills zero i lba t r h l = (Fills-none (lba + i) (new_table lba) t r, h)
format_copy-Fills (suc n) i lba t r h l =
    let b = u32 (lba + i) in
    let e : b ≡ lba + i = omega arith in
    let t' = table_sector i t in
    let same : t'.disk ≡ t.disk = table_sector_disk i t in
    let r' : Disk.IsReliable t'.disk = subst Disk.IsReliable (sym same) r in
    let now =
      write-Fills (lba + i) b (new_table lba) t' e (omega arith) r' (table_sector_lem lba i t h) in
    let behind : IsBlankBehind (write_sector b t').1 = λ p lo lt.
      ap (λ (w : Bytes). w p) (write-buffer b t' r')
      ∙ table_sector_lem lba i t h p lt
      ∙ new_table_behind lba (lba + i) p lo in
    let (rest, end) =
      format_copy-Fills n (i + 1) lba (write_sector b t').1 now.reliable behind (omega arith) in
    let both =
      Fills-then (lba + i) (lba + (i + 1)) n (new_table lba) t'.disk.sectors (write_sector b t')
        (format_copy n (i + 1) lba (write_sector b t').1) (omega arith) now rest in
    let after = format_copy n (i + 1) lba (write_sector b t').1 in
    rw now.done (
      subst (λ (d : Disk.Disk). Fills (lba + i) (suc n) (new_table lba) d.sectors after) same both,
      end,
    )

pub clear_root-Fills :
    (n i lba : ℕ) (t : State)
    → Disk.IsReliable t.disk
    → ((p : ℕ) → p < 512 → t.sector_buffer p ≡ 0)
    → lba + i + n ≤ 2 ^ 28
    → Fills (lba + i) n no_entries t.disk.sectors (clear_root n i lba t)
unfolding clear_root
clear_root-Fills zero i lba t r h l = Fills-none (lba + i) no_entries t r
clear_root-Fills (suc n) i lba t r h l =
    let b = u32 (lba + i) in
    let e : b ≡ lba + i = omega arith in
    let now = write-Fills (lba + i) b no_entries t e (omega arith) r h in
    let blank_still : (p : ℕ) → p < 512 → (write_sector b t).1.sector_buffer p ≡ 0 =
      λ p lt. ap (λ (w : Bytes). w p) (write-buffer b t r) ∙ h p lt in
    let rest =
      clear_root-Fills n (i + 1) lba (write_sector b t).1 now.reliable blank_still (omega arith) in
    rw now.done (
      Fills-then (lba + i) (lba + (i + 1)) n no_entries t.disk.sectors (write_sector b t)
        (clear_root n (i + 1) lba (write_sector b t).1) (omega arith) now rest)

-- The boot sector that is written.
abbrev pub boot_bytes : ℕ → State → Bytes
boot_bytes total s = (put_boot total s).sector_buffer

-- The sectors of a disk with an empty volume of `total` sectors: the first 32 sectors are reserved,
-- then come the two copies of the table and the root directory's cluster of 8 sectors.
pub record IsEmptyVolume (total : ℕ) (sectors : ℕ → Bytes) : Type 0 where
  pub first_copy :
      (a p : ℕ) → 32 ≤ a → a < 32 + fat_size_for total → p < 512 → sectors a p ≡ new_table 32 a p
  pub second_copy :
      (a p : ℕ)
      → 32 + fat_size_for total ≤ a
      → a < 32 + 2 * fat_size_for total
      → p < 512
      → sectors a p ≡ new_table (32 + fat_size_for total) a p
  pub root :
      (a p : ℕ)
      → 32 + 2 * fat_size_for total ≤ a
      → a < 40 + 2 * fat_size_for total
      → p < 512
      → sectors a p ≡ 0

-- What `write_volume` leaves: the boot sector, the FSInfo and an empty volume, and the sectors behind
-- the root directory as they were.
pub record IsWritten (total : ℕ) (s : State) (r : Bool × State) : Type 0 where
  pub done : r.0 ≡ true
  pub reliable : Disk.IsReliable r.1.disk
  pub boot : r.1.disk.sectors 0 ≡ boot_bytes total s
  pub info : r.1.disk.sectors 1 ≡ (put_fsinfo (write_sector 0 (put_boot total s)).1).sector_buffer
  pub volume : IsEmptyVolume total r.1.disk.sectors
  pub behind : (a : ℕ) → 40 + 2 * fat_size_for total ≤ a → r.1.disk.sectors a ≡ s.disk.sectors a

then_do_eq : (r : Bool × State) (f : State → Bool × State) → r.0 ≡ true → then_do r f ≡ f r.1
unfolding then_do
then_do_eq r f d = rw d refl

module _ (total : ℕ) (s : State) (r : Disk.IsReliable s.disk)
    (small : 40 + 2 * fat_size_for total ≤ 2 ^ 28) where
  abbrev size : ℕ
  size = fat_size_for total

  abbrev after_boot : State
  after_boot = (write_sector 0 (put_boot total s)).1

  abbrev after_info : State
  after_info = (write_sector 1 (put_fsinfo after_boot)).1

  abbrev after_first : State
  after_first = (format_copy size 0 32 (blank after_info)).1

  abbrev after_second : State
  after_second = (format_copy size 0 (u32 (32 + size)) after_first).1

  boot_Fills :
      Fills 0 1 (λ a. boot_bytes total s) s.disk.sectors (write_sector 0 (put_boot total s))
  unfolding put_boot
  boot_Fills =
      write-Fills 0 0 (λ a. boot_bytes total s) (put_boot total s) refl (omega arith) r
        (λ p lt. refl)

  info_disk : (t : State) → (put_fsinfo t).disk ≡ t.disk
  unfolding put_fsinfo
  info_disk t = refl

  info_Fills :
      Fills 1 1
        (λ a. (put_fsinfo after_boot).sector_buffer)
        after_boot.disk.sectors
        (write_sector 1 (put_fsinfo after_boot))
  unfolding put_fsinfo
  info_Fills =
      write-Fills 1 1 (λ a. (put_fsinfo after_boot).sector_buffer) (put_fsinfo after_boot) refl
        (omega arith) boot_Fills.reliable (λ p lt. refl)

  info_stored : after_info.disk.sectors 1 ≡ (put_fsinfo after_boot).sector_buffer
  unfolding put_fsinfo
  info_stored = write-stored 1 (put_fsinfo after_boot) boot_Fills.reliable (omega arith)

  boot_stored : after_boot.disk.sectors 0 ≡ boot_bytes total s
  unfolding put_boot
  boot_stored = write-stored 0 (put_boot total s) r (omega arith)

  blank_lem : (t : State) (p : ℕ) → p < 512 → (blank t).sector_buffer p ≡ 0
  unfolding fill
  blank_lem t p lt = ground arith

  first_Fills :
      Fills 32 size
        (new_table 32)
        after_info.disk.sectors
        (format_copy size 0 32 (blank after_info))
      × IsBlankBehind after_first
  first_Fills =
      format_copy-Fills size 0 32 (blank after_info) info_Fills.reliable
        (λ p lo lt. blank_lem after_info p lt) (omega arith)

  second_Fills :
      Fills
        (32 + size)
        size
        (new_table (32 + size))
        after_first.disk.sectors
        (format_copy size 0 (u32 (32 + size)) after_first)
  second_Fills =
      let e : u32 (32 + size) ≡ 32 + size = omega arith in
      let z : 32 + size + 0 ≡ 32 + size = omega arith in
      let (filled, _) =
        format_copy-Fills size 0 (32 + size) after_first first_Fills.0.reliable first_Fills.1
          (omega arith) in
      rw e (
        subst
          (λ a.
            Fills a size (new_table (32 + size)) after_first.disk.sectors
              (format_copy size 0 (32 + size) after_first))
          z filled)

  abbrev finished : Bool × State
  finished = clear_root 8 0 (u32 (32 + u32 (2 * size))) (blank after_second)

  root_Fills : Fills (32 + 2 * size) 8 no_entries after_second.disk.sectors finished
  root_Fills =
      let e : u32 (32 + u32 (2 * size)) ≡ 32 + 2 * size = omega arith in
      let z : 32 + 2 * size + 0 ≡ 32 + 2 * size = omega arith in
      rw e (
        subst
          (λ a.
            Fills a 8 no_entries after_second.disk.sectors
              (clear_root 8 0 (32 + 2 * size) (blank after_second)))
          z
          (clear_root-Fills 8 0 (32 + 2 * size) (blank after_second) second_Fills.reliable
            (λ p lt. blank_lem after_second p lt) (omega arith)))

  write_volume_eq : write_volume total s ≡ finished
  unfolding write_volume
  write_volume_eq =
      then_do_eq (write_sector 0 (put_boot total s)) _ boot_Fills.done
      ∙ then_do_eq (write_sector 1 (put_fsinfo after_boot)) _ info_Fills.done
      ∙ then_do_eq (format_copy size 0 32 (blank after_info)) _ first_Fills.0.done
      ∙ then_do_eq (format_copy size 0 (u32 (32 + size)) after_first) _ second_Fills.done

  -- A sector is what the last loop that reached it has left.
  finished-IsWritten : IsWritten total s finished
  unfolding put_boot
  finished-IsWritten =
      let at : ℕ → Bytes → ℕ = λ p b. b p in
      let kept_second = root_Fills.outside in
      let kept_first : (a : ℕ)
          → a < 32 + size
          → finished.1.disk.sectors a ≡ after_first.disk.sectors a =
        λ a lt. root_Fills.outside a (inl (omega arith)) ∙ second_Fills.outside a (inl lt) in
      let kept_info : (a : ℕ) → a < 32 → finished.1.disk.sectors a ≡ after_info.disk.sectors a =
        λ a lt. kept_first a (omega arith) ∙ first_Fills.0.outside a (inl lt) in
      record {
        done = root_Fills.done;
        reliable = root_Fills.reliable;
        boot = kept_info 0 (omega arith) ∙ info_Fills.outside 0 (inl (omega arith)) ∙ boot_stored;
        info = kept_info 1 (omega arith) ∙ info_stored;
        volume = record {
          first_copy =
              λ a p lo hi lt. ap (at p) (kept_first a hi) ∙ first_Fills.0.inside a p lo hi lt;
          second_copy = λ a p lo hi lt.
              ap (at p) (kept_second a (inl hi)) ∙ second_Fills.inside a p lo (omega arith) lt;
          root = λ a p lo hi lt. root_Fills.inside a p lo (omega arith) lt;
        };
        behind = λ a lo.
            root_Fills.outside a (inr (omega arith))
            ∙ second_Fills.outside a (inr (omega arith))
            ∙ first_Fills.0.outside a (inr (omega arith))
            ∙ info_Fills.outside a (inr (omega arith))
            ∙ boot_Fills.outside a (inr (omega arith));
      }

  pub write_volume_lem : IsWritten total s (write_volume total s)
  write_volume_lem = subst (IsWritten total s) (sym write_volume_eq) finished-IsWritten
