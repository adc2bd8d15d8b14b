-- ===== src/Fat/Format/Tests.antt =====
-- A disk of four megabytes, formatted, and mounted from its boot sector; and a path two directories
-- deep.
use quantum_kernel.Fat.Path.{path_of, joined, separator, get_current_path, get_current_path_lem}
use quantum_kernel.Bytes.{zeros}
use quantum_kernel.Fat.Format.Written.{boot_bytes}
use quantum_kernel.Fat.Format.Volume.{IsFormatted, format_lem, boot-IsVolume}
use quantum_kernel.Fat.Mount.{load_boot, mount, load_fsinfo}
use quantum_kernel.Fat.Format.{format}
use quantum_kernel.Fat.Mount.Volume.{IsMount, mount_lem}
use quantum_kernel.Fat.{State}
use quantum_kernel.Prelude.{
  pos, ◌≡◌, refl, false, arith, ◌+◌, ◌<◌, ◌∷◌, [], ◌⊎◌, ◌≤◌, negsuc, length,
}

abbrev empty_disk : State
empty_disk = record {
  fs = record {
    boot = load_boot zeros;
    fsinfo = load_fsinfo zeros;
    fat_begin_lba = 0;
    cluster_begin_lba = 0;
    root_dir_first_cluster = 0;
    sectors_per_cluster = 0;
    bytes_per_cluster = 0;
    total_clusters = 0;
    num_fats = 0;
  };
  sector_buffer = zeros;
  cluster_buffer = zeros;
  current_dir_cluster = 2;
  disk = record { sectors = λ _. zeros; faults = λ _. false; clock = 0 };
}

-- The same with a boot sector.
abbrev volume : State
volume = record empty_disk {
  disk = record { sectors = λ _. boot_bytes 8192 empty_disk; faults = λ _. false; clock = 0 };
}

mount_lem_example : IsMount volume (mount volume)
mount_lem_example =
    mount_lem volume (λ _. refl) (boot-IsVolume 8192 empty_disk (omega arith) (omega arith))

format_lem_example : IsFormatted 8192 empty_disk (format 8192 empty_disk)
format_lem_example = format_lem 8192 empty_disk (λ _. refl) (omega arith) (omega arith)

-- "/A/BC" in six bytes.
get_current_path_lem_example :
    (((5 + 1 < 6)
        × (get_current_path ((b'A' ∷ []) ∷ (b'B' ∷ b'C' ∷ []) ∷ []) 6
            ≡ (pos 5, b'/' ∷ b'A' ∷ b'/' ∷ b'B' ∷ b'C' ∷ 0 ∷ [])))
      ⊎ ((6 ≤ 5 + 1) × ((get_current_path ((b'A' ∷ []) ∷ (b'B' ∷ b'C' ∷ []) ∷ []) 6).0 ≡ negsuc 0)))
    × (length (get_current_path ((b'A' ∷ []) ∷ (b'B' ∷ b'C' ∷ []) ∷ []) 6).1 ≤ 6)
unfolding path_of joined separator
get_current_path_lem_example =
    get_current_path_lem (b'A' ∷ []) ((b'B' ∷ b'C' ∷ []) ∷ []) 6 (omega arith)
