-- ===== src/Fat/Create/Tests.antt =====
-- A directory with a deleted entry, and a new entry in it.
use quantum_kernel.Fat.Create.Slot.{scan-put_entry}
use quantum_kernel.Fat.Create.{put_entry}
use quantum_kernel.Fat.Directory.{scan, same_name, dirent_size, found, first_cluster_of}
use quantum_kernel.Fat.Directory.Scan.{Clear, is_named}
use quantum_kernel.Bytes.{Bytes, store_list, zeros, from}
use quantum_kernel.Prelude.{ℕ, ◌+◌, ◌*◌, ◌≡◌, refl, List, [], ◌∷◌, arith}

abbrev readme : List ℕ
readme = b'R' ∷ b'E' ∷ b'A' ∷ b'D' ∷ b'M' ∷ b'E' ∷ b' ' ∷ b' ' ∷ b' ' ∷ b' ' ∷ b' ' ∷ []

-- Its first entry is deleted.
abbrev directory : Bytes
directory = store_list zeros 0 (0xe5 ∷ readme)

scan-put_entry_example :
    (scan 16 0 readme (put_entry readme 0x20 0x1_0005 (1 * dirent_size) directory) ≡ found 1)
    × (first_cluster_of
          (from (put_entry readme 0x20 0x1_0005 (1 * dirent_size) directory) (1 * dirent_size))
        ≡ 0x1_0005)
    × (put_entry readme 0x20 0x1_0005 (1 * dirent_size) directory (1 * dirent_size + 11) ≡ 0x20)
unfolding Clear is_named store_list same_name
scan-put_entry_example =
    scan-put_entry readme 0x20 0x1_0005 16 1 directory refl (omega arith) (omega arith)
      (omega arith) (omega arith) (omega arith) (omega arith) (refl, refl, tt)
