-- ===== src/Syscall/Files.antt =====
-- The calls on files of src/user/syscall.c, over src/fs/fat32.c. A pointer that may be NULL is an
-- `Option`, and a path is the list of its bytes. `fuel` bounds the walks along clusters.
use quantum_kernel.Prelude.{
  to_int, if◌then◌else◌, u8, zero, suc, ℤ, pos, negsuc, ℕ, inl, inr, Option, none, some, List, [],
  ◌==◌, ◌⊎◌,
}
use quantum_kernel.Bytes.{Bytes}
use quantum_kernel.Fat.{State}
use quantum_kernel.Fat.Chdir.{chdir, Moved}
use quantum_kernel.Fat.Create.{open_file, mkdir}
use quantum_kernel.Fat.Directory.{unlink}
use quantum_kernel.Fat.File.{read, seek, close, File, ReadResult}
use quantum_kernel.Fat.Listing.{FileInfo, readdir}
use quantum_kernel.Fat.Path.{get_current_path}
use quantum_kernel.Fat.Write.{write, WriteResult}
use quantum_kernel.Syscall.{System, alloc_fd, free_fd, used_slot, put_file, Descriptors}

-- What a call leaves behind: `r->eax` and the system.
pub record Done : Type 0 where
  pub eax : ℤ
  pub system : System

abbrev pub fails : System → Done
fails s = record { eax = negsuc 0; system = s }

-- What SYS_OPEN does with the value that `fat32_open` on its slot returns; the slot holds what the
-- call has left in the file in either case.
unfoldable pub after_open : ℕ → Descriptors → System → Option (ℤ × File × State) → Option Done
after_open fd files s none = none
after_open fd files s (some (pos zero, f, fat)) =
    some (record { eax = pos fd; system = record s { fat = fat; files = put_file fd f files } })
after_open fd files s (some (pos (suc _), f, fat)) =
    some (fails (record s { fat = fat; files = free_fd (pos fd) (put_file fd f files) }))
after_open fd files s (some (negsuc _, f, fat)) =
    some (fails (record s { fat = fat; files = free_fd (pos fd) (put_file fd f files) }))

-- SYS_OPEN
unfoldable pub sys_open : ℕ → List ℕ → ℕ → System → Option Done
sys_open fuel path flags s =
    let (slot, files) = alloc_fd s.files in
    elim slot [
      | none ↦ some (fails s)
      | some fd ↦ after_open fd files s (open_file fuel path (u8 flags) s.fat)
    ]

-- SYS_CLOSE: the slot is free again whatever `fat32_close` returns.
unfoldable pub sys_close : ℤ → System → Done
sys_close fd s = elim (used_slot fd s.files) [
  | none ↦ fails s
  | some i ↦
      let (result, f, fat) = close (s.files.file_table i) s.fat in
      record {
        eax = result;
        system = record s { fat = fat; files = free_fd (pos i) (put_file i f s.files) };
      }
]

-- What SYS_FILE_READ does with the outcome of `fat32_read`.
unfoldable pub after_read :
    ℕ → Option Bytes → System → Option (ℤ ⊎ ReadResult) → Option (Done × Option Bytes)
after_read i buffer s none = none
after_read i buffer s (some (inl result)) = some (record { eax = result; system = s }, buffer)
after_read i buffer s (some (inr r)) = some (
  record { eax = r.result; system = record s { fat = r.state; files = put_file i r.file s.files } },
  some r.buffer,
)

-- SYS_FILE_READ; the buffer behind the call stands beside the result.
unfoldable pub sys_file_read : ℤ → Option Bytes → ℕ → System → Option (Done × Option Bytes)
sys_file_read fd buffer size s = elim (used_slot fd s.files) [
  | none ↦ some (fails s, buffer)
  | some i ↦ after_read i buffer s (read (some (s.files.file_table i)) buffer size s.fat)
]

-- What SYS_FILE_WRITE does with the outcome of `fat32_write`.
unfoldable pub after_write : ℕ → System → Option (ℤ ⊎ WriteResult) → Option Done
after_write i s none = none
after_write i s (some (inl result)) = some (record { eax = result; system = s })
after_write i s (some (inr o)) = some (record {
  eax = o.result;
  system = record s { fat = o.state; files = put_file i o.file s.files };
})

-- SYS_FILE_WRITE
unfoldable pub sys_file_write : ℤ → Option Bytes → ℕ → System → Option Done
sys_file_write fd buffer size s = elim (used_slot fd s.files) [
  | none ↦ some (fails s)
  | some i ↦ after_write i s (write (some (s.files.file_table i)) buffer size s.fat)
]

-- SYS_SEEK
unfoldable pub sys_seek : ℤ → ℕ → ℕ → System → Done
sys_seek fd offset whence s = elim (used_slot fd s.files) [
  | none ↦ fails s
  | some i ↦
      let (result, f) = seek (s.files.file_table i) offset (u8 whence) in
      record { eax = result; system = record s { files = put_file i f s.files } }
]

abbrev pub with_fat : System → Option (ℤ × State) → Option Done
with_fat s none = none
with_fat s (some (result, fat)) = some (record { eax = result; system = record s { fat = fat } })

-- SYS_UNLINK
unfoldable pub sys_unlink : ℕ → List ℕ → System → Option Done
sys_unlink fuel path s = with_fat s (unlink fuel path s.fat)

-- SYS_MKDIR
unfoldable pub sys_mkdir : ℕ → List ℕ → System → Option Done
sys_mkdir fuel path s = with_fat s (mkdir fuel path s.fat)

-- What SYS_CHDIR does with the outcome of `fat32_chdir`.
unfoldable pub after_chdir : System → Option Moved → Option Done
after_chdir s none = none
after_chdir s (some m) =
    some (record { eax = m.result; system = record s { fat = m.state; names = m.names } })

-- SYS_CHDIR
unfoldable pub sys_chdir : ℕ → List ℕ → System → Option Done
sys_chdir fuel path s = after_chdir s (chdir fuel path s.names s.fat)

-- What SYS_READDIR does with the outcome of `fat32_readdir`.
unfoldable pub after_readdir :
    System → Option (Option FileInfo × ℕ × State) → Option (Done × ℕ × Option FileInfo)
after_readdir s none = none
after_readdir s (some (none, index, fat)) = some (fails (record s { fat = fat }), index, none)
after_readdir s (some (some info, index, fat)) =
    some (record { eax = pos 0; system = record s { fat = fat } }, index, some info)

-- SYS_READDIR with an index and an info that are not NULL; both stand beside the result.
unfoldable pub sys_readdir : ℕ → ℕ → ℕ → System → Option (Done × ℕ × Option FileInfo)
sys_readdir fuel cluster index s = after_readdir s (readdir fuel cluster index s.fat)

-- SYS_GETCWD with a buffer that is not NULL; the bytes written stand beside the result.
unfoldable pub sys_getcwd : ℤ → System → Done × List ℕ
sys_getcwd (negsuc _) s = (fails s, [])
sys_getcwd (pos size) s =
    let (result, out) = get_current_path s.names size in
    if size == 0 then (fails s, []) else (record { eax = result; system = s }, out)

-- SYS_GET_CWD_CLUSTER
unfoldable pub sys_get_cwd_cluster : System → Done
sys_get_cwd_cluster s = record { eax = to_int s.fat.current_dir_cluster; system = s }
