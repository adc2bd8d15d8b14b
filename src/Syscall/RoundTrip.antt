-- ===== src/Syscall/RoundTrip.antt =====
-- A program that writes to a file, seeks back and reads, through src/user/syscall.c.
use quantum_kernel.Syscall.Opened.{Each, KeptWriting, write-Kept}
use quantum_kernel.Prelude.{
  to_int, ltb, if◌then◌else◌, ==_iff, length, ℤ, pos, ℕ, ◌+◌, ◌*◌, ◌^◌, ◌≤◌, ◌<◌, ◌≡◌, refl, ◌∙◌,
  inr, true, some, List, arith, ◌==◌,
}
use mathlib.Core.Path.{subst}
use quantum_kernel.Bytes.{Bytes}
use quantum_kernel.Fat.{State}
use quantum_kernel.Fat.File.{File, ReadResult, read, seek}
use quantum_kernel.Fat.File.Chain.{Links}
use quantum_kernel.Fat.Table.View.{Holds}
use quantum_kernel.Fat.Write.{WriteResult, write}
use quantum_kernel.Fat.Write.Apart.{Distinct}
use quantum_kernel.Fat.Write.RoundTrip.{read-write}
use quantum_kernel.Syscall.{System, Descriptors, max_files, used_slot, put_file}
use quantum_kernel.Syscall.Files.{
  Done, sys_file_read, sys_file_write, sys_seek, after_read, after_write,
}
use quantum_kernel.Syscall.Dispatch.{
  syscall_dispatch, replies, nothing, bytes, plain, with_buffer, call_file_write, call_file_read,
  call_seek,
}

pub used_slot_pos :
    (fd : ℕ) (d : Descriptors)
    → fd < max_files
    → d.file_used fd ≡ true
    → used_slot (pos fd) d ≡ some fd
unfolding used_slot
used_slot_pos fd d lt used = ground (arith, used)

module _ (fuel now : ℕ) (clock : ℕ → ℕ) (ata_error : ℕ → ℤ) (fd : ℕ) (s : System)
    (lt : fd < max_files) (used : s.files.file_used fd ≡ true) where
  sys_file_write_eq :
      (buffer : Bytes) (size : ℕ) (o : WriteResult)
      → write (some (s.files.file_table fd)) (some buffer) size s.fat ≡ some (inr o)
      → syscall_dispatch fuel now clock ata_error (call_file_write (pos fd) (some buffer) size) s
        ≡ some (
            replies
              (record {
                eax = o.result;
                system = record s { fat = o.state; files = put_file fd o.file s.files };
              })
              nothing)
  unfolding syscall_dispatch sys_file_write after_write plain
  sys_file_write_eq buffer size o e = rw (sys_file_write, used_slot_pos fd s.files lt used, e)

  sys_seek_eq :
      (offset : ℕ) (f : File)
      → s.files.file_table fd ≡ f
      → f.is_open ≡ true
      → syscall_dispatch fuel now clock ata_error (call_seek (pos fd) offset 0) s
        ≡ some (
            replies
              (record {
                eax = pos 0;
                system = record s { files = put_file fd (seek f offset 0).1 s.files };
              })
              nothing)
  unfolding syscall_dispatch sys_seek seek
  sys_seek_eq offset f e opened = rw (sys_seek, used_slot_pos fd s.files lt used, e, opened)

  sys_file_read_eq :
      (f : File) (into : Bytes) (size : ℕ) (r : ReadResult)
      → s.files.file_table fd ≡ f
      → read (some f) (some into) size s.fat ≡ some (inr r)
      → syscall_dispatch fuel now clock ata_error (call_file_read (pos fd) (some into) size) s
        ≡ some (
            replies
              (record {
                eax = r.result;
                system = record s { fat = r.state; files = put_file fd r.file s.files };
              })
              (bytes r.buffer))
  unfolding syscall_dispatch sys_file_read after_read with_buffer
  sys_file_read_eq f into size r at e = rw (sys_file_read, used_slot_pos fd s.files lt used, at, e)

put_file_self : (fd : ℕ) (f : File) (d : Descriptors) → (put_file fd f d).file_table fd ≡ f
put_file_self fd f d = let same : (fd == fd) ≡ true = (==_iff fd fd).1 refl in rw same

still_open :
    (f : File) (buffer : Bytes) (size : ℕ) (s : State) (o : WriteResult)
    → write (some f) (some buffer) size s ≡ some (inr o)
    → o.file.is_open ≡ f.is_open
unfolding Each
still_open f buffer size s o e =
    subst (λ x. Each (KeptWriting f) x) e (write-Kept f (some buffer) size s)

-- Three calls on a descriptor in use, whose file is open on a mounted volume with a disk that does
-- not fail, with room in its chain for `size` bytes at its position: SYS_FILE_WRITE of the bytes,
-- SYS_SEEK back to where the file stood, and SYS_FILE_READ of as many bytes. All three end; the
-- first and the last return the size, and the bytes read are those written.
pub file_read-file_write :
    (fuel now : ℕ) (clock : ℕ → ℕ) (ata_error : ℕ → ℤ) (fd : ℕ) (buffer into : Bytes) (size : ℕ)
    (s : System) (t : ℕ → ℕ) (cs : List ℕ)
    → fd < max_files
    → s.files.file_used fd ≡ true
    → (s.files.file_table fd).is_open ≡ true
    → Holds s.fat t
    → Links s.fat.fs t (s.files.file_table fd).first_cluster cs
    → Distinct cs
    → 0 < size
    → (s.files.file_table fd).position + size ≤ length cs * s.fat.fs.bytes_per_cluster
    → (s.files.file_table fd).file_size ≤ length cs * s.fat.fs.bytes_per_cluster
    → (s.files.file_table fd).position + size < 2 ^ 32
    → let back = (s.files.file_table fd).position in
      (w k r : Done) × (b : Bytes) × (syscall_dispatch fuel now clock ata_error
          (call_file_write (pos fd) (some buffer) size)
          s
        ≡ some (replies w nothing))
      × (syscall_dispatch fuel now clock ata_error (call_seek (pos fd) back 0) w.system
          ≡ some (replies k nothing))
      × (syscall_dispatch fuel now clock ata_error
            (call_file_read (pos fd) (some into) size)
            k.system
          ≡ some (replies r (bytes b)))
      × (w.eax ≡ to_int size)
      × (r.eax ≡ to_int size)
      × ((i : ℕ) → b i ≡ (if ltb i size then buffer i else into i))
file_read-file_write fuel now clock ata_error fd buffer into size s t cs lt used opened h links
      apart some_left enough inside small =
    let f = s.files.file_table fd in
    let (o, r, wrote, does, w_size, r_size, same) =
      read-write f buffer into size s.fat t cs h opened links apart some_left enough inside small in
    let g = (seek o.file f.position 0).1 in
    let s1 : System = record s { fat = o.state; files = put_file fd o.file s.files } in
    let s2 : System = record s1 { files = put_file fd g s1.files } in
    (
      record { eax = o.result; system = s1 },
      record { eax = pos 0; system = s2 },
      record {
        eax = r.result;
        system = record s2 { fat = r.state; files = put_file fd r.file s2.files };
      },
      r.buffer,
      sys_file_write_eq fuel now clock ata_error fd s lt used buffer size o wrote,
      sys_seek_eq fuel now clock ata_error fd s1 lt used f.position o.file
          (put_file_self fd o.file s.files) (still_open f buffer size s.fat o wrote ∙ opened),
      sys_file_read_eq fuel now clock ata_error fd s2 lt used g into size r
          (put_file_self fd g s1.files) does,
      w_size,
      r_size,
      same,
    )
