-- ===== src/Syscall/Table.antt =====
-- The table of open files of src/user/syscall.c under each of the calls on files.
use quantum_kernel.Bytes.{Bytes}
use quantum_kernel.Prelude.{
  u8, lt→ltb, ==_iff, Bool-cases, Option-cases, ℤ, pos, negsuc, ℕ, zero, suc, ◌+◌, ◌≤◌, ◌<◌, ◌≡◌,
  sym, ap, ◌∙◌, ◌⊎◌, inl, inr, true, false, Option, none, some, List, arith, ◌==◌, refl,
}
use quantum_kernel.Fat.{State}
use quantum_kernel.Fat.File.{File, ReadResult, read}
use quantum_kernel.Fat.Create.{open_file}
use quantum_kernel.Fat.Write.{WriteResult, write}
use quantum_kernel.Syscall.Opened.{
  Each, Kept, KeptWriting, read-Kept, open_file_open, write-Kept, seek_open, OpensAt0,
}
use quantum_kernel.Syscall.{
  System, Descriptors, max_files, mark, put_file, alloc_fd, free_fd, used_slot, first_unused,
}
use quantum_kernel.Syscall.Files.{
  Done, sys_open, sys_close, sys_file_read, sys_file_write, sys_seek, after_open, after_read,
  after_write,
}

-- Every slot in use holds an open file.
unfoldable pub AllOpen : Descriptors → Type 0
AllOpen d = (i : ℕ) → i < max_files → d.file_used i ≡ true → (d.file_table i).is_open ≡ true

put_file-AllOpen :
    (i : ℕ) (f : File) (d : Descriptors)
    → f.is_open ≡ (d.file_table i).is_open
    → AllOpen d
    → AllOpen (put_file i f d)
unfolding AllOpen
put_file-AllOpen i f d same h j hj used = elim (Bool-cases (j == i)) [
  | inl e ↦ rw e (same ∙ ap (λ k. (d.file_table k).is_open) (sym ((==_iff j i).0 e)) ∙ h j hj used)
  | inr e ↦ rw e (h j hj used)
]

-- A slot that is taken gets an open file, or is given back.
taken-AllOpen :
    (i : ℕ) (f : File) (d : Descriptors)
    → f.is_open ≡ true
    → AllOpen d
    → AllOpen (put_file i f (mark i true d))
unfolding AllOpen
taken-AllOpen i f d opened h j hj used = elim (Bool-cases (j == i)) [
  | inl e ↦ rw e opened
  | inr e ↦ rw e (h j hj (ground (arith, used, e)))
]

freed-AllOpen :
    (i : ℕ) (f : File) (d : Descriptors) → AllOpen d → AllOpen (mark i false (put_file i f d))
unfolding AllOpen
freed-AllOpen i f d h j hj used = elim (Bool-cases (j == i)) [
  | inl e ↦ absurd (ground (arith, used, e))
  | inr e ↦ rw e (h j hj (ground (arith, used, e)))
]

given_back-AllOpen :
    (i : ℕ) (f : File) (d : Descriptors)
    → AllOpen d
    → AllOpen (mark i false (put_file i f (mark i true d)))
unfolding AllOpen
given_back-AllOpen i f d h j hj used = elim (Bool-cases (j == i)) [
  | inl e ↦ absurd (ground (arith, used, e))
  | inr e ↦ rw e (h j hj (ground (arith, used, e)))
]

pub alloc_fd-none : (d : Descriptors) → first_unused max_files 0 d ≡ none → alloc_fd d ≡ (none, d)
unfolding alloc_fd
alloc_fd-none d e = rw (alloc_fd, e)

pub alloc_fd-some :
    (d : Descriptors) (i : ℕ)
    → first_unused max_files 0 d ≡ some i
    → alloc_fd d ≡ (some i, mark i true d)
unfolding alloc_fd
alloc_fd-some d i e = rw (alloc_fd, e)

-- The slot that is found is the first that is not in use.
pub first_unused_lem :
    (n i : ℕ) (d : Descriptors) (j : ℕ)
    → first_unused n i d ≡ some j
    → (i ≤ j)
      × (j < i + n)
      × (d.file_used j ≡ false)
      × ((k : ℕ) → i ≤ k → k < j → d.file_used k ≡ true)
unfolding first_unused
first_unused_lem zero i d j e = absurd (ground (arith, e))
first_unused_lem (suc n) i d j e = elim (Bool-cases (d.file_used i)) [
  | inl used ↦
      let (lo, hi, free_j, others) = first_unused_lem n (i + 1) d j (rw used at e) in
      (
        omega arith,
        omega arith,
        free_j,
        λ k hk lt. elim (Bool-cases (k == i)) [
          | inl same ↦ rw ((==_iff k i).0 same) used
          | inr other ↦ others k (ground arith) lt
        ],
      )
  | inr unused ↦
      let here : i ≡ j = ground (arith, e, unused) in
      (
        omega arith,
        omega arith,
        ap d.file_used (sym here) ∙ unused,
        λ k hk lt. absurd (omega arith),
      )
]

abbrev pub Keeps : Done → Type 0
Keeps d = AllOpen d.system.files

after_open-Keeps :
    (i : ℕ) (s : System) (o : Option (ℤ × File × State))
    → i < max_files
    → AllOpen s.files
    → Each OpensAt0 o
    → Each Keeps (after_open i (mark i true s.files) s o)
unfolding after_open Each free_fd
after_open-Keeps i s none lt h e = tt
after_open-Keeps i s (some (pos zero, f, fat)) lt h e = taken-AllOpen i f s.files (e refl) h
after_open-Keeps i s (some (pos (suc _), f, fat)) lt h e =
    rw (lt→ltb i max_files lt) (given_back-AllOpen i f s.files h)
after_open-Keeps i s (some (negsuc _, f, fat)) lt h e =
    rw (lt→ltb i max_files lt) (given_back-AllOpen i f s.files h)

pub sys_open-Keeps :
    (fuel : ℕ) (path : List ℕ) (flags : ℕ) (s : System)
    → AllOpen s.files
    → Each Keeps (sys_open fuel path flags s)
unfolding sys_open Each
sys_open-Keeps fuel path flags s h = elim (Option-cases (first_unused max_files 0 s.files)) [
  | inl e ↦ rw (sys_open, alloc_fd-none s.files e) h
  | inr (i, e) ↦
      let (_, lt, _, _) = first_unused_lem max_files 0 s.files i e in
      rw (sys_open, alloc_fd-some s.files i e, alloc_fd-some s.files i e)
        (after_open-Keeps i s (open_file fuel path (u8 flags) s.fat) lt h
          (open_file_open fuel path (u8 flags) s.fat))
]

after_read-Keeps :
    (i : ℕ) (buffer : Option Bytes) (s : System) (o : Option (ℤ ⊎ ReadResult))
    → AllOpen s.files
    → Each (Kept (s.files.file_table i)) o
    → Each (λ (d : Done × Option Bytes). Keeps d.0) (after_read i buffer s o)
unfolding Each after_read
after_read-Keeps i buffer s none h k = tt
after_read-Keeps i buffer s (some (inl result)) h k = h
after_read-Keeps i buffer s (some (inr r)) h k = put_file-AllOpen i r.file s.files k h

pub sys_file_read-Keeps :
    (fd : ℤ) (buffer : Option Bytes) (size : ℕ) (s : System)
    → AllOpen s.files
    → Each (λ (d : Done × Option Bytes). Keeps d.0) (sys_file_read fd buffer size s)
unfolding sys_file_read Each
sys_file_read-Keeps fd buffer size s h = elim (Option-cases (used_slot fd s.files)) [
  | inl e ↦ rw (sys_file_read, e) h
  | inr (i, e) ↦
      rw (sys_file_read, e)
        (after_read-Keeps i buffer s (read (some (s.files.file_table i)) buffer size s.fat) h
          (read-Kept (s.files.file_table i) buffer size s.fat))
]

after_write-Keeps :
    (i : ℕ) (s : System) (o : Option (ℤ ⊎ WriteResult))
    → AllOpen s.files
    → Each (KeptWriting (s.files.file_table i)) o
    → Each Keeps (after_write i s o)
unfolding Each after_write
after_write-Keeps i s none h k = tt
after_write-Keeps i s (some (inl result)) h k = h
after_write-Keeps i s (some (inr r)) h k = put_file-AllOpen i r.file s.files k h

pub sys_file_write-Keeps :
    (fd : ℤ) (buffer : Option Bytes) (size : ℕ) (s : System)
    → AllOpen s.files
    → Each Keeps (sys_file_write fd buffer size s)
unfolding sys_file_write Each
sys_file_write-Keeps fd buffer size s h = elim (Option-cases (used_slot fd s.files)) [
  | inl e ↦ rw (sys_file_write, e) h
  | inr (i, e) ↦
      rw (sys_file_write, e)
        (after_write-Keeps i s (write (some (s.files.file_table i)) buffer size s.fat) h
          (write-Kept (s.files.file_table i) buffer size s.fat))
]

pub sys_seek-Keeps :
    (fd : ℤ) (offset whence : ℕ) (s : System)
    → AllOpen s.files
    → Keeps (sys_seek fd offset whence s)
unfolding sys_seek
sys_seek-Keeps fd offset whence s h = elim (Option-cases (used_slot fd s.files)) [
  | inl e ↦ rw (sys_seek, e) h
  | inr (i, e) ↦
      rw (sys_seek, e)
        (put_file-AllOpen i _ s.files (seek_open (s.files.file_table i) offset (u8 whence)) h)
]

used_slot-lt : (fd : ℤ) (d : Descriptors) (i : ℕ) → used_slot fd d ≡ some i → i < max_files
unfolding used_slot
used_slot-lt (pos fd) d i e = ground (arith, e)
used_slot-lt (negsuc n) d i e = absurd (ground (arith, e))

pub sys_close-Keeps : (fd : ℤ) (s : System) → AllOpen s.files → Keeps (sys_close fd s)
unfolding sys_close free_fd
sys_close-Keeps fd s h = elim (Option-cases (used_slot fd s.files)) [
  | inl e ↦ rw (sys_close, e) h
  | inr (i, e) ↦
      rw (sys_close, e, lt→ltb i max_files (used_slot-lt fd s.files i e))
        (freed-AllOpen i _ s.files h)
]
