-- ===== src/Syscall.antt =====
-- The system calls of src/user/syscall.c: the open files of the programs, and the state that the
-- calls work on. A register that holds a file descriptor is read as an `int`.
pub mod Files
pub mod Network
pub mod Dispatch
pub mod Open
pub mod Opened
pub mod Table
pub mod Reachable
pub mod RoundTrip
mod Tests
use quantum_kernel.Prelude.{
  mul-le, sub-mul, length-drop, get_or-drop, le→leb, to_int, ltb, leb, if◌then◌else◌, bit, u8, u16,
  u32, ltb→lt, lt→ltb, le→ltb, ==_iff, Bool-cases, Option-cases, length, get_or, set, take, drop,
  length-append, length-set, get_or-set_self, get_or-set_ne, replicate, ℤ, pos, negsuc, is_neg,
  sign_extend, ℕ, zero, suc, ◌+◌, ◌-◌, ◌*◌, ◌/◌, ◌%◌, ◌^◌, ◌≤◌, ◌<◌, min, max, ◌≡◌, refl, sym, ap,
  ap₂, ◌∙◌, ◌≢◌, ◌↔◌, ◌⊎◌, inl, inr, Bool, true, false, ◌&&◌, ◌||◌, not, Option, none, some, List,
  [], ◌∷◌, ◌++◌, map, append-nil, append_assoc, arith, ◌==◌,
}
use quantum_kernel.Fat.{State}
use quantum_kernel.Fat.File.{File}
use quantum_kernel.Keyboard.{Keyboard}
use quantum_kernel.Net.State.{Net}
use quantum_kernel.Task.{Kernel}

abbrev pub max_files : ℕ
max_files = 16

-- `file_table` and `file_used`.
pub record Descriptors : Type 0 where
  pub file_table : ℕ → File
  pub file_used : ℕ → Bool

abbrev pub mark : ℕ → Bool → Descriptors → Descriptors
mark fd b d = record d { file_used = λ i. if i == fd then b else d.file_used i }

abbrev pub put_file : ℕ → File → Descriptors → Descriptors
put_file fd f d = record d { file_table = λ i. if i == fd then f else d.file_table i }

-- The loop of `alloc_fd`, with `n` slots left from slot `i` on; -1 is `none`.
unfoldable pub first_unused : ℕ → ℕ → Descriptors → Option ℕ
first_unused zero i d = none
first_unused (suc n) i d =
    let rest = first_unused n (i + 1) d in if d.file_used i then rest else some i

unfoldable pub alloc_fd : Descriptors → Option ℕ × Descriptors
alloc_fd d = elim (first_unused max_files 0 d) [
  | none ↦ (none, d)
  | some i ↦ (some i, mark i true d)
]

unfoldable pub free_fd : ℤ → Descriptors → Descriptors
free_fd (pos fd) d = if ltb fd max_files then mark fd false d else d
free_fd (negsuc _) d = d

-- `fd < 0 || fd >= MAX_FILES || !file_used[fd]` is false: the slot.
unfoldable pub used_slot : ℤ → Descriptors → Option ℕ
used_slot (pos fd) d = if leb max_files fd then none else if d.file_used fd then some fd else none
used_slot (negsuc _) d = none

-- `net_ip`, `net_gateway`, `net_netmask` and `net_initialized`.
pub record Settings : Type 0 where
  pub ip : ℕ
  pub gateway : ℕ
  pub netmask : ℕ
  pub initialized : Bool

-- What the calls work on. `names` has the first `path_depth` rows of `path_stack`, and `console`
-- what has been written to the terminal, character by character.
pub record System : Type 0 where
  pub fat : State
  pub names : List (List ℕ)
  pub files : Descriptors
  pub keyboard : Keyboard
  pub net : Net
  pub settings : Settings
  pub tasks : Kernel
  pub console : List ℕ
