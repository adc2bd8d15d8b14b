-- ===== src/Syscall/Tests.antt =====
-- The theorems on the calls of src/user/syscall.c at concrete inputs.
use quantum_kernel.Prelude.{
  ltb, if◌then◌else◌, pos, negsuc, ℕ, ◌≡◌, refl, ap, false, some, [], ◌∷◌, arith, ◌==◌,
}
use quantum_kernel.Bytes.{Bytes, zeros}
use quantum_kernel.Fat.Tests.{state, table, file, state-Holds, chain}
use quantum_kernel.Fat.Tests.Writes.{chain-Distinct}
use quantum_kernel.Fat.Tests.Directories.{volume, sub, volume-Holds, root-Whole}
use quantum_kernel.Keyboard.{initial}
use quantum_kernel.Net.Trace.{blank_net}
use quantum_kernel.Task.Tests.{booted}
use quantum_kernel.Syscall.{System}
use quantum_kernel.Syscall.Dispatch.{
  syscall_dispatch, replies, nothing, bytes, call_file_write, call_file_read, call_seek, plain,
  call_open,
}
use quantum_kernel.Syscall.Files.{Done, sys_open}
use quantum_kernel.Syscall.Open.{sys_open_lem, OpenOutcome}
use quantum_kernel.Syscall.Reachable.{begins, calls, Reachable-AllOpen, system_of}
use quantum_kernel.Syscall.RoundTrip.{file_read-file_write}
use quantum_kernel.Syscall.Table.{AllOpen}

-- No file is open.
abbrev idle : System
idle = record {
  fat = volume;
  names = [];
  files = record { file_table = λ i. file; file_used = λ i. false };
  keyboard = initial;
  net = blank_net;
  settings = record { ip = 0; gateway = 0; netmask = 0; initialized = false };
  tasks = booted;
  console = [];
}

-- A file is open in slot 2.
abbrev busy : System
busy = record idle {
  fat = state;
  files = record { file_table = λ i. file; file_used = λ i. i == 2 };
}

file_read-file_write_example :
    (w k r : Done) × (b : Bytes) × (syscall_dispatch 8 0 zeros
        (λ n. negsuc 1)
        (call_file_write (pos 2) (some (λ i. i)) 100)
        busy
      ≡ some (replies w nothing))
    × (syscall_dispatch 8 0 zeros (λ n. negsuc 1) (call_seek (pos 2) 500 0) w.system
        ≡ some (replies k nothing))
    × (syscall_dispatch 8 0 zeros (λ n. negsuc 1) (call_file_read (pos 2) (some zeros) 100) k.system
        ≡ some (replies r (bytes b)))
    × (w.eax ≡ pos 100)
    × (r.eax ≡ pos 100)
    × ((i : ℕ) → b i ≡ (if ltb i 100 then i else 0))
file_read-file_write_example =
    file_read-file_write 8 0 zeros (λ n. negsuc 1) 2 (λ i. i) zeros 100 busy table (3 ∷ 5 ∷ [])
      (omega arith) refl refl state-Holds chain chain-Distinct (omega arith) (omega arith)
      (omega arith) (omega arith)

sys_open_lem_example :
    (d : Done) × (sys_open 2 sub 1 idle ≡ some d) × OpenOutcome (2 ∷ []) sub 1 idle d
sys_open_lem_example =
    sys_open_lem 2 sub 1 idle table (2 ∷ []) volume-Holds root-Whole (omega arith) refl refl

-- What the open call leaves.
abbrev opened_once : Done
opened_once =
    (sys_open_lem 2 sub 1 idle table (2 ∷ []) volume-Holds root-Whole (omega arith) refl refl).0

Reachable-AllOpen_example : AllOpen opened_once.system.files
unfolding syscall_dispatch plain system_of
Reachable-AllOpen_example =
    Reachable-AllOpen idle opened_once.system (λ i lt. refl)
      (calls 2 0 zeros (λ n. negsuc 1) (call_open sub 1) (replies opened_once nothing) begins
        (ap plain
          (sys_open_lem 2 sub 1 idle table (2 ∷ []) volume-Holds root-Whole (omega arith) refl
            refl).1))
