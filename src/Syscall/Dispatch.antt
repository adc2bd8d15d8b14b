-- ===== src/Syscall/Dispatch.antt =====
-- `syscall_dispatch` of src/user/syscall.c. A call is the number in `eax` with its arguments: values,
-- and for a pointer what it addresses, or none for NULL. SYS_EXEC, SYS_PS, SYS_CLEAR, SYS_ARP_PRINT
-- and the calls that end the machine go to code that is not modelled.
use quantum_kernel.Prelude.{
  to_int, if◌then◌else◌, length, ℤ, pos, ℕ, Bool, true, false, Option, none, some, List, [], ◌∷◌,
  ◌++◌, ◌==◌,
}
use quantum_kernel.Bytes.{Bytes, copy}
use quantum_kernel.Devices.Clock.{RtcTime, rtc_get_local_time}
use quantum_kernel.Disk
use quantum_kernel.Fat.Listing.{FileInfo}
use quantum_kernel.Keyboard.{read_loop}
use quantum_kernel.Task.Schedule.{
  Outcome, returns, switches, Killed, killed, no_such_task, own_exit, task_schedule, task_exit,
  task_sleep, task_kill,
}
use quantum_kernel.Syscall.{System}
use quantum_kernel.Syscall.Files.{
  Done, fails, sys_open, sys_close, sys_file_read, sys_file_write, sys_seek, sys_unlink, sys_mkdir,
  sys_chdir, sys_readdir, sys_getcwd, sys_get_cwd_cluster,
}
use quantum_kernel.Syscall.Network.{
  NetStatus, sys_net_init, sys_ping, sys_ping_status, sys_ping_reset, sys_arp_request,
  sys_arp_lookup, sys_arp_add, sys_arp_get_entry, sys_net_status,
}

-- The `SYS_` numbers with the registers that their cases read.
pub data Call : Type 0 where
  call_write : ℕ → List ℕ → Call
  call_read : ℕ → Call
  call_exit : Call
  call_disk_read : ℕ → Option Bytes → Call
  call_disk_write : ℕ → Option Bytes → Call
  call_sleep : ℕ → Call
  call_open : List ℕ → ℕ → Call
  call_close : ℤ → Call
  call_file_read : ℤ → Option Bytes → ℕ → Call
  call_file_write : ℤ → Option Bytes → ℕ → Call
  call_seek : ℤ → ℕ → ℕ → Call
  call_unlink : List ℕ → Call
  call_mkdir : List ℕ → Call
  call_readdir : ℕ → Option ℕ → Bool → Call
  call_rtc_time : Bool → Call
  call_chdir : List ℕ → Call
  call_getcwd : Bool → ℤ → Call
  call_get_cwd_cluster : Call
  call_net_init : ℕ → ℕ → ℕ → Call
  call_ping : ℕ → Call
  call_ping_status : Call
  call_ping_reset : Call
  call_arp_request : ℕ → Call
  call_arp_lookup : ℕ → Bool → Call
  call_net_status : Bool → Call
  call_arp_add : ℕ → Option (List ℕ) → Call
  call_arp_get_entry : ℤ → Bool → Call
  call_yield : Call
  call_kill : ℕ → Call
  call_unknown : Call

-- What a call stores through the program's pointers.
pub data Stored : Type 0 where
  nothing : Stored
  bytes : Bytes → Stored
  chars : List ℕ → Stored
  index_and_info : ℕ → Option FileInfo → Stored
  time : RtcTime → Stored
  mac : Option (List ℕ) → Stored
  entry : Option (ℕ × List ℕ × Bool) → Stored
  status : Option NetStatus → Stored

-- A call returns, or the processor goes to another task, or it never comes back.
pub data Reply : Type 0 where
  replies : Done → Stored → Reply
  leaves : ℕ → ℕ → System → Reply

abbrev pub zero_from : System → Reply
zero_from s = replies (record { eax = pos 0; system = s }) nothing

-- The end of a case that has called the scheduler: `r->eax` is 0 once the caller runs again.
unfoldable pub rescheduled : System → Option Outcome → Option Reply
rescheduled s none = none
rescheduled s (some (returns k)) = some (zero_from (record s { tasks = k }))
rescheduled s (some (switches from to k)) = some (leaves from to (record s { tasks = k }))

unfoldable pub after_kill : System → Option Killed → Option Reply
after_kill s none = none
after_kill s (some (killed t k)) = some (zero_from (record s { tasks = k }))
after_kill s (some (no_such_task k)) = some (replies (fails (record s { tasks = k })) nothing)
after_kill s (some (own_exit o)) = rescheduled s o

unfoldable pub plain : Option Done → Option Reply
plain none = none
plain (some d) = some (replies d nothing)

unfoldable pub with_buffer : Option (Done × Option Bytes) → Option Reply
with_buffer none = none
with_buffer (some (d, none)) = some (replies d nothing)
with_buffer (some (d, some b)) = some (replies d (bytes b))

unfoldable pub with_info : Option (Done × ℕ × Option FileInfo) → Option Reply
with_info none = none
with_info (some (d, index, info)) = some (replies d (index_and_info index info))

-- "[unknown syscall]\n"
abbrev unknown_syscall : List ℕ
unknown_syscall =
    b'[' ∷ b'u' ∷ b'n' ∷ b'k' ∷ b'n' ∷ b'o' ∷ b'w' ∷ b'n' ∷ b' ' ∷ b's' ∷ b'y' ∷ b's' ∷ b'c' ∷ b'a'
    ∷ b'l' ∷ b'l' ∷ b']' ∷ 10 ∷ []

-- The tick count, the registers of the clock, and the ATA driver's code for a transfer that fails.
-- `fuel` bounds the walks along clusters and along the ring of tasks.
module _ (fuel now : ℕ) (clock : ℕ → ℕ) (ata_error : ℕ → ℤ) where
  -- SYS_DISK_READ
  unfoldable pub sys_disk_read : ℕ → Option Bytes → System → Reply
  sys_disk_read lba none s = replies (fails s) nothing
  sys_disk_read lba (some buffer) s =
      let d = s.fat.disk in
      let s' = record s { fat = record (s.fat) { disk = Disk.tick d } } in
      elim (Disk.load lba d) [
        | none ↦ replies (record { eax = ata_error d.clock; system = s' }) (bytes buffer)
        | some b ↦ replies (record { eax = pos 0; system = s' }) (bytes (copy buffer 0 b 0 512))
      ]

  -- SYS_DISK_WRITE
  unfoldable pub sys_disk_write : ℕ → Option Bytes → System → Reply
  sys_disk_write lba none s = replies (fails s) nothing
  sys_disk_write lba (some buffer) s =
      let (done, d) = Disk.store lba buffer s.fat.disk in
      let s' = record s { fat = record (s.fat) { disk = d } } in
      let eax = if done then pos 0 else ata_error s.fat.disk.clock in
      replies (record { eax = eax; system = s' }) nothing

  unfoldable pub syscall_dispatch : Call → System → Option Reply
  syscall_dispatch (call_write fd text) s =
      let s' = record s { console = if fd == 1 then s.console ++ text else s.console } in
      some (replies (record { eax = to_int (length text); system = s' }) nothing)
  syscall_dispatch (call_read len) s =
      let (typed, k) = read_loop len s.keyboard in
      some (
        replies (record { eax = to_int (length typed); system = record s { keyboard = k } })
          (chars typed))
  syscall_dispatch call_exit s = rescheduled s (task_exit fuel now s.tasks)
  syscall_dispatch (call_disk_read lba buffer) s = some (sys_disk_read lba buffer s)
  syscall_dispatch (call_disk_write lba buffer) s = some (sys_disk_write lba buffer s)
  syscall_dispatch (call_sleep ms) s = rescheduled s (task_sleep fuel now ms s.tasks)
  syscall_dispatch (call_open path flags) s = plain (sys_open fuel path flags s)
  syscall_dispatch (call_close fd) s = some (replies (sys_close fd s) nothing)
  syscall_dispatch (call_file_read fd buffer size) s = with_buffer (sys_file_read fd buffer size s)
  syscall_dispatch (call_file_write fd buffer size) s = plain (sys_file_write fd buffer size s)
  syscall_dispatch (call_seek fd offset whence) s =
      some (replies (sys_seek fd offset whence s) nothing)
  syscall_dispatch (call_unlink path) s = plain (sys_unlink fuel path s)
  syscall_dispatch (call_mkdir path) s = plain (sys_mkdir fuel path s)
  syscall_dispatch (call_readdir cluster none info) s = some (replies (fails s) nothing)
  syscall_dispatch (call_readdir cluster (some index) false) s = some (replies (fails s) nothing)
  syscall_dispatch (call_readdir cluster (some index) true) s =
      with_info (sys_readdir fuel cluster index s)
  syscall_dispatch (call_rtc_time false) s = some (zero_from s)
  syscall_dispatch (call_rtc_time true) s =
      some (replies (record { eax = pos 0; system = s }) (time (rtc_get_local_time clock)))
  syscall_dispatch (call_chdir path) s = plain (sys_chdir fuel path s)
  syscall_dispatch (call_getcwd false size) s = some (replies (fails s) nothing)
  syscall_dispatch (call_getcwd true size) s =
      let (d, out) = sys_getcwd size s in some (replies d (chars out))
  syscall_dispatch call_get_cwd_cluster s = some (replies (sys_get_cwd_cluster s) nothing)
  syscall_dispatch (call_net_init ip gateway netmask) s =
      some (replies (sys_net_init ip gateway netmask s) nothing)
  syscall_dispatch (call_ping ip) s = some (replies (sys_ping ip now s) nothing)
  syscall_dispatch call_ping_status s = some (replies (sys_ping_status s) nothing)
  syscall_dispatch call_ping_reset s = some (replies (sys_ping_reset s) nothing)
  syscall_dispatch (call_arp_request ip) s = some (replies (sys_arp_request ip s) nothing)
  syscall_dispatch (call_arp_lookup ip false) s = some (replies (fails s) nothing)
  syscall_dispatch (call_arp_lookup ip true) s =
      let (d, found) = sys_arp_lookup ip s in some (replies d (mac found))
  syscall_dispatch (call_net_status false) s = some (replies (fails s) nothing)
  syscall_dispatch (call_net_status true) s =
      let (d, out) = sys_net_status s in some (replies d (status out))
  syscall_dispatch (call_arp_add ip addr) s = some (replies (sys_arp_add ip addr now s) nothing)
  syscall_dispatch (call_arp_get_entry index false) s = some (replies (fails s) nothing)
  syscall_dispatch (call_arp_get_entry index true) s =
      let (d, e) = sys_arp_get_entry index s in some (replies d (entry e))
  syscall_dispatch call_yield s = rescheduled s (task_schedule fuel now s.tasks)
  syscall_dispatch (call_kill pid) s = after_kill s (task_kill fuel fuel now pid s.tasks)
  syscall_dispatch call_unknown s =
      some (replies (fails (record s { console = s.console ++ unknown_syscall })) nothing)
