-- ===== src/Syscall/Reachable.antt =====
-- The states that sequences of system calls of src/user/syscall.c reach.
use quantum_kernel.Prelude.{
  if◌then◌else◌, Bool-cases, Option-cases, ℤ, pos, negsuc, ℕ, ◌<◌, ◌≡◌, refl, sym, inl, inr, Bool,
  true, false, Option, none, some, arith, ◌==◌,
}
use mathlib.Core.Path.{subst}
use quantum_kernel.Bytes.{Bytes}
use quantum_kernel.Fat.{State}
use quantum_kernel.Fat.Chdir.{Moved}
use quantum_kernel.Fat.Listing.{FileInfo}
use quantum_kernel.Syscall.Opened.{Each}
use quantum_kernel.Syscall.Table.{
  AllOpen, Keeps, sys_open-Keeps, sys_file_read-Keeps, sys_file_write-Keeps, sys_seek-Keeps,
  sys_close-Keeps,
}
use quantum_kernel.Syscall.{System, Descriptors, max_files}
use quantum_kernel.Syscall.Files.{
  Done, with_fat, after_chdir, after_readdir, sys_unlink, sys_mkdir, sys_chdir, sys_readdir,
  sys_getcwd, sys_get_cwd_cluster,
}
use quantum_kernel.Net.Arp.{arp_get_entry_by_index}
use quantum_kernel.Syscall.Network.{
  sys_net_status, sys_arp_get_entry, sys_net_init, sys_ping, sys_ping_status, sys_ping_reset,
  sys_arp_request, sys_arp_lookup, sys_arp_add,
}
use quantum_kernel.Syscall.Dispatch.{
  Call, Reply, after_kill, call_arp_add, call_arp_get_entry, call_arp_lookup, call_arp_request,
  call_chdir, call_close, call_disk_read, call_disk_write, call_exit, call_file_read,
  call_file_write, call_get_cwd_cluster, call_getcwd, call_kill, call_mkdir, call_net_init,
  call_net_status, call_open, call_ping, call_ping_reset, call_ping_status, call_read, call_readdir,
  call_rtc_time, call_seek, call_sleep, call_unknown, call_unlink, call_write, call_yield, leaves,
  plain, replies, rescheduled, sys_disk_read, sys_disk_write, syscall_dispatch, with_buffer,
  with_info,
}
use quantum_kernel.Task.Schedule.{
  Outcome, returns, switches, Killed, killed, no_such_task, own_exit,
}

-- The system behind a call.
unfoldable pub system_of : Reply → System
system_of (replies d stored) = d.system
system_of (leaves from to s) = s

abbrev KeepsAll : Reply → Type 0
KeepsAll r = AllOpen (system_of r).files

plain-KeepsAll : (o : Option Done) → Each Keeps o → Each KeepsAll (plain o)
unfolding plain Each system_of
plain-KeepsAll none h = tt
plain-KeepsAll (some d) h = h

with_buffer-KeepsAll :
    (o : Option (Done × Option Bytes))
    → Each (λ (d : Done × Option Bytes). Keeps d.0) o
    → Each KeepsAll (with_buffer o)
unfolding with_buffer Each system_of
with_buffer-KeepsAll none h = tt
with_buffer-KeepsAll (some (d, none)) h = h
with_buffer-KeepsAll (some (d, some b)) h = h

if_same :
    {A : Type 0} (b : Bool) (x y : Done × A) (s : System)
    → x.0.system ≡ s
    → y.0.system ≡ s
    → (if b then x else y).0.system ≡ s
if_same true x y s p q = p
if_same false x y s p q = q

getcwd_same : (size : ℤ) (s : System) → (sys_getcwd size s).0.system ≡ s
unfolding sys_getcwd
getcwd_same (negsuc n) s = refl
getcwd_same (pos size) s = if_same (size == 0) _ _ s refl refl

net_status_same : (s : System) → (sys_net_status s).0.system ≡ s
unfolding sys_net_status
net_status_same s = if_same s.settings.initialized _ _ s refl refl

arp_get_entry_same : (index : ℤ) (s : System) → (sys_arp_get_entry index s).0.system ≡ s
unfolding sys_arp_get_entry
arp_get_entry_same index s = elim (Option-cases (arp_get_entry_by_index index s.net)) [
  | inl e ↦ rw (sys_arp_get_entry, e) refl
  | inr (x, e) ↦ rw (sys_arp_get_entry, e) refl
]

module _ (s : System) (h : AllOpen s.files) where
  kept : (s' : System) → s' ≡ s → AllOpen s'.files
  kept s' e = subst (λ (x : System). AllOpen x.files) (sym e) h

  with_fat-Keeps : (o : Option (ℤ × State)) → Each KeepsAll (plain (with_fat s o))
  unfolding plain Each system_of
  with_fat-Keeps none = tt
  with_fat-Keeps (some (result, fat)) = h

  after_chdir-Keeps : (o : Option Moved) → Each KeepsAll (plain (after_chdir s o))
  unfolding plain Each system_of after_chdir
  after_chdir-Keeps none = tt
  after_chdir-Keeps (some m) = h

  after_readdir-Keeps :
      (o : Option (Option FileInfo × ℕ × State)) → Each KeepsAll (with_info (after_readdir s o))
  unfolding with_info Each system_of after_readdir
  after_readdir-Keeps none = tt
  after_readdir-Keeps (some (none, index, fat)) = h
  after_readdir-Keeps (some (some info, index, fat)) = h

  rescheduled-Keeps : (o : Option Outcome) → Each KeepsAll (rescheduled s o)
  unfolding rescheduled Each system_of
  rescheduled-Keeps none = tt
  rescheduled-Keeps (some (returns k)) = h
  rescheduled-Keeps (some (switches from to k)) = h

  after_kill-Keeps : (o : Option Killed) → Each KeepsAll (after_kill s o)
  unfolding after_kill Each system_of
  after_kill-Keeps none = tt
  after_kill-Keeps (some (killed t k)) = h
  after_kill-Keeps (some (no_such_task k)) = h
  after_kill-Keeps (some (own_exit o)) = rescheduled-Keeps o

  module _ (fuel now : ℕ) (clock : ℕ → ℕ) (ata_error : ℕ → ℤ) where
    sys_disk_read-Keeps :
        (lba : ℕ) (buffer : Option Bytes)
        → KeepsAll (sys_disk_read fuel now clock ata_error lba buffer s)
    unfolding sys_disk_read system_of
    sys_disk_read-Keeps lba none = h
    sys_disk_read-Keeps lba (some buffer) = elim (Bool-cases (s.fat.disk.faults s.fat.disk.clock)) [
      | inl e ↦ rw (sys_disk_read, e) h
      | inr e ↦ rw (sys_disk_read, e) h
    ]

    sys_disk_write-Keeps :
        (lba : ℕ) (buffer : Option Bytes)
        → KeepsAll (sys_disk_write fuel now clock ata_error lba buffer s)
    unfolding sys_disk_write system_of
    sys_disk_write-Keeps lba none = h
    sys_disk_write-Keeps lba (some buffer) = h

    syscall_dispatch-Keeps :
        (c : Call) → Each KeepsAll (syscall_dispatch fuel now clock ata_error c s)
    unfolding syscall_dispatch Each system_of sys_readdir sys_unlink sys_mkdir sys_chdir
        sys_get_cwd_cluster sys_net_init sys_ping sys_ping_status sys_ping_reset sys_arp_request
        sys_arp_lookup sys_arp_add
    syscall_dispatch-Keeps (call_write fd text) = h
    syscall_dispatch-Keeps (call_read len) = h
    syscall_dispatch-Keeps call_exit = rescheduled-Keeps _
    syscall_dispatch-Keeps (call_disk_read lba buffer) = sys_disk_read-Keeps lba buffer
    syscall_dispatch-Keeps (call_disk_write lba buffer) = sys_disk_write-Keeps lba buffer
    syscall_dispatch-Keeps (call_sleep ms) = rescheduled-Keeps _
    syscall_dispatch-Keeps (call_open path flags) =
        plain-KeepsAll _ (sys_open-Keeps fuel path flags s h)
    syscall_dispatch-Keeps (call_close fd) = sys_close-Keeps fd s h
    syscall_dispatch-Keeps (call_file_read fd buffer size) =
        with_buffer-KeepsAll _ (sys_file_read-Keeps fd buffer size s h)
    syscall_dispatch-Keeps (call_file_write fd buffer size) =
        plain-KeepsAll _ (sys_file_write-Keeps fd buffer size s h)
    syscall_dispatch-Keeps (call_seek fd offset whence) = sys_seek-Keeps fd offset whence s h
    syscall_dispatch-Keeps (call_unlink path) = with_fat-Keeps _
    syscall_dispatch-Keeps (call_mkdir path) = with_fat-Keeps _
    syscall_dispatch-Keeps (call_readdir cluster none info) = h
    syscall_dispatch-Keeps (call_readdir cluster (some index) false) = h
    syscall_dispatch-Keeps (call_readdir cluster (some index) true) = after_readdir-Keeps _
    syscall_dispatch-Keeps (call_rtc_time false) = h
    syscall_dispatch-Keeps (call_rtc_time true) = h
    syscall_dispatch-Keeps (call_chdir path) = after_chdir-Keeps _
    syscall_dispatch-Keeps (call_getcwd false size) = h
    syscall_dispatch-Keeps (call_getcwd true size) = kept _ (getcwd_same size s)
    syscall_dispatch-Keeps call_get_cwd_cluster = h
    syscall_dispatch-Keeps (call_net_init ip gateway netmask) = h
    syscall_dispatch-Keeps (call_ping ip) = h
    syscall_dispatch-Keeps call_ping_status = h
    syscall_dispatch-Keeps call_ping_reset = h
    syscall_dispatch-Keeps (call_arp_request ip) = h
    syscall_dispatch-Keeps (call_arp_lookup ip false) = h
    syscall_dispatch-Keeps (call_arp_lookup ip true) = h
    syscall_dispatch-Keeps (call_net_status false) = h
    syscall_dispatch-Keeps (call_net_status true) = kept _ (net_status_same s)
    syscall_dispatch-Keeps (call_arp_add ip none) = h
    syscall_dispatch-Keeps (call_arp_add ip (some addr)) = h
    syscall_dispatch-Keeps (call_arp_get_entry index false) = h
    syscall_dispatch-Keeps (call_arp_get_entry index true) = kept _ (arp_get_entry_same index s)
    syscall_dispatch-Keeps call_yield = rescheduled-Keeps _
    syscall_dispatch-Keeps (call_kill pid) = after_kill-Keeps _
    syscall_dispatch-Keeps call_unknown = h

all_unused : (d : Descriptors) → ((i : ℕ) → i < max_files → d.file_used i ≡ false) → AllOpen d
unfolding AllOpen
all_unused d none_used i lt used = absurd (ground (arith, used, none_used i lt))

-- The states after any number of calls, each with its own tick count and fuel.
pub data Reachable (s : System) : System → Type 0 where
  begins : Reachable s s
  calls :
      {s' : System} (fuel now : ℕ) (clock : ℕ → ℕ) (ata_error : ℕ → ℤ) (c : Call) (r : Reply)
      → Reachable s s'
      → syscall_dispatch fuel now clock ata_error c s' ≡ some r
      → Reachable s (system_of r)

-- From a table without files on, whatever the programs call and however the calls end, every slot in
-- use holds a file that is open; so no `fat32_` function is ever called on a file that is not.
pub Reachable-AllOpen :
    (s s' : System)
    → ((i : ℕ) → i < max_files → s.files.file_used i ≡ false)
    → Reachable s s'
    → AllOpen s'.files
unfolding Each
Reachable-AllOpen s s' none_used begins = all_unused s.files none_used
Reachable-AllOpen s _ none_used (calls {s' = u} fuel now clock ata_error c r before e) =
    subst (λ o. Each KeepsAll o) e
      (syscall_dispatch-Keeps u (Reachable-AllOpen s u none_used before) fuel now clock ata_error c)
