-- ===== src/Disk.antt =====
-- The block device as src/drivers/ata.c presents it: a transfer of one sector either fails and
-- leaves disk and buffer as they were, or moves 512 bytes. The address registers take 28 bits.
-- Which transfers fail is the hardware's choice, an arbitrary function of the transfer's number.
use quantum_kernel.Prelude.{
  ℕ, ◌+◌, ◌%◌, ◌^◌, ◌≡◌, Bool, true, false, Option, none, some, ◌==◌, if◌then◌else◌,
}
use quantum_kernel.Bytes.{Bytes}

pub record Disk : Type 0 where
  pub sectors : ℕ → Bytes
  pub faults : ℕ → Bool
  pub clock : ℕ

abbrev pub tick : Disk → Disk
tick d = record d { clock = d.clock + 1 }

-- The sector's bytes, if the transfer succeeds.
abbrev pub load : ℕ → Disk → Option Bytes
load lba d = if d.faults d.clock then none else some (d.sectors (lba % 2 ^ 28))

-- The disk after an attempt to store `b`, and whether it succeeded.
abbrev pub store : ℕ → Bytes → Disk → Bool × Disk
store lba b d =
    if d.faults d.clock
    then (false, tick d)
    else (true, record (tick d) { sectors = λ a. if a == lba % 2 ^ 28 then b else d.sectors a })

-- No transfer fails.
abbrev pub IsReliable : Disk → Type 0
IsReliable d = (n : ℕ) → d.faults n ≡ false
