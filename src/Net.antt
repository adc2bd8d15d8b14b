-- ===== src/Net.antt =====
-- src/drivers/net/ip.c and src/drivers/net/icmp.c: the checksum of IP and ICMP packets.
pub mod Checksum
pub mod State
pub mod Table
pub mod Queue
pub mod Arp
pub mod Ip
pub mod Receive
pub mod Header
pub mod Waiting
pub mod Consistent
pub mod Queued
pub mod Sends
pub mod Trace
pub mod Resolve
mod Tests
use quantum_kernel.Bytes.{Bytes, read16}
use mathlib.Core.Option
use quantum_kernel.Prelude.{
  mul-le, sub-mul, length-drop, get_or-drop, le→leb, to_int, ltb, leb, if◌then◌else◌, bit, u8, u16,
  u32, ltb→lt, lt→ltb, le→ltb, ==_iff, Bool-cases, Option-cases, length, get_or, set, take, drop,
  length-append, length-set, get_or-set_self, get_or-set_ne, replicate, ℤ, pos, negsuc, is_neg,
  sign_extend, ℕ, zero, suc, ◌+◌, ◌-◌, ◌*◌, ◌/◌, ◌%◌, ◌^◌, ◌≤◌, ◌<◌, min, max, ◌≡◌, refl, sym, ap,
  ap₂, ◌∙◌, ◌≢◌, ◌↔◌, ◌⊎◌, inl, inr, Bool, true, false, ◌&&◌, ◌||◌, not, Option, none, some, List,
  [], ◌∷◌, ◌++◌, map, append-nil, append_assoc, arith, ◌==◌,
}

-- The loop over the words and the odd byte behind them, at offset `o` with `len` bytes left.
unfoldable pub sum_words : ℕ → Bytes → ℕ → ℕ → ℕ
sum_words zero b o sum = sum
sum_words (suc zero) b o sum = u32 (sum + b o)
sum_words (suc (suc n)) b o sum = sum_words n b (o + 2) (u32 (sum + read16 b o))

-- `while (sum >> 16)`, on fuel.
unfoldable pub fold : ℕ → ℕ → Option ℕ
fold zero sum = none
fold (suc n) sum =
    let rest = fold n (u32 (sum % 0x10000 + sum / 0x10000)) in
    if sum / 0x10000 == 0 then some sum else rest

-- `~sum` as a `uint16_t`.
abbrev pub complement : ℕ → ℕ
complement sum = u16 (0xffff_ffff - sum)

-- Two rounds and the last test are enough for every `uint32_t`.
unfoldable pub checksum : Bytes → ℕ → Option ℕ
checksum b len = Option.map complement (fold 3 (sum_words len b 0 0))
