-- ===== src/Net/Table.antt =====
-- The table of src/drivers/net/arp.c: `arp_lookup`, and the three loops of `arp_add_entry`.
pub mod Laws
pub mod Oldest
pub mod Put
use quantum_kernel.Prelude.{
  mul-le, sub-mul, length-drop, get_or-drop, le→leb, to_int, ltb, leb, if◌then◌else◌, bit, u8, u16,
  u32, ltb→lt, lt→ltb, le→ltb, ==_iff, Bool-cases, Option-cases, length, get_or, set, take, drop,
  length-append, length-set, get_or-set_self, get_or-set_ne, replicate, ℤ, pos, negsuc, is_neg,
  sign_extend, ℕ, zero, suc, ◌+◌, ◌-◌, ◌*◌, ◌/◌, ◌%◌, ◌^◌, ◌≤◌, ◌<◌, min, max, ◌≡◌, refl, sym, ap,
  ap₂, ◌∙◌, ◌≢◌, ◌↔◌, ◌⊎◌, inl, inr, Bool, true, false, ◌&&◌, ◌||◌, not, Option, none, some, List,
  [], ◌∷◌, ◌++◌, map, append-nil, append_assoc, arith, ◌==◌,
}
use mathlib.Core.Option
use quantum_kernel.Net.State.{ArpEntry, Net, arp_table_size}

-- `arp_table[i].valid && arp_table[i].ip == ip`
unfoldable pub is_for : ℕ → ArpEntry → Bool
is_for ip e = e.valid && (e.ip == ip)

-- The loop of `arp_lookup`.
unfoldable pub lookup : ℕ → List ArpEntry → Option (List ℕ)
lookup ip [] = none
lookup ip (e ∷ es) = let rest = lookup ip es in if is_for ip e then some e.mac else rest

-- The first loop: the entry of the address, brought up to date.
unfoldable pub update_entry : ℕ → List ℕ → ℕ → List ArpEntry → Option (List ArpEntry)
update_entry ip mac now [] = none
update_entry ip mac now (e ∷ es) =
    let rest = Option.map (λ r. e ∷ r) (update_entry ip mac now es) in
    if is_for ip e then some (record e { mac = mac; timestamp = now } ∷ es) else rest

abbrev pub new_entry : ℕ → List ℕ → ℕ → ArpEntry
new_entry ip mac now = record { ip = ip; mac = mac; timestamp = now; valid = true }

-- The second loop: the first free entry taken.
unfoldable pub fill_free : ℕ → List ℕ → ℕ → List ArpEntry → Option (List ArpEntry)
fill_free ip mac now [] = none
fill_free ip mac now (e ∷ es) =
    let rest = Option.map (λ r. e ∷ r) (fill_free ip mac now es) in
    if not e.valid then some (new_entry ip mac now ∷ es) else rest

-- The third loop, from entry `i` on: the index of the oldest entry, where `oldest` with the
-- timestamp `stamp` is the oldest so far.
unfoldable pub oldest_from : List ArpEntry → ℕ → ℕ → ℕ → ℕ
oldest_from [] i oldest stamp = oldest
oldest_from (e ∷ es) i oldest stamp =
    let rest = oldest_from es (i + 1) oldest stamp in
    let rest' = oldest_from es (i + 1) i e.timestamp in
    if ltb e.timestamp stamp then rest' else rest

unfoldable pub oldest : List ArpEntry → ℕ
oldest [] = 0
oldest (e ∷ es) = oldest_from es 1 0 e.timestamp

-- The table that `arp_add_entry` leaves, and whether it goes on to the queue of packets.
unfoldable pub add_entry : ℕ → List ℕ → ℕ → List ArpEntry → List ArpEntry × Bool
add_entry ip mac now table = elim (update_entry ip mac now table) [
  | some updated ↦ (updated, false)
  | none ↦ elim (fill_free ip mac now table) [
    | some filled ↦ (filled, true)
    | none ↦ (set table (oldest table) (new_entry ip mac now), true)
  ]
]
