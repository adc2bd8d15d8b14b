-- ===== src/Net/State.antt =====
-- The state of the network code: the static variables of src/drivers/net/ethernet.c, arp.c, ip.c and
-- icmp.c, and the frames handed to the card. What is printed on the terminal is left out.
use quantum_kernel.Prelude.{ℕ, ◌+◌, ◌*◌, ◌/◌, ◌%◌, Bool, List, [], ◌∷◌, ◌++◌}
use quantum_kernel.Bytes.{Bytes, zeros, write16, copy, store_list}

abbrev pub arp_table_size : ℕ
arp_table_size = 16

abbrev pub arp_queue_size : ℕ
arp_queue_size = 8

-- `arp_entry_t`; a hardware address is the list of its six bytes.
pub record ArpEntry : Type 0 where
  pub ip : ℕ
  pub mac : List ℕ
  pub timestamp : ℕ
  pub valid : Bool

-- `queued_packet_t`
pub record QueuedPacket : Type 0 where
  pub dst : ℕ
  pub proto : ℕ
  pub payload : Bytes
  pub len : ℕ
  pub timestamp : ℕ
  pub valid : Bool

-- An argument of `rtl8139_send`.
pub record Frame : Type 0 where
  pub bytes : Bytes
  pub length : ℕ

-- `local_ip` of arp.c and of ip.c are two variables. `sent` has the frames in the order sent.
pub record Net : Type 0 where
  pub local_mac : List ℕ
  pub arp_ip : ℕ
  pub arp_table : List ArpEntry
  pub ip_ip : ℕ
  pub arp_queue : List QueuedPacket
  pub arp_pending : ℕ
  pub ping_id : ℕ
  pub ping_seq : ℕ
  pub ping_waiting : Bool
  pub ping_sent_time : ℕ
  pub sent : List Frame

abbrev pub eth_type_arp : ℕ
eth_type_arp = 0x0806

abbrev pub eth_type_ip : ℕ
eth_type_ip = 0x0800

-- `__builtin_bswap16`
abbrev pub bswap16 : ℕ → ℕ
bswap16 v = v % 256 * 256 + v / 256 % 256

unfoldable pub eth_init : List ℕ → Net → Net
eth_init mac s = record s { local_mac = mac }

-- The frame that `eth_tx` builds.
unfoldable pub eth_frame : List ℕ → ℕ → Bytes → ℕ → Net → Frame
eth_frame dst type payload len s =
    let addressed = store_list (store_list zeros 0 dst) 6 s.local_mac in
    let header = write16 addressed 12 (bswap16 type) in
    record { bytes = copy header 14 payload 0 len; length = len + 14 }

unfoldable pub eth_tx : List ℕ → ℕ → Bytes → ℕ → Net → Net
eth_tx dst type payload len s = record s { sent = s.sent ++ eth_frame dst type payload len s ∷ [] }
