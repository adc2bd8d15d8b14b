-- ===== src/Net/Queue.antt =====
-- src/drivers/net/ip.c: the header of a packet, and the queue of packets that wait for the hardware
-- address of their destination (`ip_init`, `ip_process_arp_queue`).
use quantum_kernel.Net.Table.{lookup}
use quantum_kernel.Net.{checksum}
use quantum_kernel.Net.State.{QueuedPacket, Net, arp_queue_size, eth_tx, bswap16, eth_type_ip}
use quantum_kernel.Bytes.{Bytes, write8, write16, copy, zeros, write32}
use quantum_kernel.Prelude.{
  if◌then◌else◌, u32, replicate, ℕ, ◌+◌, Bool, false, ◌&&◌, none, some, List, [], ◌∷◌, ◌==◌,
}

-- `checksum(h, sizeof(ip_hdr_t))`, which always ends.
unfoldable pub sum_of : Bytes → ℕ → ℕ
sum_of b len = elim (checksum b len) [ some sum ↦ sum | none ↦ 0 ]

abbrev pub header_size : ℕ
header_size = 20

-- The `ip_hdr_t` with its field `csum` 0.
unfoldable pub open_header : ℕ → ℕ → ℕ → ℕ → Bytes
open_header src dst proto len =
    let ver_ihl = write8 zeros 0 0x45 in
    let tos = write8 ver_ihl 1 0 in
    let total = write16 tos 2 (bswap16 (header_size + len)) in
    let id = write16 total 4 0 in
    let frag = write16 id 6 0 in
    let ttl = write8 frag 8 64 in
    let protocol = write8 ttl 9 proto in
    let source = write32 protocol 12 src in
    let destination = write32 source 16 dst in write16 destination 10 0

unfoldable pub header : ℕ → ℕ → ℕ → ℕ → Bytes
header src dst proto len =
    let opened = open_header src dst proto len in write16 opened 10 (sum_of opened header_size)

-- `buf` of `ip_tx` and of `ip_process_arp_queue`: the header and the payload behind it.
unfoldable pub packet : ℕ → ℕ → ℕ → Bytes → ℕ → Bytes
packet src dst proto payload len = copy (header src dst proto len) header_size payload 0 len

abbrev pub blank_packet : QueuedPacket
blank_packet = record { dst = 0; proto = 0; payload = zeros; len = 0; timestamp = 0; valid = false }

unfoldable pub ip_init : ℕ → Net → Net
ip_init ip s = record s { ip_ip = ip; arp_queue = replicate arp_queue_size blank_packet }

-- `arp_queue[i].valid && arp_queue[i].dst == resolved_ip`
unfoldable pub waits_for : ℕ → QueuedPacket → Bool
waits_for ip q = q.valid && (q.dst == ip)

-- `eth_tx` of a queued packet.
unfoldable pub send_queued : List ℕ → QueuedPacket → Net → Net
send_queued mac q s =
    eth_tx mac eth_type_ip (packet s.ip_ip q.dst q.proto q.payload q.len) (header_size + q.len) s

-- One round of the loop of `ip_process_arp_queue`; `arp_pending` is an `int`.
unfoldable pub process_slot : List ℕ → ℕ → QueuedPacket → Net → QueuedPacket × Net
process_slot mac ip q s =
    let sent = send_queued mac q s in
    if waits_for ip q
    then (
      record q { valid = false },
      record sent { arp_pending = u32 (sent.arp_pending + 0xffff_ffff) },
    )
    else (q, s)

-- The loop, over the slots that are left.
unfoldable pub process_slots : List ℕ → ℕ → List QueuedPacket → Net → List QueuedPacket × Net
process_slots mac ip [] s = ([], s)
process_slots mac ip (q ∷ qs) s =
    let (q', s') = process_slot mac ip q s in
    let (qs', s'') = process_slots mac ip qs s' in (q' ∷ qs', s'')

unfoldable pub ip_process_arp_queue : ℕ → Net → Net
ip_process_arp_queue ip s = elim (lookup ip s.arp_table) [
  | some mac ↦
      let (queue, s') = process_slots mac ip s.arp_queue s in record s' { arp_queue = queue }
  | none ↦ s
]
