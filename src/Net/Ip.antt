-- ===== src/Net/Ip.antt =====
-- `ip_tx` of src/drivers/net/ip.c, and src/drivers/net/icmp.c.
use quantum_kernel.Net.Arp.{arp_lookup, arp_request}
use quantum_kernel.Net.Queue.{blank_packet, packet, sum_of, header_size}
use quantum_kernel.Bytes.{Bytes, write8, copy, zeros, write16}
use quantum_kernel.Net.State.{QueuedPacket, Net, eth_tx, eth_type_ip}
use quantum_kernel.Prelude.{
  ltb, if◌then◌else◌, u16, u32, get_or, set, ℤ, pos, negsuc, ℕ, ◌+◌, Bool, true, false, ◌&&◌, not,
  Option, none, some, List, [], ◌∷◌, ◌==◌,
}

-- The loop that looks for a slot, from slot `i` on.
unfoldable pub free_slot : List QueuedPacket → ℕ → Option ℕ
free_slot [] i = none
free_slot (q ∷ qs) i = let rest = free_slot qs (i + 1) in if not q.valid then some i else rest

-- The stores into the slot that was found, for a packet that fits into the 1400 bytes of its payload.
unfoldable pub fill_slot : ℕ → ℕ → ℕ → Bytes → ℕ → ℕ → List QueuedPacket → List QueuedPacket
fill_slot slot dst proto payload len now queue =
    let old = get_or queue slot blank_packet in
    let filled = copy old.payload 0 payload 0 len in
    set queue slot (record {
      dst = dst;
      proto = proto;
      payload = filled;
      len = len;
      timestamp = now;
      valid = true;
    })

-- `ip_tx` with the result -1, 0 or 1; a packet of at most 1400 bytes, the size of a slot's payload.
unfoldable pub ip_tx : ℕ → ℕ → Bytes → ℕ → ℕ → Net → ℤ × Net
ip_tx dst proto payload len now s = elim (arp_lookup dst s) [
  | some mac ↦
      let buf = packet s.ip_ip dst proto payload len in
      (pos 1, eth_tx mac eth_type_ip buf (header_size + len) s)
  | none ↦ elim (free_slot s.arp_queue 0) [
    | some slot ↦
        let queue = fill_slot slot dst proto payload len now s.arp_queue in
        let queued : Net = record s { arp_queue = queue; arp_pending = u32 (s.arp_pending + 1) } in
        (pos 0, arp_request dst queued)
    | none ↦ (negsuc 0, s)
  ]
]

abbrev pub icmp_header_size : ℕ
icmp_header_size = 8

-- The `icmp_hdr_t` that `icmp_ping` sends.
unfoldable pub echo_request : ℕ → ℕ → Bytes
echo_request id seq =
    let type = write8 zeros 0 8 in
    let code = write8 type 1 0 in
    let numbered = write16 (write16 code 4 id) 6 seq in
    let opened = write16 numbered 2 0 in write16 opened 2 (sum_of opened icmp_header_size)

unfoldable pub icmp_ping : ℕ → ℕ → Net → Net
icmp_ping ip now s =
    let seq = u16 (s.ping_seq + 1) in
    let asked : Net = record s { ping_seq = seq; ping_waiting = true; ping_sent_time = now } in
    let (_, s') = ip_tx ip 1 (echo_request s.ping_id seq) icmp_header_size now asked in s'

-- `icmp_rx` without what it prints.
unfoldable pub icmp_rx : Bytes → ℕ → Net → Net
icmp_rx pkt len s =
    if ltb len icmp_header_size
    then s
    else if (pkt 0 == 0) && s.ping_waiting
    then record s { ping_waiting = false }
    else s

unfoldable pub icmp_get_status : Net → Bool
icmp_get_status s = s.ping_waiting

unfoldable pub icmp_reset_status : Net → Net
icmp_reset_status s = record s { ping_waiting = false }
