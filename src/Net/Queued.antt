-- ===== src/Net/Queued.antt =====
-- What `ip_tx` of src/drivers/net/ip.c leaves behind: a packet in a slot of the queue and a request
-- for the address, or a frame with the packet.
-- The state with the packet in a slot.
use quantum_kernel.Net.Waiting.{count_bound}
use quantum_kernel.Net.Arp.{arp_packet}
use quantum_kernel.Net.Consistent.{IsSound}
use quantum_kernel.Net.Queue.{packet, blank_packet, header_size}
use quantum_kernel.Net.Ip.{fill_slot}
use quantum_kernel.Bytes.{Bytes, copy, store_list, write16, write8, read16, write32, read32}
use quantum_kernel.Net.Arp.{arp_request, arp_packet}
use quantum_kernel.Net.State.{
  eth_frame, eth_tx, Net, Frame, eth_type_ip, bswap16, QueuedPacket, eth_type_arp,
}
use quantum_kernel.Prelude.{
  zero, suc, sym, get_or-set_self, get_or-set_ne, ◌≢◌, ℕ, List, length, u32, get_or, ◌≡◌, ◌≤◌, ◌+◌,
  ◌<◌, ◌++◌, ◌∷◌, true, [], arith, ◌≢◌, suc, ◌^◌, set, refl, replicate, ap, ◌∙◌,
}

-- The state with the packet in a slot.
abbrev pub queued : ℕ → ℕ → ℕ → Bytes → ℕ → ℕ → Net → Net
queued slot dst proto payload len now s = record s {
  arp_queue = fill_slot slot dst proto payload len now s.arp_queue;
  arp_pending = u32 (s.arp_pending + 1);
}

-- An ARP request for the hardware address of `ip`, to every station.
pub record IsRequest (ip : ℕ) (s : Net) (f : Frame) : Type 0 where
  pub size : f.length ≡ 42
  pub to_all : (k : ℕ) → k < 6 → f.bytes k ≡ 255
  pub type : bswap16 (read16 f.bytes 12) ≡ eth_type_arp
  pub oper : bswap16 (read16 f.bytes 20) ≡ 1
  pub sender : read32 f.bytes 28 ≡ u32 s.arp_ip
  pub target : read32 f.bytes 38 ≡ u32 ip

-- A frame to the hardware address `mac` with an IP packet of this payload.
pub record Carries (mac : List ℕ) (payload : Bytes) (len : ℕ) (f : Frame) : Type 0 where
  pub size : f.length ≡ 34 + len
  pub to_mac : (k : ℕ) → k < 6 → f.bytes k ≡ get_or mac k 0
  pub type : bswap16 (read16 f.bytes 12) ≡ eth_type_ip
  pub content : (j : ℕ) → j < len → f.bytes (34 + j) ≡ payload j

-- A packet in slot `slot` of the queue, one more that waits, and one frame sent: the request for the
-- address. The table and the other slots are as they were.
pub record IsQueued (dst proto : ℕ) (payload : Bytes) (len now slot : ℕ) (s s' : Net) : Type 0 where
  pub waits : (get_or s'.arp_queue slot blank_packet).valid ≡ true
  pub to_dst : (get_or s'.arp_queue slot blank_packet).dst ≡ dst
  pub same_proto : (get_or s'.arp_queue slot blank_packet).proto ≡ proto
  pub size : (get_or s'.arp_queue slot blank_packet).len ≡ len
  pub stamped : (get_or s'.arp_queue slot blank_packet).timestamp ≡ now
  pub content : (j : ℕ) → j < len → (get_or s'.arp_queue slot blank_packet).payload j ≡ payload j
  pub others :
      (k : ℕ) → k ≢ slot → get_or s'.arp_queue k blank_packet ≡ get_or s.arp_queue k blank_packet
  pub pending : s'.arp_pending ≡ s.arp_pending + 1
  pub table : s'.arp_table ≡ s.arp_table
  pub asks : (f : Frame) × (s'.sent ≡ s.sent ++ f ∷ []) × IsRequest dst s f

-- One frame sent, with the packet. The table and the queue are as they were.
pub record IsSent (mac : List ℕ) (payload : Bytes) (len : ℕ) (s s' : Net) : Type 0 where
  pub table : s'.arp_table ≡ s.arp_table
  pub queue : s'.arp_queue ≡ s.arp_queue
  pub pending : s'.arp_pending ≡ s.arp_pending
  pub sends : (f : Frame) × (s'.sent ≡ s.sent ++ f ∷ []) × Carries mac payload len f

get_or_past : (xs : List ℕ) (k : ℕ) → length xs ≤ k → get_or xs k 0 ≡ 0
get_or_past [] k h = refl
get_or_past (x ∷ xs) zero h = absurd (omega arith)
get_or_past (x ∷ xs) (suc k) h = get_or_past xs k (omega arith)

-- The first six bytes of a frame.
eth_frame_to :
    (mac : List ℕ) (type : ℕ) (b : Bytes) (len : ℕ) (s : Net) (k : ℕ)
    → k < 6
    → (eth_frame mac type b len s).bytes k ≡ get_or mac k 0
unfolding eth_frame copy store_list write16
eth_frame_to mac type b len s k h = ground (arith, get_or_past mac k)

eth_frame_type :
    (mac : List ℕ) (type : ℕ) (b : Bytes) (len : ℕ) (s : Net)
    → type < 2 ^ 16
    → bswap16 (read16 (eth_frame mac type b len s).bytes 12) ≡ type
unfolding eth_frame copy store_list write16 read16
eth_frame_type mac type b len s h = omega arith

pub eth_tx-IsSent :
    (mac : List ℕ) (dst proto : ℕ) (payload : Bytes) (len : ℕ) (s : Net)
    → IsSent mac payload len s
        (eth_tx mac eth_type_ip (packet s.ip_ip dst proto payload len) (header_size + len) s)
unfolding eth_tx eth_frame copy packet
eth_tx-IsSent mac dst proto payload len s =
    let b = packet s.ip_ip dst proto payload len in
    record {
      table = refl;
      queue = refl;
      pending = refl;
      sends = (
        eth_frame mac eth_type_ip b (header_size + len) s,
        refl,
        record {
          size = omega arith;
          to_mac = λ k h. eth_frame_to mac eth_type_ip b (header_size + len) s k h;
          type = eth_frame_type mac eth_type_ip b (header_size + len) s (omega arith);
          content = λ j h. ground arith;
        },
      );
    }

-- The request that `arp_request` sends.
request_lem :
    (ip : ℕ) (s : Net)
    → IsRequest ip s
        (eth_frame (replicate 6 255) eth_type_arp (arp_packet 1 (replicate 6 0) ip s) 28 s)
unfolding eth_frame copy store_list write8 write16 write32 read16 read32 arp_packet
request_lem ip s = record {
  size = refl;
  to_all = λ k h. ground arith;
  type = omega arith;
  oper = omega arith;
  sender = omega arith;
  target = omega arith;
}

pub arp_request-IsQueued :
    (dst proto : ℕ) (payload : Bytes) (len now slot : ℕ) (s : Net)
    → IsSound s
    → slot < length s.arp_queue
    → IsQueued dst proto payload len now slot s
        (arp_request dst (queued slot dst proto payload len now s))
unfolding arp_request eth_tx fill_slot copy arp_packet eth_frame
arp_request-IsQueued dst proto payload len now slot s sound inside =
    let p : QueuedPacket = record {
      dst = dst;
      proto = proto;
      payload = copy (get_or s.arp_queue slot blank_packet).payload 0 payload 0 len;
      len = len;
      timestamp = now;
      valid = true;
    } in
    let here : get_or (set s.arp_queue slot p) slot blank_packet ≡ p =
      get_or-set_self s.arp_queue slot p blank_packet inside in
    record {
      waits = ap (λ q. q.valid) here;
      to_dst = ap (λ q. q.dst) here;
      same_proto = ap (λ q. q.proto) here;
      size = ap (λ q. q.len) here;
      stamped = ap (λ q. q.timestamp) here;
      content = λ j h. ap (λ q. q.payload j) here ∙ ground arith;
      others = λ k ne. get_or-set_ne s.arp_queue p blank_packet (λ e. ne (sym e));
      pending = omega (arith, sound.counted, count_bound s.arp_queue, sound.queue_size);
      table = refl;
      asks = (_, refl, request_lem dst s);
    }
