-- ===== src/Net/Waiting.antt =====
-- The queue of packets of src/drivers/net/ip.c: what `ip_process_arp_queue` sends and what it leaves.
use quantum_kernel.Net.Table.{lookup}
use quantum_kernel.Prelude.{
  if◌then◌else◌, u32, Bool-cases, length, ℕ, suc, ◌+◌, ◌-◌, ◌^◌, ◌≤◌, ◌<◌, ◌≡◌, refl, sym, ap, ap₂,
  ◌∙◌, inl, inr, true, false, some, List, [], ◌∷◌, ◌++◌, map, append-nil, append_assoc, arith,
}
use quantum_kernel.Net.State.{QueuedPacket, Net, Frame, eth_tx, eth_frame, eth_type_ip}
use quantum_kernel.Net.Queue.{
  waits_for, process_slot, process_slots, send_queued, packet, header_size, ip_process_arp_queue,
}

-- The packets that wait.
unfoldable pub count_waiting : List QueuedPacket → ℕ
count_waiting [] = 0
count_waiting (q ∷ qs) = (if q.valid then 1 else 0) + count_waiting qs

-- The packets that wait for the address, as they are in the queue.
unfoldable pub waiting_for : ℕ → List QueuedPacket → List QueuedPacket
waiting_for ip [] = []
waiting_for ip (q ∷ qs) = let rest = waiting_for ip qs in if waits_for ip q then q ∷ rest else rest

-- The queue without them.
unfoldable pub release : ℕ → List QueuedPacket → List QueuedPacket
release ip [] = []
release ip (q ∷ qs) = (if waits_for ip q then record q { valid = false } else q) ∷ release ip qs

-- The frame in which a packet leaves.
unfoldable pub frame_of : List ℕ → Net → QueuedPacket → Frame
frame_of mac s q =
    eth_frame mac eth_type_ip (packet s.ip_ip q.dst q.proto q.payload q.len) (header_size + q.len) s

-- The state once the packets have left.
unfoldable pub sent_all : List ℕ → ℕ → Net → Net
sent_all mac ip s = record s {
  sent = s.sent ++ map (frame_of mac s) (waiting_for ip s.arp_queue);
  arp_queue = release ip s.arp_queue;
  arp_pending = s.arp_pending - length (waiting_for ip s.arp_queue);
}

-- The state with other frames sent and another number of packets waiting.
abbrev pub after : List Frame → ℕ → Net → Net
after frames pending s = record s { sent = frames; arp_pending = pending }

slot_waits :
    (mac : List ℕ) (ip : ℕ) (q : QueuedPacket) (s : Net)
    → s.arp_pending < 2 ^ 32
    → 0 < s.arp_pending
    → waits_for ip q ≡ true
    → process_slot mac ip q s
      ≡ (record q { valid = false }, after (s.sent ++ frame_of mac s q ∷ []) (s.arp_pending - 1) s)
unfolding process_slot send_queued eth_tx frame_of
slot_waits mac ip q s fits some_wait h =
    let e : u32 (s.arp_pending + 0xffff_ffff) ≡ s.arp_pending - 1 = omega arith in
    rw (h) (ap (λ n. (record q { valid = false }, after (s.sent ++ frame_of mac s q ∷ []) n s)) e)

slot_stays :
    (mac : List ℕ) (ip : ℕ) (q : QueuedPacket) (s : Net)
    → waits_for ip q ≡ false
    → process_slot mac ip q s ≡ (q, s)
unfolding process_slot
slot_stays mac ip q s h = rw (h) refl

-- The rest of the loop after a slot.
abbrev go_on : List ℕ → ℕ → List QueuedPacket → QueuedPacket × Net → List QueuedPacket × Net
go_on mac ip qs p = let (qs', s') = process_slots mac ip qs p.1 in (p.0 ∷ qs', s')

pub process_slots_lem :
    (mac : List ℕ) (ip : ℕ) (qs : List QueuedPacket) (s : Net)
    → s.arp_pending < 2 ^ 32
    → length (waiting_for ip qs) ≤ s.arp_pending
    → process_slots mac ip qs s ≡ (
      release ip qs,
      after
          (s.sent ++ map (frame_of mac s) (waiting_for ip qs))
          (s.arp_pending - length (waiting_for ip qs))
          s,
    )
unfolding process_slots release waiting_for frame_of eth_frame
process_slots_lem mac ip [] s fits h =
    ap₂ (λ f n. ([], after f n s)) (sym (append-nil s.sent)) (omega arith)
process_slots_lem mac ip (q ∷ qs) s fits h = elim (Bool-cases (waits_for ip q)) [
  | inl waits ↦
      let more : suc (length (waiting_for ip qs)) ≤ s.arp_pending = ground (arith, h, waits) in
      let f = frame_of mac s q in
      let fs = map (frame_of mac s) (waiting_for ip qs) in
      let there =
        process_slots_lem mac ip qs (after (s.sent ++ f ∷ []) (s.arp_pending - 1) s) (omega arith)
          (omega (arith, more)) in
      ap (go_on mac ip qs) (slot_waits mac ip q s fits (omega (arith, more)) waits)
      ∙ ap (λ r. (record q { valid = false } ∷ r.0, r.1)) there
      ∙ rw (waits) (
          ap₂ (λ g n. (record q { valid = false } ∷ release ip qs, after g n s))
            (append_assoc s.sent (f ∷ []) fs) (omega arith))
  | inr stays ↦
      let fewer : length (waiting_for ip qs) ≤ s.arp_pending = ground (arith, h, stays) in
      ap (go_on mac ip qs) (slot_stays mac ip q s stays)
      ∙ ap (λ r. (q ∷ r.0, r.1)) (process_slots_lem mac ip qs s fits fewer)
      ∙ rw (stays) refl
]

-- The queue's counters after the release of the packets for an address.
pub count_release :
    (ip : ℕ) (qs : List QueuedPacket)
    → count_waiting (release ip qs) + length (waiting_for ip qs) ≡ count_waiting qs
unfolding count_waiting release waiting_for waits_for
count_release ip [] = refl
count_release ip (q ∷ qs) = let rest = count_release ip qs in ground (arith, rest)

pub length-release : (ip : ℕ) (qs : List QueuedPacket) → length (release ip qs) ≡ length qs
unfolding release
length-release ip [] = refl
length-release ip (q ∷ qs) = ap suc (length-release ip qs)

pub count_bound : (qs : List QueuedPacket) → count_waiting qs ≤ length qs
unfolding count_waiting
count_bound [] = omega arith
count_bound (q ∷ qs) = let rest = count_bound qs in ground (arith, rest)

-- Once the address is known, its packets are sent, and they alone.
pub ip_process_arp_queue_known :
    (ip : ℕ) (mac : List ℕ) (s : Net)
    → lookup ip s.arp_table ≡ some mac
    → s.arp_pending ≡ count_waiting s.arp_queue
    → length s.arp_queue < 2 ^ 32
    → ip_process_arp_queue ip s ≡ sent_all mac ip s
unfolding ip_process_arp_queue sent_all
ip_process_arp_queue_known ip mac s known counted small =
    let bound = count_bound s.arp_queue in
    let balance = count_release ip s.arp_queue in
    let loop =
      process_slots_lem mac ip s.arp_queue s (omega (arith, bound)) (omega (arith, balance)) in
    rw (known, ip_process_arp_queue) (ap (λ r. record r.1 { arp_queue = r.0 }) loop)
