-- ===== src/Net/Resolve.antt =====
-- A packet that waits for its destination's hardware address, and the reply that brings it.
use mathlib.Core.Option.{some-ne-none}
use mathlib.Core.Path.{fun_ext, subst}
use quantum_kernel.Prelude.{
  Bool-cases, length, get_or, set, ℤ, pos, ℕ, zero, suc, ◌+◌, ◌<◌, ◌≡◌, refl, sym, ap, ◌∙◌, inl,
  inr, true, false, none, List, [], ◌∷◌, ◌++◌, map, arith,
}
use quantum_kernel.Net.State.{QueuedPacket, Net, Frame, eth_tx, eth_frame, eth_type_ip, bswap16}
use quantum_kernel.Net.Table.{lookup, add_entry}
use quantum_kernel.Net.Table.Put.{add_entry_lem}
use quantum_kernel.Net.Queue.{waits_for, blank_packet, packet, header_size}
use quantum_kernel.Net.Waiting.{waiting_for, sent_all, frame_of, ip_process_arp_queue_known}
use quantum_kernel.Net.Consistent.{IsSound}
use quantum_kernel.Net.Arp.{arp_request, arp_rx, arp_add_entry}
use quantum_kernel.Net.Sends.{queued-IsSound, ip_tx_ways, at_once, dropped, later, later}
use quantum_kernel.Net.Queued.{queued}
use quantum_kernel.Net.Ip.{ip_tx, fill_slot}
use quantum_kernel.Bytes.{Bytes, copy, read16, read32, load_list}

waiting_take :
    (ip : ℕ) (q : QueuedPacket) (qs : List QueuedPacket)
    → waits_for ip q ≡ true
    → waiting_for ip (q ∷ qs) ≡ q ∷ waiting_for ip qs
unfolding waiting_for
waiting_take ip q qs h = rw h refl

waiting_skip :
    (ip : ℕ) (q : QueuedPacket) (qs : List QueuedPacket)
    → waits_for ip q ≡ false
    → waiting_for ip (q ∷ qs) ≡ waiting_for ip qs
unfolding waiting_for
waiting_skip ip q qs h = rw h refl

waits_itself : (p : QueuedPacket) → p.valid ≡ true → waits_for p.dst p ≡ true
unfolding waits_for
waits_itself p v = ground (arith, v)

map-append {ℓ ℓ'} :
    {A : Type ℓ} {B : Type ℓ'}
    → (f : A → B) (xs ys : List A) → map f (xs ++ ys) ≡ map f xs ++ map f ys
map-append f [] ys = refl
map-append f (x ∷ xs) ys = ap (λ r. f x ∷ r) (map-append f xs ys)

-- A packet in a slot is among those that wait for its destination.
waiting_for-set :
    (qs : List QueuedPacket) (k : ℕ) (p : QueuedPacket)
    → k < length qs
    → p.valid ≡ true
    → (xs : List QueuedPacket) × (ys : List QueuedPacket) × (waiting_for p.dst (set qs k p)
        ≡ xs ++ p ∷ ys)
unfolding waiting_for waits_for
waiting_for-set [] k p h v = absurd (omega arith)
waiting_for-set (q ∷ qs) zero p h v =
    ([], waiting_for p.dst qs, waiting_take p.dst p qs (waits_itself p v))
waiting_for-set (q ∷ qs) (suc k) p h v =
    let (xs, ys, e) = waiting_for-set qs k p (omega arith) v in
    elim (Bool-cases (waits_for p.dst q)) [
      | inl waits ↦ (q ∷ xs, ys, waiting_take p.dst q (set qs k p) waits ∙ ap (λ r. q ∷ r) e)
      | inr not_for ↦ (xs, ys, waiting_skip p.dst q (set qs k p) not_for ∙ e)
    ]

-- The stores into the slot keep the bytes that are sent.
packet_cut :
    (src dst proto len : ℕ) (old payload : Bytes)
    → packet src dst proto (copy old 0 payload 0 len) len ≡ packet src dst proto payload len
unfolding packet copy
packet_cut src dst proto len old payload = fun_ext (λ k. ground arith)

-- A new address with its hardware address: the packets that wait for it are sent.
arp_add_entry_new :
    (ip : ℕ) (mac : List ℕ) (now : ℕ) (s : Net)
    → IsSound s
    → lookup ip s.arp_table ≡ none
    → arp_add_entry ip mac now s
      ≡ sent_all mac ip (record s { arp_table = (add_entry ip mac now s.arp_table).0 })
unfolding arp_add_entry
arp_add_entry_new ip mac now s sound unknown =
    let added = add_entry_lem ip mac now s.arp_table (omega (arith, sound.table_size)) in
    rw (added.told.1 unknown) (
      ip_process_arp_queue_known ip mac
        (record s { arp_table = (add_entry ip mac now s.arp_table).0 }) added.put sound.counted
        (omega (arith, sound.queue_size)))

module _ (dst proto : ℕ) (payload : Bytes) (len now slot : ℕ) (s : Net) (sound : IsSound s)
    (unknown : lookup dst s.arp_table ≡ none) (inside : slot < 8)
    (empty : (get_or s.arp_queue slot blank_packet).valid ≡ false) where
  -- The state after the request for the address.
  abbrev asked : Net
  asked = arp_request dst (queued slot dst proto payload len now s)

  asked-IsSound : IsSound asked
  unfolding arp_request eth_tx
  asked-IsSound = queued-IsSound dst proto payload len now slot s sound unknown inside empty

  -- The address comes in: the packet is among the frames that go out.
  resolved :
      (mac : List ℕ) (back : ℕ)
      → (xs : List Frame) × (ys : List Frame) × ((arp_add_entry dst mac back asked).sent
          ≡ asked.sent
            ++ (xs
                ++ eth_frame mac eth_type_ip
                    (packet s.ip_ip dst proto payload len)
                    (header_size + len)
                    s
                  ∷ ys))
  unfolding sent_all arp_request eth_tx fill_slot frame_of eth_frame
  resolved mac back =
      let p : QueuedPacket = record {
        dst = dst;
        proto = proto;
        payload = copy (get_or s.arp_queue slot blank_packet).payload 0 payload 0 len;
        len = len;
        timestamp = now;
        valid = true;
      } in
      let (xs, ys, e) = waiting_for-set s.arp_queue slot p (omega (arith, sound.queue_size)) refl in
      let f = frame_of mac asked in
      let sending : Bytes → List Frame = λ b.
        asked.sent ++ (map f xs ++ eth_frame mac eth_type_ip b (header_size + len) s ∷ map f ys) in
      (
        map f xs,
        map f ys,
        ap (λ n. n.sent) (arp_add_entry_new dst mac back asked asked-IsSound unknown)
            ∙ ap (λ w. asked.sent ++ map f w) e
            ∙ ap (λ r. asked.sent ++ r) (map-append f xs (p ∷ ys))
            ∙ ap sending (
                packet_cut s.ip_ip dst proto len (get_or s.arp_queue slot blank_packet).payload
                  payload),
      )

arp_rx_reply :
    (pkt : Bytes) (now : ℕ) (s : Net)
    → bswap16 (read16 pkt 6) ≡ 2
    → arp_rx pkt now s ≡ arp_add_entry (read32 pkt 14) (load_list 6 pkt 8) now s
unfolding arp_rx
arp_rx_reply pkt now s h = rw (h, arp_rx) refl

-- What `ip_tx` has returned is 0, and the reply `pkt` sends the packet's frame among others.
unfoldable pub Answered : ℕ → ℕ → Bytes → ℕ → Net → Bytes → ℕ → ℤ × Net → Type 0
Answered dst proto payload len s pkt now r =
    (r.0 ≡ pos 0)
    × (xs : List Frame) × (ys : List Frame) × ((arp_rx pkt now r.1).sent
        ≡ r.1.sent
          ++ (xs
              ++ eth_frame (load_list 6 pkt 8) eth_type_ip (packet s.ip_ip dst proto payload len)
                  (header_size + len) s
                ∷ ys))

-- A packet to an unknown address, sent in a sound state in which fewer than eight packets wait, and
-- then an ARP reply from that address: `ip_tx` returns 0, and when the reply is received the frame
-- goes out that `ip_tx` would have sent at once had it known the reply's hardware address, together
-- with those of other packets for the address.
pub arp_rx-ip_tx :
    (dst proto : ℕ) (payload : Bytes) (len now : ℕ) (s : Net) (pkt : Bytes) (back : ℕ)
    → IsSound s
    → lookup dst s.arp_table ≡ none
    → s.arp_pending < 8
    → bswap16 (read16 pkt 6) ≡ 2
    → read32 pkt 14 ≡ dst
    → Answered dst proto payload len s pkt back (ip_tx dst proto payload len now s)
unfolding Answered
arp_rx-ip_tx dst proto payload len now s pkt back sound unknown room reply sender =
    elim (ip_tx_ways dst proto payload len now s sound) [
      | at_once mac known _ _ ↦ absurd (some-ne-none mac (sym known ∙ unknown))
      | dropped _ all _ ↦ absurd (omega (arith, all))
      | later slot _ inside empty e _ ↦
          let (xs, ys, frames) =
            resolved dst proto payload len now slot s sound unknown inside empty (load_list 6 pkt 8)
              back in
          let mac = load_list 6 pkt 8 in
          let r = asked dst proto payload len now slot s sound unknown inside empty in
          let received =
            ap (λ n. n.sent)
              (arp_rx_reply pkt back r reply ∙ ap (λ ip. arp_add_entry ip mac back r) sender) in
          subst (λ c. Answered dst proto payload len s pkt back c) (sym e)
            (refl, xs, ys, received ∙ frames)
    ]
