-- ===== src/Net/Sends.antt =====
-- `ip_tx` of src/drivers/net/ip.c on a packet whose destination is unknown: the slot it takes.
use quantum_kernel.Net.Queued.{queued, IsSent, IsQueued, eth_tx-IsSent, arp_request-IsQueued}
use mathlib.Core.Path.{subst}
use quantum_kernel.Prelude.{
  if◌then◌else◌, Bool-cases, length, get_or, set, pos, negsuc, ℕ, zero, suc, ◌+◌, ◌≤◌, ◌<◌, ◌≡◌,
  refl, sym, ap, ◌∙◌, inl, inr, true, false, Option, none, some, List, [], ◌∷◌, arith, ℤ,
  length-set, Option-cases,
}
use quantum_kernel.Net.State.{QueuedPacket, ArpEntry, Net, eth_tx, eth_type_ip}
use quantum_kernel.Net.Table.{lookup}
use quantum_kernel.Net.Queue.{blank_packet, packet, header_size}
use quantum_kernel.Net.Waiting.{count_waiting, count_bound}
use quantum_kernel.Net.Consistent.{AllUnknown, IsSound}
use quantum_kernel.Net.Arp.{arp_request, arp_lookup}
use quantum_kernel.Net.Ip.{free_slot, fill_slot, ip_tx}
use quantum_kernel.Bytes.{Bytes, copy}

-- The search for a slot finds one that is free, or every slot is taken.
data Search (qs : List QueuedPacket) (found : Option ℕ) (i : ℕ) : Type 0 where
  taken : found ≡ none → count_waiting qs ≡ length qs → Search qs found i
  free :
      (k : ℕ)
      → found ≡ some (i + k)
      → k < length qs
      → (get_or qs k blank_packet).valid ≡ false
      → Search qs found i

free_slot_taken :
    (q : QueuedPacket) (qs : List QueuedPacket) (i : ℕ)
    → q.valid ≡ true
    → free_slot (q ∷ qs) i ≡ free_slot qs (i + 1)
unfolding free_slot
free_slot_taken q qs i h = ground (arith, h)

free_slot_here :
    (q : QueuedPacket) (qs : List QueuedPacket) (i : ℕ)
    → q.valid ≡ false
    → free_slot (q ∷ qs) i ≡ some i
unfolding free_slot
free_slot_here q qs i h = ground (arith, h)

count_one :
    (q : QueuedPacket) (qs : List QueuedPacket)
    → q.valid ≡ true
    → count_waiting (q ∷ qs) ≡ suc (count_waiting qs)
unfolding count_waiting
count_one q qs h = ground (arith, h)

count_none :
    (q : QueuedPacket) (qs : List QueuedPacket)
    → q.valid ≡ false
    → count_waiting (q ∷ qs) ≡ count_waiting qs
unfolding count_waiting
count_none q qs h = ground (arith, h)

free_slot_lem : (qs : List QueuedPacket) (i : ℕ) → Search qs (free_slot qs i) i
unfolding free_slot count_waiting
free_slot_lem [] i = taken refl refl
free_slot_lem (q ∷ qs) i = elim (Bool-cases q.valid) [
  | inr empty ↦ free 0 (free_slot_here q qs i empty ∙ ap some (omega arith)) (omega arith) empty
  | inl used ↦ elim (free_slot_lem qs (i + 1)) [
    | taken none_there all ↦
        taken (free_slot_taken q qs i used ∙ none_there) (count_one q qs used ∙ ap suc all)
    | free k there inside empty ↦
        free (suc k) (free_slot_taken q qs i used ∙ there ∙ ap some (omega arith)) (omega arith)
          empty
  ]
]

-- A packet put into a free slot.
count_set :
    (qs : List QueuedPacket) (k : ℕ) (p : QueuedPacket)
    → k < length qs
    → (get_or qs k blank_packet).valid ≡ false
    → p.valid ≡ true
    → count_waiting (set qs k p) ≡ suc (count_waiting qs)
unfolding count_waiting
count_set [] k p h empty v = absurd (omega arith)
count_set (q ∷ qs) zero p h empty v = count_one p qs v ∙ ap suc (sym (count_none q qs empty))
count_set (q ∷ qs) (suc k) p h empty v =
    let rest = count_set qs k p (omega arith) empty v in
    ap (λ n. (if q.valid then 1 else 0) + n) rest ∙ omega arith

AllUnknown-set :
    (t : List ArpEntry) (qs : List QueuedPacket) (k : ℕ) (p : QueuedPacket)
    → lookup p.dst t ≡ none
    → AllUnknown t qs
    → AllUnknown t (set qs k p)
unfolding AllUnknown
AllUnknown-set t [] k p h a = a
AllUnknown-set t (q ∷ qs) zero p h (a, rest) = ((λ _. h), rest)
AllUnknown-set t (q ∷ qs) (suc k) p h (a, rest) = (a, AllUnknown-set t qs k p h rest)

-- The three ways `ip_tx` goes.
pub ip_tx_known :
    (dst proto : ℕ) (payload : Bytes) (len now : ℕ) (s : Net) (mac : List ℕ)
    → lookup dst s.arp_table ≡ some mac
    → ip_tx dst proto payload len now s
      ≡ (pos 1, eth_tx mac eth_type_ip (packet s.ip_ip dst proto payload len) (header_size + len) s)
unfolding ip_tx arp_lookup
ip_tx_known dst proto payload len now s mac h = rw (h, ip_tx) refl

pub ip_tx_dropped :
    (dst proto : ℕ) (payload : Bytes) (len now : ℕ) (s : Net)
    → lookup dst s.arp_table ≡ none
    → free_slot s.arp_queue 0 ≡ none
    → ip_tx dst proto payload len now s ≡ (negsuc 0, s)
unfolding ip_tx arp_lookup
ip_tx_dropped dst proto payload len now s h k = rw (h, k, ip_tx) refl

pub ip_tx-queued :
    (dst proto : ℕ) (payload : Bytes) (len now slot : ℕ) (s : Net)
    → lookup dst s.arp_table ≡ none
    → free_slot s.arp_queue 0 ≡ some slot
    → ip_tx dst proto payload len now s
      ≡ (pos 0, arp_request dst (queued slot dst proto payload len now s))
unfolding ip_tx arp_lookup
ip_tx-queued dst proto payload len now slot s h k = rw (h, k, ip_tx) refl

-- What `ip_tx` may come to.
pub data Sending (dst proto : ℕ) (payload : Bytes) (len now : ℕ) (s : Net) (r : ℤ × Net)
    : Type 0 where
  at_once :
      (mac : List ℕ)
      → lookup dst s.arp_table ≡ some mac
      → r ≡ (
        pos 1,
        eth_tx mac eth_type_ip (packet s.ip_ip dst proto payload len) (header_size + len) s,
      )
      → IsSent mac payload len s r.1
      → Sending dst proto payload len now s r
  later :
      (slot : ℕ)
      → lookup dst s.arp_table ≡ none
      → slot < 8
      → (get_or s.arp_queue slot blank_packet).valid ≡ false
      → r ≡ (pos 0, arp_request dst (queued slot dst proto payload len now s))
      → IsQueued dst proto payload len now slot s r.1
      → Sending dst proto payload len now s r
  dropped :
      lookup dst s.arp_table ≡ none
      → s.arp_pending ≡ 8
      → r ≡ (negsuc 0, s)
      → Sending dst proto payload len now s r

-- The way that `ip_tx` goes, whatever the length.
pub ip_tx_ways :
    (dst proto : ℕ) (payload : Bytes) (len now : ℕ) (s : Net)
    → IsSound s
    → Sending dst proto payload len now s (ip_tx dst proto payload len now s)
ip_tx_ways dst proto payload len now s sound = elim (Option-cases (lookup dst s.arp_table)) [
  | inr (mac, known) ↦
      let e = ip_tx_known dst proto payload len now s mac known in
      at_once mac known e (
        subst (λ r. IsSent mac payload len s r.1) (sym e)
          (eth_tx-IsSent mac dst proto payload len s))
  | inl unknown ↦ elim (free_slot_lem s.arp_queue 0) [
    | taken no_slot all ↦
        dropped unknown (sound.counted ∙ all ∙ sound.queue_size)
          (ip_tx_dropped dst proto payload len now s unknown no_slot)
    | free slot found inside empty ↦
        let e =
          ip_tx-queued dst proto payload len now slot s unknown (found ∙ ap some (omega arith)) in
        later slot unknown (omega (arith, sound.queue_size)) empty e (
          subst (λ r. IsQueued dst proto payload len now slot s r.1) (sym e)
            (arp_request-IsQueued dst proto payload len now slot s sound inside))
  ]
]

-- The state with a packet queued.
pub queued-IsSound :
    (dst proto : ℕ) (payload : Bytes) (len now slot : ℕ) (s : Net)
    → IsSound s
    → lookup dst s.arp_table ≡ none
    → slot < 8
    → (get_or s.arp_queue slot blank_packet).valid ≡ false
    → IsSound (queued slot dst proto payload len now s)
unfolding fill_slot
queued-IsSound dst proto payload len now slot s sound unknown inside empty =
    let bound = count_bound s.arp_queue in
    let p : QueuedPacket = record {
      dst = dst;
      proto = proto;
      payload = copy (get_or s.arp_queue slot blank_packet).payload 0 payload 0 len;
      len = len;
      timestamp = now;
      valid = true;
    } in
    let more = count_set s.arp_queue slot p (omega (arith, sound.queue_size)) empty refl in
    record {
      table_size = sound.table_size;
      queue_size = length-set s.arp_queue slot p ∙ sound.queue_size;
      counted = omega (arith, more, sound.counted, bound, sound.queue_size);
      unresolved = AllUnknown-set s.arp_table s.arp_queue slot p unknown sound.unresolved;
    }

-- In a sound state `ip_tx` sends a packet of at most 1400 bytes at once when its destination's
-- hardware address is known, with the result 1, as one frame to that address with the payload
-- behind the headers; when it is not, it puts the packet into a free slot, marked valid, with its
-- destination, protocol, length, time and bytes, leaves the other slots alone, counts it, and sends
-- one ARP request for the address to every station, with the result 0; and when no slot is free,
-- that is when eight packets wait, it changes nothing and returns -1.
pub ip_tx_lem :
    (dst proto : ℕ) (payload : Bytes) (len now : ℕ) (s : Net)
    → len ≤ 1400
    → IsSound s
    → Sending dst proto payload len now s (ip_tx dst proto payload len now s)
ip_tx_lem dst proto payload len now s fits sound = ip_tx_ways dst proto payload len now s sound
