-- ===== src/Net/Trace.antt =====
-- Sequences of calls into the network code, from its initialisation on.
use mathlib.Core.Path.{subst}
use quantum_kernel.Net.Waiting.{count_waiting}
use quantum_kernel.Net.Queue.{ip_init, blank_packet}
use quantum_kernel.Prelude.{
  ltb, u16, ◌≤◌, Bool-cases, replicate, ℕ, zero, suc, ◌+◌, ◌-◌, refl, sym, ◌≢◌, inl, inr, true,
  false, ◌&&◌, List, [], ◌∷◌, arith, ◌==◌,
}
use quantum_kernel.Net.State.{ArpEntry, Net, eth_tx, eth_init, bswap16, eth_type_arp, eth_type_ip}
use quantum_kernel.Net.Arp.{arp_request, arp_rx, arp_reply, arp_init, blank_entry}
use quantum_kernel.Net.Ip.{ip_tx, icmp_ping, icmp_rx, icmp_reset_status}
use quantum_kernel.Net.Receive.{eth_rx, ip_rx}
use quantum_kernel.Net.Consistent.{AllUnknown, IsSound, arp_add_entry-IsSound}
use quantum_kernel.Net.Sends.{ip_tx_ways, queued-IsSound, at_once, dropped, later}
use quantum_kernel.Bytes.{Bytes, read32, from, read16, load_list}

-- A call: a packet to send, a ping, a frame that came in, or a program's reset of the ping.
pub data Event : Type 0 where
  send : (dst proto : ℕ) (payload : Bytes) (len now : ℕ) → Event
  ping : (ip now : ℕ) → Event
  receive : (frame : Bytes) (len now : ℕ) → Event
  reset_ping : Event

unfoldable pub step : Event → Net → Net
step (send dst proto payload len now) s = let (_, s') = ip_tx dst proto payload len now s in s'
step (ping ip now) s = icmp_ping ip now s
step (receive frame len now) s = eth_rx frame len now s
step reset_ping s = icmp_reset_status s

-- A packet that fits into the `payload` of a slot; a longer one overwrites the slots behind it.
abbrev pub Fits : Event → Type 0
Fits (send dst proto payload len now) = len ≤ 1400
Fits (ping ip now) = Unit
Fits (receive frame len now) = Unit
Fits reset_ping = Unit

abbrev pub AllFit : List Event → Type 0
AllFit [] = Unit
AllFit (e ∷ es) = Fits e × AllFit es

unfoldable pub run : List Event → Net → Net
run [] s = s
run (e ∷ es) s = run es (step e s)

-- The static variables before the first call.
abbrev pub blank_net : Net
blank_net = record {
  local_mac = replicate 6 0;
  arp_ip = 0;
  arp_table = replicate 16 blank_entry;
  ip_ip = 0;
  arp_queue = replicate 8 blank_packet;
  arp_pending = 0;
  ping_id = 1;
  ping_seq = 0;
  ping_waiting = false;
  ping_sent_time = 0;
  sent = [];
}

-- The initialisation with a hardware and an IP address.
unfoldable pub start : List ℕ → ℕ → Net
start mac ip = ip_init ip (arp_init ip (eth_init mac blank_net))

false_ne_true : false ≢ true
false_ne_true h = ground (arith, h)

AllUnknown-blank : (t : List ArpEntry) (n : ℕ) → AllUnknown t (replicate n blank_packet)
unfolding AllUnknown
AllUnknown-blank t zero = tt
AllUnknown-blank t (suc n) = ((λ v. absurd (false_ne_true v)), AllUnknown-blank t n)

pub start-IsSound : (mac : List ℕ) (ip : ℕ) → IsSound (start mac ip)
unfolding start ip_init arp_init eth_init count_waiting AllUnknown
start-IsSound mac ip = record {
  table_size = refl;
  queue_size = refl;
  counted = refl;
  unresolved = AllUnknown-blank (replicate 16 blank_entry) 8;
}

ip_tx-IsSound :
    (dst proto : ℕ) (payload : Bytes) (len now : ℕ) (s : Net)
    → IsSound s
    → IsSound (ip_tx dst proto payload len now s).1
unfolding arp_request eth_tx
ip_tx-IsSound dst proto payload len now s sound =
    elim (ip_tx_ways dst proto payload len now s sound) [
      | at_once mac known e _ ↦ subst (λ r. IsSound r.1) (sym e) sound
      | dropped unknown all e ↦ subst (λ r. IsSound r.1) (sym e) sound
      | later slot unknown inside empty e _ ↦
          subst (λ r. IsSound r.1) (sym e)
            (queued-IsSound dst proto payload len now slot s sound unknown inside empty)
    ]

arp_reply-IsSound : (pkt : Bytes) (s : Net) → IsSound s → IsSound (arp_reply pkt s)
unfolding arp_reply eth_tx
arp_reply-IsSound pkt s sound = elim (Bool-cases (read32 pkt 24 == s.arp_ip)) [
  | inl ours ↦ rw ours sound
  | inr theirs ↦ rw theirs sound
]

arp_rx-IsSound : (pkt : Bytes) (now : ℕ) (s : Net) → IsSound s → IsSound (arp_rx pkt now s)
unfolding arp_rx
arp_rx-IsSound pkt now s sound =
    let sha = load_list 6 pkt 8 in
    let spa = read32 pkt 14 in
    elim (Bool-cases (bswap16 (read16 pkt 6) == 1)) [
      | inl asks ↦
          rw asks
            (arp_add_entry-IsSound spa sha now (arp_reply pkt s) (arp_reply-IsSound pkt s sound))
      | inr other ↦ elim (Bool-cases (bswap16 (read16 pkt 6) == 2)) [
        | inl answers ↦ rw (other, answers) (arp_add_entry-IsSound spa sha now s sound)
        | inr neither ↦ rw (other, neither) sound
      ]
    ]

icmp_rx-IsSound : (pkt : Bytes) (len : ℕ) (s : Net) → IsSound s → IsSound (icmp_rx pkt len s)
unfolding icmp_rx
icmp_rx-IsSound pkt len s sound = elim (Bool-cases (ltb len 8)) [
  | inl short ↦ rw short sound
  | inr long ↦ elim (Bool-cases ((pkt 0 == 0) && s.ping_waiting)) [
    | inl echo ↦ rw (long, echo) sound
    | inr quiet ↦ rw (long, quiet) sound
  ]
]

ip_rx-IsSound : (pkt : Bytes) (len : ℕ) (s : Net) → IsSound s → IsSound (ip_rx pkt len s)
unfolding ip_rx
ip_rx-IsSound pkt len s sound = elim (Bool-cases (ltb len 20)) [
  | inl short ↦ rw short sound
  | inr long ↦ elim (Bool-cases (pkt 9 == 1)) [
    | inl icmp ↦ rw (long, icmp) (icmp_rx-IsSound (from pkt 20) (u16 (len - 20)) s sound)
    | inr quiet ↦ rw (long, quiet) sound
  ]
]

eth_rx-IsSound :
    (frame : Bytes) (len now : ℕ) (s : Net) → IsSound s → IsSound (eth_rx frame len now s)
unfolding eth_rx
eth_rx-IsSound frame len now s sound =
    let type : ℕ = bswap16 (read16 frame 12) in
    elim (Bool-cases (type == eth_type_arp)) [
      | inl arp ↦ rw arp (arp_rx-IsSound (from frame 14) now s sound)
      | inr other ↦ elim (Bool-cases (type == eth_type_ip)) [
        | inl ip ↦ rw (other, ip) (ip_rx-IsSound (from frame 14) (u16 (len + (65536 - 14))) s sound)
        | inr neither ↦ rw (other, neither) sound
      ]
    ]

step-IsSound : (e : Event) (s : Net) → IsSound s → IsSound (step e s)
unfolding step icmp_ping icmp_reset_status
step-IsSound (send dst proto payload len now) s sound =
    ip_tx-IsSound dst proto payload len now s sound
step-IsSound (ping ip now) s sound = ip_tx-IsSound ip 1 _ 8 now _ sound
step-IsSound (receive frame len now) s sound = eth_rx-IsSound frame len now s sound
step-IsSound reset_ping s sound = sound

run-IsSound : (es : List Event) (s : Net) → IsSound s → IsSound (run es s)
unfolding run
run-IsSound [] s sound = sound
run-IsSound (e ∷ es) s sound = run-IsSound es (step e s) (step-IsSound e s sound)

-- After one initialisation and any sequence of packets of at most 1400 bytes sent, pings, resets and
-- frames received, of any content, without another `ip_init` (SYS_NET_INIT) in between: the table has 16 entries and the queue 8 slots, `arp_pending` is the number of
-- packets that wait, and a packet waits only while its destination is not in the table.
pub run-start-IsSound :
    (mac : List ℕ) (ip : ℕ) (es : List Event) → AllFit es → IsSound (run es (start mac ip))
run-start-IsSound mac ip es fit = run-IsSound es (start mac ip) (start-IsSound mac ip)
