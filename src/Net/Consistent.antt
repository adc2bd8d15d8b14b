-- ===== src/Net/Consistent.antt =====
-- What holds between the ARP table, the queue of packets and their counter after any sequence of
-- calls of src/drivers/net/ip.c, icmp.c and ethernet.c.
use quantum_kernel.Prelude.{
  Bool-cases, length, ℕ, ◌≡◌, sym, ap, ◌∙◌, ◌≢◌, inl, inr, true, false, none, some, List, [], ◌∷◌,
  arith,
}
use quantum_kernel.Net.State.{QueuedPacket, ArpEntry, Net}
use quantum_kernel.Net.Table.{lookup, add_entry}
use quantum_kernel.Net.Table.Put.{add_entry_lem}
use quantum_kernel.Net.Queue.{waits_for, ip_process_arp_queue}
use quantum_kernel.Net.Waiting.{
  count_waiting, release, sent_all, count_release, length-release, ip_process_arp_queue_known,
}
use quantum_kernel.Net.Arp.{arp_add_entry}

-- The addresses of the packets that wait are all unknown.
unfoldable pub AllUnknown : List ArpEntry → List QueuedPacket → Type 0
AllUnknown t [] = Unit
AllUnknown t (q ∷ qs) = (q.valid ≡ true → lookup q.dst t ≡ none) × AllUnknown t qs

pub record IsConsistent (table : List ArpEntry) (queue : List QueuedPacket) (pending : ℕ)
    : Type 0 where
  pub table_size : length table ≡ 16
  pub queue_size : length queue ≡ 8
  pub counted : pending ≡ count_waiting queue
  pub unresolved : AllUnknown table queue

-- The invariant of the network's state.
abbrev pub IsSound : Net → Type 0
IsSound s = IsConsistent s.arp_table s.arp_queue s.arp_pending

false_ne_true : false ≢ true
false_ne_true h = ground (arith, h)

stays_other : (ip : ℕ) (q : QueuedPacket) → waits_for ip q ≡ false → q.valid ≡ true → q.dst ≢ ip
unfolding waits_for
stays_other ip q h v same = ground (arith, h, v, same)

-- Packets for addresses other than the new one go on waiting, for unknown addresses.
AllUnknown-release :
    (ip : ℕ) (t u : List ArpEntry) (qs : List QueuedPacket)
    → ((other : ℕ) → other ≢ ip → lookup other t ≡ none → lookup other u ≡ none)
    → AllUnknown t qs
    → AllUnknown u (release ip qs)
unfolding AllUnknown release waits_for
AllUnknown-release ip t u [] h k = k
AllUnknown-release ip t u (q ∷ qs) h (k, ks) = elim (Bool-cases (waits_for ip q)) [
  | inl waits ↦ rw (waits) ((λ v. absurd (false_ne_true v)), AllUnknown-release ip t u qs h ks)
  | inr stays ↦
      rw (stays)
        ((λ v. h q.dst (stays_other ip q stays v) (k v)), AllUnknown-release ip t u qs h ks)
]

AllUnknown-kept :
    (ip : ℕ) (t u : List ArpEntry) (qs : List QueuedPacket)
    → ((other : ℕ) → other ≢ ip → lookup other t ≡ none → lookup other u ≡ none)
    → lookup ip t ≢ none
    → AllUnknown t qs
    → AllUnknown u qs
unfolding AllUnknown
AllUnknown-kept ip t u [] h known k = k
AllUnknown-kept ip t u (q ∷ qs) h known (k, ks) = (
  (λ v. h q.dst (λ same. known (ap (λ i. lookup i t) (sym same) ∙ k v)) (k v)),
  AllUnknown-kept ip t u qs h known ks,
)

resolved-IsSound :
    (ip : ℕ) (mac : List ℕ) (s : Net) (u : List ArpEntry)
    → IsSound s
    → length u ≡ length s.arp_table
    → lookup ip u ≡ some mac
    → ((other : ℕ) → other ≢ ip → lookup other s.arp_table ≡ none → lookup other u ≡ none)
    → IsSound (ip_process_arp_queue ip (record s { arp_table = u }))
unfolding sent_all
resolved-IsSound ip mac s u sound size known kept =
    let balance = count_release ip s.arp_queue in
    let counted' = sound.counted in
    let now =
      ip_process_arp_queue_known ip mac (record s { arp_table = u }) known sound.counted
        (omega (arith, sound.queue_size)) in
    rw now (record {
      table_size = size ∙ sound.table_size;
      queue_size = length-release ip s.arp_queue ∙ sound.queue_size;
      counted = omega (arith, balance, counted');
      unresolved = AllUnknown-release ip s.arp_table u s.arp_queue kept sound.unresolved;
    })

-- `arp_add_entry` of any address.
pub arp_add_entry-IsSound :
    (ip : ℕ) (mac : List ℕ) (now : ℕ) (s : Net) → IsSound s → IsSound (arp_add_entry ip mac now s)
unfolding arp_add_entry
arp_add_entry-IsSound ip mac now s sound =
    let added = add_entry_lem ip mac now s.arp_table (omega (arith, sound.table_size)) in
    elim (Bool-cases (add_entry ip mac now s.arp_table).1) [
      | inl resolved ↦ rw (resolved) (
          resolved-IsSound ip mac s (add_entry ip mac now s.arp_table).0 sound added.size added.put
            added.stays_unknown)
      | inr updated ↦ rw (updated) (record {
        table_size = added.size ∙ sound.table_size;
        queue_size = sound.queue_size;
        counted = sound.counted;
        unresolved =
            AllUnknown-kept ip s.arp_table (add_entry ip mac now s.arp_table).0 s.arp_queue
              added.stays_unknown (λ k. false_ne_true (sym updated ∙ added.told.1 k))
              sound.unresolved;
      })
    ]
