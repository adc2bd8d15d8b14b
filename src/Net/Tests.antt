-- ===== src/Net/Tests.antt =====
-- The network code on a first ping: the checksum of its packet, the ARP table, the queue and the reply.
use quantum_kernel.Net.Resolve.{Answered, arp_rx-ip_tx}
use quantum_kernel.Net.Header.{header_lem}
use quantum_kernel.Net.Arp.{arp_init}
use quantum_kernel.Net.Ip.{ip_tx}
use quantum_kernel.Net.Queue.{header, ip_init}
use quantum_kernel.Net.Table.{
  lookup, add_entry, update_entry, fill_free, is_for, oldest, oldest_from,
}
use quantum_kernel.Net.Table.Put.{IsAdded, add_entry_lem}
use quantum_kernel.Net.Trace.{
  start, run, ping, receive, start-IsSound, reset_ping, run-start-IsSound, send,
}
use quantum_kernel.Net.Sends.{Sending, ip_tx_lem}
use quantum_kernel.Net.Consistent.{IsSound}
use quantum_kernel.Net.State.{Net, ArpEntry, bswap16, eth_init}
use quantum_kernel.Net.Checksum.{total, checksum-write16}
use quantum_kernel.Net.{checksum, fold, sum_words}
use quantum_kernel.Bytes.{Bytes, store_list, read16, zeros, write16, read32}
use quantum_kernel.Prelude.{ℕ, ◌^◌, ◌<◌, ◌≡◌, refl, some, [], ◌∷◌, arith, List, true, none}

-- 28 bytes of ICMP from 10.0.2.15 to 10.0.2.2, before the checksum is stored.
abbrev plain_header : Bytes
plain_header =
    store_list zeros 0
      (0x45 ∷ 0 ∷ 0 ∷ 28 ∷ 0 ∷ 0 ∷ 0 ∷ 0 ∷ 64 ∷ 1 ∷ 0 ∷ 0 ∷ 10 ∷ 0 ∷ 2 ∷ 15 ∷ 10 ∷ 0 ∷ 2 ∷ 2 ∷ [])

plain_sum : checksum plain_header 20 ≡ some 0xd162
unfolding checksum fold sum_words read16 store_list
plain_sum = refl

checksum-write16_example :
    (c : ℕ) × (checksum plain_header 20 ≡ some c)
    × (c < 2 ^ 16)
    × (checksum (write16 plain_header 10 c) 20 ≡ some 0)
unfolding total read16 store_list
checksum-write16_example =
    checksum-write16 plain_header 20 5 (omega arith) refl (omega arith) (omega arith)

abbrev card_mac : List ℕ
card_mac = 0x52 ∷ 0x54 ∷ 0 ∷ 0x12 ∷ 0x34 ∷ 0x56 ∷ []

abbrev gateway_mac : List ℕ
gateway_mac = 0x52 ∷ 0x55 ∷ 10 ∷ 0 ∷ 2 ∷ 2 ∷ []

-- 10.0.2.15 and 10.0.2.2 as the code holds them.
abbrev own_ip : ℕ
own_ip = 0x0f02_000a

abbrev gateway : ℕ
gateway = 0x0202_000a

abbrev payload : Bytes
payload = store_list zeros 0 (8 ∷ 0 ∷ 0xf6 ∷ 0xff ∷ 1 ∷ 0 ∷ 1 ∷ 0 ∷ [])

-- The gateway's ARP reply.
abbrev reply : Bytes
reply = store_list zeros 0 (
    0 ∷ 1 ∷ 8 ∷ 0 ∷ 6 ∷ 4 ∷ 0 ∷ 2 ∷ 0x52 ∷ 0x55 ∷ 10 ∷ 0 ∷ 2 ∷ 2 ∷ 10 ∷ 0 ∷ 2 ∷ 2 ∷ 0x52 ∷ 0x54 ∷ 0
    ∷ 0x12 ∷ 0x34 ∷ 0x56 ∷ 10 ∷ 0 ∷ 2 ∷ 15 ∷ [])

abbrev started : Net
started = start card_mac own_ip

run-start-IsSound_example : IsSound (
    run
      (ping gateway 5 ∷ send gateway 1 payload 8 6 ∷ receive reply 42 9 ∷ reset_ping ∷ [])
      started)
run-start-IsSound_example =
    run-start-IsSound card_mac own_ip
      (ping gateway 5 ∷ send gateway 1 payload 8 6 ∷ receive reply 42 9 ∷ reset_ping ∷ [])
      (tt, (omega arith, (tt, (tt, tt))))

ip_tx_lem_example : Sending gateway 1 payload 8 5 started (ip_tx gateway 1 payload 8 5 started)
ip_tx_lem_example =
    ip_tx_lem gateway 1 payload 8 5 started (omega arith) (start-IsSound card_mac own_ip)

arp_rx-ip_tx_example :
    Answered gateway 1 payload 8 started reply 9 (ip_tx gateway 1 payload 8 5 started)
unfolding start ip_init arp_init eth_init lookup is_for read16 read32 store_list
arp_rx-ip_tx_example =
    arp_rx-ip_tx gateway 1 payload 8 5 started reply 9 (start-IsSound card_mac own_ip) refl
      (omega arith) refl refl

abbrev sample_table : List ArpEntry
sample_table =
    record { ip = own_ip; mac = card_mac; timestamp = 4; valid = true }
    ∷ record { ip = 7; mac = card_mac; timestamp = 2; valid = true }
    ∷ []

add_entry_lem_example :
    IsAdded gateway gateway_mac sample_table (add_entry gateway gateway_mac 9 sample_table)
add_entry_lem_example = add_entry_lem gateway gateway_mac 9 sample_table (omega arith)

-- A full table gives up its oldest entry.
evicted : lookup 7 (add_entry gateway gateway_mac 9 sample_table).0 ≡ none
unfolding lookup add_entry update_entry fill_free oldest oldest_from is_for
evicted = refl

header_lem_example :
    (checksum (header own_ip gateway 1 8) 20 ≡ some 0)
    × (read32 (header own_ip gateway 1 8) 12 ≡ own_ip)
    × (read32 (header own_ip gateway 1 8) 16 ≡ gateway)
    × (header own_ip gateway 1 8 9 ≡ 1)
    × (bswap16 (read16 (header own_ip gateway 1 8) 2) ≡ 28)
header_lem_example = header_lem own_ip gateway 1 8 (omega arith) (omega arith) (omega arith)
