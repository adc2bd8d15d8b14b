-- ===== src/Net/Arp.antt =====
-- src/drivers/net/arp.c, but for the table's loops, which are in `Net.Table`.
use quantum_kernel.Net.Queue.{ip_process_arp_queue}
use quantum_kernel.Net.Table.{lookup, add_entry}
use quantum_kernel.Net.State.{ArpEntry, Net, arp_table_size, eth_tx, bswap16, eth_type_arp}
use quantum_kernel.Bytes.{
  Bytes, write16, read32, zeros, read16, write8, store_list, write32, load_list,
}
use quantum_kernel.Prelude.{
  leb, if◌then◌else◌, get_or, replicate, ℤ, pos, negsuc, ℕ, Bool, false, Option, none, some, List,
  ◌==◌,
}

abbrev pub blank_entry : ArpEntry
blank_entry = record { ip = 0; mac = replicate 6 0; timestamp = 0; valid = false }

unfoldable pub arp_init : ℕ → Net → Net
arp_init ip s = record s { arp_ip = ip; arp_table = replicate arp_table_size blank_entry }

unfoldable pub arp_lookup : ℕ → Net → Option (List ℕ)
arp_lookup ip s = lookup ip s.arp_table

-- `now` is `get_tick_count()`.
unfoldable pub arp_add_entry : ℕ → List ℕ → ℕ → Net → Net
arp_add_entry ip mac now s =
    let (table, resolved) = add_entry ip mac now s.arp_table in
    let s' : Net = record s { arp_table = table } in
    if resolved then ip_process_arp_queue ip s' else s'

-- The `arp_pkt_t` of `arp_request` and of the reply in `arp_rx`, with its operation and its target.
unfoldable pub arp_packet : ℕ → List ℕ → ℕ → Net → Bytes
arp_packet oper tha tpa s =
    let htype = write16 zeros 0 (bswap16 1) in
    let ptype = write16 htype 2 (bswap16 0x0800) in
    let hlen = write8 ptype 4 6 in
    let plen = write8 hlen 5 4 in
    let operation = write16 plen 6 (bswap16 oper) in
    let sender = store_list operation 8 s.local_mac in
    let sender_ip = write32 sender 14 s.arp_ip in
    let target = store_list sender_ip 18 tha in write32 target 24 tpa

abbrev pub arp_packet_size : ℕ
arp_packet_size = 28

unfoldable pub arp_request : ℕ → Net → Net
arp_request ip s =
    let pkt = arp_packet 1 (replicate 6 0) ip s in
    eth_tx (replicate 6 255) eth_type_arp pkt arp_packet_size s

-- The reply to a request for the own address.
unfoldable pub arp_reply : Bytes → Net → Net
arp_reply pkt s =
    let sha = load_list 6 pkt 8 in
    let reply = arp_packet 2 sha (read32 pkt 14) s in
    if read32 pkt 24 == s.arp_ip then eth_tx sha eth_type_arp reply arp_packet_size s else s

unfoldable pub arp_rx : Bytes → ℕ → Net → Net
arp_rx pkt now s =
    let oper = bswap16 (read16 pkt 6) in
    let sha = load_list 6 pkt 8 in
    let spa = read32 pkt 14 in
    if oper == 1
    then arp_add_entry spa sha now (arp_reply pkt s)
    else if oper == 2
    then arp_add_entry spa sha now s
    else s

-- `arp_get_entry_by_index`, whose `index` is an `int`; -1 is `none`.
unfoldable pub arp_get_entry_by_index : ℤ → Net → Option (ℕ × List ℕ × Bool)
arp_get_entry_by_index (negsuc _) s = none
arp_get_entry_by_index (pos index) s =
    let e = get_or s.arp_table index blank_entry in
    if leb arp_table_size index then none else some (e.ip, e.mac, e.valid)
