-- ===== src/Net/Receive.antt =====
-- What comes in: `eth_rx` of src/drivers/net/ethernet.c and `ip_rx` of src/drivers/net/ip.c.
use quantum_kernel.Net.Arp.{arp_rx}
use quantum_kernel.Net.Ip.{icmp_rx}
use quantum_kernel.Net.Queue.{header_size}
use quantum_kernel.Net.State.{Net, bswap16, eth_type_arp, eth_type_ip}
use quantum_kernel.Bytes.{Bytes, read16, from}
use quantum_kernel.Prelude.{ltb, if◌then◌else◌, u16, ℕ, ◌+◌, ◌-◌, ◌==◌}

unfoldable pub ip_rx : Bytes → ℕ → Net → Net
ip_rx pkt len s =
    if ltb len header_size
    then s
    else if pkt 9 == 1
    then icmp_rx (from pkt header_size) (u16 (len - header_size)) s
    else s

-- `len - sizeof(eth_hdr_t)` goes to a parameter of 16 bits.
unfoldable pub eth_rx : Bytes → ℕ → ℕ → Net → Net
eth_rx frame len now s =
    let type = bswap16 (read16 frame 12) in
    let pkt = from frame 14 in
    if type == eth_type_arp
    then arp_rx pkt now s
    else if type == eth_type_ip
    then ip_rx pkt (u16 (len + (65536 - 14))) s
    else s
