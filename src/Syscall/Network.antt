-- ===== src/Syscall/Network.antt =====
-- The calls on the network of src/user/syscall.c. `now` is the tick count.
use quantum_kernel.Prelude.{if◌then◌else◌, ℤ, pos, ℕ, Bool, true, Option, none, some, List}
use quantum_kernel.Net.Arp.{
  arp_init, arp_lookup, arp_add_entry, arp_request, arp_get_entry_by_index,
}
use quantum_kernel.Net.Ip.{icmp_ping, icmp_get_status, icmp_reset_status}
use quantum_kernel.Net.Queue.{ip_init}
use quantum_kernel.Syscall.{System}
use quantum_kernel.Syscall.Files.{Done, fails}

abbrev returns_zero : System → Done
returns_zero s = record { eax = pos 0; system = s }

-- SYS_NET_INIT
unfoldable pub sys_net_init : ℕ → ℕ → ℕ → System → Done
sys_net_init ip gateway netmask s = returns_zero (record s {
  net = arp_init ip (ip_init ip s.net);
  settings = record { ip = ip; gateway = gateway; netmask = netmask; initialized = true };
})

-- SYS_PING
unfoldable pub sys_ping : ℕ → ℕ → System → Done
sys_ping ip now s = returns_zero (record s { net = icmp_ping ip now s.net })

-- SYS_PING_STATUS
unfoldable pub sys_ping_status : System → Done
sys_ping_status s = record { eax = if icmp_get_status s.net then pos 1 else pos 0; system = s }

-- SYS_PING_RESET
unfoldable pub sys_ping_reset : System → Done
sys_ping_reset s = returns_zero (record s { net = icmp_reset_status s.net })

-- SYS_ARP_REQUEST
unfoldable pub sys_arp_request : ℕ → System → Done
sys_arp_request ip s = returns_zero (record s { net = arp_request ip s.net })

-- SYS_ARP_LOOKUP with an address to fill that is not NULL; the address stands beside the result.
unfoldable pub sys_arp_lookup : ℕ → System → Done × Option (List ℕ)
sys_arp_lookup ip s =
    let found = arp_lookup ip s.net in
    (record { eax = elim found [ none ↦ pos 0 | some _ ↦ pos 1 ]; system = s }, found)

-- SYS_ARP_ADD
unfoldable pub sys_arp_add : ℕ → Option (List ℕ) → ℕ → System → Done
sys_arp_add ip none now s = fails s
sys_arp_add ip (some mac) now s = returns_zero (record s { net = arp_add_entry ip mac now s.net })

-- SYS_ARP_GET_ENTRY with an entry to fill that is not NULL; the entry stands beside the result.
unfoldable pub sys_arp_get_entry : ℤ → System → Done × Option (ℕ × List ℕ × Bool)
sys_arp_get_entry index s = elim (arp_get_entry_by_index index s.net) [
  | none ↦ (fails s, none)
  | some e ↦ (record { eax = pos 0; system = s }, some e)
]

-- `net_status_t` without its fields that are always 0, and `link_up`, which is always 1.
pub record NetStatus : Type 0 where
  pub ip : ℕ
  pub gateway : ℕ
  pub netmask : ℕ
  pub mac : List ℕ

-- SYS_NET_STATUS with a status to fill that is not NULL.
unfoldable pub sys_net_status : System → Done × Option NetStatus
sys_net_status s =
    let status : NetStatus = record {
      ip = s.settings.ip;
      gateway = s.settings.gateway;
      netmask = s.settings.netmask;
      mac = s.net.local_mac;
    } in
    if s.settings.initialized then (returns_zero s, some status) else (fails s, none)
