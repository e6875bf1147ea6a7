-- ===== src/Nat/Address.antt =====
-- Addresses and destinations: `tcpip.Address` is a byte string, and `nat/nat.go` has the two
-- addresses of the virtual client.
use lib_sager_net_core.Common.{
  ℕ, Option, some, none, List, [], ◌∷◌, length, drop, ◌==◌, ◌&&◌, if◌then◌else◌, take, bytes_eq,
}

abbrev pub Address : Type 0
Address = List ℕ

-- `vlanClient4` and `vlanClient6` of nat/nat.go.
abbrev pub vlan_client4 : Address
vlan_client4 = 172 ∷ 19 ∷ 0 ∷ 1 ∷ []

abbrev pub vlan_client6 : Address
vlan_client6 =
    0xfd ∷ 0xfe ∷ 0xdc ∷ 0xba ∷ 0x98 ∷ 0x76 ∷ 0 ∷ 0 ∷ 0 ∷ 0 ∷ 0 ∷ 0 ∷ 0 ∷ 0 ∷ 0 ∷ 0x1 ∷ []

-- The prefix of an IPv4 address in 16 bytes, as Go's package `net` has it.
abbrev v4_in_v6_prefix : List ℕ
v4_in_v6_prefix = 0 ∷ 0 ∷ 0 ∷ 0 ∷ 0 ∷ 0 ∷ 0 ∷ 0 ∷ 0 ∷ 0 ∷ 0xff ∷ 0xff ∷ []

-- Go's `net.IP.To4`.
unfoldable pub to4 : Address → Option Address
to4 ip =
    if length ip == 4
    then some ip
    else if length ip == 16 && bytes_eq (take 12 ip) v4_in_v6_prefix
    then some (drop 12 ip)
    else none

-- `if ip4 := addr.IP.To4(); ip4 != nil { addr.IP = ip4 }`
unfoldable pub normalize_ip : Address → Address
unfolding to4
normalize_ip ip = elim (to4 ip) [ some ip4 ↦ ip4 | none ↦ ip ]

-- The two networks of the v2ray destinations that the tun makes.
pub data Network : Type 0 where
  network_tcp network_udp : Network

-- `v2rayNet.Destination`
pub record Destination : Type 0 where
  pub address : Address
  pub port : ℕ
  pub network : Network
