-- ===== src/Nat/Forward.antt =====
-- nat/tcp.go: `processIPv4` and `processIPv6`, which rewrite a packet and write it to the device. An
-- error of the write is dropped by the code, so the written packet is the result.
pub mod Checksums
pub mod Rewrite
pub mod Written
pub mod RoundTrip
mod Tests
use lib_sager_net_core.Common.{ℕ, Option, none, some, ◌==◌, if◌then◌else◌}
use mathlib.Core.Option
use lib_sager_net_core.Nat.Address.{Address, vlan_client4, vlan_client6}
use lib_sager_net_core.Nat.Packet.{Endpoints, complement16, TcpPackets, HeaderChecksums}
use lib_sager_net_core.Nat.Sessions.{PeerKey, PeerValue, LruCache}

-- The key of a packet from the client, `peerKey{destinationAddress, sourcePort}`, and of a packet of
-- the listener, `peerKey{destinationAddress, destinationPort}`.
abbrev pub client_key : Endpoints → PeerKey
client_key e = record { destination_address = e.destination_address; source_port = e.source_port }

abbrev pub reply_key : Endpoints → PeerKey
reply_key e = record {
  destination_address = e.destination_address;
  source_port = e.destination_port;
}

-- `&peerValue{sourceAddress, destinationPort}`
abbrev pub fresh_value : Endpoints → PeerValue
fresh_value e = record { source_address = e.source_address; destination_port = e.destination_port }

-- `t.sessions.Get(key)`, and the session that is stored when there is none.
module _ (lru : LruCache) where
  open lru use {Cache, find, touch, store}

  unfoldable pub open_session : PeerKey → PeerValue → Cache → Cache
  open_session key fresh c = elim (find key c) [ some _ ↦ touch key c | none ↦ store key fresh c ]

module _ (lru : LruCache) (lib : TcpPackets) where
  open lru use {Cache, find, touch}
  open lib use {
    Packet, view, set_source_address, set_destination_address, set_source_port,
    set_destination_port, set_tcp_checksum, tcp_length, payload_checksum, calculate_tcp,
    checksum_combine, pseudo_header_checksum,
  }

  -- The partial sum over the pseudo header and the payload.
  pub partial_sum : Packet → ℕ
  partial_sum p =
      checksum_combine
        (pseudo_header_checksum (view p).source_address (view p).destination_address (tcp_length p))
        (payload_checksum p)

  -- `tcpHdr.SetChecksum(0)` and the `SetChecksum` after it.
  pub refresh_tcp : Packet → Packet
  unfolding partial_sum
  refresh_tcp p =
      let q = set_tcp_checksum 0 p in
      set_tcp_checksum (complement16 (calculate_tcp (partial_sum q) q)) q

  -- The branch for a packet from the client: towards the listener, from the destination's address.
  pub to_listener : ℕ → Address → Packet → Packet
  to_listener port client p =
      set_destination_port port
        (set_destination_address client (set_source_address (view p).destination_address p))

  -- The branch for a packet of the listener: back to the client, as if from the destination.
  pub to_client : PeerValue → Packet → Packet
  to_client session p =
      set_destination_address session.source_address (
        set_source_port session.destination_port
          (set_source_address (view p).destination_address p))

  -- The packet before its checksums, with the table after; no packet for an unknown session.
  unfoldable pub rewrite : ℕ → Address → Cache → Packet → Cache × Option Packet
  rewrite port client c p =
      let e = view p in
      if e.source_port == port
      then elim (find (reply_key e) c) [
        | some session ↦ (touch (reply_key e) c, some (to_client session p))
        | none ↦ (touch (reply_key e) c, none)
      ]
      else (open_session lru (client_key e) (fresh_value e) c, some (to_listener port client p))

  -- `processIPv6`
  unfoldable pub process_ipv6 : ℕ → Cache → Packet → Cache × Option Packet
  process_ipv6 port c p =
      let (c', out) = rewrite port vlan_client6 c p in (c', Option.map refresh_tcp out)

  module _ (checksums : HeaderChecksums lib) where
    open checksums use {set_header_checksum, calculate_header}

    -- `ipHdr.SetChecksum(0)` and the `SetChecksum` after it.
    pub refresh_header : Packet → Packet
    refresh_header p =
        let q = set_header_checksum 0 p in set_header_checksum (complement16 (calculate_header q)) q

    -- `processIPv4`
    unfoldable pub process_ipv4 : ℕ → Cache → Packet → Cache × Option Packet
    process_ipv4 port c p =
        let (c', out) = rewrite port vlan_client4 c p in
        (c', Option.map (λ q. refresh_tcp (refresh_header q)) out)
