-- ===== src/Nat/Udp.antt =====
-- nat/udp.go: a UDP datagram from the tun, and the datagrams that are written back for it. The header cache
-- holds a copy of both headers, and each reply changes a copy of that, so a reply is a function of the flow.
-- The accessors of the UDP header are parameters.
pub mod Replies
mod Tests
use lib_sager_net_core.Common.{
  ℕ, ◌+◌, ◌-◌, ◌%◌, ◌^◌, ◌≤◌, ◌≡◌, Bool, true, false, Option, none, some, List, if◌then◌else◌,
  length,
}
use lib_sager_net_core.Nat.Packet.{complement16}
use lib_sager_net_core.Icmp.{Bytes, IpFields, IpHeaders, Checksums, refreshed}

pub record UdpFields : Type 0 where
  pub source_port : ℕ
  pub destination_port : ℕ
  pub udp_length : ℕ

-- `header.UDP`, `header.Checksum` and `header.PseudoHeaderChecksum` for UDP.
pub record UdpHeaders : Type 1 where
  pub Udp : Type 0
  pub udp_fields : Udp → UdpFields
  pub set_source_port : ℕ → Udp → Udp
  pub set_destination_port : ℕ → Udp → Udp
  pub set_udp_length : ℕ → Udp → Udp
  pub udp_checksum : Udp → ℕ
  pub set_udp_checksum : ℕ → Udp → Udp
  pub calculate_udp : ℕ → Udp → ℕ
  pub data_checksum : Bytes → ℕ → ℕ
  pub pseudo_header_checksum : (source destination : Bytes) → ℕ → ℕ
  pub fields-set_source_port :
      (p : ℕ) (u : Udp)
      → udp_fields (set_source_port p u) ≡ record (udp_fields u) { source_port = p }
  pub fields-set_destination_port :
      (p : ℕ) (u : Udp)
      → udp_fields (set_destination_port p u) ≡ record (udp_fields u) { destination_port = p }
  pub fields-set_udp_length :
      (n : ℕ) (u : Udp) → udp_fields (set_udp_length n u) ≡ record (udp_fields u) { udp_length = n }
  pub fields-set_udp_checksum : (c : ℕ) (u : Udp) → udp_fields (set_udp_checksum c u) ≡ udp_fields u
  pub udp_checksum-set_udp_checksum :
      (c : ℕ) (u : Udp) → c ≤ 0xffff → udp_checksum (set_udp_checksum c u) ≡ c
  pub calculate-complement :
      (x : ℕ) (u : Udp)
      → let q = set_udp_checksum 0 u in
        calculate_udp x (set_udp_checksum (complement16 (calculate_udp x q)) q) ≡ 0xffff

-- An address with a port.
pub record Peer : Type 0 where
  pub address : Bytes
  pub port : ℕ

-- What `NewPacket` is given: the two ends, the content, and the headers that the replies are made of.
pub record Flow (Header Udp : Type 0) : Type 0 where
  pub source : Peer
  pub destination : Peer
  pub content : Bytes
  pub ip_template : Header
  pub udp_template : Udp

module _ (ip : IpHeaders) (udp : UdpHeaders) where
  open ip use {Header, fields, header_bytes, set_source, set_destination, set_length}
  open udp use {
    Udp, udp_fields, set_source_port, set_destination_port, set_udp_length, set_udp_checksum,
    calculate_udp, data_checksum, pseudo_header_checksum,
  }

  -- The first part of `processIPv4UDP` and of `processIPv6UDP`.
  unfoldable pub process_udp : Header → Udp → (content : Bytes) → Flow Header Udp
  process_udp h u content = record {
    source = record { address = (fields h).source; port = (udp_fields u).source_port };
    destination = record {
      address = (fields h).destination;
      port = (udp_fields u).destination_port;
    };
    content = content;
    ip_template = set_destination (fields h).source h;
    udp_template = set_destination_port (udp_fields u).source_port u;
  }

  -- From whom a reply is said to be: the address that is given, or the destination.
  unfoldable pub reply_source : Flow Header Udp → Option Peer → Peer
  reply_source flow none = flow.destination
  reply_source flow (some peer) = record { address = peer.address; port = peer.port % 2 ^ 16 }

  -- `uint16(header.UDPMinimumSize + len(bytes))`
  abbrev pub udp_size : Bytes → ℕ
  udp_size bytes = (8 + length bytes) % 2 ^ 16

  -- What the pseudo header and the bytes of a datagram add to the sum of its UDP header.
  abbrev pub partial_sum : (source destination : Bytes) → Bytes → ℕ
  partial_sum s d bytes = data_checksum bytes (pseudo_header_checksum s d (udp_size bytes))

  -- The UDP header of a reply from `from`.
  unfoldable pub reply_header : Flow Header Udp → (from : Peer) → (bytes : Bytes) → Udp
  reply_header flow from bytes =
      let u =
        set_udp_checksum 0
          (set_udp_length (udp_size bytes) (set_source_port from.port flow.udp_template)) in
      set_udp_checksum
        (complement16 (calculate_udp (partial_sum from.address flow.source.address bytes) u)) u

  -- The reply of `processIPv6UDP`: the headers and bytes that are written, and the count, `none` on an error.
  unfoldable pub reply_udp6 :
      Flow Header Udp
      → (written : Bool) → Option Peer
      → (bytes : Bytes) → (Header × Udp × Bytes) × Option ℕ
  unfolding reply_source reply_header
  reply_udp6 flow written addr bytes =
      let from = reply_source flow addr in
      let h = set_length (8 + length bytes) (set_source from.address flow.ip_template) in
      ((h, reply_header flow from bytes, bytes), if written then some (length bytes) else none)

  -- The reply of `processIPv4UDP`.
  unfoldable pub reply_udp4 :
      (sums : Checksums ip)
      → Flow Header Udp
      → (written : Bool) → Option Peer
      → (bytes : Bytes) → (Header × Udp × Bytes) × Option ℕ
  unfolding reply_source reply_header refreshed
  reply_udp4 sums flow written addr bytes =
      let from = reply_source flow addr in
      let h = refreshed ip sums (
        set_length (length (header_bytes flow.ip_template) + 8 + length bytes)
          (set_source from.address flow.ip_template)) in
      ((h, reply_header flow from bytes, bytes), if written then some (length bytes) else none)
