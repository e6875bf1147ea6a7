-- ===== src/Nat/Device.antt =====
-- nat/nat.go: the loop that reads packets from the tun, and where each packet goes. The version and protocol of
-- a packet (`header.IPVersion`, `TransportProtocol`, `parse.IPv6`), what the ICMP handlers answer, and the
-- size of a new buffer (`buf.Size`), are parameters.
pub mod Buffers
pub mod Pings
mod Tests
use lib_sager_net_core.Common.{
  ℕ, suc, ◌+◌, ◌≤◌, Bool, true, false, Option, none, some, List, [], ◌∷◌, if◌then◌else◌, length,
  take, ◌==◌,
}

abbrev pub Bytes : Type 0
Bytes = List ℕ

-- The numbers of the protocols.
abbrev pub tcp : ℕ
tcp = 6

abbrev pub udp : ℕ
udp = 17

abbrev pub icmp4 : ℕ
icmp4 = 1

abbrev pub icmp6 : ℕ
icmp6 = 58

-- The handler that a packet goes to.
pub data Route : Type 0 where
  tcp_ipv4 tcp_ipv6 udp_ipv4 udp_ipv6 icmp_ipv4 icmp_ipv6 dropped : Route

-- One delivery: the buffer that the packet was read into, the packet, its route, and whether the buffer is
-- kept.
pub record Delivery : Type 0 where
  pub buffer : ℕ
  pub packet : Bytes
  pub route : Route
  pub kept : Bool

module _ (ip_version transport_protocol : Bytes → ℕ) (parse_ipv6 : Bytes → Option ℕ)
    (process_icmpv4 process_icmpv6 : Bytes → Bool) where
  -- `deliverPacket`: where the packet goes, and whether its buffer is kept there.
  unfoldable pub deliver_packet : Bytes → Route × Bool
  deliver_packet packet =
      let v = ip_version packet in
      let p = transport_protocol packet in
      if v == 4
      then (if p == tcp
          then (tcp_ipv4, false)
          else if p == udp
          then (udp_ipv4, true)
          else if p == icmp4
          then (icmp_ipv4, process_icmpv4 packet)
          else (dropped, false))
      else if v == 6
      then elim (parse_ipv6 packet) [
        | none ↦ (dropped, false)
        | some proto ↦
            if proto == tcp
            then (tcp_ipv6, false)
            else if proto == udp
            then (udp_ipv6, true)
            else if proto == icmp6
            then (icmp_ipv6, process_icmpv6 packet)
            else (dropped, false)
      ]
      else (dropped, false)

  -- `dispatchLoop`, over the packets that come to the device until the read fails: `buffer` is the number of
  -- the buffer that is read into, `size` its size. A packet that does not fit is cut off by the read.
  unfoldable pub read_packets : (buf_size buffer size : ℕ) → List Bytes → List Delivery
  unfolding deliver_packet
  read_packets buf_size buffer size [] = []
  read_packets buf_size buffer size (incoming ∷ rest) =
      let packet = take size incoming in
      let (route, kept) = deliver_packet packet in
      record { buffer = buffer; packet = packet; route = route; kept = kept }
      ∷ read_packets buf_size (if kept then suc buffer else buffer)
          (if kept then buf_size else size) rest

  -- From the first buffer, of the device's mtu.
  unfoldable pub dispatch_loop : (buf_size mtu : ℕ) → List Bytes → List Delivery
  unfolding read_packets
  dispatch_loop buf_size mtu packets = read_packets buf_size 0 mtu packets
