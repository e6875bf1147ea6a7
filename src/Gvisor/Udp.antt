-- ===== src/Gvisor/Udp.antt =====
-- gvisor/udp.go: the UDP packets that the gVisor stack hands over, and the segments that are sent back; and the
-- protocols of the stack (gvisor/gvisor.go). Routes and the parsing of addresses are the stack's, and what they
-- answer is an argument.
use lib_sager_net_core.Common.{
  ℕ, ◌+◌, ◌%◌, ◌^◌, ◌≤◌, ◌<◌, ◌≡◌, refl, Bool, not, ◌&&◌, Option, none, some, List, [], ◌∷◌,
  if◌then◌else◌, length, ltb, ◌==◌, arith,
}
use lib_sager_net_core.Dns.{ipv6_disable, ipv6_only}
use lib_sager_net_core.Nat.Udp.{Peer}

abbrev pub Bytes : Type 0
Bytes = List ℕ

-- `header.UDPMinimumSize` and `header.UDPMaximumPacketSize`
abbrev pub udp_minimum_size : ℕ
udp_minimum_size = 8

abbrev pub udp_maximum_size : ℕ
udp_maximum_size = 0xffff

-- The handler of `gUdpHandler`, of the length field and the data: a packet for the handler of the tun, or
-- nothing. `parses` tells for which ends `ParseDestination` succeeds.
unfoldable pub handle_udp :
    (parses : Peer → Bool)
    → (udp_length : ℕ) → (source destination : Peer) → (content : Bytes)
    → Option (Peer × Peer × Bytes)
handle_udp parses udp_length source destination content =
    if ltb (length content + udp_minimum_size) udp_length
    then none
    else if not (parses source)
    then none
    else if not (parses destination)
    then none
    else some (source, destination, content)

-- A segment that is sent.
pub record Segment : Type 0 where
  pub local_address : Bytes
  pub source_port : ℕ
  pub destination_port : ℕ
  pub udp_length : ℕ
  pub has_checksum : Bool
  pub content : Bytes

-- A route that was found: whether it wants checksums, and is one of IPv6.
pub record Route : Type 0 where
  pub requires_checksum : Bool
  pub is_ipv6 : Bool

pub data WriteResult : Type 0 where
  message_too_long no_route send_failed : WriteResult
  written : ℕ → WriteResult

-- `gSendUDP`: the segment.
unfoldable pub send_udp :
    Route → (local_address content : Bytes) → (local_port remote_port : ℕ) → Segment
send_udp route local_address content local_port remote_port = record {
  local_address = local_address;
  source_port = local_port;
  destination_port = remote_port;
  udp_length = (udp_minimum_size + length content) % 2 ^ 16;
  has_checksum = route.requires_checksum && route.is_ipv6;
  content = content;
}

-- The write that is given to `NewPacket`, with `WriteBack`: `source` and `destination` are those of the packet,
-- `find_route` what the stack answers for the local address.
unfoldable pub write_back :
    (source destination : Peer)
    → (find_route : Bytes → Option Route) → (sent : Bool) → Option Peer
    → Bytes
    → Option Segment × WriteResult
unfolding send_udp
write_back source destination find_route sent addr bytes =
    let from : Peer = elim addr [ none ↦ destination | some a ↦ a ] in
    if ltb udp_maximum_size (length bytes)
    then (none, message_too_long)
    else elim (find_route from.address) [
      | none ↦ (none, no_route)
      | some route ↦
          let segment = send_udp route from.address bytes (from.port % 2 ^ 16) source.port in
          (some segment, if sent then written (length bytes) else send_failed)
    ]

-- The address that answers.
abbrev pub answering : (destination : Peer) → Option Peer → Peer
answering destination none = destination
answering destination (some a) = a

-- A write-back of at most 65527 bytes over a route that is found is sent to the port that asked, from the
-- address and port that are given or else from the packet's destination, with the right length; its result is
-- the count where the sending succeeds. For 65528 to 65535 bytes, which are let through too, the length field of
-- the segment is less than 8.
pub write_back-length :
    (source destination : Peer) (find_route : Bytes → Option Route) (sent : Bool)
    (addr : Option Peer) (bytes : Bytes) (route : Route)
    → find_route (answering destination addr).address ≡ some route
    → length bytes ≤ 0xffff
    → (segment : Segment) × (write_back source destination find_route sent addr bytes
        ≡ (some segment, (if sent then written (length bytes) else send_failed)))
      × (segment.local_address ≡ (answering destination addr).address)
      × (segment.source_port ≡ (answering destination addr).port % 2 ^ 16)
      × (segment.destination_port ≡ source.port)
      × (segment.content ≡ bytes)
      × (length bytes ≤ 65527 → segment.udp_length ≡ 8 + length bytes)
      × (65527 < length bytes → segment.udp_length < 8)
unfolding write_back send_udp
write_back-length source destination find_route sent none bytes route e h = (
  send_udp route destination.address bytes (destination.port % 2 ^ 16) source.port,
  ground (arith, e),
  refl,
  refl,
  refl,
  refl,
  λ small. omega arith,
  λ large. omega arith,
)
write_back-length source destination find_route sent (some a) bytes route e h = (
  send_udp route a.address bytes (a.port % 2 ^ 16) source.port,
  ground (arith, e),
  refl,
  refl,
  refl,
  refl,
  λ small. omega arith,
  λ large. omega arith,
)

-- The protocols of a stack.
pub data StackProtocol : Type 0 where
  net_ipv4 net_ipv6 transport_tcp transport_udp transport_icmp4 transport_icmp6 : StackProtocol

-- The options of `New`, by `ipv6Mode`: the network protocols and the transport protocols.
unfoldable pub stack_options : (ipv6_mode : ℕ) → List StackProtocol × List StackProtocol
stack_options mode =
    if mode == ipv6_disable
    then (net_ipv4 ∷ [], transport_tcp ∷ transport_udp ∷ transport_icmp4 ∷ [])
    else if mode == ipv6_only
    then (net_ipv6 ∷ [], transport_tcp ∷ transport_udp ∷ transport_icmp6 ∷ [])
    else (
      net_ipv4 ∷ net_ipv6 ∷ [],
      transport_tcp ∷ transport_udp ∷ transport_icmp4 ∷ transport_icmp6 ∷ [],
    )
