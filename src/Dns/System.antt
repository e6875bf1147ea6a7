-- ===== src/Dns/System.antt =====
-- dns.go: the names that the process itself looks up, through an instance or the system; and the transport of the
-- platform's resolver, as `localdns` sees it.
use lib_sager_net_core.Common.{
  ℕ, ◌≡◌, Bool, true, false, Option, none, some, List, [], ◌∷◌, if◌then◌else◌, arith,
}
use lib_sager_net_core.Common.Text.{codes}
use lib_sager_net_core.Nat.Address.{Destination, network_udp}
use lib_sager_net_core.Instance.Life.{Instance, close, closed, dial_context}
use lib_sager_net_core.Instance.Dialling.{
  Link, DispatchAnswer, linked, Connected, connection, not_started, connect,
}

abbrev pub Bytes : Type 0
Bytes = List ℕ

-- `dnsAddress`, and where every query goes
abbrev pub dns_destination : Destination
dns_destination = record { address = 1 ∷ 0 ∷ 0 ∷ 1 ∷ []; port = 53; network = network_udp }

-- `net.DefaultResolver`: `PreferGo`, and the instance that `Dial` uses.
pub record NetResolver : Type 0 where
  pub prefer_go : Bool
  pub dials : Option Instance

-- `SetCurrentDomainNameSystemQueryInstance`; `none` is nil.
unfoldable pub set_current : Option Instance → NetResolver
set_current none = record { prefer_go = false; dials = none }
set_current (some instance) = record { prefer_go = true; dials = some instance }

-- What `Dial` asks the instance for, and gives.
pub record Dial : Type 0 where
  pub inbound_tag : Bytes
  pub destination : Destination
  pub connected : Connected

-- `Dial`, for whichever network and address; a connection is wrapped into a `pinnedPacketConn`.
unfoldable pub dial_dns : Instance → DispatchAnswer → (network address : Bytes) → Dial
dial_dns s answer network address = record {
  inbound_tag = codes "dns-in";
  destination = dns_destination;
  connected = connect s answer network_udp;
}

-- `(*pinnedPacketConn).ReadFrom`: the count of a read, the address, which is that of the connection, and the error.
unfoldable pub read_from : {A : Type 0} → (remote : A) → ℕ → (fails : Bool) → ℕ × Option A × Bool
read_from remote n fails = if fails then (n, none, true) else (n, some remote, false)

-- `(*pinnedPacketConn).WriteTo`: what is written to the connection; the address is not looked at.
unfoldable pub write_to : {A : Type 0} → Bytes → (addr : A) → Bytes
write_to bytes addr = bytes

-- `dns.QueryStrategy`, and the network that `Lookup` asks the resolver for.
pub data QueryStrategy : Type 0 where
  use_ip use_ip4 use_ip6 : QueryStrategy

unfoldable pub network_of : QueryStrategy → Bytes
network_of use_ip4 = codes "ip4"
network_of use_ip6 = codes "ip6"
network_of use_ip = codes "ip"

-- `dns.TransportType`
pub data TransportType : Type 0 where
  exchange_raw_transport lookup_transport : TransportType

-- `(*localTransport).Type`
unfoldable pub transport_type : (has_raw_support : Bool) → TransportType
transport_type has_raw = if has_raw then exchange_raw_transport else lookup_transport

-- `SetLocalhostResolver`: the resolver of the transport that is set, or nil.
unfoldable pub set_localhost_resolver : {R : Type 0} → Option R → Option R
set_localhost_resolver none = none
set_localhost_resolver (some local) = some local

-- A connection that a running instance gives for a query carries packets over the dispatcher's link, whichever
-- address the resolver of Go has asked for; and once the instance is closed, no query gets one.
pub dial_dns-close :
    (s : Instance) (link : Link) (n : ℕ) (network address : Bytes)
    → s.started ≡ true
    → s.dispatcher ≡ some n
    → (close none s).2 ≡ closed none
    → ((dial_dns s (linked link) network address).connected ≡ connection link true)
      × ((dial_dns (close none s).1 (linked link) network address).connected ≡ not_started)
unfolding dial_dns connect dial_context close
dial_dns-close s link n network address started has ok = ground (arith, started, has, ok)
