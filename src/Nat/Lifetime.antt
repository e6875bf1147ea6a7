-- ===== src/Nat/Lifetime.antt =====
-- The session table of nat/tcp.go over its whole life: the packets of both families, the connections that the
-- listener accepts, the removals after a connection's end, and those for age, in any order. An event is one step:
-- of the cache it makes one call, or a `Get` that finds nothing and a `Set`, and a removal between the two finds
-- nothing either.
pub mod Flows
pub mod Refine
pub mod Answers
pub mod Keeping
mod Tests
use mathlib.Core.Option
use lib_sager_net_core.Common.{ℕ, Option, none, List, [], ◌∷◌}
use lib_sager_net_core.Nat.Address.{Address}
use lib_sager_net_core.Nat.Packet.{Endpoints, TcpPackets, HeaderChecksums}
use lib_sager_net_core.Nat.Sessions.{PeerKey, LruCache}
use lib_sager_net_core.Nat.Forward.{process_ipv4, process_ipv6}
use lib_sager_net_core.Nat.Accept.{Effect, accepted, dispatch, forget_session}

pub data Event (Packet : Type 0) : Type 0 where
  packet_ipv4 packet_ipv6 : Packet → Event Packet
  -- a connection, and its remote address and port
  accepts : ℕ → Address → ℕ → Event Packet
  -- the end of the goroutine of `dispatch`, and the end of an entry's age
  forgets expires : PeerKey → Event Packet

-- The endpoints of the packet that is written, or what the loop of the listener does.
pub data Output : Type 0 where
  written : Option Endpoints → Output
  told : List Effect → Output

module _ (lru : LruCache) (lib : TcpPackets) (checksums : HeaderChecksums lib) where
  open lru use {Cache, delete}
  open lib use {Packet, view}

  unfoldable pub handle : ℕ → Cache → Event Packet → Cache × Output
  handle port c (packet_ipv4 p) =
      let (c', out) = process_ipv4 lru lib checksums port c p in (c', written (Option.map view out))
  handle port c (packet_ipv6 p) =
      let (c', out) = process_ipv6 lru lib port c p in (c', written (Option.map view out))
  handle port c (accepts conn ip remote) =
      let (c', effects, _) = dispatch lru c (accepted conn ip remote) in (c', told effects)
  handle port c (forgets k) = (forget_session lru k c, told [])
  handle port c (expires k) = (delete k c, told [])

  unfoldable pub run : ℕ → Cache → List (Event Packet) → Cache × List Output
  unfolding handle
  run port c [] = (c, [])
  run port c (e ∷ es) =
      let (c', o) = handle port c e in let (c'', os) = run port c' es in (c'', o ∷ os)
