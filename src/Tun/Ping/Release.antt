-- ===== src/Tun/Ping/Release.antt =====
-- `NewPingPacket` releases its lock on every path.
use lib_sager_net_core.Common.{
  ℕ, ◌≡◌, refl, Bool, Option, none, some, List, [], ◌∷◌, if◌then◌else◌, arith, ◌+◌,
}
use lib_sager_net_core.Tun.Relay.{Answers, Reading, send_to}
use lib_sager_net_core.Tun.Relay.Paths.{times, locks, unlocks, broadcasts, closers, deletes, stores}
use lib_sager_net_core.Tun.Ping.{relay_pings, new_ping_packet}

pub relay_pings_ends :
    (fails : List ℕ → Bool) (readings : List Reading)
    → (times closers (relay_pings fails readings) ≡ 1)
      × (times deletes (relay_pings fails readings) ≡ 1)
      × (times stores (relay_pings fails readings) ≡ 0)
unfolding relay_pings
relay_pings_ends fails [] = (refl, refl, refl)
relay_pings_ends fails (r ∷ rest) = ground (arith, relay_pings_ends fails rest)

-- On every path of `NewPingPacket`, also when no outbound is found, a stored lock is deleted with a
-- broadcast. A call that returns true leads to its closer being closed once, and one that returns
-- false leaves that to the caller; an entry stored in `udpTable` is deleted when the responses end.
pub new_ping_packet_lock :
    {H : Type 0} (a : Answers) (handler : Option H)
    → let (es, later, taken) = new_ping_packet a handler in
      (times locks es ≡ times unlocks es)
      × (times locks es ≡ times broadcasts es)
      × (times closers es + times closers later ≡ (if taken then 1 else 0))
      × (times stores es ≡ times deletes later)
unfolding new_ping_packet send_to
new_ping_packet_lock a none = ground arith
new_ping_packet_lock a (some h) = ground (arith, relay_pings_ends a.back_fails a.readings)
