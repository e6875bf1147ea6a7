-- ===== src/Stats/Traffic.antt =====
-- The traffic that a listener is told is the traffic that was counted.
use lib_sager_net_core.Common.{ℕ, ◌≡◌, List, [], ◌∷◌, arith, ◌+◌, true, false, Bool}
use lib_sager_net_core.Stats.{
  AppStats, read_stat, word64, conn_read, packet_write, conn_write, packet_read, counter_add,
}

-- What happens to the counters of an app: its TCP connections read and write, its packet connections
-- send and receive (or fail to), and a listener asks.
pub data Event : Type 0 where
  tcp_reads tcp_writes : ℕ → Event
  udp_sends udp_receives : (length : ℕ) (failed : Bool) → Event
  listener_asks : Event

-- The counters after an event, and the uplink and downlink told to the listener by it.
pub event : ℕ → Event → AppStats → AppStats × ℕ × ℕ
event uid (tcp_reads n) s = (conn_read n s, 0, 0)
event uid (tcp_writes n) s = (conn_write n s, 0, 0)
event uid (udp_sends n failed) s = (packet_write n failed s, 0, 0)
event uid (udp_receives n failed) s = (packet_read n failed s, 0, 0)
event uid listener_asks s = let (e, s') = read_stat uid s in (s', e.uplink, e.downlink)

-- The sum of what the listener was told, over a series of events.
pub told : ℕ → List Event → AppStats → AppStats × ℕ × ℕ
told uid [] s = (s, 0, 0)
told uid (e ∷ es) s =
    let (s', up, down) = event uid e s in
    let (t, ups, downs) = told uid es s' in (t, up + ups, down + downs)

-- The bytes that went up and down, whatever the counters hold.
abbrev pub sent : List Event → ℕ
sent [] = 0
sent (tcp_reads n ∷ es) = n + sent es
sent (udp_sends n false ∷ es) = n + sent es
sent (_ ∷ es) = sent es

abbrev pub received : List Event → ℕ
received [] = 0
received (tcp_writes n ∷ es) = n + received es
received (udp_receives n false ∷ es) = n + received es
received (_ ∷ es) = received es

pub told_from :
    (uid : ℕ) (es : List Event) (s : AppStats)
    → let r = told uid es s in
      (word64 (r.1 + r.0.uplink) ≡ word64 (s.uplink + sent es))
      × (word64 (r.2 + r.0.downlink) ≡ word64 (s.downlink + received es))
      × (word64 r.0.uplink_total ≡ word64 (s.uplink_total + r.1))
      × (word64 r.0.downlink_total ≡ word64 (s.downlink_total + r.2))
unfolding told event conn_read conn_write packet_read packet_write read_stat counter_add
told_from uid [] s = omega arith
told_from uid (tcp_reads n ∷ es) s = omega (arith, told_from uid es (event uid (tcp_reads n) s).0)
told_from uid (tcp_writes n ∷ es) s = omega (arith, told_from uid es (event uid (tcp_writes n) s).0)
told_from uid (udp_sends n true ∷ es) s =
    omega (arith, told_from uid es (event uid (udp_sends n true) s).0)
told_from uid (udp_sends n false ∷ es) s =
    omega (arith, told_from uid es (event uid (udp_sends n false) s).0)
told_from uid (udp_receives n true ∷ es) s =
    omega (arith, told_from uid es (event uid (udp_receives n true) s).0)
told_from uid (udp_receives n false ∷ es) s =
    omega (arith, told_from uid es (event uid (udp_receives n false) s).0)
told_from uid (listener_asks ∷ es) s =
    omega (arith, told_from uid es (event uid (listener_asks) s).0)
