-- ===== src/Stats.antt =====
-- stats.go, and what tun.go does to the counters of an app when a connection begins and ends. Go's
-- fixed-width integers are words, their bit patterns as natural numbers: `int32` modulo 2 ^ 32 and
-- `int64`, `uint64` modulo 2 ^ 64. Conversions between types of one width keep the pattern.
pub mod Traffic
pub mod Active
mod Tests
use lib_sager_net_core.Common.{
  ℕ, suc, zero, Bool, true, false, Option, none, some, List, [], ◌∷◌, ◌++◌, ◌==◌, ◌+◌, ◌-◌, ◌%◌,
  ◌^◌, if◌then◌else◌, map,
}

abbrev pub word32 : ℕ → ℕ
word32 n = n % 2 ^ 32

abbrev pub word64 : ℕ → ℕ
word64 n = n % 2 ^ 64

-- `appStats`; the connections are the list's elements, by their numbers.
pub record AppStats : Type 0 where
  pub tcp_conn : ℕ
  pub udp_conn : ℕ
  pub tcp_conn_total : ℕ
  pub udp_conn_total : ℕ
  pub uplink : ℕ
  pub downlink : ℕ
  pub uplink_total : ℕ
  pub downlink_total : ℕ
  pub deactivate_at : ℕ
  pub connections : List ℕ

-- `&appStats{}`
abbrev pub new_stats : AppStats
new_stats = record {
  tcp_conn = 0;
  udp_conn = 0;
  tcp_conn_total = 0;
  udp_conn_total = 0;
  uplink = 0;
  downlink = 0;
  uplink_total = 0;
  downlink_total = 0;
  deactivate_at = 0;
  connections = [];
}

-- `AppStats`, what a listener is told.
pub record Export : Type 0 where
  pub uid : ℕ
  pub tcp_conn : ℕ
  pub udp_conn : ℕ
  pub tcp_conn_total : ℕ
  pub udp_conn_total : ℕ
  pub uplink : ℕ
  pub downlink : ℕ
  pub uplink_total : ℕ
  pub downlink_total : ℕ
  pub deactivate_at : ℕ

-- The body of `ReadAppTraffics` for one app: the counters since the last call are taken and added to
-- the totals.
pub read_stat : ℕ → AppStats → Export × AppStats
read_stat uid s =
    let up = word64 (s.uplink_total + s.uplink) in
    let down = word64 (s.downlink_total + s.downlink) in
    (
      record {
        uid = uid;
        tcp_conn = s.tcp_conn;
        udp_conn = s.udp_conn;
        tcp_conn_total = s.tcp_conn_total;
        udp_conn_total = s.udp_conn_total;
        uplink = s.uplink;
        downlink = s.downlink;
        uplink_total = up;
        downlink_total = down;
        deactivate_at = word32 s.deactivate_at;
      },
      record s { uplink = 0; uplink_total = up; downlink = 0; downlink_total = down },
    )

-- `t.appStats`, by uid.
abbrev pub StatsTable : Type 0
StatsTable = List (ℕ × AppStats)

pub read_all : StatsTable → List Export × StatsTable
unfolding read_stat
read_all [] = ([], [])
read_all ((uid, s) ∷ table) =
    let (e, s') = read_stat uid s in
    let (es, table') = read_all table in (e ∷ es, (uid, s') ∷ table')

-- `ReadAppTraffics`: what the listener is given, and the table.
pub read_app_traffics : (traffic_stats : Bool) → StatsTable → List Export × StatsTable
unfolding read_all
read_app_traffics enabled table = if enabled then read_all table else ([], table)

-- `ResetAppTraffics`: every key of the table is deleted.
pub delete_uid : ℕ → StatsTable → StatsTable
delete_uid uid [] = []
delete_uid uid (e ∷ table) =
    let rest = delete_uid uid table in if e.0 == uid then rest else e ∷ rest

pub delete_uids : List ℕ → StatsTable → StatsTable
unfolding delete_uid
delete_uids [] table = table
delete_uids (uid ∷ uids) table = delete_uids uids (delete_uid uid table)

pub reset_app_traffics : (traffic_stats : Bool) → StatsTable → StatsTable
unfolding delete_uids
reset_app_traffics enabled table =
    if enabled then delete_uids (map (λ (e : ℕ × AppStats). e.0) table) table else table

pub load_stats : ℕ → StatsTable → Option AppStats
load_stats uid [] = none
load_stats uid ((k, s) ∷ table) = if k == uid then some s else load_stats uid table

-- `CloseConnections`: the connections that are closed. The uid is an `int32` cut to 16 bits.
pub close_connections : (traffic_stats : Bool) → ℕ → StatsTable → List ℕ
unfolding load_stats
close_connections enabled uid table =
    if enabled
    then elim (load_stats (uid % 2 ^ 16) table) [ none ↦ [] | some s ↦ s.connections ]
    else []

-- `statsConnWrapper`, on its counter.
pub counter_set : ℕ → ℕ → ℕ × ℕ
counter_set i counter = (counter, i)

pub counter_add : ℕ → ℕ → ℕ × ℕ
counter_add i counter = (0, word64 (counter + i))

-- `NewStatsCounterConn` gives reads of the connection to `uplink` and its writes to `downlink`.
pub conn_read : ℕ → AppStats → AppStats
unfolding counter_add
conn_read n s = record s { uplink = (counter_add n s.uplink).1 }

pub conn_write : ℕ → AppStats → AppStats
unfolding counter_add
conn_write n s = record s { downlink = (counter_add n s.downlink).1 }

-- `statsPacketConn.readFrom` and `writeTo`: the length of the packet, and whether there was an error.
pub packet_read : ℕ → Bool → AppStats → AppStats
packet_read n failed s = if failed then s else record s { downlink = word64 (s.downlink + n) }

pub packet_write : ℕ → Bool → AppStats → AppStats
packet_write n failed s = if failed then s else record s { uplink = word64 (s.uplink + n) }

-- The kinds of connection: `NewConnection` counts TCP and `NewPacket` counts UDP.
pub data Transport : Type 0 where
  tcp udp : Transport

-- The atomic steps of tun.go on the counters, each indivisible.
pub data Atomic : Type 0 where
  add_conn add_total : Transport → Atomic
  clear_deactivate : Atomic
  push_back : ℕ → Atomic
  drop_conn : Transport → Atomic
  store_deactivate : (now : ℕ) → Atomic
  remove : ℕ → Atomic

pub remove_conn : ℕ → List ℕ → List ℕ
remove_conn id [] = []
remove_conn id (x ∷ xs) = if x == id then xs else x ∷ remove_conn id xs

pub atomic : Atomic → AppStats → AppStats
unfolding remove_conn
atomic (add_conn tcp) s = record s { tcp_conn = word32 (s.tcp_conn + 1) }
atomic (add_conn udp) s = record s { udp_conn = word32 (s.udp_conn + 1) }
atomic (add_total tcp) s = record s { tcp_conn_total = word32 (s.tcp_conn_total + 1) }
atomic (add_total udp) s = record s { udp_conn_total = word32 (s.udp_conn_total + 1) }
atomic clear_deactivate s = record s { deactivate_at = 0 }
atomic (push_back id) s = record s { connections = s.connections ++ id ∷ [] }
atomic (drop_conn tcp) s = record s { tcp_conn = word32 (s.tcp_conn + 2 ^ 32 - 1) }
atomic (drop_conn udp) s = record s { udp_conn = word32 (s.udp_conn + 2 ^ 32 - 1) }
atomic (store_deactivate now) s = record s { deactivate_at = now }
atomic (remove id) s = record s { connections = remove_conn id s.connections }

pub atomics : List Atomic → AppStats → AppStats
unfolding atomic
atomics [] s = s
atomics (a ∷ as') s = atomics as' (atomic a s)

-- The steps when a connection begins.
pub enter_steps : Transport → ℕ → List Atomic
enter_steps t id = add_conn t ∷ add_total t ∷ clear_deactivate ∷ push_back id ∷ []

-- Whether the new value of one counter and the value of the other add up to 0 as `int32`.
pub is_idle : AppStats → Bool
is_idle s = word32 (s.tcp_conn + s.udp_conn) == 0

pub enter : Transport → ℕ → AppStats → AppStats
unfolding atomics enter_steps
enter t id s = atomics (enter_steps t id) s

-- The deferred function, when a connection ends, at the time `now`.
pub leave : Transport → (now : ℕ) → ℕ → AppStats → AppStats
unfolding atomics is_idle
leave t now id s =
    let s' = atomic (drop_conn t) s in
    atomic (remove id) (if is_idle s' then atomic (store_deactivate now) s' else s')
