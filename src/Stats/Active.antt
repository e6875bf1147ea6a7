-- ===== src/Stats/Active.antt =====
-- The counts of open connections, and the time since an app has none.
use lib_sager_net_core.Common.{
  ℕ, ◌≡◌, ◌≢◌, List, [], ◌∷◌, arith, ◌+◌, ◌<◌, ◌^◌, true, false, Bool, ◌==◌, suc, if◌then◌else◌,
  length, length-append,
}
use lib_sager_net_core.Stats.{
  AppStats, Transport, tcp, udp, drop_conn, store_deactivate, remove, atomic, atomics, enter_steps,
  is_idle, enter, leave, remove_conn,
}

-- Between the handlers of connections: the counts are the open connections, by kind, each listed
-- once, and an app with an open connection has no time of deactivation.
pub record IsCounted (tcps udps : ℕ) (s : AppStats) : Type 0 where
  pub tcp_count : s.tcp_conn ≡ tcps
  pub udp_count : s.udp_conn ≡ udps
  pub listed : length s.connections ≡ tcps + udps
  pub active : 0 < tcps + udps → s.deactivate_at ≡ 0

abbrev pub with_tcp : Transport → ℕ → ℕ
with_tcp tcp n = suc n
with_tcp udp n = n

abbrev pub with_udp : Transport → ℕ → ℕ
with_udp tcp n = n
with_udp udp n = suc n

abbrev pub holds : ℕ → List ℕ → Bool
holds id [] = false
holds id (x ∷ xs) = if x == id then true else holds id xs

pub length-remove_conn :
    (id : ℕ) (xs : List ℕ) → holds id xs ≡ true → suc (length (remove_conn id xs)) ≡ length xs
unfolding remove_conn
length-remove_conn id [] h = ground arith
length-remove_conn id (x ∷ xs) h = ground (arith, length-remove_conn id xs)

-- A connection that begins, TCP or UDP, is counted and listed, and the app is active.
pub enter-IsCounted :
    (t : Transport) (id tcps udps : ℕ) (s : AppStats)
    → tcps + udps < 2 ^ 31
    → IsCounted tcps udps s
    → IsCounted (with_tcp t tcps) (with_udp t udps) (enter t id s)
unfolding enter atomics enter_steps atomic
enter-IsCounted tcp id tcps udps s few h = ground (arith, length-append s.connections (id ∷ []))
enter-IsCounted udp id tcps udps s few h = ground (arith, length-append s.connections (id ∷ []))

-- A connection that ends is no longer counted or listed. The app gets the present time of
-- deactivation if that was its last connection, of either kind, and keeps having none if not.
pub leave-IsCounted :
    (t : Transport) (now id tcps udps : ℕ) (s : AppStats)
    → tcps + udps < 2 ^ 31
    → holds id s.connections ≡ true
    → IsCounted (with_tcp t tcps) (with_udp t udps) s
    → IsCounted tcps udps (leave t now id s)
      × ((leave t now id s).deactivate_at ≡ (if tcps + udps == 0 then now else 0))
unfolding leave atomic is_idle
leave-IsCounted tcp now id tcps udps s few held h =
    ground (arith, length-remove_conn id s.connections)
leave-IsCounted udp now id tcps udps s few held h =
    ground (arith, length-remove_conn id s.connections)

-- The handlers are not atomic: if the only connection of an app ends, and another begins after the
-- test for idleness and before the time is stored, the app has an open connection and a time of
-- deactivation.
pub leave_races_enter :
    (t u : Transport) (now id new : ℕ) (s : AppStats)
    → now ≢ 0
    → IsCounted (with_tcp t 0) (with_udp t 0) s
    → let dropped = atomic (drop_conn t) s in
      let after = atomic (remove id) (atomic (store_deactivate now) (enter u new dropped)) in
      (is_idle dropped ≡ true) × (after.tcp_conn + after.udp_conn ≡ 1) × (after.deactivate_at ≡ now)
unfolding enter atomics enter_steps atomic is_idle
leave_races_enter tcp tcp now id new s n h = ground arith
leave_races_enter tcp udp now id new s n h = ground arith
leave_races_enter udp tcp now id new s n h = ground arith
leave_races_enter udp udp now id new s n h = ground arith
