-- ===== src/Tun/Inbound/Uids.antt =====
-- Which uids a connection can be accounted to.
use lib_sager_net_core.Common.{
  ℕ, ◌≡◌, ◌⊎◌, Bool, true, false, Option, some, arith, ◌≤◌, ◌<◌, ◌||◌, ◌==◌,
}
use lib_sager_net_core.Common.Int.{ℤ, pos, negsuc}
use lib_sager_net_core.Tun.Inbound.{Config, Owner, tcp_owner, udp_owner}

-- With uid dumps or statistics on, and an owner that was found, a TCP connection is accounted to the
-- system (1000) or to an app's uid in the range of a `uint16`; with both off, or after an error, to
-- no one (0). The inbound session shows the same uid.
pub tcp_owner_range :
    (t : Config) (has_dumper : Bool) (getuid : ℕ) (u : Option ℤ) (o : Owner) (asked : Bool)
    → tcp_owner t has_dumper getuid u ≡ some (o, asked)
    → (o.inbound_uid ≡ o.uid)
      × ((o.uid ≡ 0) ⊎ (o.uid ≡ 1000) ⊎ ((10000 ≤ o.uid) × (o.uid < 65536)))
      × (o.uid ≡ 0 → o.is_self ≡ false)
unfolding tcp_owner
tcp_owner_range t has_dumper getuid u o asked h = ground arith

-- A UDP packet whose owner the system knows, a uid that is not negative, is accounted to the system
-- (1000) or to an app of the first user, from 10000 to 19999: other users' uids are reset.
pub udp_owner_range :
    (t : Config) (getuid : ℕ) (known : Option (ℕ → Bool)) (n : ℕ) (o : Owner) (asked : Bool)
    → (t.dump_uid || t.traffic_stats) ≡ true
    → udp_owner t getuid known (some (pos n)) ≡ some (o, asked)
    → (o.uid ≡ 1000) ⊎ ((10000 ≤ o.uid) × (o.uid < 20000))
unfolding udp_owner
udp_owner_range t getuid known n o asked on h = ground arith

-- The answer -1, which the search in procfs gives for a socket it does not find, is no error: with
-- uid dumps or statistics on, and without debug, both a TCP connection and a UDP packet are then
-- accounted to the uid 65535.
pub owner_not_found :
    (t : Config) (has_dumper : Bool) (getuid : ℕ) (known : Option (ℕ → Bool))
    → (t.dump_uid || t.traffic_stats) ≡ true
    → t.debug ≡ false
    → let o : Owner = record { uid = 65535; is_self = 65535 == getuid; inbound_uid = 65535 } in
      (tcp_owner t has_dumper getuid (some (negsuc 0)) ≡ some (o, false))
      × (udp_owner t getuid known (some (negsuc 0)) ≡ some (o, false))
unfolding tcp_owner udp_owner
owner_not_found t has_dumper getuid known on off = ground arith
