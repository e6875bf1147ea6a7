-- ===== src/Tun/Inbound.antt =====
-- tun.go, `NewConnection` and `NewPacket`: the inbound session of a connection, which app it belongs
-- to, and whether its content is sniffed and its traffic counted.
pub mod Uids
use lib_sager_net_core.Common.{
  ℕ, Bool, true, false, not, ◌&&◌, ◌||◌, Option, none, some, String, List, [], ◌∷◌, ltb, leb, ◌==◌,
  ◌-◌, ◌%◌, ◌^◌, str_eq, if◌then◌else◌, is_some,
}
use lib_sager_net_core.Common.Int.{ℤ, pos, negsuc, ltb_ℤ}

-- The fields of `Tun2ray` that are fixed when it is made.
pub record Config : Type 0 where
  pub router : String
  pub sniffing : Bool
  pub override_destination : Bool
  pub debug : Bool
  pub dump_uid : Bool
  pub traffic_stats : Bool

-- `uint16(u)` of an `int32`.
abbrev pub uint16_of : ℤ → ℕ
uint16_of (pos n) = n % 65536
uint16_of (negsuc n) = 65535 - n % 65536

-- What the code knows of the owner: the variables `uid` and `self`, and `inbound.Uid`.
pub record Owner : Type 0 where
  pub uid : ℕ
  pub is_self : Bool
  pub inbound_uid : ℕ

abbrev pub unknown_owner : Owner
unknown_owner = record { uid = 0; is_self = false; inbound_uid = 0 }

-- `self = uid > 0 && int(uid) == os.Getuid()`
abbrev pub is_own : ℕ → ℕ → Bool
is_own getuid uid = ltb 0 uid && uid == getuid

-- `if uid < 10000 { uid = 1000 }`
abbrev pub app_uid : ℕ → ℕ
app_uid uid = if ltb uid 10000 then 1000 else uid

-- `t.debug && !self && uid >= least`: whether the app's dumper is asked for its name of the uid.
abbrev pub asks_info : Config → (least getuid uid : ℕ) → Bool
asks_info t least getuid uid = t.debug && (not (is_own getuid uid) && leb least uid)

-- The owner of a TCP connection, from the result of `dumpUid`, `none` for an error; and whether
-- `uidDumper.GetUidInfo` is called. `none` is the panic of that call where `uidDumper` is nil. What it answers is
-- only logged.
unfoldable pub tcp_owner :
    Config → (has_dumper : Bool) → (getuid : ℕ) → Option ℤ → Option (Owner × Bool)
tcp_owner t has_dumper getuid u =
    if t.dump_uid || t.traffic_stats
    then elim u [
      | none ↦ some (unknown_owner, false)
      | some n ↦
          let uid = uint16_of n in
          let asked = asks_info t 10000 getuid uid in
          if asked && not has_dumper
          then none
          else some (
            record { uid = app_uid uid; is_self = is_own getuid uid; inbound_uid = app_uid uid },
            asked,
          )
    ]
    else some (unknown_owner, false)

-- `if u > 19999 { u = 1000 }`
abbrev pub reset_bad_owner : ℤ → ℤ
reset_bad_owner u = if ltb_ℤ (pos 19999) u then pos 1000 else u

-- The owner of a UDP packet, and whether `GetUidInfo` is called; `known` tells for which uids it succeeds, and its
-- `none` is a nil `uidDumper`.
pub udp_owner :
    Config → (getuid : ℕ) → (known : Option (ℕ → Bool)) → Option ℤ → Option (Owner × Bool)
udp_owner t getuid known u =
    if t.dump_uid || t.traffic_stats
    then elim u [
      | none ↦ some (unknown_owner, false)
      | some n ↦
          let uid = uint16_of (reset_bad_owner n) in
          let is_self = is_own getuid uid in
          if asks_info t 1000 getuid uid
          then elim known [
            | none ↦ none
            | some knows ↦
                let uid' = if knows uid then uid else 1000 in
                some (
                  record { uid = app_uid uid'; is_self = is_self; inbound_uid = app_uid uid' },
                  true,
                )
          ]
          else some
              (record { uid = app_uid uid; is_self = is_self; inbound_uid = app_uid uid }, false)
    ]
    else some (unknown_owner, false)

-- `destination.Address.String() == t.router`
pub is_dns : Config → String → Bool
is_dns t destination = str_eq destination t.router

pub inbound_tag : Bool → String
inbound_tag dns = if dns then "dns-in" else "tun"

-- `session.SniffingRequest`
pub record SniffingRequest : Type 0 where
  pub enabled : Bool
  pub route_only : Bool
  pub override_for : List String

-- The content of the session, if there is one; `protocols` are "http" and "tls" for TCP, and "quic"
-- for UDP.
pub sniffing_request : Config → (dns : Bool) → (protocols : List String) → Option SniffingRequest
sniffing_request t dns protocols =
    if not dns && t.sniffing
    then some (record {
      enabled = true;
      route_only = not t.override_destination;
      override_for = if t.sniffing then protocols else [];
    })
    else none

-- `t.trafficStats && !self && !isDns`
pub is_counted : Config → Owner → (dns : Bool) → Bool
is_counted t o dns = t.traffic_stats && (not o.is_self && not dns)
