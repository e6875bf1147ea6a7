-- ===== src/Tun/Relay/Paths.antt =====
-- What every path of `NewPacket` does, and which path does not.
use mathlib.Core.List.{append-nil}
use lib_sager_net_core.Common.{
  ℕ, ◌≡◌, refl, Bool, true, false, not, some, List, [], ◌∷◌, ◌++◌, if◌then◌else◌, arith, suc, ◌+◌,
  ◌&&◌,
}
use lib_sager_net_core.Tun.Relay.{
  Effect, close_closer, store_lock, delete_lock, broadcast, add_connection, remove_connection,
  enter_stats, leave_stats, store_conn, delete_conn, write_back, release_buffer, Reading, relay,
  send_to, Answers, serve_packets, new_packet, relay_packets, with_stats, open_stats,
  store_uid_lock, delete_uid_lock,
}

-- How often an effect of a kind happens.
pub data Kind : Type 0 where
  locks unlocks broadcasts closers adds removes enters leaves writes releases stores deletes : Kind
  uid_locks uid_unlocks : Kind

abbrev pub is_kind : Kind → Effect → Bool
is_kind locks store_lock = true
is_kind unlocks delete_lock = true
is_kind broadcasts broadcast = true
is_kind closers close_closer = true
is_kind adds add_connection = true
is_kind removes remove_connection = true
is_kind enters enter_stats = true
is_kind leaves leave_stats = true
is_kind writes (write_back _ _) = true
is_kind releases release_buffer = true
is_kind stores store_conn = true
is_kind deletes delete_conn = true
is_kind uid_locks store_uid_lock = true
is_kind uid_unlocks delete_uid_lock = true
is_kind _ _ = false

abbrev pub times : Kind → List Effect → ℕ
times k [] = 0
times k (e ∷ es) = if is_kind k e then suc (times k es) else times k es

pub times-append : (k : Kind) (xs ys : List Effect) → times k (xs ++ ys) ≡ times k xs + times k ys
times-append k [] ys = omega arith
times-append k (x ∷ xs) ys = ground (arith, times-append k xs ys)

-- The loop writes and releases, and does nothing else.
abbrev pub is_relay : Kind → Bool
is_relay writes = true
is_relay releases = true
is_relay _ = false

pub times-relay :
    (k : Kind) (dns : Bool) (fails : List ℕ → Bool) (readings : List Reading)
    → is_relay k ≡ false
    → times k (relay dns fails readings) ≡ 0
unfolding relay
times-relay k dns fails [] h = refl
times-relay k dns fails (r ∷ rest) h = ground (arith, times-relay k dns fails rest)

pub times-relay_packets :
    (k : Kind) (a : Answers) (tail : List Effect)
    → is_relay k ≡ false
    → times k (relay_packets a ++ tail)
      ≡ times k (store_conn ∷ delete_lock ∷ broadcast ∷ close_closer ∷ delete_conn ∷ tail)
unfolding relay_packets
times-relay_packets k a tail h =
    let loop = relay a.dns a.back_fails a.readings in
    ground (
      arith,
      times-append k (loop ++ close_closer ∷ delete_conn ∷ []) tail,
      times-append k loop (close_closer ∷ delete_conn ∷ []),
      times-relay k a.dns a.back_fails a.readings h,
    )

pub relay-releases :
    (dns : Bool) (fails : List ℕ → Bool) (readings : List Reading)
    → times releases (relay dns fails readings) ≡ times writes (relay dns fails readings)
unfolding relay
relay-releases dns fails [] = refl
relay-releases dns fails (r ∷ rest) = ground (arith, relay-releases dns fails rest)

pub times-releases_packets :
    (a : Answers) (tail : List Effect)
    → times releases (relay_packets a ++ tail) + times writes tail
      ≡ times writes (relay_packets a ++ tail) + times releases tail
unfolding relay_packets
times-releases_packets a tail =
    let loop = relay a.dns a.back_fails a.readings in
    ground (
      arith,
      times-append releases (loop ++ close_closer ∷ delete_conn ∷ []) tail,
      times-append releases loop (close_closer ∷ delete_conn ∷ []),
      times-append writes (loop ++ close_closer ∷ delete_conn ∷ []) tail,
      times-append writes loop (close_closer ∷ delete_conn ∷ []),
      relay-releases a.dns a.back_fails a.readings,
    )

-- What follows the body, with counters and without.
abbrev counted_end : List Effect
counted_end = leave_stats ∷ remove_connection ∷ []

abbrev plain_end : List Effect
plain_end = remove_connection ∷ []

-- The payloads that are written back.
abbrev pub written_back : List Effect → List (List ℕ)
written_back [] = []
written_back (write_back payload _ ∷ es) = payload ∷ written_back es
written_back (_ ∷ es) = written_back es

-- The payloads that are read until the read fails or a write back does, that one included.
abbrev pub payloads_read : (fails : List ℕ → Bool) → List Reading → List (List ℕ)
payloads_read fails [] = []
payloads_read fails ((payload, _) ∷ rest) =
    payload ∷ (if fails payload then [] else payloads_read fails rest)

written_back-append :
    (xs ys : List Effect) → written_back (xs ++ ys) ≡ written_back xs ++ written_back ys
written_back-append [] ys = refl
written_back-append (x ∷ xs) ys = ground (arith, written_back-append xs ys)

relay-payloads_read :
    (dns : Bool) (fails : List ℕ → Bool) (readings : List Reading)
    → written_back (relay dns fails readings) ≡ payloads_read fails readings
unfolding relay
relay-payloads_read dns fails [] = refl
relay-payloads_read dns fails ((payload, addr) ∷ rest) =
    ground (arith, relay-payloads_read dns fails rest)

relay_packets-payloads_read :
    (a : Answers) (tail : List Effect)
    → written_back tail ≡ []
    → written_back (relay_packets a ++ tail) ≡ payloads_read a.back_fails a.readings
unfolding relay_packets
relay_packets-payloads_read a tail h =
    let loop = relay a.dns a.back_fails a.readings in
    cc (
      h,
      written_back-append (loop ++ close_closer ∷ delete_conn ∷ []) tail,
      written_back-append loop (close_closer ∷ delete_conn ∷ []),
      relay-payloads_read a.dns a.back_fails a.readings,
      append-nil (payloads_read a.back_fails a.readings),
    )

-- Whether a call comes to its loop: it is the one that stored the lock, its dial succeeds, and the counters, if
-- it has any, are found or made.
abbrev pub reaches_loop : Answers → Bool
reaches_loop a =
    not a.has_conn
    && (not a.lock_loaded
        && (not a.dial_fails
            && not
                (a.counted && (not a.has_stats && (a.uid_lock_loaded && not a.has_stats_later)))))

new_packet-payloads_read :
    (a : Answers)
    → written_back (new_packet a)
      ≡ (if reaches_loop a then payloads_read a.back_fails a.readings else [])
unfolding new_packet send_to serve_packets with_stats open_stats
new_packet-payloads_read a = ground (
  arith,
  relay_packets-payloads_read a counted_end refl,
  relay_packets-payloads_read a plain_end refl,
)

-- On every path of `NewPacket`, also on the panic: a connection that is added to the pool is removed
-- once, the counters that were entered are left once, an entry stored in `udpTable` is deleted once,
-- the lock of an app's counters is deleted once if it was stored; the payloads written back are, each once and in
-- order, those that are read up to the first failing write back, if the call comes to its loop, and else none; and
-- as many buffers are released as are written back.
pub new_packet_balanced :
    (a : Answers)
    → let es = new_packet a in
      (times adds es ≡ times removes es)
      × (times enters es ≡ times leaves es)
      × (times stores es ≡ times deletes es)
      × (times uid_locks es ≡ times uid_unlocks es)
      × (times releases es ≡ times writes es)
      × (written_back es ≡ (if reaches_loop a then payloads_read a.back_fails a.readings else []))
unfolding new_packet send_to serve_packets with_stats open_stats
new_packet_balanced a = (
  ground (
    arith,
    times-relay_packets adds a counted_end,
    times-relay_packets adds a plain_end,
    times-relay_packets removes a counted_end,
    times-relay_packets removes a plain_end,
  ),
  ground (
    arith,
    times-relay_packets enters a counted_end,
    times-relay_packets enters a plain_end,
    times-relay_packets leaves a counted_end,
    times-relay_packets leaves a plain_end,
  ),
  ground (
    arith,
    times-relay_packets stores a counted_end,
    times-relay_packets stores a plain_end,
    times-relay_packets deletes a counted_end,
    times-relay_packets deletes a plain_end,
  ),
  ground (
    arith,
    times-relay_packets uid_locks a counted_end,
    times-relay_packets uid_locks a plain_end,
    times-relay_packets uid_unlocks a counted_end,
    times-relay_packets uid_unlocks a plain_end,
  ),
  ground (arith, times-releases_packets a counted_end, times-releases_packets a plain_end),
  new_packet-payloads_read a,
)

-- Whether no packet is written back with the address of its sender.
abbrev pub no_sender : List Effect → Bool
no_sender [] = true
no_sender (write_back _ (some _) ∷ es) = false
no_sender (_ ∷ es) = no_sender es

-- For a DNS query no response is written back with its sender's address, whatever the sender is and
-- wherever the writes fail.
pub relay_dns_sender :
    (fails : List ℕ → Bool) (readings : List Reading) → no_sender (relay true fails readings) ≡ true
unfolding relay
relay_dns_sender fails [] = refl
relay_dns_sender fails (r ∷ rest) = ground (arith, relay_dns_sender fails rest)
