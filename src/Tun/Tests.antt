-- ===== src/Tun/Tests.antt =====
-- Runs of the tun's handlers.
use lib_sager_net_core.Common.{
  ℕ, ◌≡◌, ◌≢◌, refl, arith, Bool, true, false, Option, none, some, List, [], ◌∷◌, String,
}
use lib_sager_net_core.Common.Int.{ℤ, pos}
use lib_sager_net_core.Common.Text.{codes, fields}
use lib_sager_net_core.Procfs.{
  Scan, scan_start, Source, little_endian, native_endian_ip, put_uint32, be_uint32, local_key,
  hex_encode, query_socket_uid,
}
use lib_sager_net_core.Tun.Owner.{dump_uid, connection_owner, connection_owner-dump_uid}
use lib_sager_net_core.Tun.Inbound.{Config}
use lib_sager_net_core.Tun.Lock.{
  System, start, at_lock, sent, finished, dialing, dial_failed, send_missing, lock_stored,
  dial_fails, Reach, here, next, initial, update,
}
use lib_sager_net_core.Tun.Lock.Exclusion.{dialing_exclusive}
use lib_sager_net_core.Tun.Lock.Stuck.{waits, dial_failed_blocks}
use lib_sager_net_core.Tun.Relay.{Answers, Reading, new_packet}
use lib_sager_net_core.Tun.Relay.Paths.{
  times, adds, removes, enters, leaves, stores, deletes, uid_locks, uid_unlocks, releases, writes,
  new_packet_balanced, written_back, payloads_read,
}

abbrev dumping : Config
dumping = record {
  router = "172.19.0.2";
  sniffing = true;
  override_destination = false;
  debug = false;
  dump_uid = true;
  traffic_stats = true;
}

-- Call 1 finds no connection, and stores its lock.
abbrev locked_by_1 : System
locked_by_1 = record {
  conn = none;
  lock = some 1;
  pc = update 1 dialing (update 1 at_lock (λ _. start));
}

Reach-locked : Reach initial locked_by_1
Reach-locked = next (next here (send_missing initial 1 refl refl)) (lock_stored _ 1 refl refl)

abbrev dialer : ℕ
dialer = 1

dialing_exclusive_example : dialer ≡ 1
dialing_exclusive_example = dialing_exclusive locked_by_1 dialer 1 Reach-locked refl refl

abbrev failed_1 : System
failed_1 = record {
  conn = none;
  lock = some 1;
  pc = update 1 dial_failed (update 1 dialing (update 1 at_lock (λ _. start)));
}

Reach-failed : Reach initial failed_1
Reach-failed = next Reach-locked (dial_fails locked_by_1 1 refl)

abbrev missing_2 : System
missing_2 = record failed_1 { pc = update 2 at_lock failed_1.pc }

-- Call 2 comes after the dial of call 1 failed.
dial_failed_blocks_example :
    (missing_2.conn ≡ none)
    × (missing_2.pc 2 ≢ sent)
    × (missing_2.pc 2 ≢ finished)
    × (waits 1 (missing_2.pc 2) ≡ true)
dial_failed_blocks_example =
    dial_failed_blocks failed_1 missing_2 1 2 Reach-failed refl refl refl
      (next here (send_missing failed_1 2 refl refl))

abbrev never_fails : List ℕ → Bool
never_fails _ = false

abbrev two_readings : List Reading
two_readings = (1 ∷ [], some 7) ∷ (2 ∷ [], none) ∷ []

abbrev first_packet : Answers
first_packet = record {
  has_conn = false;
  has_conn_later = false;
  write_fails = false;
  lock_loaded = false;
  dial_fails = false;
  counted = true;
  has_stats = false;
  uid_lock_loaded = false;
  has_stats_later = false;
  dns = true;
  back_fails = never_fails;
  readings = two_readings;
}

new_packet_balanced_example :
    let es = new_packet first_packet in
    (times adds es ≡ times removes es)
    × (times enters es ≡ times leaves es)
    × (times stores es ≡ times deletes es)
    × (times uid_locks es ≡ times uid_unlocks es)
    × (times releases es ≡ times writes es)
    × (written_back es ≡ payloads_read first_packet.back_fails first_packet.readings)
new_packet_balanced_example = new_packet_balanced first_packet

abbrev wireguard : Option String
wireguard = some "wireguard"

-- The table of a phone where an app has port 8080 of the loopback.
abbrev atoi_app : List ℕ → Option ℤ
atoi_app (_ ∷ _ ∷ _ ∷ _ ∷ _ ∷ []) = some (pos 10050)
atoi_app _ = none

abbrev table_scan : Scan
table_scan = record scan_start { index_of_local = pos 1; index_of_uid = pos 2 }

abbrev app_source : Source
app_source = record { is_tcp = true; is_ipv6 = false; ip = 127 ∷ 0 ∷ 0 ∷ 1 ∷ []; port = 8080 }

abbrev other_row : List ℕ
other_row = codes "0: A"

abbrev app_row : List ℕ
app_row = codes "1: 0100007F:1F90 10050"

abbrev table : List ℕ → Option (List (List ℕ))
table path = some (other_row ∷ app_row ∷ [])

connection_owner-dump_uid_example :
    connection_owner
      (record dumping { debug = true })
      true
      10060
      (dump_uid true
        (query_socket_uid atoi_app table little_endian table_scan)
        (λ proto s. none)
        true
        app_source)
    ≡ some (record { uid = 10050; is_self = false; inbound_uid = 10050 }, true)
unfolding fields local_key hex_encode native_endian_ip put_uint32 be_uint32
connection_owner-dump_uid_example =
    connection_owner-dump_uid atoi_app table little_endian table_scan
      (record dumping { debug = true }) true 10060 (λ proto s. none) true app_source 1 2 127 10050
      (0 ∷ 0 ∷ 1 ∷ []) (1 ∷ 0 ∷ 0 ∷ 127 ∷ []) (codes "10050") app_row (other_row ∷ []) [] refl refl
      refl refl refl refl (refl, tt) refl refl refl (omega arith) (omega arith)
