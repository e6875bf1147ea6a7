-- ===== src/Nat/Lifetime/Tests.antt =====
-- A session from its first packet to its removal.
use lib_sager_net_core.Common.{◌≡◌, ◌≢◌, ap, arith, some, refl, List, [], ◌∷◌, map}
use lib_sager_net_core.Nat.Forward.{client_key}
use lib_sager_net_core.Nat.Samples.{
  SmallPacket, table, small, small_header, listener_port, empty, request, response, web,
  other_request, from_the_client,
}
use lib_sager_net_core.Nat.Lifetime.{
  Event, packet_ipv4, packet_ipv6, accepts, forgets, expires, handle, run, written, told,
}
use lib_sager_net_core.Nat.Lifetime.Flows.{Steps, towards_listener}
use lib_sager_net_core.Nat.Lifetime.Refine.{flows, arrival, run-Steps}
use lib_sager_net_core.Nat.Lifetime.Answers.{AreAnswers, run-AreAnswers, source_of, destination_of}
use lib_sager_net_core.Nat.Lifetime.Keeping.{run_round_trip}
use lib_sager_net_core.Nat.Address.{vlan_client4, normalize_ip}
use lib_sager_net_core.Nat.Accept.{new_connection}
use lib_sager_net_core.Nat.Forward.Rewrite.{swap}

abbrev life : List (Event SmallPacket)
life =
    packet_ipv4 request
    ∷ packet_ipv6 response
    ∷ accepts 3 web 40000
    ∷ forgets (client_key request.endpoints)
    ∷ packet_ipv4 response
    ∷ expires (client_key request.endpoints)
    ∷ []

run-Steps_example :
    Steps listener_port
      (flows table empty)
      (map (arrival table small small_header) life)
      (run table small small_header listener_port empty life).1
      (flows table (run table small small_header listener_port empty life).0)
run-Steps_example = run-Steps table small small_header listener_port empty life

run-AreAnswers_example :
    AreAnswers listener_port []
      (map (arrival table small small_header) life)
      (run table small small_header listener_port empty life).1
run-AreAnswers_example =
    run-AreAnswers table small small_header listener_port empty life (λ k. refl)

-- What happens between a request and its response: another flow opens, its connection comes and its session ends.
abbrev meanwhile : List (Event SmallPacket)
meanwhile =
    packet_ipv6 other_request
    ∷ accepts 3 web 40001
    ∷ forgets (client_key other_request.endpoints)
    ∷ []

other_port : client_key request.endpoints ≢ client_key other_request.endpoints
other_port h = absurd (omega (arith, ap (λ k. k.source_port) h))

run_round_trip_example :
    let (c1, o1) = handle table small small_header listener_port empty (packet_ipv4 request) in
    let c2 = (run table small small_header listener_port c1 meanwhile).0 in
    (o1 ≡ written (some (towards_listener listener_port vlan_client4 request.endpoints)))
    × ((handle table small small_header listener_port c2 (packet_ipv4 response)).1
        ≡ written (some (swap request.endpoints)))
    × ((handle table small small_header listener_port c2 (accepts 4 web 40000)).1
        ≡ told (
            new_connection (source_of request.endpoints) (destination_of request.endpoints) 4 ∷ []))
unfolding normalize_ip
run_round_trip_example =
    run_round_trip table small small_header listener_port empty (packet_ipv4 request)
      (packet_ipv4 response) meanwhile vlan_client4 vlan_client4 request.endpoints 4 web refl
      from_the_client refl (tt, (tt, (other_port, tt))) refl refl
