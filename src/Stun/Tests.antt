-- ===== src/Stun/Tests.antt =====
-- Runs of the discovery behind a NAT whose mapping and filter depend on the other side's host.
use lib_sager_net_core.Common.{
  ◌≡◌, ◌≢◌, refl, Bool, true, false, Option, none, some, [], ◌∷◌, String, str_eq, if◌then◌else◌,
  bytes_eq, eq_iff,
}
use lib_sager_net_core.Stun.Server.{UdpAddr, Request, binding, change, Network, round_trip}
use lib_sager_net_core.Stun.Discovery.{
  Conn, returned, mapping_tests, filtering_tests, address_dependent,
}
use lib_sager_net_core.Stun.Discovery.Mapping.{by_host, mapping_tests_class, Answers}
use lib_sager_net_core.Stun.Discovery.Filtering.{from_host, FilteredAnswers, filtering_tests_class}
use lib_sager_net_core.Stun.Session.{ConnectAnswers, stun_test}
use lib_sager_net_core.Stun.Session.Complete.{IsComplete, stun_test-IsComplete}

record SmallMessage : Type 0 where
  mapped : Option String
  other : Option String
  origin : Option String

abbrev World : Type 0
World = Option (Request × UdpAddr)

abbrev other_addr : UdpAddr
other_addr = record { host = "other"; port = 3479 }

abbrev server_addr : UdpAddr
server_addr = record { host = "server"; port = 3478 }

abbrev outside_of : String → String
outside_of host = if str_eq host "server" then "203.0.113.7:1000" else "203.0.113.7:1001"

abbrev response_from : (has_origin : Bool) → UdpAddr → SmallMessage
response_from has_origin a = record {
  mapped = some (outside_of a.host);
  other = some "other:3479";
  origin = if has_origin then some a.host else none;
}

-- The server sends from its other port when asked to; what it sends from its other host is filtered.
abbrev wait_for : Bool → World → Option (Option (SmallMessage × String)) × World
wait_for o none = (none, none)
wait_for o (some (binding, a)) = (some (some (response_from o a, a.host)), none)
wait_for o (some (change bytes, a)) =
    if bytes_eq bytes (0 ∷ 0 ∷ 0 ∷ 6 ∷ [])
    then (none, none)
    else (some (some (response_from o a, "server, other port")), none)

-- `has_origin` tells whether the server gives the origin of its responses.
abbrev small : (has_origin : Bool) → Network
small o = record {
  World = World;
  Message = SmallMessage;
  write = λ r a w. (none, some (r, a));
  wait = wait_for o;
  close = λ w. w;
  xor_address = λ m. m.mapped;
  other_address = λ m. m.other;
  response_origin = λ m. m.origin;
  resolve_udp4 = λ s. some other_addr;
  resolve_udp = λ s. some other_addr;
  show = λ a. a.host;
}

abbrev client : Conn
client = record { local_addr = "192.168.1.2:5000"; remote_addr = server_addr }

small_answers : Answers (small true) client "other:3479" other_addr (by_host outside_of)
unfolding round_trip
small_answers a w = (response_from true a, a.host, refl, refl, refl, refl)

differs : (a b : String) → str_eq a b ≡ false → a ≢ b
differs a b h e = absurd (cc (h, (eq_iff a b).1 e))

mapping_tests_class_example :
    (mapping_tests (small true) client none).0 ≡ returned address_dependent none
mapping_tests_class_example =
    mapping_tests_class (small true) client none "other:3479" other_addr (by_host outside_of)
      small_answers refl
      (
        differs "203.0.113.7:1000" "192.168.1.2:5000" refl,
        differs "203.0.113.7:1001" "203.0.113.7:1000" refl,
      )

small_filters : FilteredAnswers (small true) client from_host "other" "server, other port"
unfolding round_trip
small_filters = record {
  plain = λ w. (
    response_from true server_addr,
    "server",
    "other:3479",
    "203.0.113.7:1000",
    other_addr,
    refl,
    refl,
    refl,
    refl,
  );
  both = λ w. (response_from true server_addr, refl);
  port = λ w. (response_from true server_addr, refl);
}

filtering_tests_class_example :
    (filtering_tests (small true) client none).0 ≡ returned address_dependent none
filtering_tests_class_example =
    filtering_tests_class (small true) client none from_host "other" "server, other port"
      small_filters (differs "other" "server" refl) (differs "server, other port" "server" refl)

-- No proxy runs, and a socket can be opened.
abbrev answer : String → World → ConnectAnswers × World
answer addr w = (
  record {
    server = some server_addr;
    tcp_dialled = false;
    udp_dialled = false;
    listen_error = none;
    local_addr = "192.168.1.2:5000";
  },
  w,
)

stun_test-IsComplete_example :
    IsComplete (small true) answer (stun_test (small true) answer "" none)
stun_test-IsComplete_example = stun_test-IsComplete (small true) answer "" none
