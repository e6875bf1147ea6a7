-- ===== src/Stun/Discovery/Mapping.antt =====
-- `mappingTests` finds the class of the NAT, and what goes wrong with an incomplete response.
use lib_sager_net_core.Common.{
  ℕ, ◌≡◌, ◌≢◌, ap, ◌∙◌, none, some, String, str_eq, eq_iff, arith, if◌then◌else◌,
}
use lib_sager_net_core.Stun.Server.{UdpAddr, binding, Network, reply, parse, round_trip}
use lib_sager_net_core.Stun.Discovery.{
  returned, panicked, IsConsistent, Conn, mapping_test3, mapping_test2, mapping_body, mapping_tests,
  endpoint_independent_no_nat, endpoint_independent, address_dependent, address_and_port_dependent,
}

-- The mapping of a NAT: the outside address of the client's socket, which may depend on the host and
-- on the port that a request goes to.
pub data Mapping : Type 0 where
  no_nat : Mapping
  independent : String → Mapping
  by_host : (String → String) → Mapping
  by_host_and_port : (String → ℕ → String) → Mapping

abbrev pub outside : String → Mapping → UdpAddr → String
outside local no_nat a = local
outside local (independent s) a = s
outside local (by_host f) a = f a.host
outside local (by_host_and_port f) a = f a.host a.port

-- What RFC 5780 calls the mapping.
abbrev pub mapping_class : Mapping → ℕ
mapping_class no_nat = endpoint_independent_no_nat
mapping_class (independent _) = endpoint_independent
mapping_class (by_host _) = address_dependent
mapping_class (by_host_and_port _) = address_and_port_dependent

-- The dependence is real: the outside addresses differ where the class says that they may, and none
-- is the local one.
abbrev pub IsProper : String → UdpAddr → UdpAddr → Mapping → Type 0
IsProper local remote other no_nat = Unit
IsProper local remote other (independent s) = s ≢ local
IsProper local remote other (by_host f) = (f remote.host ≢ local) × (f other.host ≢ f remote.host)
IsProper local remote other (by_host_and_port f) =
    (f remote.host remote.port ≢ local)
    × (f other.host remote.port ≢ f remote.host remote.port)
    × (f other.host other.port ≢ f other.host remote.port)

module _ (net : Network) where
  open net use {World, Message, resolve_udp4, show, xor_address, other_address, response_origin}

  -- A server that answers each binding request from where it was sent, with the address it saw, its
  -- other address and the response's origin.
  abbrev pub Answers : Conn → String → UdpAddr → Mapping → Type 0
  Answers c text other mapping =
      (a : UdpAddr) (w : World)
      → (m : Message) × (sender : String) × ((round_trip net binding a w).0 ≡ reply m sender)
        × (xor_address m ≡ some (outside c.local_addr mapping a))
        × (other_address m ≡ some text)
        × (response_origin m ≡ some (show a))

  -- The class that the outside addresses of the three tests decide on.
  abbrev decided : Conn → UdpAddr → Mapping → ℕ
  decided c other mapping =
      let at_remote = outside c.local_addr mapping c.remote_addr in
      let at_oaddr = outside c.local_addr mapping (record other { port = c.remote_addr.port }) in
      if str_eq at_remote c.local_addr
      then endpoint_independent_no_nat
      else if str_eq at_oaddr at_remote
      then endpoint_independent
      else if str_eq (outside c.local_addr mapping other) at_oaddr
      then address_dependent
      else address_and_port_dependent

  mapping_tests-decided :
      (c : Conn) (w : World) (text : String) (other : UdpAddr) (mapping : Mapping)
      → Answers c text other mapping
      → resolve_udp4 text ≡ some other
      → (mapping_tests net c w).0 ≡ returned (decided c other mapping) none
  unfolding mapping_tests mapping_body mapping_test2 mapping_test3 parse
  mapping_tests-decided c w text other mapping answers resolved =
      let (m1, s1, e1, x1, t1, o1) = answers c.remote_addr w in
      let w1 = (round_trip net binding c.remote_addr w).1 in
      let oaddr = record other { port = c.remote_addr.port } in
      let (m2, s2, e2, x2, t2, o2) = answers oaddr w1 in
      let w2 = (round_trip net binding oaddr w1).1 in
      let (m3, s3, e3, x3, t3, o3) = answers other w2 in
      ground (arith, eq_iff (show oaddr) (show oaddr))

  decided_lem :
      (c : Conn) (other : UdpAddr) (mapping : Mapping)
      → IsProper c.local_addr c.remote_addr other mapping
      → decided c other mapping ≡ mapping_class mapping
  decided_lem c other no_nat h = ground (arith, eq_iff c.local_addr c.local_addr)
  decided_lem c other (independent s) h = ground (arith, eq_iff s c.local_addr, eq_iff s s)
  decided_lem c other (by_host f) h =
      let at_host = f c.remote_addr.host in
      ground (
        arith,
        eq_iff at_host c.local_addr,
        eq_iff (f other.host) at_host,
        eq_iff (f other.host) (f other.host),
      )
  decided_lem c other (by_host_and_port f) h =
      let at_oaddr = f other.host c.remote_addr.port in
      let at_remote = f c.remote_addr.host c.remote_addr.port in
      ground (
        arith,
        eq_iff at_remote c.local_addr,
        eq_iff at_oaddr at_remote,
        eq_iff (f other.host other.port) at_oaddr,
      )

  -- With a server that answers, and behind a NAT of any class, `mappingTests` returns that class and
  -- no error.
  pub mapping_tests_class :
      (c : Conn) (w : World) (text : String) (other : UdpAddr) (mapping : Mapping)
      → Answers c text other mapping
      → resolve_udp4 text ≡ some other
      → IsProper c.local_addr c.remote_addr other mapping
      → (mapping_tests net c w).0 ≡ returned (mapping_class mapping) none
  mapping_tests_class c w text other mapping answers resolved proper =
      mapping_tests-decided c w text other mapping answers resolved
      ∙ ap (λ n. returned n none) (decided_lem c other mapping proper)

  -- If the response to test II has no RESPONSE-ORIGIN, which the code does not ask, `mappingTests`
  -- panics: test I was answered with an outside address other than the local one and with an address
  -- that resolves, and the other address answers test II.
  pub mapping_tests_panics :
      (c : Conn) (w : World) (m m2 : Message) (s s2 mapped text : String) (other : UdpAddr)
      → (round_trip net binding c.remote_addr w).0 ≡ reply m s
      → xor_address m ≡ some mapped
      → other_address m ≡ some text
      → resolve_udp4 text ≡ some other
      → mapped ≢ c.local_addr
      → (round_trip net binding
          (record other { port = c.remote_addr.port })
          (round_trip net binding c.remote_addr w).1).0
        ≡ reply m2 s2
      → response_origin m2 ≡ none
      → (mapping_tests net c w).0 ≡ panicked
  unfolding mapping_tests mapping_body mapping_test2 parse
  mapping_tests_panics c w m m2 s s2 mapped text other e1 x t r differs e2 o =
      ground (arith, eq_iff mapped c.local_addr)

  mapping_test3-IsConsistent :
      (other : UdpAddr) (text : String) (w : World)
      → IsConsistent 1 (mapping_test3 net other text w).0
  unfolding mapping_test3
  mapping_test3-IsConsistent other text w = ground arith

  mapping_test2-IsConsistent :
      (c : Conn) (other : UdpAddr) (text : String) (w : World)
      → IsConsistent 1 (mapping_test2 net c other text w).0
  unfolding mapping_test2
  mapping_test2-IsConsistent c other text w = grind (arith, mapping_test3-IsConsistent)

  -- For any server and network, `mappingTests` returns `NoResult` with an error or one of its four classes
  -- without, unless it panics.
  pub mapping_tests-IsConsistent : (c : Conn) (w : World) → IsConsistent 1 (mapping_tests net c w).0
  unfolding mapping_tests mapping_body
  mapping_tests-IsConsistent c w = grind (arith, mapping_test2-IsConsistent)
