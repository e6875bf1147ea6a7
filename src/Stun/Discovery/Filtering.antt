-- ===== src/Stun/Discovery/Filtering.antt =====
-- `filteringTests` finds the class of the NAT's filter.
use lib_sager_net_core.Common.{
  ℕ, ◌≡◌, ◌≢◌, none, some, String, Bool, true, false, eq_iff, arith, if◌then◌else◌, [], ◌∷◌,
}
use lib_sager_net_core.Stun.Server.{
  UdpAddr, timed_out, binding, change, Network, reply, failed, parse, round_trip,
}
use lib_sager_net_core.Stun.Discovery.{
  returned, IsConsistent, Conn, is_timeout, filtering_test3, filtering_test2, filtering_body,
  filtering_tests, endpoint_independent, address_dependent, address_and_port_dependent,
}

-- From where a NAT lets packets through to a socket that has sent to one address: from anywhere, from
-- the host of that address, from that address alone.
pub data Filter : Type 0 where
  from_anywhere from_host from_address : Filter

abbrev pub filter_class : Filter → ℕ
filter_class from_anywhere = endpoint_independent
filter_class from_host = address_dependent
filter_class from_address = address_and_port_dependent

abbrev pub passes_other_host : Filter → Bool
passes_other_host from_anywhere = true
passes_other_host _ = false

abbrev pub passes_other_port : Filter → Bool
passes_other_port from_address = false
passes_other_port _ = true

module _ (net : Network) where
  open net use {World, Message, resolve_udp, show, xor_address, other_address}

  -- A server that answers: a request for another host and port from `elsewhere`, one for another port
  -- from `other_port`; the answer arrives if the filter lets it through, and the client times out if
  -- not.
  pub record FilteredAnswers (c : Conn) (filter : Filter) (elsewhere other_port : String)
      : Type 0 where
    pub plain :
        (w : World)
        → (m : Message) × (s text mapped : String) × (a : UdpAddr) × ((round_trip net binding
              c.remote_addr w).0
            ≡ reply m s)
          × (xor_address m ≡ some mapped)
          × (other_address m ≡ some text)
          × (resolve_udp text ≡ some a)
    pub both :
        (w : World)
        → (m : Message) × ((round_trip net (change (0 ∷ 0 ∷ 0 ∷ 6 ∷ [])) c.remote_addr w).0
            ≡ (if passes_other_host filter then reply m elsewhere else failed timed_out))
    pub port :
        (w : World)
        → (m : Message) × ((round_trip net (change (0 ∷ 0 ∷ 0 ∷ 2 ∷ [])) c.remote_addr w).0
            ≡ (if passes_other_port filter then reply m other_port else failed timed_out))

  -- With a server that answers from other addresses when asked to, and behind a NAT with any filter,
  -- `filteringTests` returns the class of the filter and no error.
  pub filtering_tests_class :
      (c : Conn) (w : World) (filter : Filter) (elsewhere other_port : String)
      → FilteredAnswers c filter elsewhere other_port
      → elsewhere ≢ show c.remote_addr
      → other_port ≢ show c.remote_addr
      → (filtering_tests net c w).0 ≡ returned (filter_class filter) none
  unfolding filtering_tests filtering_body filtering_test2 filtering_test3 is_timeout parse
  filtering_tests_class c w filter elsewhere other_port answers h k =
      let (m, s, text, mapped, a, e1, x, t, r) = answers.plain w in
      let w1 = (round_trip net binding c.remote_addr w).1 in
      let (m2, e2) = answers.both w1 in
      let w2 = (round_trip net (change (0 ∷ 0 ∷ 0 ∷ 6 ∷ [])) c.remote_addr w1).1 in
      let (m3, e3) = answers.port w2 in
      ground (
        arith,
        e2,
        e3,
        eq_iff elsewhere (show c.remote_addr),
        eq_iff other_port (show c.remote_addr),
      )

  filtering_test3-IsConsistent : (c : Conn) (w : World) → IsConsistent 2 (filtering_test3 net c w).0
  unfolding filtering_test3
  filtering_test3-IsConsistent c w = ground arith

  filtering_test2-IsConsistent : (c : Conn) (w : World) → IsConsistent 2 (filtering_test2 net c w).0
  unfolding filtering_test2
  filtering_test2-IsConsistent c w = grind (arith, filtering_test3-IsConsistent)

  -- `filteringTests` returns `NoResult` with an error or one of its three classes without, unless it panics.
  pub filtering_tests-IsConsistent :
      (c : Conn) (w : World) → IsConsistent 2 (filtering_tests net c w).0
  unfolding filtering_tests filtering_body
  filtering_tests-IsConsistent c w = grind (arith, filtering_test2-IsConsistent)
