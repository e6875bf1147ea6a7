-- ===== src/Stun/Discovery.antt =====
-- stun/stun.go: `mappingTests` and `filteringTests`. Each closes its connection on every path, also
-- when it panics; reading an attribute that the response lacks is a nil dereference.
pub mod Mapping
pub mod Filtering
use lib_sager_net_core.Common.{
  ℕ, ◌≤◌, ◌≡◌, ◌≢◌, Option, none, some, String, List, [], ◌∷◌, Bool, true, false, str_eq, not,
  if◌then◌else◌,
}
use lib_sager_net_core.Stun.Server.{
  UdpAddr, StunError, timed_out, no_other_address, resolve_failed, Request, binding, change,
  Network, Parsed, reply, failed, parse, round_trip,
}

-- The results, and core.go's names for them.
abbrev pub no_result : ℕ
no_result = 0

abbrev pub endpoint_independent_no_nat : ℕ
endpoint_independent_no_nat = 1

abbrev pub endpoint_independent : ℕ
endpoint_independent = 2

abbrev pub address_dependent : ℕ
address_dependent = 3

abbrev pub address_and_port_dependent : ℕ
address_and_port_dependent = 4

pub data Outcome : Type 0 where
  returned : ℕ → Option StunError → Outcome
  panicked : Outcome

-- A run that ends without a panic gives an error exactly with `NoResult`, and else a class from `least` to 4.
abbrev pub IsConsistent : (least : ℕ) → Outcome → Type 0
IsConsistent least (returned n (some _)) = n ≡ 0
IsConsistent least (returned n none) = (least ≤ n) × (n ≤ 4)
IsConsistent least panicked = Unit

-- `stunServerConn`, without its socket.
pub record Conn : Type 0 where
  pub local_addr : String
  pub remote_addr : UdpAddr

pub is_timeout : StunError → Bool
is_timeout timed_out = true
is_timeout _ = false

module _ (net : Network) where
  open net use {World, Message, close, resolve_udp4, resolve_udp, show}

  -- Test III of `mappingTests`; `mapped` is XOR-MAPPED-ADDRESS of the last response.
  pub mapping_test3 : UdpAddr → String → World → Outcome × World
  mapping_test3 other mapped w =
      let (r, w') = round_trip net binding other w in
      elim r [
        | failed e ↦
            if is_timeout e
            then (returned address_and_port_dependent none, w')
            else (returned no_result (some e), w')
        | reply m _ ↦ elim (parse net m).xor_addr [
          | none ↦ (panicked, w')
          | some mapped3 ↦
              if str_eq mapped3 mapped
              then (returned address_dependent none, w')
              else (returned address_and_port_dependent none, w')
        ]
      ]

  -- Test II; `mapped` is XOR-MAPPED-ADDRESS of test I.
  pub mapping_test2 : Conn → UdpAddr → String → World → Outcome × World
  mapping_test2 c other mapped w =
      let oaddr = record other { port = c.remote_addr.port } in
      let (r, w') = round_trip net binding oaddr w in
      elim r [
        | failed e ↦
            if is_timeout e
            then mapping_test3 other mapped w'
            else (returned no_result (some e), w')
        | reply m _ ↦ elim (parse net m).resp_origin [
          | none ↦ (panicked, w')
          | some origin ↦
              if str_eq origin (show oaddr)
              then elim (parse net m).xor_addr [
                | none ↦ (panicked, w')
                | some mapped2 ↦
                    if str_eq mapped2 mapped
                    then (returned endpoint_independent none, w')
                    else mapping_test3 other mapped2 w'
              ]
              else (returned address_and_port_dependent none, w')
        ]
      ]

  -- `mappingTests` without the deferred `Close`.
  pub mapping_body : Conn → World → Outcome × World
  mapping_body c w =
      let (r, w') = round_trip net binding c.remote_addr w in
      elim r [
        | failed e ↦ (returned no_result (some e), w')
        | reply m _ ↦ elim (parse net m).xor_addr [
          | none ↦ (returned no_result (some no_other_address), w')
          | some mapped ↦ elim (parse net m).other_addr [
            | none ↦ (returned no_result (some no_other_address), w')
            | some text ↦ elim (resolve_udp4 text) [
              | none ↦ (returned no_result (some (resolve_failed text)), w')
              | some other ↦
                  if str_eq mapped c.local_addr
                  then (returned endpoint_independent_no_nat none, w')
                  else mapping_test2 c other mapped w'
            ]
          ]
        ]
      ]

  pub mapping_tests : Conn → World → Outcome × World
  mapping_tests c w = let (r, w') = mapping_body c w in (r, close w')

  -- Test III of `filteringTests`.
  pub filtering_test3 : Conn → World → Outcome × World
  filtering_test3 c w =
      let (r, w') = round_trip net (change (0 ∷ 0 ∷ 0 ∷ 2 ∷ [])) c.remote_addr w in
      elim r [
        | failed e ↦
            if is_timeout e
            then (returned address_and_port_dependent none, w')
            else (returned no_result (some e), w')
        | reply _ sender ↦
            if str_eq sender (show c.remote_addr)
            then (returned address_and_port_dependent none, w')
            else (returned address_dependent none, w')
      ]

  -- Test II.
  pub filtering_test2 : Conn → World → Outcome × World
  filtering_test2 c w =
      let (r, w') = round_trip net (change (0 ∷ 0 ∷ 0 ∷ 6 ∷ [])) c.remote_addr w in
      elim r [
        | failed e ↦
            if is_timeout e then filtering_test3 c w' else (returned no_result (some e), w')
        | reply _ sender ↦
            if str_eq sender (show c.remote_addr)
            then filtering_test3 c w'
            else (returned endpoint_independent none, w')
      ]

  -- `filteringTests` without the deferred `Close`.
  pub filtering_body : Conn → World → Outcome × World
  filtering_body c w =
      let (r, w') = round_trip net binding c.remote_addr w in
      elim r [
        | failed e ↦ (returned no_result (some e), w')
        | reply m _ ↦ elim (parse net m).xor_addr [
          | none ↦ (returned no_result (some no_other_address), w')
          | some _ ↦ elim (parse net m).other_addr [
            | none ↦ (returned no_result (some no_other_address), w')
            | some text ↦ elim (resolve_udp text) [
              | none ↦ (returned no_result (some (resolve_failed text)), w')
              | some _ ↦ filtering_test2 c w'
            ]
          ]
        ]
      ]

  pub filtering_tests : Conn → World → Outcome × World
  filtering_tests c w = let (r, w') = filtering_body c w in (r, close w')
