-- ===== src/Stun/Session.antt =====
-- stun/stun.go: `connect` and `Test`, and core.go: `StunTest`.
pub mod Complete
use lib_sager_net_core.Common.{
  ℕ, ◌≡◌, ◌≢◌, Option, none, some, String, Bool, true, false, str_eq, if◌then◌else◌,
}
use lib_sager_net_core.Stun.Server.{UdpAddr, StunError, socket_error, resolve_failed, Network}
use lib_sager_net_core.Stun.Discovery.{
  Outcome, returned, panicked, Conn, no_result, mapping_tests, filtering_tests,
}

-- What the outside answers to `connect`: the server's address, whether the SOCKS port can be dialled,
-- whether a UDP socket to the relay of the handshake can be, and whether a plain UDP socket can be
-- opened; and the address of the socket that is used.
pub record ConnectAnswers : Type 0 where
  pub server : Option UdpAddr
  pub tcp_dialled : Bool
  pub udp_dialled : Bool
  pub listen_error : Option ℕ
  pub local_addr : String

pub data Connected : Type 0 where
  -- the connection, and whether it goes through the SOCKS proxy
  connected : Conn → (socks : Bool) → Connected
  connect_failed : StunError → Connected

-- `connect`
pub connect : String → ConnectAnswers → Connected
connect addr o = elim o.server [
  | none ↦ connect_failed (resolve_failed addr)
  | some server ↦
      let conn : Conn = record { local_addr = o.local_addr; remote_addr = server } in
      if o.tcp_dialled
      then (if o.udp_dialled then connected conn true else elim o.listen_error [
        | some e ↦ connect_failed (socket_error e)
        | none ↦ connected conn false
      ])
      else elim o.listen_error [
        | some e ↦ connect_failed (socket_error e)
        | none ↦ connected conn false
      ]
]

-- The named results of `Test`, or its panic.
pub data TestOutcome : Type 0 where
  tested : (mapping filtering : ℕ) → Option StunError → TestOutcome
  crashed : TestOutcome

abbrev pub default_server : String
default_server = "stun.syncthing.net:3478"

module _ (net : Network)
    (answer : String → Network.World net → ConnectAnswers × Network.World net) where
  open net use {World}

  -- The second half of `Test`: a new connection for `filteringTests`.
  pub test_filtering : String → (mapping : ℕ) → World → TestOutcome × World
  test_filtering addr mapping w =
      let (o, w') = answer addr w in
      elim (connect addr o) [
        | connect_failed e ↦ (tested mapping no_result (some e), w')
        | connected c _ ↦
            let (r, w'') = filtering_tests net c w' in
            elim r [
              | returned filtering err ↦ (tested mapping filtering err, w'')
              | panicked ↦ (crashed, w'')
            ]
      ]

  -- `Test`. After an error no further connection is made.
  pub test : String → World → TestOutcome × World
  test addr_str w =
      let addr = if str_eq addr_str "" then default_server else addr_str in
      let (o, w') = answer addr w in
      elim (connect addr o) [
        | connect_failed e ↦ (tested no_result no_result (some e), w')
        | connected c _ ↦
            let (r, w'') = mapping_tests net c w' in
            elim r [
              | returned mapping err ↦ elim err [
                | some e ↦ (tested mapping no_result (some e), w'')
                | none ↦ test_filtering addr mapping w''
              ]
              | panicked ↦ (crashed, w'')
            ]
      ]

  -- `StunTest` of core.go: the two results or the error; `none` is a panic.
  pub stun_test : String → World → Option (Option (ℕ × ℕ) × Option StunError)
  stun_test addr w = elim (test addr w).0 [
    | crashed ↦ none
    | tested mapping filtering err ↦ elim err [
      | some e ↦ some (none, some e)
      | none ↦ some (some (mapping, filtering), none)
    ]
  ]
