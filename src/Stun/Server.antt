-- ===== src/Stun/Server.antt =====
-- stun/stun.go: a request and its response. The socket, the server, time and the decoder of STUN
-- messages are a parameter: `write` is `c.conn.WriteTo`, and `wait` is the `select` on the message
-- channel and the timeout.
use lib_sager_net_core.Common.{
  ℕ, Option, none, some, String, List, Bool, true, false, str_eq, ◌≡◌, [], ◌∷◌, ◌++◌, min, length,
  take, if◌then◌else◌,
}
pub mod Listen

pub record UdpAddr : Type 0 where
  pub host : String
  pub port : ℕ

pub data StunError : Type 0 where
  -- `errResponseMessage`, `errTimedOut`, `errNoOtherAddress`
  response_message timed_out no_other_address : StunError
  resolve_failed : String → StunError
  -- an error of the socket, by its number
  socket_error : ℕ → StunError

-- A binding request, plain or with CHANGE-REQUEST and its four bytes.
pub data Request : Type 0 where
  binding : Request
  change : List ℕ → Request

pub record Network : Type 1 where
  pub World : Type 0
  pub Message : Type 0
  pub write : Request → UdpAddr → World → Option ℕ × World
  -- `none` for a timeout; `some none` for a closed channel; else the message and its sender
  pub wait : World → Option (Option (Message × String)) × World
  pub close : World → World
  -- the texts of the attributes that `GetFrom` finds
  pub xor_address : Message → Option String
  pub other_address : Message → Option String
  pub response_origin : Message → Option String
  -- `net.ResolveUDPAddr`, and `String` of an address
  pub resolve_udp4 : String → Option UdpAddr
  pub resolve_udp : String → Option UdpAddr
  pub show : UdpAddr → String

-- The attributes that the tests read of what `parse` returns.
pub record Parsed : Type 0 where
  pub xor_addr : Option String
  pub other_addr : Option String
  pub resp_origin : Option String

module _ (net : Network) where
  open net use {World, Message, write, wait, xor_address, other_address, response_origin}

  -- `stunResponse` or the error.
  pub data Response : Type 0 where
    reply : Message → (sender : String) → Response
    failed : StunError → Response

  unfoldable pub parse : Message → Parsed
  parse m = record {
    xor_addr = xor_address m;
    other_addr = other_address m;
    resp_origin = response_origin m;
  }

  -- `roundTrip`
  unfoldable pub round_trip : Request → UdpAddr → World → Response × World
  round_trip request addr w =
      let (err, w') = write request addr w in
      elim err [
        | some e ↦ (failed (socket_error e), w')
        | none ↦
            let (got, w'') = wait w' in
            elim got [
              | none ↦ (failed timed_out, w'')
              | some none ↦ (failed response_message, w'')
              | some (some (m, sender)) ↦ (reply m sender, w'')
            ]
      ]
