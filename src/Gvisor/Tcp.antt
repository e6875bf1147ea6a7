-- ===== src/Gvisor/Tcp.antt =====
-- gvisor/tcp.go: the connections that the gVisor stack hands over. The text of an address, `strconv.Itoa` and
-- `ParseDestination` are parameters; whether the endpoint is made is an argument.
use lib_sager_net_core.Common.{
  ℕ, ◌≡◌, ◌⊎◌, inl, inr, Bool, true, false, Option, none, some, List, [], ◌∷◌, ◌++◌, if◌then◌else◌,
  arith,
}
use lib_sager_net_core.Common.Text.{codes}
use lib_sager_net_core.Url.Hosts.{join_host_port}

abbrev pub Bytes : Type 0
Bytes = List ℕ

-- `stack.TransportEndpointID`
pub record EndpointId : Type 0 where
  pub remote_address : Bytes
  pub remote_port : ℕ
  pub local_address : Bytes
  pub local_port : ℕ

-- What the handler does, in order.
pub data TcpEffect (Destination : Type 0) : Type 0 where
  create_endpoint : TcpEffect Destination
  complete : (send_reset : Bool) → TcpEffect Destination
  log : TcpEffect Destination
  new_connection : (source destination : Destination) → TcpEffect Destination

-- `gTcpConn.Close`
pub data CloseCall : Type 0 where
  close_endpoint expire_deadline close_conn : CloseCall

abbrev pub close_calls : List CloseCall
close_calls = close_endpoint ∷ expire_deadline ∷ close_conn ∷ []

module _ {Destination : Type 0} (text : Bytes → Bytes) (itoa : ℕ → Bytes)
    (parse : Bytes → Option Destination) where
  -- `fmt.Sprint("tcp:", net.JoinHostPort(…))`
  unfoldable pub address_text : Bytes → ℕ → Bytes
  address_text address port = codes "tcp:" ++ join_host_port (text address) (itoa port)

  -- From `Complete(false)` on.
  unfoldable pub hand_over : EndpointId → List (TcpEffect Destination)
  hand_over id = elim (parse (address_text id.remote_address id.remote_port)) [
    | none ↦ log ∷ []
    | some source ↦ elim (parse (address_text id.local_address id.local_port)) [
      | none ↦ log ∷ []
      | some destination ↦ new_connection source destination ∷ []
    ]
  ]

  -- The handler of `gTcpHandler`.
  unfoldable pub handle_tcp : (created : Bool) → EndpointId → List (TcpEffect Destination)
  handle_tcp created id =
      if created
      then create_endpoint ∷ complete false ∷ hand_over id
      else create_endpoint ∷ log ∷ complete true ∷ []

  -- An end of a connection, where `ParseDestination` reads the text of an address and a port.
  abbrev pub Reads : (Bytes → ℕ → Destination) → Type 0
  Reads destination_of =
      (address : Bytes) (port : ℕ)
      → parse (address_text address port) ≡ some (destination_of address port)

  -- A request is completed once, with a reset exactly where there is no endpoint for it. Where the texts of all
  -- addresses can be parsed, each endpoint that is made goes to the handler, as a connection from the remote
  -- end to the local one.
  pub handle_tcp-hands_over :
      (destination_of : Bytes → ℕ → Destination) (id : EndpointId)
      → Reads destination_of
      → (handle_tcp true id
          ≡ create_endpoint
            ∷ complete false
            ∷ new_connection
                (destination_of id.remote_address id.remote_port)
                (destination_of id.local_address id.local_port)
            ∷ [])
        × (handle_tcp false id ≡ create_endpoint ∷ log ∷ complete true ∷ [])
  unfolding handle_tcp hand_over
  handle_tcp-hands_over destination_of id reads =
      ground (arith, reads id.remote_address id.remote_port, reads id.local_address id.local_port)

  -- An endpoint whose addresses cannot be parsed is left open: nothing follows the completion but a line of the
  -- log.
  pub handle_tcp_leaks :
      (id : EndpointId)
      → (parse (address_text id.remote_address id.remote_port) ≡ none)
        ⊎ (parse (address_text id.local_address id.local_port) ≡ none)
      → handle_tcp true id ≡ create_endpoint ∷ complete false ∷ log ∷ []
  unfolding handle_tcp hand_over
  handle_tcp_leaks id (inl h) = ground (arith, h)
  handle_tcp_leaks id (inr h) = ground (arith, h)
