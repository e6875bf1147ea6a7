-- ===== src/Protect.antt =====
-- protect.go: the dialer that protects its sockets from the VPN before it connects them. The system
-- calls of one `dial` answer as `Outcomes` says, and `dial` gives the calls it makes, in order, with
-- its result, the pair `(conn, err)`.
pub mod Sockets
pub mod Order
mod Tests
use lib_sager_net_core.Common.{
  ℕ, Bool, true, false, Option, none, some, List, [], ◌∷◌, ◌++◌, if◌then◌else◌, is_some, ◌==◌,
  length, ◌&&◌, take, replicate, String,
}

pub data NetworkType : Type 0 where
  network_unknown network_tcp network_udp network_unix : NetworkType

-- `v2rayNet.Address`: a domain, or an IP address with whether it is of the IPv4 family.
pub data DialAddress : Type 0 where
  domain : String → DialAddress
  ip : (is_ipv4 : Bool) (bytes : List ℕ) → DialAddress

-- `v2rayNet.Destination`; `none` is a nil address.
pub record DialDestination : Type 0 where
  pub address : Option DialAddress
  pub port : ℕ
  pub network : NetworkType

pub data DialError : Type 0 where
  -- an error of the resolver, of a system call or of package `net`, by its number
  system : ℕ → DialError
  empty_response protect_failed unknown_network no_file : DialError

pub data AddressFamily : Type 0 where
  af_inet af_inet6 : AddressFamily

pub data SocketType : Type 0 where
  sock_stream_tcp sock_dgram_udp sock_stream : SocketType

-- `unix.SockaddrInet4` and `unix.SockaddrInet6`
pub data SockAddr : Type 0 where
  inet4 inet6 : (port : ℕ) (addr : List ℕ) → SockAddr

pub data Call : Type 0 where
  socket : AddressFamily → SocketType → Call
  protect : ℕ → Call
  apply_sockopt : ℕ → Call
  connect : ℕ → SockAddr → Call
  bind : ℕ → SockAddr → Call
  close : ℕ → Call
  file_packet_conn : ℕ → Call
  file_conn : ℕ → Call
  -- the deferred `file.Close()`, which closes the descriptor
  close_file : ℕ → Call

-- What the outside answers in one `dial`.
pub record Outcomes : Type 0 where
  -- `unix.Socket`: a descriptor, or `none` with an error number
  pub socket_fd : Option ℕ
  pub socket_error : ℕ
  -- `dialer.protector.Protect`
  pub protected : Bool
  -- `unix.Connect` or `unix.Bind`
  pub link_error : Option ℕ
  -- whether `os.NewFile` gives a file
  pub has_file : Bool
  -- `net.FilePacketConn` or `net.FileConn`: an error, or the connection below
  pub conn_error : Option ℕ
  -- `net.ResolveUDPAddr`
  pub resolve_error : Option ℕ
  pub conn : ℕ

abbrev pub DialResult : Type 0
DialResult = Option ℕ × Option DialError

abbrev pub is_ipv4 : Option DialAddress → Bool
is_ipv4 (some (ip b _)) = b
is_ipv4 _ = false

-- `destination.Address.IP()`
abbrev pub ip_of : Option DialAddress → List ℕ
ip_of (some (ip _ bytes)) = bytes
ip_of _ = []

-- `copy(socketAddress.Addr[:], destIp)` into an array of `n` zero bytes.
pub copy_into : ℕ → List ℕ → List ℕ
copy_into n bytes = take n (bytes ++ replicate n 0)

pub is_tcp : NetworkType → Bool
is_tcp network_tcp = true
is_tcp _ = false

-- The socket that `getFd` asks for; `none` for an unknown network.
pub fd_request : DialDestination → Option (AddressFamily × SocketType)
fd_request d =
    let af = if is_tcp d.network && is_ipv4 d.address then af_inet else af_inet6 in
    elim d.network [
      | network_tcp ↦ some (af, sock_stream_tcp)
      | network_udp ↦ some (af, sock_dgram_udp)
      | network_unix ↦ some (af, sock_stream)
      | network_unknown ↦ none
    ]

-- The `connect` or `bind` of `dial`; other networks make no call.
pub link_call : ℕ → DialDestination → List Call
link_call fd d = elim d.network [
  | network_tcp ↦
      connect fd (
        if is_ipv4 d.address
        then inet4 d.port (copy_into 4 (ip_of d.address))
        else inet6 d.port (copy_into 16 (ip_of d.address)))
      ∷ []
  | network_udp ↦ bind fd (inet6 0 (replicate 16 0)) ∷ []
  | _ ↦ []
]

-- The error of `connect` or `bind`; other networks make no such call.
pub link_result : Outcomes → DialDestination → Option ℕ
link_result o d = elim d.network [
  | network_tcp ↦ o.link_error
  | network_udp ↦ o.link_error
  | _ ↦ none
]

-- From `os.NewFile` on. For UDP the error of `net.FilePacketConn` is a variable of its own, which
-- the final `return` does not see.
pub hand_over : Outcomes → ℕ → DialDestination → List Call × DialResult
hand_over o fd d =
    if o.has_file
    then elim d.network [
      | network_udp ↦ (
        file_packet_conn fd ∷ close_file fd ∷ [],
        elim o.conn_error [
          | some _ ↦ (none, none)
          | none ↦ elim o.resolve_error [
            | some e ↦ (none, some (system e))
            | none ↦ (some o.conn, none)
          ]
        ],
      )
      | _ ↦ (
        file_conn fd ∷ close_file fd ∷ [],
        elim o.conn_error [ some e ↦ (none, some (system e)) | none ↦ (some o.conn, none) ],
      )
    ]
    else ([], (none, some no_file))

-- `dial` from the protection of the descriptor on; `sockopt` tells whether there are socket options.
pub dial_fd : Outcomes → (sockopt : Bool) → ℕ → DialDestination → List Call × DialResult
unfolding link_call link_result hand_over
dial_fd o sockopt fd d =
    let options = (if sockopt then apply_sockopt fd ∷ [] else []) ++ link_call fd d in
    let (calls, r) = hand_over o fd d in
    if o.protected
    then elim (link_result o d) [
      | some e ↦ (protect fd ∷ (options ++ close fd ∷ []), (none, some (system e)))
      | none ↦ (protect fd ∷ (options ++ calls), r)
    ]
    else (protect fd ∷ close fd ∷ [], (none, some protect_failed))

-- `protectedDialer.dial`
pub dial : Outcomes → (sockopt : Bool) → DialDestination → List Call × DialResult
unfolding fd_request dial_fd
dial o sockopt d = elim (fd_request d) [
  | none ↦ ([], (none, some unknown_network))
  | some (af, kind) ↦ elim o.socket_fd [
    | none ↦ (socket af kind ∷ [], (none, some (system o.socket_error)))
    | some fd ↦ let (calls, r) = dial_fd o sockopt fd d in (socket af kind ∷ calls, r)
  ]
]

-- `protectedDialer.Dial`, over the results of `dial` at each address. The resolver and
-- `v2rayNet.IPAddress` are parameters.
pub data Dialled : Type 0 where
  panicked : Dialled
  returned : DialResult → Dialled

module _ (resolve : String → Option (List (List ℕ)) × Option DialError)
    (ip_address : List ℕ → DialAddress) (dial_at : DialDestination → DialResult) where
  -- The loop over the addresses after the first, with the result so far.
  pub dial_next : DialDestination → DialResult → List (List ℕ) → DialResult
  dial_next d last [] = last
  dial_next d last (x ∷ xs) =
      let rest = dial_next d (dial_at (record d { address = some (ip_address x) })) xs in
      if is_some last.1 then rest else last

  pub dial_each : DialDestination → List (List ℕ) → DialResult
  unfolding dial_next
  dial_each d [] = (none, none)
  dial_each d (x ∷ xs) = dial_next d (dial_at (record d { address = some (ip_address x) })) xs

  -- The addresses to dial, or the error of the lookup.
  pub addresses : DialAddress → Option (List (List ℕ)) × Option DialError
  addresses (domain name) =
      let (ips, err) = resolve name in
      elim err [
        | some e ↦ (none, some e)
        | none ↦ elim ips [
          | none ↦ (none, some empty_response)
          | some [] ↦ (none, some empty_response)
          | some (x ∷ xs) ↦ (some (x ∷ xs), none)
        ]
      ]
  addresses (ip _ bytes) = (some (bytes ∷ []), none)

  pub is_unknown : NetworkType → Bool
  is_unknown network_unknown = true
  is_unknown _ = false

  pub dial_addresses : DialDestination → DialAddress → DialResult
  unfolding addresses dial_each
  dial_addresses d a =
      let (ips, err) = addresses a in
      elim err [
        | some e ↦ (none, some e)
        | none ↦ elim ips [ none ↦ (none, none) | some xs ↦ dial_each d xs ]
      ]

  pub dial_system : DialDestination → Dialled
  unfolding is_unknown dial_addresses
  dial_system d =
      if is_unknown d.network
      then panicked
      else elim d.address [ none ↦ panicked | some a ↦ returned (dial_addresses d a) ]
