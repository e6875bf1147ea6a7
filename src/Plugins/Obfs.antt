-- ===== src/Plugins/Obfs.antt =====
-- obfs.go: the plugin `obfs-local`. The parser of the options is a parameter; what is asked for is the options
-- `obfs` and `obfs-host` where they are given.
use lib_sager_net_core.Common.{
  ℕ, ◌≡◌, ◌⊎◌, Bool, true, false, Option, none, some, List, if◌then◌else◌, bytes_eq, bytes_eq_iff,
  arith,
}
use lib_sager_net_core.Common.Text.{codes}

abbrev pub Bytes : Type 0
Bytes = List ℕ

-- `obfsLocalPlugin`
pub record ObfsLocalPlugin : Type 0 where
  pub tls : Bool
  pub host : Bytes
  pub port : Bytes

abbrev pub new_plugin : ObfsLocalPlugin
new_plugin = record { tls = false; host = codes ""; port = codes "" }

pub record Options : Type 0 where
  pub obfs : Option Bytes
  pub obfs_host : Option Bytes

pub data InitError : Type 0 where
  parse_failed : InitError
  unknown_mode : Bytes → InitError

abbrev mode_of : Options → Bytes
mode_of o = elim o.obfs [ none ↦ codes "http" | some s ↦ s ]

abbrev hosted : Options → ObfsLocalPlugin → ObfsLocalPlugin
hosted o p = elim o.obfs_host [ none ↦ p | some h ↦ record p { host = h } ]

-- `Init`: the plugin after it, and its error.
unfoldable pub init :
    (parsed : Option Options)
    → (remote_port : Bytes) → ObfsLocalPlugin
    → ObfsLocalPlugin × Option InitError
init none remote_port p = (p, some parse_failed)
init (some o) remote_port p =
    let mode = mode_of o in
    if bytes_eq mode (codes "http")
    then (record (hosted o p) { port = remote_port }, none)
    else if bytes_eq mode (codes "tls")
    then (record (hosted o p) { tls = true; port = remote_port }, none)
    else (hosted o p, some (unknown_mode mode))

-- The connection that `StreamConn` puts round another.
pub data Stream : Type 0 where
  http_obfs : (host port : Bytes) → Stream
  tls_obfs : (host : Bytes) → Stream

-- `StreamConn`
unfoldable pub stream_conn : ObfsLocalPlugin → Stream
stream_conn p = if p.tls then tls_obfs p.host else http_obfs p.host p.port

abbrev host_of : Options → Bytes
host_of o = elim o.obfs_host [ none ↦ codes "" | some h ↦ h ]

-- A new plugin whose options can be parsed: with no mode or the mode http it puts the HTTP of the given host and the
-- remote port round its connections, with the mode tls the TLS of the host, and any other mode is an error.
pub init-stream_conn :
    (o : Options) (port : Bytes)
    → let (p, err) = init (some o) port new_plugin in
      (mode_of o ≡ codes "http" → (err ≡ none) × (stream_conn p ≡ http_obfs (host_of o) port))
      × (mode_of o ≡ codes "tls" → (err ≡ none) × (stream_conn p ≡ tls_obfs (host_of o)))
      × (err ≡ none → (mode_of o ≡ codes "http") ⊎ (mode_of o ≡ codes "tls"))
unfolding init stream_conn
init-stream_conn o port =
    ground (arith, bytes_eq_iff (mode_of o) (codes "http"), bytes_eq_iff (mode_of o) (codes "tls"))
