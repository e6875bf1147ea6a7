-- ===== src/Nat/Opening.antt =====
-- nat/nat.go, `New` and `Close`, and nat/tcp.go, `newTcpForwarder` and `Close`: the stack is made and given up.
-- What the system answers is an argument.
use lib_sager_net_core.Common.{
  ℕ, ◌%◌, Bool, true, false, Option, none, some, List, [], ◌∷◌, if◌then◌else◌, ◌==◌, replicate,
}
use lib_sager_net_core.Dns.{ipv6_disable}
use lib_sager_net_core.Nat.Address.{Address, vlan_client4}

-- The loops that run.
pub data Goroutine : Type 0 where
  accepting reading : Goroutine

-- `tcpForwarder`; `tcp4` tells whether the network is `tcp4` and not `tcp`.
pub record TcpForwarder : Type 0 where
  pub tcp4 : Bool
  pub ip : Address
  pub port : ℕ
  pub listening : Bool

-- `newTcpForwarder`: `listened` is the port that `net.ListenTCP` gives, `none` for an error.
unfoldable pub new_tcp_forwarder : (ipv6_mode : ℕ) → (listened : Option ℕ) → Option TcpForwarder
new_tcp_forwarder mode none = none
new_tcp_forwarder mode (some port) =
    if mode == ipv6_disable
    then some (record { tcp4 = true; ip = vlan_client4; port = port % 65536; listening = true })
    else some (record { tcp4 = false; ip = replicate 16 0; port = port % 65536; listening = true })

-- `SystemTun`
pub record SystemTun : Type 0 where
  pub dev : ℕ
  pub mtu : ℕ
  pub ipv6_mode : ℕ
  pub tcp_forwarder : TcpForwarder
  pub running : List Goroutine

-- `New`
unfoldable pub new_system : (dev mtu ipv6_mode : ℕ) → (listened : Option ℕ) → Option SystemTun
unfolding new_tcp_forwarder
new_system dev mtu mode listened = elim (new_tcp_forwarder mode listened) [
  | none ↦ none
  | some forwarder ↦ some (record {
    dev = dev;
    mtu = mtu;
    ipv6_mode = mode;
    tcp_forwarder = forwarder;
    running = accepting ∷ reading ∷ [];
  })
]

-- `Close`, which closes the listener.
unfoldable pub close_system : SystemTun → SystemTun
close_system t = record t { tcp_forwarder = record (t.tcp_forwarder) { listening = false } }
