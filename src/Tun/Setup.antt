-- ===== src/Tun/Setup.antt =====
-- tun.go: `NewTun2ray` and `Close`, on what the process keeps: the dialers of v2ray, the control of its pings, and
-- what is open. What the system and the packages of v2ray answer is an argument.
pub mod Leaks
mod Tests
use lib_sager_net_core.Common.{
  ℕ, suc, ◌+◌, ◌-◌, ◌%◌, Bool, true, false, ◌||◌, Option, none, some, List, [], ◌∷◌, if◌then◌else◌,
  ◌==◌,
}
use lib_sager_net_core.Instance.Life.{Instance}
use lib_sager_net_core.Gvisor.Stack.{
  GVisor, Making, made, sniffer_failed, must_panicked, new_gvisor, Closing, close_stack, close_file,
  close_gvisor,
}
use lib_sager_net_core.Nat.Opening.{SystemTun, new_system, close_system}

-- `config.Protector` by its number, or `noopProtectorInstance`.
pub data Protector : Type 0 where
  protector : ℕ → Protector
  noop_protector : Protector

pub data Resolver : Type 0 where
  -- `LookupDefault` of an instance's `dnsClient`, which is nil for `none`
  instance_resolver : (dns_client : Option ℕ) → Resolver
  localhost_resolver : Resolver

pub record ProtectedDialer : Type 0 where
  pub protector : Protector
  pub resolver : Resolver

pub data PingControl : Type 0 where
  bind_upstream : ℕ → PingControl
  protect_and_bind : Protector → PingControl

-- The variables of the process that the two functions set, and how many of each kind are open.
pub record Process : Type 0 where
  pub debug_level : Bool
  pub system_dialer : Option ProtectedDialer
  pub dns_dialer : Option ProtectedDialer
  pub ping_control : Option PingControl
  pub open_listeners : ℕ
  pub open_stacks : ℕ
  pub open_files : ℕ
  pub open_event_fds : ℕ
  -- the goroutines that read from a system device, and the entries of `v2rayNet` that they register for it;
  -- the goroutine of the gVisor endpoint is started and stopped by gVisor's stack, and not counted
  pub device_loops : ℕ
  pub device_connections : ℕ

-- `TunConfig`
pub record TunConfig : Type 0 where
  pub file_descriptor : ℕ
  pub protect : Bool
  pub protector : ℕ
  pub mtu : ℕ
  -- `none` is nil
  pub v2ray : Option Instance
  pub gateway4 : List ℕ
  pub bind_upstream : Option ℕ
  pub ipv6_mode : ℕ
  pub implementation : ℕ
  pub sniffing : Bool
  pub override_destination : Bool
  pub debug : Bool
  pub dump_uid : Bool
  pub traffic_stats : Bool
  pub pcap : Bool
  -- by its number; `none` is nil
  pub error_handler : Option ℕ

pub data Device : Type 0 where
  no_device : Device
  gvisor_device : GVisor → Device
  system_device : SystemTun → Device

-- `Tun2ray`, as far as `NewTun2ray` sets it.
pub record Tun2ray : Type 0 where
  pub dev : Device
  pub router : List ℕ
  pub v2ray : Instance
  pub sniffing : Bool
  pub override_destination : Bool
  pub debug : Bool
  pub dump_uid : Bool
  pub traffic_stats : Bool
  pub default_outbound_for_ping : Option ℕ

pub record Answers : Type 0 where
  pub mkdir_fails : Bool
  -- `os.Create` of the file for packets
  pub created : Option ℕ
  -- `newStopFd`, under `newRwEndpoint`; where it fails there is no endpoint, which `CreateNIC` panics on
  pub event_fd_fails : Bool
  pub sniffer_fails : Bool
  pub nic_fails : Bool
  -- `net.ListenTCP`
  pub listened : Option ℕ
  -- the default handler, where its outbound is of WireGuard
  pub wireguard : Option ℕ
  -- `buf.Size`
  pub buffer_size : ℕ

pub data SetupError : Type 0 where
  pcap_dir_failed pcap_file_failed sniffing_failed listening_failed : SetupError

pub data Outcome (A : Type 0) : Type 0 where
  returned : A → Outcome A
  failed : SetupError → Outcome A
  panicked : Outcome A

-- `comm.TunImplementationGVisor` and `comm.TunImplementationSystem`; `gvisor.DefaultNIC`.
abbrev pub implementation_gvisor : ℕ
implementation_gvisor = 0

abbrev pub implementation_system : ℕ
implementation_system = 1

abbrev pub default_nic : ℕ
default_nic = 1

-- The file for packets.
unfoldable pub open_pcap : TunConfig → Answers → Process → Process × Outcome (Option ℕ)
open_pcap c a p =
    if c.pcap
    then (if a.mkdir_fails then (p, failed pcap_dir_failed) else elim a.created [
      | none ↦ (p, failed pcap_file_failed)
      | some f ↦ (record p { open_files = suc p.open_files }, returned (some f))
    ])
    else (p, returned none)

-- `newRwEndpoint`, of which the error is dropped.
unfoldable pub open_endpoint : Answers → Process → Process
open_endpoint a p =
    if a.event_fd_fails then p else record p { open_event_fds = suc p.open_event_fds }

-- The case of gVisor.
unfoldable pub open_gvisor : TunConfig → Answers → Process → Process × Outcome Device
unfolding open_pcap open_endpoint
open_gvisor c a p =
    let (p1, file) = open_pcap c a p in
    let p2 = open_endpoint a p1 in
    elim file [
      | failed e ↦ (p1, failed e)
      | panicked ↦ (p1, panicked)
      | returned f ↦
          elim (new_gvisor a.buffer_size default_nic c.ipv6_mode c.pcap f a.sniffer_fails
            (a.nic_fails || a.event_fd_fails)) [
              | made g ↦
                  (record p2 { open_stacks = suc p2.open_stacks }, returned (gvisor_device g))
              | sniffer_failed ↦ (p2, failed sniffing_failed)
              | must_panicked ↦ (record p2 { open_stacks = suc p2.open_stacks }, panicked)
            ]
    ]

-- The case of the system's stack. The method of a nil `ErrorHandler` cannot be taken. The goroutine of
-- `dispatchLoop` that `nat.New` starts reads from the device until a read fails, and it keeps the device registered
-- as long.
unfoldable pub open_system : TunConfig → Answers → Process → Process × Outcome Device
open_system c a p = elim c.error_handler [
  | none ↦ (p, panicked)
  | some _ ↦ elim (new_system c.file_descriptor c.mtu c.ipv6_mode a.listened) [
    | none ↦ (p, failed listening_failed)
    | some t ↦ (
      record p {
        open_listeners = suc p.open_listeners;
        device_loops = suc p.device_loops;
        device_connections = suc p.device_connections;
      },
      returned (system_device t),
    )
  ]
]

-- The choice of the implementation.
unfoldable pub open_device : TunConfig → Answers → Process → Process × Outcome Device
open_device c a p =
    if c.implementation == implementation_gvisor
    then open_gvisor c a p
    else if c.implementation == implementation_system
    then open_system c a p
    else (p, returned no_device)

unfoldable pub protector_of : TunConfig → Protector
protector_of c = if c.protect then protector c.protector else noop_protector

unfoldable pub ping_control_of : TunConfig → PingControl
ping_control_of c = elim c.bind_upstream [
  | some b ↦ bind_upstream b
  | none ↦ protect_and_bind (protector_of c)
]

-- From the device on, for an instance: the dialer and the control are set before the outbounds are asked for, which
-- panics for an instance without them.
unfoldable pub install_for :
    TunConfig → Instance → Answers → Process → Device → Process × Outcome Tun2ray
install_for c instance_used a p dev =
    let p' : Process = record p {
      system_dialer = some (record {
        protector = protector_of c;
        resolver = instance_resolver (instance_used.dns_client);
      });
      ping_control = some (ping_control_of c);
    } in
    elim instance_used.outbound_manager [
      | none ↦ (p', panicked)
      | some _ ↦ (
        record p' {
          dns_dialer = some (record { protector = protector_of c; resolver = localhost_resolver });
        },
        returned (record {
          dev = dev;
          router = c.gateway4;
          v2ray = instance_used;
          sniffing = c.sniffing;
          override_destination = c.override_destination;
          debug = c.debug;
          dump_uid = c.dump_uid;
          traffic_stats = c.traffic_stats;
          default_outbound_for_ping = a.wireguard;
        }),
      )
    ]

-- From the device on: the field `dnsClient` of a nil instance cannot be read.
unfoldable pub install : TunConfig → Answers → Process → Device → Process × Outcome Tun2ray
unfolding install_for
install c a p dev = elim c.v2ray [ none ↦ (p, panicked) | some i ↦ install_for c i a p dev ]

-- `NewTun2ray`
unfoldable pub new_tun2ray : TunConfig → Answers → Process → Process × Outcome Tun2ray
new_tun2ray c a p =
    let (p', opened) = open_device c a (record p { debug_level = c.debug }) in
    elim opened [
      | failed e ↦ (p', failed e)
      | panicked ↦ (p', panicked)
      | returned dev ↦ install c a p' dev
    ]

-- What the device's `Close` gives up.
unfoldable pub give_up : List Closing → Process → Process
give_up [] p = p
give_up (close_stack ∷ cs) p = give_up cs (record p { open_stacks = p.open_stacks - 1 })
give_up (close_file f ∷ cs) p = give_up cs (record p { open_files = p.open_files - 1 })

-- `comm.CloseIgnore(t.dev)`, which skips nil; a listener that is closed is not closed again.
-- `SystemTun.Close` closes the listener alone: the goroutine that reads from the device, and its entry in `v2rayNet`,
-- stay.
unfoldable pub close_device : Device → Process → Process
close_device no_device p = p
close_device (gvisor_device g) p = give_up (close_gvisor g) p
close_device (system_device t) p =
    if t.tcp_forwarder.listening then record p { open_listeners = p.open_listeners - 1 } else p

-- `Close`
unfoldable pub close_tun2ray : Tun2ray → Process → Process
close_tun2ray t p =
    close_device t.dev (record p { ping_control = none; system_dialer = none; dns_dialer = none })
