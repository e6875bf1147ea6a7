-- ===== src/Tun/Setup/Tests.antt =====
-- Runs of `NewTun2ray`.
use lib_sager_net_core.Common.{◌≡◌, refl, true, false, none, some, []}
use lib_sager_net_core.Instance.Life.{Instance, new_instance}
use lib_sager_net_core.Gvisor.Stack.{new_gvisor}
use lib_sager_net_core.Tun.Setup.{
  Process, TunConfig, Answers, sniffing_failed, failed, panicked, open_pcap, open_endpoint,
  open_gvisor, open_device, new_tun2ray, implementation_gvisor, implementation_system, open_system,
}

abbrev loaded : Instance
loaded = record new_instance { outbound_manager = some 1; dns_client = some 1 }

-- gVisor, with the packets written to a file.
abbrev config : TunConfig
config = record {
  file_descriptor = 5;
  protect = true;
  protector = 2;
  mtu = 1500;
  v2ray = some loaded;
  gateway4 = [];
  bind_upstream = none;
  ipv6_mode = 1;
  implementation = implementation_gvisor;
  sniffing = true;
  override_destination = false;
  debug = true;
  dump_uid = true;
  traffic_stats = true;
  pcap = true;
  error_handler = none;
}

abbrev answers : Answers
answers = record {
  mkdir_fails = false;
  created = some 9;
  event_fd_fails = false;
  sniffer_fails = true;
  nic_fails = false;
  listened = none;
  wireguard = none;
  buffer_size = 2048;
}

abbrev process : Process
process = record {
  debug_level = false;
  system_dialer = none;
  dns_dialer = none;
  ping_control = none;
  open_listeners = 0;
  open_stacks = 0;
  open_files = 3;
  open_event_fds = 2;
  device_loops = 0;
  device_connections = 0;
}

-- The system's stack without an error handler.
no_handler_panics :
    (new_tun2ray (record config { implementation = implementation_system }) answers process).1
    ≡ panicked
unfolding new_tun2ray open_device open_system
no_handler_panics = refl

-- The sniffer fails, and the file and the event descriptor stay open.
new_tun2ray_leaks : new_tun2ray config answers process ≡ (
  record process { debug_level = true; open_files = 4; open_event_fds = 3 },
  failed sniffing_failed,
)
unfolding new_tun2ray open_device open_gvisor open_pcap open_endpoint new_gvisor
new_tun2ray_leaks = refl
