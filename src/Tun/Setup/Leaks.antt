-- ===== src/Tun/Setup/Leaks.antt =====
-- What `NewTun2ray` leaves open where it fails, and what `Close` gives back.
use lib_sager_net_core.Common.{
  ℕ, if◌then◌else◌, suc, ◌||◌, ◌+◌, true, none, some, Option, Bool, ◌==◌, ◌&&◌, not, is_some,
}
use lib_sager_net_core.Instance.Life.{Instance}
use lib_sager_net_core.Tun.Setup.{
  Process, TunConfig, gvisor_device, system_device, Answers, SetupError, sniffing_failed, Device,
}

-- The event descriptors that a device has, which `Close` leaves open.
abbrev pub event_fds_of : Device → ℕ
event_fds_of (gvisor_device g) = 1
event_fds_of _ = 0

-- The goroutines that read from a device, each with its entry in `v2rayNet`, which `Close` leaves, too.
abbrev pub loops_of : Device → ℕ
loops_of (system_device t) = 1
loops_of _ = 0

abbrev pub with_event_fds : ℕ → Process → Process
with_event_fds n p = record p { open_event_fds = p.open_event_fds + n }

-- What `Close` leaves of a device.
abbrev pub with_rest_of : Device → Process → Process
with_rest_of d p = record p {
  open_event_fds = p.open_event_fds + event_fds_of d;
  device_loops = p.device_loops + loops_of d;
  device_connections = p.device_connections + loops_of d;
}

-- What is left open where the device cannot be made: if the sniffer fails, the file for packets, and the event
-- descriptor of the endpoint where there is one.
abbrev pub left_open : Answers → SetupError → Process → Process
left_open a sniffing_failed p =
    with_event_fds (if a.event_fd_fails then 0 else 1) (record p { open_files = suc p.open_files })
left_open a _ p = p

-- Whether the chosen stack cannot be made: gVisor refuses the interface or has no event descriptor, or the system's
-- stack has no error handler to take the method of.
abbrev pub stack_panics : TunConfig → Answers → Bool
stack_panics c a =
    (c.implementation == 0 && (a.nic_fails || a.event_fd_fails))
    || (c.implementation == 1 && not (is_some c.error_handler))

abbrev pub lacks_outbounds : Option Instance → Bool
lacks_outbounds none = true
lacks_outbounds (some i) = not (is_some i.outbound_manager)

-- The process with neither dialers nor a control of pings.
abbrev pub without_dialers : Process → Process
without_dialers p = record p { system_dialer = none; dns_dialer = none; ping_control = none }

module _ (c : TunConfig) (a : Answers) (p : Process) where
  abbrev pub quiet : Process
  quiet = record p { debug_level = c.debug }
