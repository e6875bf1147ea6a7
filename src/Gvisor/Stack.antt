-- ===== src/Gvisor/Stack.antt =====
-- gvisor/gvisor.go: the gVisor stack is made and closed. What the packages of gVisor answer is an argument.
use lib_sager_net_core.Common.{
  ℕ, ◌≡◌, ◌≢◌, ◌↔◌, Bool, true, false, Option, none, some, List, [], ◌∷◌, ◌&&◌, if◌then◌else◌,
  arith,
}
use lib_sager_net_core.Dns.{ipv6_disable, ipv6_only}
use lib_sager_net_core.Gvisor.Udp.{
  StackProtocol, net_ipv4, net_ipv6, transport_tcp, transport_udp, transport_icmp4, transport_icmp6,
  stack_options,
}

-- `header.IPv4EmptySubnet` and `header.IPv6EmptySubnet`
pub data Subnet : Type 0 where
  all_ipv4 all_ipv6 : Subnet

-- A `stack.Stack` with its one interface.
pub record Stack : Type 0 where
  pub network_protocols : List StackProtocol
  pub transport_protocols : List StackProtocol
  pub routes : List (Subnet × ℕ)
  -- of the buffers for sending and for receiving: the least, the default and the greatest size
  pub send_buffers : ℕ × ℕ × ℕ
  pub receive_buffers : ℕ × ℕ × ℕ
  pub sack_enabled : Bool
  pub moderate_receive_buffer : Bool
  -- the protocols with a handler of this package
  pub handlers : List StackProtocol
  pub nic : ℕ
  pub spoofing : Bool
  pub promiscuous : Bool

-- `GVisor`; `sniffed` tells whether the endpoint is that of the sniffer.
pub record GVisor : Type 0 where
  pub stack : Stack
  pub sniffed : Bool
  pub pcap_file : Option ℕ

pub data Making : Type 0 where
  made : GVisor → Making
  -- `sniffer.NewWithWriter` fails
  sniffer_failed : Making
  -- `gMust` panics
  must_panicked : Making

-- The stack of `New`; `size` is `buf.Size`.
unfoldable pub new_stack : (size nic ipv6_mode : ℕ) → Stack
new_stack size nic mode =
    let (network, transport) = stack_options mode in
    record {
      network_protocols = network;
      transport_protocols = transport;
      routes = (all_ipv4, nic) ∷ (all_ipv6, nic) ∷ [];
      send_buffers = (1, size, size);
      receive_buffers = (1, size, size);
      sack_enabled = true;
      moderate_receive_buffer = true;
      handlers = transport_tcp ∷ transport_udp ∷ transport_icmp4 ∷ transport_icmp6 ∷ [];
      nic = nic;
      spoofing = true;
      promiscuous = true;
    }

-- `New`; `nic_fails` is whether one of the three calls under `gMust` gives an error.
unfoldable pub new_gvisor :
    (size nic ipv6_mode : ℕ)
    → (pcap : Bool) → (pcap_file : Option ℕ) → (sniffer_fails nic_fails : Bool) → Making
new_gvisor size nic mode pcap pcap_file sniffer_fails nic_fails =
    if pcap && sniffer_fails
    then sniffer_failed
    else if nic_fails
    then must_panicked
    else made (record { stack = new_stack size nic mode; sniffed = pcap; pcap_file = pcap_file })

-- What `Close` closes.
pub data Closing : Type 0 where
  close_stack : Closing
  close_file : ℕ → Closing

-- `Close`
unfoldable pub close_gvisor : GVisor → List Closing
close_gvisor t = elim t.pcap_file [
  | none ↦ close_stack ∷ []
  | some f ↦ close_stack ∷ close_file f ∷ []
]

-- `(*pcapFileWrapper).Write`: the count that is reported, of the count of the write and of its error.
unfoldable pub write_pcap : (written : ℕ) → (fails : Bool) → ℕ × Bool
write_pcap n fails = (n, false)

-- The four kinds of protocol, as tests.
abbrev pub is_version4 : StackProtocol → Bool
is_version4 net_ipv4 = true
is_version4 _ = false

abbrev pub is_version6 : StackProtocol → Bool
is_version6 net_ipv6 = true
is_version6 _ = false

abbrev pub is_icmp4 : StackProtocol → Bool
is_icmp4 transport_icmp4 = true
is_icmp4 _ = false

abbrev pub is_icmp6 : StackProtocol → Bool
is_icmp6 transport_icmp6 = true
is_icmp6 _ = false

abbrev pub any : (StackProtocol → Bool) → List StackProtocol → Bool
any p [] = false
any p (x ∷ xs) = if p x then true else any p xs

-- In every mode, a stack has the ICMP of a version exactly if it has the version, and it has one of the two.
pub new_stack_versions :
    (size nic mode : ℕ)
    → let s = new_stack size nic mode in
      (any is_icmp4 s.transport_protocols ≡ any is_version4 s.network_protocols)
      × (any is_icmp6 s.transport_protocols ≡ any is_version6 s.network_protocols)
      × ((any is_version4 s.network_protocols ≡ true) ↔ (mode ≢ ipv6_only))
      × ((any is_version6 s.network_protocols ≡ true) ↔ (mode ≢ ipv6_disable))
unfolding new_stack stack_options
new_stack_versions size nic mode = ground arith
