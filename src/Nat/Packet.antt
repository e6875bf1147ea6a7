-- ===== src/Nat/Packet.antt =====
-- What nat/tcp.go uses of the header accessors of gVisor (`header.IPv4`, `header.IPv6`,
-- `header.TCP`). The IP header and the TCP header are views of one buffer, so there is one packet,
-- which the setters change in place. The laws are the accessors' documented behaviour: a setter
-- changes its field alone, and storing the complement of the sum makes the whole sum 0xffff.
use lib_sager_net_core.Common.{ℕ, ◌-◌, ◌≡◌}
use lib_sager_net_core.Nat.Address.{Address}

-- `^x` on a `uint16`.
abbrev pub complement16 : ℕ → ℕ
complement16 x = 0xffff - x

-- The four fields that identify a flow.
pub record Endpoints : Type 0 where
  pub source_address : Address
  pub destination_address : Address
  pub source_port : ℕ
  pub destination_port : ℕ

pub record TcpPackets : Type 1 where
  pub Packet : Type 0
  pub view : Packet → Endpoints
  pub set_source_address : Address → Packet → Packet
  pub set_destination_address : Address → Packet → Packet
  pub set_source_port : ℕ → Packet → Packet
  pub set_destination_port : ℕ → Packet → Packet
  pub set_tcp_checksum : ℕ → Packet → Packet
  -- `len(tcpHdr)` and `header.Checksum(tcpHdr.Payload(), 0)`
  pub tcp_length : Packet → ℕ
  pub payload_checksum : Packet → ℕ
  -- `tcpHdr.CalculateChecksum(partial)`
  pub calculate_tcp : ℕ → Packet → ℕ
  -- `header.ChecksumCombine` and `header.PseudoHeaderChecksum` for TCP
  pub checksum_combine : ℕ → ℕ → ℕ
  pub pseudo_header_checksum : Address → Address → ℕ → ℕ
  pub view-set_source_address :
      (a : Address) (p : Packet)
      → view (set_source_address a p) ≡ record (view p) { source_address = a }
  pub view-set_destination_address :
      (a : Address) (p : Packet)
      → view (set_destination_address a p) ≡ record (view p) { destination_address = a }
  pub view-set_source_port :
      (n : ℕ) (p : Packet) → view (set_source_port n p) ≡ record (view p) { source_port = n }
  pub view-set_destination_port :
      (n : ℕ) (p : Packet)
      → view (set_destination_port n p) ≡ record (view p) { destination_port = n }
  pub view-set_tcp_checksum : (c : ℕ) (p : Packet) → view (set_tcp_checksum c p) ≡ view p
  pub tcp_length-set_tcp_checksum :
      (c : ℕ) (p : Packet) → tcp_length (set_tcp_checksum c p) ≡ tcp_length p
  pub payload_checksum-set_tcp_checksum :
      (c : ℕ) (p : Packet) → payload_checksum (set_tcp_checksum c p) ≡ payload_checksum p
  pub calculate_tcp-complement :
      (x : ℕ) (p : Packet)
      → let q = set_tcp_checksum 0 p in
        calculate_tcp x (set_tcp_checksum (complement16 (calculate_tcp x q)) q) ≡ 0xffff

-- The checksum of the IPv4 header, which an IPv6 header does not have.
pub record HeaderChecksums (lib : TcpPackets) : Type 0 where
  pub set_header_checksum : ℕ → lib.Packet → lib.Packet
  pub calculate_header : lib.Packet → ℕ
  pub view-set_header_checksum :
      (c : ℕ) (p : lib.Packet) → lib.view (set_header_checksum c p) ≡ lib.view p
  pub calculate_header-set_tcp_checksum :
      (c : ℕ) (p : lib.Packet) → calculate_header (lib.set_tcp_checksum c p) ≡ calculate_header p
  pub calculate_header-complement :
      (p : lib.Packet)
      → let q = set_header_checksum 0 p in
        calculate_header (set_header_checksum (complement16 (calculate_header q)) q) ≡ 0xffff
