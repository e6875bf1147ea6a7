-- ===== src/Nat/Forward/Checksums.antt =====
-- Every packet that nat/tcp.go writes to the device has valid checksums.
use mathlib.Core.Option
use lib_sager_net_core.Common.{ℕ, ◌≡◌, some}
use lib_sager_net_core.Nat.Address.{vlan_client4, vlan_client6}
use lib_sager_net_core.Nat.Packet.{TcpPackets, HeaderChecksums}
use lib_sager_net_core.Nat.Sessions.{LruCache}
use lib_sager_net_core.Nat.Forward.{
  partial_sum, refresh_tcp, refresh_header, process_ipv4, process_ipv6, rewrite,
}

module _ (lru : LruCache) (lib : TcpPackets) where
  open lru use {Cache}
  open lib use {Packet, view, calculate_tcp, set_tcp_checksum}

  -- The sum over the pseudo header of the packet's own addresses and length, the payload and the TCP header is all
  -- ones.
  abbrev pub HasValidTcp : Packet → Type 0
  HasValidTcp p =
      let pseudo =
        lib.pseudo_header_checksum (view p).source_address (view p).destination_address
          (lib.tcp_length p) in
      calculate_tcp (lib.checksum_combine pseudo (lib.payload_checksum p)) p ≡ 0xffff

  pub partial_sum-set_tcp_checksum :
      (n : ℕ) (p : Packet) → partial_sum lru lib (set_tcp_checksum n p) ≡ partial_sum lru lib p
  unfolding partial_sum
  partial_sum-set_tcp_checksum n p = simp (
    partial_sum, lib.view-set_tcp_checksum, lib.tcp_length-set_tcp_checksum,
    lib.payload_checksum-set_tcp_checksum,
  )

  pub refresh_tcp-HasValidTcp : (p : Packet) → HasValidTcp (refresh_tcp lru lib p)
  unfolding refresh_tcp partial_sum
  refresh_tcp-HasValidTcp p =
      rw (partial_sum-set_tcp_checksum _ (set_tcp_checksum 0 p))
        (lib.calculate_tcp-complement (partial_sum lru lib (set_tcp_checksum 0 p)) p)

  pub view-refresh_tcp : (p : Packet) → view (refresh_tcp lru lib p) ≡ view p
  unfolding refresh_tcp
  view-refresh_tcp p = simp lib.view-set_tcp_checksum

  module _ (checksums : HeaderChecksums lib) where
    open checksums use {calculate_header}

    -- The sum over the IPv4 header is all ones.
    abbrev pub HasValidHeader : Packet → Type 0
    HasValidHeader p = calculate_header p ≡ 0xffff

    pub view-refresh_header : (p : Packet) → view (refresh_header lru lib checksums p) ≡ view p
    unfolding refresh_header
    view-refresh_header p = simp checksums.view-set_header_checksum

    pub refresh-HasValidHeader :
        (p : Packet) → HasValidHeader (refresh_tcp lru lib (refresh_header lru lib checksums p))
    unfolding refresh_tcp refresh_header
    refresh-HasValidHeader p =
        simp checksums.calculate_header-set_tcp_checksum (checksums.calculate_header-complement p)

    -- A packet that `process_ipv4` writes, in whichever direction and for a known or a new session,
    -- has a valid IP header checksum and a valid TCP checksum.
    pub process_ipv4-HasValidChecksums :
        (port : ℕ) (c : Cache) (p q : Packet)
        → (process_ipv4 lru lib checksums port c p).1 ≡ some q
        → HasValidHeader q × HasValidTcp q
    unfolding process_ipv4
    process_ipv4-HasValidChecksums port c p q h =
        let (r, e, w) =
          (Option.map-eq-some_iff (λ x. refresh_tcp lru lib (refresh_header lru lib checksums x))
              (rewrite lru lib port vlan_client4 c p).1).0
            h in
        rw (← w)
          (refresh-HasValidHeader r, refresh_tcp-HasValidTcp (refresh_header lru lib checksums r))

  -- A packet that `process_ipv6` writes, in whichever direction, has a valid TCP checksum.
  pub process_ipv6-HasValidTcp :
      (port : ℕ) (c : Cache) (p q : Packet)
      → (process_ipv6 lru lib port c p).1 ≡ some q
      → HasValidTcp q
  unfolding process_ipv6
  process_ipv6-HasValidTcp port c p q h =
      let (r, e, w) =
        (Option.map-eq-some_iff (refresh_tcp lru lib) (rewrite lru lib port vlan_client6 c p).1).0
          h in
      rw (← w) (refresh_tcp-HasValidTcp r)
