-- ===== src/Nat/Device/Pings.antt =====
-- nat/nat.go with nat/icmp.go: which packets keep their buffer, with the ICMP handlers put in. How a packet is
-- taken apart (`header.IPv4`, `header.IPv6`, `Payload`) is a parameter, and so is what `NewPingPacket` answers.
use lib_sager_net_core.Common.{
  ℕ, ◌≡◌, ◌≢◌, Bool, true, false, ◌&&◌, ◌||◌, Option, none, some, ◌==◌, arith,
}
use lib_sager_net_core.Icmp.{IpHeaders, Checksums, IcmpMessages}
use lib_sager_net_core.Icmp.Echo.{Echo, ignored, relayed, answered, process_icmpv4, process_icmpv6}
use lib_sager_net_core.Nat.Device.{Bytes, udp, icmp4, icmp6, deliver_packet}

-- What `processICMPv4` and `processICMPv6` return: whether the ping is the handler's now.
abbrev pub is_relayed : {H : Type 0} → Echo H → Bool
is_relayed ignored = false
is_relayed (relayed _ _ _ _) = true
is_relayed (answered _ _) = false

module _ (ip4 ip6 : IpHeaders) (sums : Checksums ip4) (messages4 messages6 : IcmpMessages)
    (parts4 : Bytes → ip4.Header × Bytes) (parts6 : Bytes → ip6.Header × Bytes)
    (accepts : Bytes → Bool) where
  pub icmpv4_kept : Bytes → Bool
  icmpv4_kept packet =
      is_relayed
        (process_icmpv4 ip4 messages4 sums (accepts packet) (parts4 packet).0 (parts4 packet).1)

  pub icmpv6_kept : Bytes → Bool
  icmpv6_kept packet =
      is_relayed (process_icmpv6 ip6 messages6 (accepts packet) (parts6 packet).0 (parts6 packet).1)

  -- A message that asks for an echo, with the code 0.
  abbrev pub is_request : IcmpMessages → Bytes → Bool
  is_request messages m = messages.type_of m == messages.echo && messages.code_of m == 0

  icmpv4_kept-request :
      (packet : Bytes)
      → icmpv4_kept packet ≡ (is_request messages4 (parts4 packet).1 && accepts packet)
  unfolding icmpv4_kept process_icmpv4
  icmpv4_kept-request packet = ground arith

  icmpv6_kept-request :
      (packet : Bytes)
      → icmpv6_kept packet ≡ (is_request messages6 (parts6 packet).1 && accepts packet)
  unfolding icmpv6_kept process_icmpv6
  icmpv6_kept-request packet = ground arith

  module _ (ip_version transport_protocol : Bytes → ℕ) (parse_ipv6 : Bytes → Option ℕ) where
    -- An IPv4 packet keeps its buffer exactly if it is of UDP, or an echo request that the handler takes; an IPv6
    -- packet whose headers can be parsed, likewise; and no other packet keeps its buffer.
    pub deliver_packet-kept :
        (packet : Bytes)
        → let kept =
            (deliver_packet ip_version transport_protocol parse_ipv6 icmpv4_kept icmpv6_kept
              packet).1 in
          (ip_version packet ≡ 4
            → kept ≡ (
                transport_protocol packet == udp
                || transport_protocol packet == icmp4
                  && (is_request messages4 (parts4 packet).1 && accepts packet)))
          × ((proto : ℕ)
              → ip_version packet ≡ 6
              → parse_ipv6 packet ≡ some proto
              → kept ≡ (
                  proto == udp
                  || proto == icmp6 && (is_request messages6 (parts6 packet).1 && accepts packet)))
          × (ip_version packet ≡ 6 → parse_ipv6 packet ≡ none → kept ≡ false)
          × (ip_version packet ≢ 4 → ip_version packet ≢ 6 → kept ≡ false)
    unfolding deliver_packet
    deliver_packet-kept packet =
        let e4 = icmpv4_kept-request packet in
        let e6 = icmpv6_kept-request packet in
        (
          λ v. ground (arith, e4),
          λ proto v h. ground (arith, e6, h),
          λ v h. ground (arith, h),
          λ v w. ground arith,
        )
