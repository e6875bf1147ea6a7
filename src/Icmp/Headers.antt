-- ===== src/Icmp/Headers.antt =====
-- nat/icmp.go, nat/udp.go, gvisor/icmp.go: an IPv4 header whose checksum is made new.
use lib_sager_net_core.Common.{◌≡◌, ◌∙◌, length, arith}
use lib_sager_net_core.Nat.Packet.{complement16}
use lib_sager_net_core.Icmp.{IpHeaders, Checksums, refreshed}

module _ (ip : IpHeaders) (sums : Checksums ip) where
  open ip use {Header, fields, header_bytes}
  open sums use {set_checksum, calculate}

  -- The new checksum is valid.
  pub refreshed-calculate : (h : Header) → calculate (refreshed ip sums h) ≡ 0xffff
  unfolding refreshed
  refreshed-calculate h =
      let q = set_checksum 0 h in
      let c = complement16 (calculate q) in
      let (low, high) = sums.calculate-bound (set_checksum c q) in
      let (_, bound) = sums.calculate-bound q in
      omega (
        arith,
        sums.calculate-set_checksum c q (omega arith),
        sums.checksum-set_checksum 0 h (omega arith),
      )

  pub fields-refreshed : (h : Header) → fields (refreshed ip sums h) ≡ fields h
  unfolding refreshed
  fields-refreshed h =
      sums.fields-set_checksum (complement16 (calculate (set_checksum 0 h))) (set_checksum 0 h)
      ∙ sums.fields-set_checksum 0 h

  pub length-refreshed :
      (h : Header) → length (header_bytes (refreshed ip sums h)) ≡ length (header_bytes h)
  unfolding refreshed
  length-refreshed h =
      sums.length-set_checksum (complement16 (calculate (set_checksum 0 h))) (set_checksum 0 h)
      ∙ sums.length-set_checksum 0 h
