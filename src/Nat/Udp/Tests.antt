-- ===== src/Nat/Udp/Tests.antt =====
-- Runs of the replies to UDP packets.
use lib_sager_net_core.Common.{ℕ, ◌+◌, ◌%◌, ◌^◌, refl, [], ◌∷◌, arith}
use lib_sager_net_core.Icmp.Samples.{Plain, plain_headers, carried, words}
use lib_sager_net_core.Nat.Udp.{UdpFields, UdpHeaders, Peer, Flow, process_udp}

-- A UDP header: its fields and its checksum.
record PlainUdp : Type 0 where
  plain_fields_of : UdpFields
  plain_udp_checksum : ℕ

abbrev sum_udp : ℕ → PlainUdp → ℕ
sum_udp x u =
    let f = u.plain_fields_of in
    carried (x + f.source_port + f.destination_port + f.udp_length + u.plain_udp_checksum % 2 ^ 16)

abbrev plain_udp : UdpHeaders
plain_udp = record {
  Udp = PlainUdp;
  udp_fields = λ u. u.plain_fields_of;
  set_source_port =
      λ p u. record u { plain_fields_of = record (u.plain_fields_of) { source_port = p } };
  set_destination_port =
      λ p u. record u { plain_fields_of = record (u.plain_fields_of) { destination_port = p } };
  set_udp_length =
      λ n u. record u { plain_fields_of = record (u.plain_fields_of) { udp_length = n } };
  udp_checksum = λ u. u.plain_udp_checksum % 2 ^ 16;
  set_udp_checksum = λ c u. record u { plain_udp_checksum = c };
  calculate_udp = sum_udp;
  data_checksum = λ bytes x. carried (x + words bytes);
  pseudo_header_checksum = λ s d n. carried (words s + words d + 17 + n);
  fields-set_source_port = λ p u. refl;
  fields-set_destination_port = λ p u. refl;
  fields-set_udp_length = λ n u. refl;
  fields-set_udp_checksum = λ c u. refl;
  udp_checksum-set_udp_checksum = λ c u h. omega arith;
  calculate-complement = λ x u. omega arith;
}

abbrev query_header : Plain
query_header = record {
  plain_source = 10 ∷ 0 ∷ 0 ∷ 1 ∷ [];
  plain_destination = 8 ∷ 8 ∷ 8 ∷ 8 ∷ [];
  plain_length = 30;
  plain_checksum = 0;
}

abbrev query_udp : PlainUdp
query_udp = record {
  plain_fields_of = record { source_port = 40000; destination_port = 53; udp_length = 10 };
  plain_udp_checksum = 0;
}

abbrev other_peer : Peer
other_peer = record { address = 9 ∷ 9 ∷ 9 ∷ 9 ∷ []; port = 54 }

abbrev query_flow : Flow Plain PlainUdp
query_flow = process_udp plain_headers plain_udp query_header query_udp (7 ∷ 7 ∷ [])
