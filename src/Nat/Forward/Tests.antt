-- ===== src/Nat/Forward/Tests.antt =====
-- Runs of `processIPv4` and `processIPv6` on small packets.
use lib_sager_net_core.Common.{◌≡◌, refl, some, [], ◌∷◌}
use lib_sager_net_core.Nat.Samples.{
  table, small, small_header, SmallPacket, listener_port, empty, request, response,
}
use lib_sager_net_core.Nat.Forward.{
  process_ipv4, process_ipv6, rewrite, refresh_tcp, refresh_header, to_listener,
}
use lib_sager_net_core.Nat.Forward.Checksums.{
  HasValidHeader, HasValidTcp, process_ipv4-HasValidChecksums,
}
use lib_sager_net_core.Nat.Forward.Rewrite.{swap}

-- What is written for the request.
abbrev translated : SmallPacket
translated = refresh_tcp table small (
    refresh_header table small small_header
      (to_listener table small listener_port (172 ∷ 19 ∷ 0 ∷ 1 ∷ []) request))

abbrev translated6 : SmallPacket
translated6 = refresh_tcp table small (
    to_listener table small listener_port
      (0xfd ∷ 0xfe ∷ 0xdc ∷ 0xba ∷ 0x98 ∷ 0x76 ∷ 0 ∷ 0 ∷ 0 ∷ 0 ∷ 0 ∷ 0 ∷ 0 ∷ 0 ∷ 0 ∷ 0x1 ∷ [])
      request)

request_is_translated :
    (process_ipv4 table small small_header listener_port empty request).1 ≡ some translated
unfolding process_ipv4 rewrite
request_is_translated = refl

request_is_translated6 : (process_ipv6 table small listener_port empty request).1 ≡ some translated6
unfolding process_ipv6 rewrite
request_is_translated6 = refl

process_ipv4-HasValidChecksums_example :
    HasValidHeader table small small_header translated × HasValidTcp table small translated
process_ipv4-HasValidChecksums_example =
    process_ipv4-HasValidChecksums table small small_header listener_port empty request translated
      request_is_translated

response_answers : response.endpoints ≡ swap translated.endpoints
unfolding refresh_tcp refresh_header to_listener
response_answers = refl

-- The answer of the listener in IPv6.
abbrev response6 : SmallPacket
response6 = record response {
  endpoints = record response.endpoints {
    source_address =
        0xfd ∷ 0xfe ∷ 0xdc ∷ 0xba ∷ 0x98 ∷ 0x76 ∷ 0 ∷ 0 ∷ 0 ∷ 0 ∷ 0 ∷ 0 ∷ 0 ∷ 0 ∷ 0 ∷ 0x1 ∷ [];
  };
}

response_answers6 : response6.endpoints ≡ swap translated6.endpoints
unfolding refresh_tcp to_listener
response_answers6 = refl
