-- ===== src/Plugins/Tests.antt =====
-- Runs of the plugins.
use lib_sager_net_core.Common.{ℕ, ◌≡◌, refl, Option, none, some, [], ◌∷◌, take, arith}
use lib_sager_net_core.Plugins.Ssr.{
  Bytes, Buffer, encode_packet, decode_packet, after_iv, decode_packet-encode_packet,
}

-- A protocol that puts a byte before the packet.
abbrev encode : Bytes → Option Bytes
encode bytes = some (7 ∷ bytes)

abbrev decode : Bytes → Option Bytes
decode [] = none
decode (b ∷ bytes) = some bytes

abbrev datagram : Buffer ℕ
datagram = record { bytes = 1 ∷ 2 ∷ 3 ∷ 4 ∷ []; endpoint = some 9 }

decode_packet-encode_packet_example :
    (c : Buffer ℕ) × (encode_packet 8 encode decode datagram 2 ≡ some c)
    × (take 2 c.bytes ≡ 1 ∷ 2 ∷ [])
    × (decode_packet 8 encode decode (after_iv 8 encode decode 2 c)
        ≡ some (record { bytes = 3 ∷ 4 ∷ []; endpoint = none }))
decode_packet-encode_packet_example =
    decode_packet-encode_packet 8 encode decode datagram 2 (7 ∷ 3 ∷ 4 ∷ []) (omega arith)
      (omega arith) refl refl (omega arith)
