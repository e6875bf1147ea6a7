-- ===== src/Nat/Device/Tests.antt =====
-- Runs of the loop over the packets of the device.
use lib_sager_net_core.Common.{ℕ, ◌/◌, ◌≡◌, refl, Bool, true, false, Option, some, List, [], ◌∷◌}
use lib_sager_net_core.Nat.Device.{
  Bytes, tcp_ipv4, udp_ipv4, icmp_ipv6, dropped, deliver_packet, read_packets, dispatch_loop,
}
use lib_sager_net_core.Nat.Device.Buffers.{IsKeptSafe, dispatch_loop-IsKeptSafe}

-- Packets of a version octet and a protocol octet.
abbrev version : Bytes → ℕ
version [] = 0
version (b ∷ _) = b / 16

abbrev protocol : Bytes → ℕ
protocol (_ ∷ p ∷ _) = p
protocol _ = 0

abbrev protocol6 : Bytes → Option ℕ
protocol6 p = some (protocol p)

abbrev taken : Bytes → Bool
taken p = true

abbrev packets : List Bytes
packets = (69 ∷ 6 ∷ []) ∷ (69 ∷ 17 ∷ []) ∷ (96 ∷ 58 ∷ 1 ∷ []) ∷ (0 ∷ []) ∷ []

test-dispatch_loop :
    dispatch_loop version protocol protocol6 taken taken 2048 3 packets
    ≡ record { buffer = 0; packet = 69 ∷ 6 ∷ []; route = tcp_ipv4; kept = false }
      ∷ record { buffer = 0; packet = 69 ∷ 17 ∷ []; route = udp_ipv4; kept = true }
      ∷ record { buffer = 1; packet = 96 ∷ 58 ∷ 1 ∷ []; route = icmp_ipv6; kept = true }
      ∷ record { buffer = 2; packet = 0 ∷ []; route = dropped; kept = false }
      ∷ []
unfolding dispatch_loop read_packets deliver_packet
test-dispatch_loop = refl

dispatch_loop-IsKeptSafe_example :
    IsKeptSafe version protocol protocol6 taken taken 2048
      (dispatch_loop version protocol protocol6 taken taken 2048 3 packets)
dispatch_loop-IsKeptSafe_example =
    dispatch_loop-IsKeptSafe version protocol protocol6 taken taken 2048 3 packets
