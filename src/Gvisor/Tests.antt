-- ===== src/Gvisor/Tests.antt =====
-- Runs of the gVisor endpoint: the buffers filled by a concrete `readv`.
use lib_sager_net_core.Common.{
  length-drop, ℕ, suc, ◌/◌, ◌≤◌, ◌<◌, ◌≡◌, refl, sym, ap, ◌∙◌, true, Option, none, some, List, [],
  ◌∷◌, ◌++◌, length, take, drop, arith,
}
use mathlib.Core.List.{append-nil, append_assoc}
use lib_sager_net_core.Gvisor.Reading.{
  buf_config, Views, new_views, next_views, pull_from, pull_views, Reading, packet, stopped, ipv4,
  ipv6, guessed, total, joined, contents, IsReady, Readv, dispatch, dispatch_loop,
}
use lib_sager_net_core.Gvisor.Reading.Packets.{delivered_packets, dispatch_loop_refines}
use lib_sager_net_core.Nat.Udp.{Peer}
use lib_sager_net_core.Gvisor.Udp.{
  Route, Segment, written, write_back, handle_udp, write_back-length, stack_options, net_ipv4,
  transport_tcp, transport_udp, transport_icmp4,
}

-- Bytes written over the beginning of a view.
abbrev overwrite : List ℕ → List ℕ → List ℕ
overwrite [] v = v
overwrite (b ∷ bs) [] = []
overwrite (b ∷ bs) (x ∷ v) = b ∷ overwrite bs v

abbrev scatter : List ℕ → Views → Views
scatter bs [] = []
scatter bs (none ∷ vs) = none ∷ scatter bs vs
scatter bs (some v ∷ vs) = some (overwrite bs v) ∷ scatter (drop (length v) bs) vs

length-overwrite : (bs v : List ℕ) → length (overwrite bs v) ≡ length v
length-overwrite [] v = refl
length-overwrite (b ∷ bs) [] = refl
length-overwrite (b ∷ bs) (x ∷ v) = ap suc (length-overwrite bs v)

scatter-IsReady :
    (bs : List ℕ) (sizes : List ℕ) (vs : Views) → IsReady sizes vs → IsReady sizes (scatter bs vs)
scatter-IsReady bs [] [] h = h
scatter-IsReady bs [] (v ∷ vs) h = elim h [ ]
scatter-IsReady bs (size ∷ sizes) [] h = elim h [ ]
scatter-IsReady bs (size ∷ sizes) (none ∷ vs) h = elim h [ ]
scatter-IsReady bs (size ∷ sizes) (some v ∷ vs) (hv, h) =
    (length-overwrite bs v ∙ hv, scatter-IsReady (drop (length v) bs) sizes vs h)

take-overwrite :
    (bs v rest : List ℕ)
    → take (length (drop (length v) bs)) rest ≡ drop (length v) bs
    → take (length bs) (overwrite bs v ++ rest) ≡ bs
take-overwrite [] v rest h = refl
take-overwrite (b ∷ bs) [] rest h = h
take-overwrite (b ∷ bs) (x ∷ v) rest h = ap (λ (t : List ℕ). b ∷ t) (take-overwrite bs v rest h)

take-scatter :
    (bs sizes : List ℕ) (vs : Views)
    → IsReady sizes vs
    → length bs ≤ total sizes
    → take (length bs) (contents (scatter bs vs)) ≡ bs
take-scatter [] sizes vs h k = refl
take-scatter (b ∷ bs) [] [] h k = absurd (omega arith)
take-scatter (b ∷ bs) [] (v ∷ vs) h k = elim h [ ]
take-scatter (b ∷ bs) (size ∷ sizes) [] h k = elim h [ ]
take-scatter (b ∷ bs) (size ∷ sizes) (none ∷ vs) h k = elim h [ ]
take-scatter (b ∷ bs) (size ∷ sizes) (some v ∷ vs) (hv, h) k =
    take-overwrite (b ∷ bs) v (contents (scatter (drop (length v) (b ∷ bs)) vs)) (
      take-scatter (drop (length v) (b ∷ bs)) sizes vs h
        (omega (arith, length-drop (length v) (b ∷ bs))))

abbrev scattering : Readv
scattering = record { fill = scatter; fill-IsReady = scatter-IsReady; take-fill = take-scatter }

-- The version of a packet, its first octet's upper half.
abbrev version_of : List ℕ → ℕ
version_of [] = 0
version_of (b ∷ _) = b / 16

-- Three packets over views of 2, 2 and 4 octets, of which the second is of no version, and a stop.
abbrev readings : List Reading
readings =
    packet (69 ∷ 1 ∷ 2 ∷ [])
    ∷ packet (0 ∷ 7 ∷ [])
    ∷ packet (96 ∷ 1 ∷ 2 ∷ 3 ∷ 4 ∷ 5 ∷ 6 ∷ 7 ∷ [])
    ∷ stopped
    ∷ packet (69 ∷ [])
    ∷ []

dispatch_loop_refines_example :
    dispatch_loop scattering version_of (2 ∷ 2 ∷ 4 ∷ []) readings (new_views (2 ∷ 2 ∷ 4 ∷ []))
    ≡ delivered_packets readings
dispatch_loop_refines_example =
    dispatch_loop_refines scattering version_of (2 ∷ 2 ∷ 4 ∷ []) (λ b bytes. refl) readings
      (omega arith, (omega arith, (omega arith, (omega arith, tt))))

test-dispatch_loop :
    dispatch_loop scattering version_of (2 ∷ 2 ∷ 4 ∷ []) readings (new_views (2 ∷ 2 ∷ 4 ∷ []))
    ≡ ((ipv4, 69 ∷ 1 ∷ 2 ∷ []) ∷ (ipv6, 96 ∷ 1 ∷ 2 ∷ 3 ∷ 4 ∷ 5 ∷ 6 ∷ 7 ∷ []) ∷ [], true)
unfolding dispatch_loop dispatch guessed pull_views pull_from next_views new_views
test-dispatch_loop = refl

abbrev append_bytes : List (List ℕ) → List ℕ → List (List ℕ)
append_bytes batch v = batch ++ (v ∷ [])

joined-append_bytes :
    (batch : List (List ℕ)) (v : List ℕ) → joined (append_bytes batch v) ≡ joined batch ++ v
joined-append_bytes [] v = append-nil v
joined-append_bytes (p ∷ batch) v =
    ap (λ (t : List ℕ). p ++ t) (joined-append_bytes batch v)
    ∙ sym (append_assoc p (joined batch) v)

abbrev asker : Peer
asker = record { address = 10 ∷ 0 ∷ 0 ∷ 1 ∷ []; port = 40000 }

abbrev server : Peer
server = record { address = 8 ∷ 8 ∷ 8 ∷ 8 ∷ []; port = 53 }

abbrev route6 : List ℕ → Option Route
route6 a = some (record { requires_checksum = true; is_ipv6 = true })

write_back-length_example :
    (segment : Segment) × (write_back asker server route6 true none (1 ∷ 2 ∷ 3 ∷ [])
      ≡ (some segment, written 3))
    × (segment.local_address ≡ 8 ∷ 8 ∷ 8 ∷ 8 ∷ [])
    × (segment.source_port ≡ 53)
    × (segment.destination_port ≡ 40000)
    × (segment.content ≡ 1 ∷ 2 ∷ 3 ∷ [])
    × (3 ≤ 65527 → segment.udp_length ≡ 11)
    × (65527 < 3 → segment.udp_length < 8)
write_back-length_example =
    write_back-length asker server route6 true none (1 ∷ 2 ∷ 3 ∷ [])
      (record { requires_checksum = true; is_ipv6 = true }) refl (omega arith)

-- A packet that says to be longer than it is goes to nobody.
test-handle_udp : handle_udp (λ p. true) 12 asker server (1 ∷ 2 ∷ 3 ∷ []) ≡ none
unfolding handle_udp
test-handle_udp = refl

test-stack_options :
    stack_options 0 ≡ (net_ipv4 ∷ [], transport_tcp ∷ transport_udp ∷ transport_icmp4 ∷ [])
unfolding stack_options
test-stack_options = refl

-- The buffers hold every packet of IP.
test-buf_config : 65535 ≤ total buf_config
test-buf_config = omega arith
