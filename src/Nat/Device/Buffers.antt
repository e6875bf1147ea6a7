-- ===== src/Nat/Device/Buffers.antt =====
-- nat/nat.go: the buffers of the loop: a buffer that a handler keeps is not read into again, and packets that fit
-- are delivered whole.
use lib_sager_net_core.Common.{
  take-all, length-take, ℕ, suc, ◌≤◌, ◌<◌, ◌≡◌, ◌≢◌, refl, ap, Bool, true, false, ◌==◌, ◌&&◌, ◌||◌,
  ◌∙◌, Option, none, some, List, [], ◌∷◌, if◌then◌else◌, length, take, arith,
}
use lib_sager_net_core.Nat.Device.{Bytes, deliver_packet, Delivery, read_packets, dispatch_loop}

-- All deliveries are into buffers after `b`.
abbrev pub IsAfter : ℕ → List Delivery → Type 0
IsAfter b [] = Unit {0}
IsAfter b (d ∷ ds) = (b < d.buffer) × IsAfter b ds

-- The next delivery, if there is one, is into the buffer `b`.
abbrev pub IsNext : ℕ → List Delivery → Type 0
IsNext b [] = Unit {0}
IsNext b (d ∷ ds) = d.buffer ≡ b

abbrev pub is_protocol : ℕ → Option ℕ → Bool
is_protocol n none = false
is_protocol n (some k) = k == n

-- Every packet has at most so many bytes.
abbrev pub IsWithin : ℕ → List Bytes → Type 0
IsWithin n [] = Unit {0}
IsWithin n (p ∷ ps) = (length p ≤ n) × IsWithin n ps

abbrev pub packets_of : List Delivery → List Bytes
packets_of [] = []
packets_of (d ∷ ds) = d.packet ∷ packets_of ds

module _ (ip_version transport_protocol : Bytes → ℕ) (parse_ipv6 : Bytes → Option ℕ)
    (process_icmpv4 process_icmpv6 : Bytes → Bool) (buf_size : ℕ) where
  -- Whether a packet is of UDP (17), or of ICMP (1, or 58 in IPv6) and taken by its handler.
  abbrev pub left_to_handler : Bytes → Bool
  left_to_handler packet =
      let p = transport_protocol packet in
      let p6 = parse_ipv6 packet in
      (ip_version packet == 4 && (p == 17 || (p == 1 && process_icmpv4 packet)))
      || (ip_version packet == 6
          && (is_protocol 17 p6 || (is_protocol 58 p6 && process_icmpv6 packet)))

  -- A buffer that is left to a handler is not read into again, and any other is the next to be read into.
  abbrev pub IsKeptSafe : List Delivery → Type 0
  IsKeptSafe [] = Unit {0}
  IsKeptSafe (d ∷ ds) =
      (left_to_handler d.packet ≡ true → IsAfter d.buffer ds)
      × (left_to_handler d.packet ≡ false → IsNext d.buffer ds)
      × IsKeptSafe ds

  deliver_packet-left_to_handler :
      (packet : Bytes)
      → (deliver_packet ip_version transport_protocol parse_ipv6 process_icmpv4 process_icmpv6
          packet).1
        ≡ left_to_handler packet
  unfolding deliver_packet
  deliver_packet-left_to_handler packet = ground arith

  read_packets-IsNext :
      (buffer size : ℕ) (ps : List Bytes)
      → IsNext buffer (
          read_packets ip_version transport_protocol parse_ipv6 process_icmpv4 process_icmpv6
            buf_size buffer size ps)
  unfolding read_packets
  read_packets-IsNext buffer size [] = tt
  read_packets-IsNext buffer size (p ∷ ps) = refl

  read_packets-IsAfter :
      (b buffer size : ℕ) (ps : List Bytes)
      → b < buffer
      → IsAfter b (
          read_packets ip_version transport_protocol parse_ipv6 process_icmpv4 process_icmpv6
            buf_size buffer size ps)
  unfolding read_packets
  read_packets-IsAfter b buffer size [] h = tt
  read_packets-IsAfter b buffer size (p ∷ ps) h =
      let kept =
        (deliver_packet ip_version transport_protocol parse_ipv6 process_icmpv4 process_icmpv6
          (take size p)).1 in
      (
        h,
        read_packets-IsAfter b (if kept then suc buffer else buffer)
            (if kept then buf_size else size) ps (ground arith),
      )

  read_packets-IsKeptSafe :
      (buffer size : ℕ) (ps : List Bytes)
      → IsKeptSafe (
          read_packets ip_version transport_protocol parse_ipv6 process_icmpv4 process_icmpv6
            buf_size buffer size ps)
  unfolding read_packets
  read_packets-IsKeptSafe buffer size [] = tt
  read_packets-IsKeptSafe buffer size (p ∷ ps) =
      let kept =
        (deliver_packet ip_version transport_protocol parse_ipv6 process_icmpv4 process_icmpv6
          (take size p)).1 in
      let same = deliver_packet-left_to_handler (take size p) in
      (
        λ e. rw (same ∙ e) (read_packets-IsAfter buffer (suc buffer) buf_size ps (omega arith)),
        λ e. rw (same ∙ e) (read_packets-IsNext buffer size ps),
        read_packets-IsKeptSafe (if kept then suc buffer else buffer)
            (if kept then buf_size else size) ps,
      )

  -- Whatever packets come: after a packet of UDP, or one of ICMP that its handler takes, all later packets are read into
  -- other buffers than its own, which the handler keeps; after any other packet the next is read into the same
  -- buffer.
  pub dispatch_loop-IsKeptSafe :
      (mtu : ℕ) (ps : List Bytes)
      → IsKeptSafe (
          dispatch_loop ip_version transport_protocol parse_ipv6 process_icmpv4 process_icmpv6
            buf_size mtu ps)
  unfolding dispatch_loop
  dispatch_loop-IsKeptSafe mtu ps = read_packets-IsKeptSafe 0 mtu ps

  read_packets-IsWithin :
      (n buffer size : ℕ) (ps : List Bytes)
      → n ≤ size
      → n ≤ buf_size
      → IsWithin n ps
      → packets_of (
          read_packets ip_version transport_protocol parse_ipv6 process_icmpv4 process_icmpv6
            buf_size buffer size ps)
        ≡ ps
  unfolding read_packets
  read_packets-IsWithin n buffer size [] h k within = refl
  read_packets-IsWithin n buffer size (p ∷ ps) h k (fits, within) =
      let kept =
        (deliver_packet ip_version transport_protocol parse_ipv6 process_icmpv4 process_icmpv6
          (take size p)).1 in
      rw
        (read_packets-IsWithin n (if kept then suc buffer else buffer)
          (if kept then buf_size else size) ps (ground arith) k within)
        (ap (λ (t : Bytes). t ∷ ps) (take-all size p (omega arith)))

  -- Packets of at most the mtu and of at most the size of a new buffer are all delivered, whole and in their order.
  pub dispatch_loop-IsWithin :
      (mtu n : ℕ) (ps : List Bytes)
      → n ≤ mtu
      → n ≤ buf_size
      → IsWithin n ps
      → packets_of (
          dispatch_loop ip_version transport_protocol parse_ipv6 process_icmpv4 process_icmpv6
            buf_size mtu ps)
        ≡ ps
  unfolding dispatch_loop
  dispatch_loop-IsWithin mtu n ps h k within = read_packets-IsWithin n 0 mtu ps h k within

  -- After a packet whose buffer is kept, a packet that is longer than a new buffer is cut off to that size,
  -- however large the mtu is.
  pub dispatch_loop_cuts_off :
      (mtu : ℕ) (p q : Bytes)
      → (deliver_packet ip_version transport_protocol parse_ipv6 process_icmpv4 process_icmpv6
          (take mtu p)).1
        ≡ true
      → buf_size < length q
      → packets_of (
            dispatch_loop ip_version transport_protocol parse_ipv6 process_icmpv4 process_icmpv6
              buf_size mtu
              (p ∷ q ∷ []))
          ≡ take mtu p ∷ take buf_size q ∷ []
        × (take buf_size q ≢ q)
  unfolding dispatch_loop read_packets
  dispatch_loop_cuts_off mtu p q e long =
      (rw e refl, λ same. absurd (omega (arith, ap length same, length-take buf_size q)))
