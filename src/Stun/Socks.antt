-- ===== src/Stun/Socks.antt =====
-- stun/socks.go: `ReadFrom` of a packet connection behind a SOCKS5 proxy. `socks5.DecodeUDPPacket` and
-- `UDPAddr` are parameters; the payload of a packet is what follows its header.
use lib_sager_net_core.Common.{
  ℕ, ◌+◌, ◌-◌, ◌≤◌, ◌<◌, ◌≡◌, ap, Option, none, some, List, ◌++◌, length, length-append, arith,
}
use lib_sager_net_core.Common.Bytes.{overlay, length-overlay}

-- `ReadFrom`, of the buffer and the datagram that comes in: the buffer after it, with the count and the address;
-- `none` is an error. The number of bytes that were read is not used.
module _ {Socks Address : Type 0} (decode : List ℕ → Option (Socks × List ℕ))
    (udp_addr : Socks → Option Address) where
  unfoldable pub read_from :
      (buffer : List ℕ) → (datagram : Option (List ℕ)) → List ℕ × Option (ℕ × Address)
  unfolding overlay
  read_from buffer none = (buffer, none)
  read_from buffer (some datagram) =
      let b = overlay buffer datagram in
      elim (decode b) [
        | none ↦ (b, none)
        | some (addr, payload) ↦ elim (udp_addr addr) [
          | none ↦ (b, none)
          | some a ↦ (overlay b payload, some (length payload, a))
        ]
      ]

  read_from-of_decoded :
      (buffer datagram : List ℕ) (addr : Socks) (payload : List ℕ) (a : Address)
      → decode (overlay buffer datagram) ≡ some (addr, payload)
      → udp_addr addr ≡ some a
      → read_from buffer (some datagram)
        ≡ (overlay (overlay buffer datagram) payload, some (length payload, a))
  unfolding read_from
  read_from-of_decoded buffer datagram addr payload a e ea = ground (arith, e, ea)

  -- Where a packet is read, its count and the header's length make up the buffer's length, however short the
  -- datagram was: of a datagram that is shorter than the buffer, more bytes are counted than it carries.
  pub read_from_counts_buffer :
      (buffer datagram : List ℕ) (addr : Socks) (header payload : List ℕ) (a : Address)
      → decode (overlay buffer datagram) ≡ some (addr, payload)
      → overlay buffer datagram ≡ header ++ payload
      → udp_addr addr ≡ some a
      → length header ≤ length datagram
      → length datagram < length buffer
      → (n : ℕ) × ((read_from buffer (some datagram)).1 ≡ some (n, a))
        × (n + length header ≡ length buffer)
        × (length datagram - length header < n)
  read_from_counts_buffer buffer datagram addr header payload a e split ea whole short =
      let sum : length payload + length header ≡ length buffer =
        omega
          (arith, ap length split, length-append header payload, length-overlay buffer datagram) in
      (
        length payload,
        ap (λ (r : List ℕ × Option (ℕ × Address)). r.1)
            (read_from-of_decoded buffer datagram addr payload a e ea),
        sum,
        omega arith,
      )
