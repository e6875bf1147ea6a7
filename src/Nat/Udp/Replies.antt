-- ===== src/Nat/Udp/Replies.antt =====
-- nat/udp.go: the datagrams that are written back to the tun.
use lib_sager_net_core.Common.{
  ℕ, ◌+◌, ◌%◌, ◌^◌, ◌≡◌, refl, ap, ◌∙◌, Bool, Option, none, some, if◌then◌else◌, length, arith,
}
use lib_sager_net_core.Nat.Packet.{complement16}
use lib_sager_net_core.Icmp.{Bytes, IpFields, IpHeaders}
use lib_sager_net_core.Nat.Udp.{
  UdpFields, UdpHeaders, Peer, Flow, process_udp, reply_source, udp_size, partial_sum, reply_header,
  reply_udp6,
}

-- The address and port that the asker is to see.
unfoldable pub seen_source : (destination : Peer) → Option Peer → Peer
seen_source destination none = destination
seen_source destination (some peer) = record { address = peer.address; port = peer.port % 2 ^ 16 }

module _ (ip : IpHeaders) (udp : UdpHeaders) where
  open ip use {Header, fields, header_bytes, set_source, set_destination, set_length}
  open udp use {
    Udp, udp_fields, set_source_port, set_udp_length, set_udp_checksum, calculate_udp, udp_checksum,
  }

  reply_source-seen_source :
      (flow : Flow Header Udp) (addr : Option Peer)
      → reply_source ip udp flow addr ≡ seen_source flow.destination addr
  unfolding reply_source seen_source
  reply_source-seen_source flow none = refl
  reply_source-seen_source flow (some peer) = refl

  fields-reply_header :
      (flow : Flow Header Udp) (from : Peer) (bytes : Bytes)
      → udp_fields (reply_header ip udp flow from bytes) ≡ record (udp_fields flow.udp_template) {
        source_port = from.port;
        udp_length = udp_size ip udp bytes;
      }
  unfolding reply_header
  fields-reply_header flow from bytes =
      let named = set_source_port from.port flow.udp_template in
      let sized = set_udp_length (udp_size ip udp bytes) named in
      udp.fields-set_udp_checksum
        (complement16 (
          calculate_udp (partial_sum ip udp from.address flow.source.address bytes)
            (set_udp_checksum 0 sized)))
        (set_udp_checksum 0 sized)
      ∙ udp.fields-set_udp_checksum 0 sized
      ∙ udp.fields-set_udp_length (udp_size ip udp bytes) named
      ∙ ap (λ (f : UdpFields). record f { udp_length = udp_size ip udp bytes })
          (udp.fields-set_source_port from.port flow.udp_template)

  reply_header-sum :
      (flow : Flow Header Udp) (from : Peer) (bytes : Bytes)
      → calculate_udp
          (partial_sum ip udp from.address flow.source.address bytes)
          (reply_header ip udp flow from bytes)
        ≡ 0xffff
  unfolding reply_header
  reply_header-sum flow from bytes =
      udp.calculate-complement (partial_sum ip udp from.address flow.source.address bytes)
        (set_udp_length (udp_size ip udp bytes) (set_source_port from.port flow.udp_template))

  -- What a written datagram promises, back from `from` to the source of the packet.
  pub record IsReply (h : Header) (u : Udp) (from : Peer) (bytes : Bytes)
      (written : Header × Udp × Bytes) : Type 0 where
    pub from_address : (fields written.0).source ≡ from.address
    pub from_port : (udp_fields written.1).source_port ≡ from.port
    pub to_address : (fields written.0).destination ≡ (fields h).source
    pub to_port : (udp_fields written.1).destination_port ≡ (udp_fields u).source_port
    pub right_udp_length : (udp_fields written.1).udp_length ≡ (8 + length bytes) % 2 ^ 16
    pub right_udp_sum :
        calculate_udp (partial_sum ip udp from.address (fields h).source bytes) written.1 ≡ 0xffff
    pub right_bytes : written.2 ≡ bytes

  -- The two parts of a reply.
  reply_header-IsReply :
      (h : Header) (u : Udp) (content bytes : Bytes) (from : Peer) (q : Header)
      → (fields q).source ≡ from.address
      → (fields q).destination ≡ (fields h).source
      → IsReply h u from bytes
          (q, reply_header ip udp (process_udp ip udp h u content) from bytes, bytes)
  unfolding process_udp
  reply_header-IsReply h u content bytes from q e_source e_destination =
      let flow = process_udp ip udp h u content in
      let e = fields-reply_header flow from bytes in
      record {
        from_address = e_source;
        from_port = ap UdpFields.source_port e;
        to_address = e_destination;
        to_port =
            ap UdpFields.destination_port e
            ∙ ap UdpFields.destination_port
                (udp.fields-set_destination_port (udp_fields u).source_port u);
        right_udp_length = ap UdpFields.udp_length e;
        right_udp_sum = reply_header-sum flow from bytes;
        right_bytes = refl;
      }

  -- The template with another source and length.
  fields-template :
      (h : Header) (a : Bytes) (n : ℕ)
      → fields (set_length n (set_source a (set_destination (fields h).source h)))
        ≡ record { source = a; destination = (fields h).source; length_field = n % 2 ^ 16 }
  fields-template h a n =
      ip.fields-set_length n (set_source a (set_destination (fields h).source h))
      ∙ ap (λ (f : IpFields). record f { length_field = n % 2 ^ 16 })
          (ip.fields-set_source a (set_destination (fields h).source h)
            ∙ ap (λ (f : IpFields). record f { source = a })
                (ip.fields-set_destination (fields h).source h))

  -- For a UDP packet on IPv6, each reply, from the address that is given or else from the packet's destination,
  -- is written as a datagram from there to the packet's source: with both ports, both lengths (up to 2^16), a
  -- valid sum with the pseudo header, and the bytes as they came. The count is that of the bytes, with no
  -- answer where the write fails.
  pub process_udp-reply_udp6 :
      (h : Header) (u : Udp) (content bytes : Bytes) (written : Bool) (addr : Option Peer)
      → let flow = process_udp ip udp h u content in
        let from =
          seen_source
            (record { address = (fields h).destination; port = (udp_fields u).destination_port })
            addr in
        let r = reply_udp6 ip udp flow written addr bytes in
        IsReply h u from bytes r.0
        × ((fields r.0.0).length_field ≡ (8 + length bytes) % 2 ^ 16)
        × (r.1 ≡ (if written then some (length bytes) else none))
  unfolding reply_udp6 process_udp
  process_udp-reply_udp6 h u content bytes written addr =
      let flow = process_udp ip udp h u content in
      rw (reply_source-seen_source flow addr) (
        let from = seen_source flow.destination addr in
        let e = fields-template h from.address (8 + length bytes) in
        (
          reply_header-IsReply h u content bytes from
              (set_length (8 + length bytes) (set_source from.address flow.ip_template))
              (ap IpFields.source e) (ap IpFields.destination e),
          ap IpFields.length_field e,
          refl,
        ))

  -- Where the UDP header of a reply sums, with an empty checksum, to all ones, its checksum field is written as
  -- 0, which is no checksum.
  pub reply_header_no_checksum :
      (flow : Flow Header Udp) (from : Peer) (bytes : Bytes)
      → calculate_udp (partial_sum ip udp from.address flow.source.address bytes) (
          set_udp_checksum 0
            (set_udp_length (udp_size ip udp bytes) (set_source_port from.port flow.udp_template)))
        ≡ 0xffff
      → udp_checksum (reply_header ip udp flow from bytes) ≡ 0
  unfolding reply_header
  reply_header_no_checksum flow from bytes h =
      let u =
        set_udp_checksum 0
          (set_udp_length (udp_size ip udp bytes) (set_source_port from.port flow.udp_template)) in
      let k = calculate_udp (partial_sum ip udp from.address flow.source.address bytes) u in
      udp.udp_checksum-set_udp_checksum (complement16 k) u (omega arith) ∙ omega (arith, h)
