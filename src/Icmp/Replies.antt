-- ===== src/Icmp/Replies.antt =====
-- nat/icmp.go, gvisor/icmp.go: the lengths, checksums and addresses of the replies to pings.
use lib_sager_net_core.Common.{
  ℕ, ◌+◌, ◌-◌, ◌%◌, ◌^◌, ◌≤◌, ◌≡◌, ◌≢◌, refl, sym, ap, ◌∙◌, Bool, true, false, inl, inr, none, some,
  if◌then◌else◌, length, ◌==◌, Bool-cases, arith,
}
use lib_sager_net_core.Nat.Packet.{complement16}
use lib_sager_net_core.Icmp.{
  Bytes, IpFields, IpHeaders, Checksums, IcmpMessages, write_failed, Ping, reply_error,
  reply_message, reply_icmpv6, resized, reply_icmpv4,
}

test_of_ne : (a b : ℕ) → a ≢ b → a == b ≡ false
test_of_ne a b h = ground arith

module _ (ip : IpHeaders) (icmp : IcmpMessages) where
  open ip use {Header, fields, header_bytes, set_length}
  open icmp use {type_of, set_icmp_checksum, calculate_icmp, dst_unreachable}

  module _ (sums : Checksums ip) where
    open sums use {checksum, set_checksum, calculate, checksum_combine}

    -- The arithmetic of an update by the difference of two fields.
    update_residue :
        (k k' k'' l l' c comb outer : ℕ)
        → k % 0xffff ≡ 0
        → (k' + l) % 0xffff ≡ (k + l') % 0xffff
        → comb % 0xffff ≡ (l' + (0xffff - l)) % 0xffff
        → outer % 0xffff ≡ ((0xffff - c) + comb) % 0xffff
        → outer ≤ 0xffff
        → l ≤ 0xffff
        → c ≤ 0xffff
        → (k'' + c) % 0xffff ≡ (k' + (0xffff - outer)) % 0xffff
        → k'' % 0xffff ≡ 0
    update_residue k k' k'' l l' c comb outer h0 h1 h2 h3 h4 h5 h6 h7 = omega arith

    -- The update of a valid header is a valid header.
    resized-calculate :
        (total : ℕ) (net : Header)
        → calculate net ≡ 0xffff
        → calculate (resized ip icmp sums total net) ≡ 0xffff
    unfolding resized
    resized-calculate total net valid =
        let h = set_length total net in
        let l = (fields net).length_field in
        let l' = (fields h).length_field in
        let comb = checksum_combine l' (complement16 l) in
        let outer = checksum_combine (complement16 (checksum h)) comb in
        let comb_bound : comb ≤ 0xffff =
          sums.combine-bound l' (complement16 l) (sums.length_field-bound h) (omega arith) in
        let outer_bound : outer ≤ 0xffff =
          sums.combine-bound (complement16 (checksum h)) comb (omega arith) comb_bound in
        let residue : calculate (set_checksum (complement16 outer) h) % 0xffff ≡ 0 =
          update_residue (calculate net) (calculate h)
            (calculate (set_checksum (complement16 outer) h)) l l' (checksum h) comb outer
            (omega (arith, valid))
            (sums.calculate-set_length total net
              ∙ ap (λ (t : ℕ). (calculate net + t) % 0xffff)
                  (sym (ap IpFields.length_field (ip.fields-set_length total net))))
            (sums.combine-residue l' (complement16 l) (sums.length_field-bound h) (omega arith))
            (sums.combine-residue (complement16 (checksum h)) comb (omega arith) comb_bound)
            outer_bound (sums.length_field-bound net) (sums.checksum-bound h)
            (sums.calculate-set_checksum (complement16 outer) h (omega arith)) in
        let (low, high) = sums.calculate-bound (set_checksum (complement16 outer) h) in omega arith

    pub fields-resized :
        (total : ℕ) (net : Header)
        → fields (resized ip icmp sums total net)
          ≡ record (fields net) { length_field = total % 2 ^ 16 }
    unfolding resized
    fields-resized total net =
        sums.fields-set_checksum
          (complement16 (
            checksum_combine (complement16 (checksum (set_length total net))) (
              checksum_combine (fields (set_length total net)).length_field
                (complement16 (fields net).length_field))))
          (set_length total net)
        ∙ ip.fields-set_length total net

    pub length-resized :
        (total : ℕ) (net : Header)
        → length (header_bytes (resized ip icmp sums total net)) ≡ length (header_bytes net)
    unfolding resized
    length-resized total net =
        sums.length-set_checksum
          (complement16 (
            checksum_combine (complement16 (checksum (set_length total net))) (
              checksum_combine (fields (set_length total net)).length_field
                (complement16 (fields net).length_field))))
          (set_length total net)
        ∙ ip.length-set_length total net

    -- What a written IPv4 datagram with a payload promises.
    pub record IsDatagram (net : Header) (written : Header × Bytes) : Type 0 where
      pub same_source : (fields written.0).source ≡ (fields net).source
      pub same_destination : (fields written.0).destination ≡ (fields net).destination
      pub right_length :
          (fields written.0).length_field
          ≡ (length (header_bytes written.0) + length written.1) % 2 ^ 16
      pub right_checksum : calculate written.0 ≡ 0xffff

    resized-IsDatagram :
        (net : Header) (m : Bytes)
        → calculate net ≡ 0xffff
        → IsDatagram net (resized ip icmp sums (length (header_bytes net) + length m) net, m)
    resized-IsDatagram net m valid =
        let total = length (header_bytes net) + length m in
        record {
          same_source = ap IpFields.source (fields-resized total net);
          same_destination = ap IpFields.destination (fields-resized total net);
          right_length =
              ap IpFields.length_field (fields-resized total net)
              ∙ ap (λ (n : ℕ). (n + length m) % 2 ^ 16) (sym (length-resized total net));
          right_checksum = resized-calculate total net valid;
        }

    reply_icmpv4-other :
        (head : ℕ) (region : Bytes) (written : Bool) (ping : Ping Header) (message : Bytes)
        → type_of message ≢ dst_unreachable
        → reply_icmpv4 ip icmp sums head region written ping message ≡ (
          (
            (if length message == ping.message_length
                then ping.net_header
                else resized ip icmp sums
                    (length (header_bytes ping.net_header) + length message)
                    ping.net_header),
            message,
          ),
          reply_error written false,
        )
    unfolding reply_icmpv4 reply_message
    reply_icmpv4-other head region written ping message other =
        let e = test_of_ne (type_of message) dst_unreachable other in rw e (rw e refl)

    -- A reply that is no unreachable message, to a ping whose header is valid and has the length of its
    -- datagram, is written as a datagram from the pinged address to the asker: its length field is its length
    -- (up to 2^16), its header checksum is valid, also where the lengths differ, and its payload is the message
    -- as it came. The error is that of the write.
    pub reply_icmpv4-IsDatagram :
        (head : ℕ) (region : Bytes) (written : Bool) (ping : Ping Header) (message : Bytes)
        → calculate ping.net_header ≡ 0xffff
        → (fields ping.net_header).length_field
          ≡ (length (header_bytes ping.net_header) + ping.message_length) % 2 ^ 16
        → type_of message ≢ dst_unreachable
        → IsDatagram ping.net_header (reply_icmpv4 ip icmp sums head region written ping message).0
          × ((reply_icmpv4 ip icmp sums head region written ping message).0.1 ≡ message)
          × ((reply_icmpv4 ip icmp sums head region written ping message).1
              ≡ (if written then none else some write_failed))
    unfolding reply_error
    reply_icmpv4-IsDatagram head region written ping message valid len other =
        let errors : reply_error written false ≡ (if written then none else some write_failed) =
          elim written as (λ w. reply_error w false ≡ (if w then none else some write_failed)) [
            | true ↦ refl
            | false ↦ refl
          ] in
        elim (Bool-cases (length message == ping.message_length)) [
          | inl same ↦
              rw (reply_icmpv4-other head region written ping message other, same)
                (
                  record {
                    same_source = refl;
                    same_destination = refl;
                    right_length =
                        len
                        ∙ ap (λ (n : ℕ). (length (header_bytes ping.net_header) + n) % 2 ^ 16)
                            (ground (arith, same));
                    right_checksum = valid;
                  },
                  refl,
                  errors,
                )
          | inr differs ↦
              rw (reply_icmpv4-other head region written ping message other, differs)
                (resized-IsDatagram ping.net_header message valid, refl, errors)
        ]

  -- What a written IPv6 datagram promises, summed for the two addresses.
  pub record IsDatagram6 (s d : Bytes) (net : Header) (written : Header × Bytes) : Type 0 where
    pub same_source : (fields written.0).source ≡ (fields net).source
    pub same_destination : (fields written.0).destination ≡ (fields net).destination
    pub right_length : (fields written.0).length_field ≡ length written.1 % 2 ^ 16
    pub right_sum : calculate_icmp s d written.1 ≡ 0xffff

  -- Any reply to an IPv6 ping, an unreachable message too, of at least 8 bytes is written from the pinged address to the asker with
  -- the length of its message (up to 2^16) as the payload's length and a valid checksum.
  pub reply_icmpv6-IsDatagram6 :
      (head : ℕ) (region : Bytes) (written : Bool) (s d : Bytes) (ping : Ping Header)
      (message : Bytes)
      → (fields ping.net_header).length_field ≡ ping.message_length % 2 ^ 16
      → 8 ≤ length (reply_message ip icmp head region ping message)
      → IsDatagram6 s d ping.net_header
          (reply_icmpv6 ip icmp head region written s d ping message).0
  unfolding reply_icmpv6
  reply_icmpv6-IsDatagram6 head region written s d ping message len long =
      let m = reply_message ip icmp head region ping message in
      let cleared = set_icmp_checksum 0 m in
      let size : length (set_icmp_checksum (complement16 (calculate_icmp s d cleared)) cleared)
          ≡ length m =
        icmp.length-set_icmp_checksum (complement16 (calculate_icmp s d cleared)) cleared
        ∙ icmp.length-set_icmp_checksum 0 m in
      elim (Bool-cases (length m == ping.message_length)) [
        | inl same ↦ rw same record {
          same_source = refl;
          same_destination = refl;
          right_length = len ∙ ap (λ (n : ℕ). n % 2 ^ 16) (ground (arith, same, size));
          right_sum = icmp.calculate-complement s d m long;
        }
        | inr differs ↦ rw differs record {
          same_source = ap IpFields.source (ip.fields-set_length (length m) ping.net_header);
          same_destination =
              ap IpFields.destination (ip.fields-set_length (length m) ping.net_header);
          right_length =
              ap IpFields.length_field (ip.fields-set_length (length m) ping.net_header)
              ∙ ap (λ (n : ℕ). n % 2 ^ 16) (sym size);
          right_sum = icmp.calculate-complement s d m long;
        }
      ]
