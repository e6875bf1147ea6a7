-- ===== src/Icmp/Unreachable.antt =====
-- nat/icmp.go, gvisor/icmp.go: the replies that tell that the destination is unreachable.
use lib_sager_net_core.Common.{
  length-take, length-drop, ℕ, ◌+◌, ◌^◌, ◌≤◌, ◌<◌, ◌≡◌, ◌≢◌, refl, sym, ap, ◌∙◌, Bool, true, false,
  ◌++◌, length, take, drop, ◌==◌, length-append, arith,
}
use mathlib.Core.List.{append_assoc}
use lib_sager_net_core.Common.Bytes.{overlay, length-overlay, overlay-whole}
use lib_sager_net_core.Icmp.{
  Bytes, IpFields, IpHeaders, Checksums, IcmpMessages, Ping, reply_message, resized, reply_icmpv4,
}
use lib_sager_net_core.Icmp.Replies.{fields-resized, length-resized}

test_of_ne : (a b : ℕ) → a ≢ b → a == b ≡ false
test_of_ne a b h = ground arith

test_of_eq : (a b : ℕ) → a ≡ b → a == b ≡ true
test_of_eq a b h = ground arith

module _ (ip : IpHeaders) (icmp : IcmpMessages) where
  open ip use {Header, fields, header_bytes}
  open icmp use {type_of, dst_unreachable, error_header_size}

  -- The message of an unreachable reply: the error header, then the quoted datagram.
  pub reply_message-unreachable :
      (head : ℕ) (region : Bytes) (ping : Ping Header) (message : Bytes)
      → head ≤ error_header_size
      → length region ≡ error_header_size + length ping.origin
      → type_of message ≡ dst_unreachable
      → (error_header : Bytes) × (length error_header ≡ error_header_size)
        × (reply_message ip icmp head region ping message ≡ error_header ++ ping.origin)
  unfolding reply_message
  reply_message-unreachable head region ping message small size is =
      let first = overlay (take head region) message in
      let second = drop head (take error_header_size region) in
      (
        first ++ second,
        length-append first second
            ∙ omega (
              arith,
              length-overlay (take head region) message,
              length-take head region,
              length-drop head (take error_header_size region),
              length-take error_header_size region,
            ),
        rw (test_of_eq (type_of message) dst_unreachable is) (
            rw
              (overlay-whole (drop error_header_size region) ping.origin
                (omega (arith, length-drop error_header_size region)))
              (sym (append_assoc first second ping.origin))),
      )

  module _ (sums : Checksums ip) where
    -- The header of a reply whose message has not the length of the ping's.
    reply_icmpv4-header :
        (head : ℕ) (region : Bytes) (written : Bool) (ping : Ping Header) (message : Bytes)
        → length (reply_message ip icmp head region ping message) ≢ ping.message_length
        → (reply_icmpv4 ip icmp sums head region written ping message).0.0
          ≡ resized ip icmp sums
              (length (header_bytes ping.net_header) + length message)
              ping.net_header
    unfolding reply_icmpv4
    reply_icmpv4-header head region written ping message differs =
        rw
          (test_of_ne (length (reply_message ip icmp head region ping message)) ping.message_length
            differs)
          refl

    reply_icmpv4-payload :
        (head : ℕ) (region : Bytes) (written : Bool) (ping : Ping Header) (message : Bytes)
        → (reply_icmpv4 ip icmp sums head region written ping message).0.1
          ≡ reply_message ip icmp head region ping message
    unfolding reply_icmpv4
    reply_icmpv4-payload head region written ping message = refl

    -- An unreachable reply to an IPv4 ping is written as an error header and the quoted datagram. Where these
    -- have neither the length of the message that came in nor that of the ping's, the length field of the
    -- written IP header is not the length of what is written.
    pub reply_icmpv4_wrong_length :
        (head : ℕ) (region : Bytes) (written : Bool) (ping : Ping Header) (message : Bytes)
        → head ≤ error_header_size
        → length region ≡ error_header_size + length ping.origin
        → type_of message ≡ dst_unreachable
        → error_header_size + length ping.origin ≢ length message
        → error_header_size + length ping.origin ≢ ping.message_length
        → length (header_bytes ping.net_header) + length message < 2 ^ 16
        → let r = reply_icmpv4 ip icmp sums head region written ping message in
          ((error_header : Bytes) × (length error_header ≡ error_header_size)
            × (r.0.1 ≡ error_header ++ ping.origin))
          × ((fields r.0.0).length_field ≢ length (header_bytes r.0.0) + length r.0.1)
    reply_icmpv4_wrong_length head region written ping message small size is long other fits =
        let (error_header, header_size, e) =
          reply_message-unreachable head region ping message small size is in
        let r = reply_icmpv4 ip icmp sums head region written ping message in
        let payload : r.0.1 ≡ error_header ++ ping.origin =
          reply_icmpv4-payload head region written ping message ∙ e in
        let total = length (header_bytes ping.net_header) + length message in
        let header : r.0.0 ≡ resized ip icmp sums total ping.net_header =
          reply_icmpv4-header head region written ping message
            (λ same. other (omega (arith, ap length e, length-append error_header ping.origin))) in
        (
          (error_header, header_size, payload),
          λ right. long (
              omega (
                arith,
                right,
                ap (λ (h : Header). (fields h).length_field) header,
                ap IpFields.length_field (fields-resized ip icmp sums total ping.net_header),
                ap (λ (h : Header). length (header_bytes h)) header,
                length-resized ip icmp sums total ping.net_header,
                ap length payload,
                length-append error_header ping.origin,
              )),
        )
