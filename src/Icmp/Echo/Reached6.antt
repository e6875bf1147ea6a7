-- ===== src/Icmp/Echo/Reached6.antt =====
-- nat/icmp.go: the replies to the pings that are made of IPv6 echo requests.
use lib_sager_net_core.Common.{
  ℕ, ◌%◌, ◌^◌, ◌≤◌, ◌≡◌, ◌≢◌, drop, ◌∙◌, ap, refl, Bool, true, ◌&&◌, ◌++◌, length, take, ◌==◌,
  arith,
}
use lib_sager_net_core.Nat.Packet.{complement16}
use lib_sager_net_core.Icmp.{
  Bytes, IpFields, IpHeaders, IcmpMessages, Ping, reply_message, reply_icmpv6,
}
use lib_sager_net_core.Icmp.Replies.{reply_icmpv6-IsDatagram6}
use lib_sager_net_core.Icmp.Echo.{relayed, swapped, process_icmpv6}
use lib_sager_net_core.Icmp.Echo.Swapped.{fields-swapped}

module _ (ip : IpHeaders) (icmp : IcmpMessages) where
  open ip use {Header, fields, header_bytes}
  open icmp use {type_of, code_of, calculate_icmp, echo, dst_unreachable, set_icmp_checksum}

  -- What is written for a reply on IPv6, as the asker sees it.
  pub record Reaches6 (h : Header) (reply : Bytes) (written : Header × Bytes) : Type 0 where
    pub from_asked : (fields written.0).source ≡ (fields h).destination
    pub to_asker : (fields written.0).destination ≡ (fields h).source
    pub right_length : (fields written.0).length_field ≡ length written.1 % 2 ^ 16
    pub right_sum : calculate_icmp (fields h).destination (fields h).source written.1 ≡ 0xffff
    pub right_start : type_of reply ≢ dst_unreachable → take 2 written.1 ≡ take 2 reply
    pub right_rest : type_of reply ≢ dst_unreachable → drop 4 written.1 ≡ drop 4 reply

  reply_message-other :
      (head : ℕ) (region : Bytes) (ping : Ping Header) (reply : Bytes)
      → type_of reply ≢ dst_unreachable
      → reply_message ip icmp head region ping reply ≡ reply
  unfolding reply_message
  reply_message-other head region ping reply other = ground (arith, other)

  -- The message that is written is the reply, but for the two bytes of its checksum.
  reply_icmpv6-same_message :
      (head : ℕ) (region : Bytes) (written : Bool) (s d : Bytes) (ping : Ping Header)
      (reply : Bytes)
      → type_of reply ≢ dst_unreachable
      → let w = (reply_icmpv6 ip icmp head region written s d ping reply).0.1 in
        (take 2 w ≡ take 2 reply) × (drop 4 w ≡ drop 4 reply)
  unfolding reply_icmpv6
  reply_icmpv6-same_message head region written s d ping reply other =
      let m = reply_message ip icmp head region ping reply in
      let cleared = set_icmp_checksum 0 m in
      let sum = complement16 (calculate_icmp s d cleared) in
      (
        icmp.take-set_icmp_checksum sum cleared
            ∙ icmp.take-set_icmp_checksum 0 m
            ∙ ap (λ (b : Bytes). take 2 b) (reply_message-other head region ping reply other),
        icmp.drop-set_icmp_checksum sum cleared
            ∙ icmp.drop-set_icmp_checksum 0 m
            ∙ ap (λ (b : Bytes). drop 4 b) (reply_message-other head region ping reply other),
      )

  -- An IPv6 echo request whose length field is the length of its message goes to the handler, where it takes it,
  -- as a ping from the asker to the asked address. A message that it gives back for that ping, where the message to
  -- write has at least 8 bytes, is written in a datagram from the asked address to the asker, with the length of
  -- what is written (up to 2^16) and, as long as the packet's buffer still holds the two addresses, a valid checksum;
  -- unless it is an unreachable message, what is written is that message, but for the two bytes of its checksum.
  pub process_icmpv6-Reaches6 :
      (h : Header) (message : Bytes)
      → (type_of message == echo && code_of message == 0) ≡ true
      → (fields h).length_field ≡ length message % 2 ^ 16
      → (ping : Ping Header) × (process_icmpv6 ip icmp true h message
          ≡ relayed (fields h).source (fields h).destination ping message)
        × ((head : ℕ) (region : Bytes) (written : Bool) (reply : Bytes)
            → 8 ≤ length (reply_message ip icmp head region ping reply)
            → Reaches6 h reply
                (reply_icmpv6 ip icmp head region written
                  (fields h).destination
                  (fields h).source
                  ping
                  reply).0)
  unfolding process_icmpv6
  process_icmpv6-Reaches6 h message e len =
      let q = swapped ip icmp h in
      let f = fields-swapped ip icmp h in
      let ping : Ping Header = record {
        net_header = q;
        origin = header_bytes q ++ take 8 message;
        message_length = length message;
      } in
      (
        ping,
        rw e refl,
        λ head region written reply long.
            let same =
              reply_icmpv6-same_message head region written (fields h).destination (fields h).source
                ping in
            let d =
              reply_icmpv6-IsDatagram6 ip icmp head region written (fields h).destination
                (fields h).source ping reply (ap IpFields.length_field f ∙ len) long in
            record {
              from_asked = d.same_source ∙ ap IpFields.source f;
              to_asker = d.same_destination ∙ ap IpFields.destination f;
              right_length = d.right_length;
              right_sum = d.right_sum;
              right_start = λ other. (same reply other).0;
              right_rest = λ other. (same reply other).1;
            },
      )
