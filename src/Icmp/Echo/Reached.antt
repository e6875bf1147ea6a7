-- ===== src/Icmp/Echo/Reached.antt =====
-- nat/icmp.go, gvisor/icmp.go: the answers to echo requests, and the replies to the pings that are made of them.
use lib_sager_net_core.Common.{
  ℕ, ◌+◌, ◌%◌, ◌^◌, ◌≤◌, ◌≡◌, ◌≢◌, refl, sym, ap, ◌∙◌, Bool, true, false, ◌&&◌, [], ◌++◌, length,
  take, ◌==◌, arith,
}
use lib_sager_net_core.Nat.Packet.{complement16}
use lib_sager_net_core.Icmp.{
  Bytes, IpFields, IpHeaders, Checksums, IcmpMessages, Ping, refreshed, reply_icmpv4,
}
use lib_sager_net_core.Icmp.Headers.{refreshed-calculate, fields-refreshed, length-refreshed}
use lib_sager_net_core.Icmp.Echo.Swapped.{fields-swapped}
use lib_sager_net_core.Icmp.Replies.{reply_icmpv4-IsDatagram}
use lib_sager_net_core.Icmp.Echo.{
  Echo, ignored, relayed, answered, swapped, answer_message, process_icmpv4, handle_icmpv4,
}

test_of_eq : (a b : ℕ) → a ≡ b → a == b ≡ true
test_of_eq a b h = ground arith

module _ (ip : IpHeaders) (icmp : IcmpMessages) (sums : Checksums ip) where
  open ip use {Header, fields, header_bytes, set_source, set_destination}
  open icmp use {type_of, code_of, set_type, set_icmp_checksum, calculate_icmp, echo, echo_reply}
  open sums use {set_checksum, calculate}

  length-turned :
      (h : Header)
      → length (header_bytes (refreshed ip sums (swapped ip icmp h))) ≡ length (header_bytes h)
  unfolding swapped
  length-turned h =
      length-refreshed ip sums (swapped ip icmp h)
      ∙ ip.length-set_destination (fields h).source (set_source (fields h).destination h)
      ∙ ip.length-set_source (fields h).destination h

  -- The header and message of an answer, and those of a ping's replies, are from the asked address to the
  -- asker, with a valid header checksum; an answer has the type of an echo reply and a valid sum.
  abbrev pub IsTurned : (h q : Header) → Type 0
  IsTurned h q =
      ((fields q).source ≡ (fields h).destination)
      × ((fields q).destination ≡ (fields h).source)
      × ((fields q).length_field ≡ (fields h).length_field)
      × (length (header_bytes q) ≡ length (header_bytes h))
      × (calculate q ≡ 0xffff)

  refreshed-IsTurned : (h : Header) → IsTurned h (refreshed ip sums (swapped ip icmp h))
  refreshed-IsTurned h =
      let e = fields-refreshed ip sums (swapped ip icmp h) ∙ fields-swapped ip icmp h in
      (
        ap IpFields.source e,
        ap IpFields.destination e,
        ap IpFields.length_field e,
        length-turned h,
        refreshed-calculate ip sums (swapped ip icmp h),
      )

  answer_message-IsAnswer :
      (message : Bytes)
      → 8 ≤ length message
      → (length (answer_message ip icmp [] [] message) ≡ length message)
        × (type_of (answer_message ip icmp [] [] message) ≡ echo_reply)
        × (calculate_icmp [] [] (answer_message ip icmp [] [] message) ≡ 0xffff)
  unfolding answer_message
  answer_message-IsAnswer message long =
      let typed = set_type echo_reply message in
      let cleared = set_icmp_checksum 0 typed in
      let sum = complement16 (calculate_icmp [] [] cleared) in
      (
        icmp.length-set_icmp_checksum sum cleared
            ∙ icmp.length-set_icmp_checksum 0 typed
            ∙ icmp.length-set_type echo_reply message,
        icmp.type_of-set_icmp_checksum sum cleared
            ∙ icmp.type_of-set_icmp_checksum 0 typed
            ∙ icmp.type_of-set_type echo_reply message long,
        icmp.calculate-complement [] [] typed
            (omega (arith, icmp.length-set_type echo_reply message)),
      )

  -- An echo request that the handler does not take is answered by a datagram back to the asker.
  pub IsAnswered : (h : Header) → (message : Bytes) → Echo Header → Type 0
  IsAnswered h message (answered q m) =
      IsTurned h q
      × (length m ≡ length message)
      × (type_of m ≡ echo_reply)
      × (calculate_icmp [] [] m ≡ 0xffff)
  IsAnswered h message _ = ⊥

  -- An IPv4 packet with a message of at least 8 bytes that is no echo request of code 0 is ignored. One that is, and that the handler does not
  -- take, is answered: by a header with the addresses swapped, of the same lengths and with a valid checksum,
  -- and by a message of the same length, of the type of an echo reply and with a valid checksum.
  pub process_icmpv4-IsAnswered :
      (h : Header) (message : Bytes)
      → 8 ≤ length message
      → (type_of message == echo && code_of message == 0 ≡ false
          → (accepts : Bool) → process_icmpv4 ip icmp sums accepts h message ≡ ignored)
        × (type_of message == echo && code_of message == 0 ≡ true
            → IsAnswered h message (process_icmpv4 ip icmp sums false h message))
  unfolding process_icmpv4 IsAnswered
  process_icmpv4-IsAnswered h message long = (
    λ e accepts. rw e refl,
    λ e.
        let (size, type_is, sum) = answer_message-IsAnswer message long in
        rw e (refreshed-IsTurned h, size, type_is, sum),
  )

  -- What is written for a reply, as the asker sees it.
  pub record Reaches (h : Header) (reply : Bytes) (written : Header × Bytes) : Type 0 where
    pub from_asked : (fields written.0).source ≡ (fields h).destination
    pub to_asker : (fields written.0).destination ≡ (fields h).source
    pub right_length :
        (fields written.0).length_field ≡ (length (header_bytes written.0) + length reply) % 2 ^ 16
    pub right_checksum : calculate written.0 ≡ 0xffff
    pub right_message : written.1 ≡ reply

  replies-reach :
      (h : Header) (ping : Ping Header)
      → IsTurned h ping.net_header
      → (fields h).length_field ≡ (length (header_bytes h) + ping.message_length) % 2 ^ 16
      → (head : ℕ) (region : Bytes) (written : Bool) (reply : Bytes)
      → type_of reply ≢ icmp.dst_unreachable
      → Reaches h reply (reply_icmpv4 ip icmp sums head region written ping reply).0
  replies-reach h ping (e_source, e_destination, e_length, e_size, valid) len head region written
        reply other =
      let (d, payload, _) =
        reply_icmpv4-IsDatagram ip icmp sums head region written ping reply valid
          (e_length ∙ len ∙ ap (λ (n : ℕ). (n + ping.message_length) % 2 ^ 16) (sym e_size))
          other in
      record {
        from_asked = d.same_source ∙ e_source;
        to_asker = d.same_destination ∙ e_destination;
        right_length =
            d.right_length
            ∙ ap
                (λ (m : Bytes).
                  (length
                      (header_bytes (reply_icmpv4 ip icmp sums head region written ping reply).0.0)
                    + length m)
                  % 2 ^ 16)
                payload;
        right_checksum = d.right_checksum;
        right_message = payload;
      }

  -- An IPv4 echo request whose length field is the length of its datagram goes to the handler, where it takes
  -- it, as a ping from the asker to the asked address; whatever it gives back for that ping, however often,
  -- that is no unreachable message is written as a datagram from the asked address to the asker, with that
  -- message, its length and a valid header checksum.
  pub process_icmpv4-Reaches :
      (h : Header) (message : Bytes)
      → type_of message == echo && code_of message == 0 ≡ true
      → (fields h).length_field ≡ (length (header_bytes h) + length message) % 2 ^ 16
      → (ping : Ping Header) × (process_icmpv4 ip icmp sums true h message
          ≡ relayed (fields h).source (fields h).destination ping message)
        × ((head : ℕ) (region : Bytes) (written : Bool) (reply : Bytes)
            → type_of reply ≢ icmp.dst_unreachable
            → Reaches h reply (reply_icmpv4 ip icmp sums head region written ping reply).0)
  unfolding process_icmpv4
  process_icmpv4-Reaches h message e len =
      let q = refreshed ip sums (swapped ip icmp h) in
      let ping : Ping Header = record {
        net_header = q;
        origin = header_bytes q ++ take 8 message;
        message_length = length message;
      } in
      (ping, rw e refl, replies-reach h ping (refreshed-IsTurned h) len)

  -- The same for the handler of the gVisor stack, of a transport header and the data after it.
  pub handle_icmpv4-Reaches :
      (h : Header) (transport content : Bytes)
      → type_of transport ≡ echo
      → (fields h).length_field ≡ (length (header_bytes h) + length (transport ++ content)) % 2 ^ 16
      → (ping : Ping Header) × (handle_icmpv4 ip icmp sums true h transport content
          ≡ relayed (fields h).source (fields h).destination ping (transport ++ content))
        × ((head : ℕ) (region : Bytes) (written : Bool) (reply : Bytes)
            → type_of reply ≢ icmp.dst_unreachable
            → Reaches h reply (reply_icmpv4 ip icmp sums head region written ping reply).0)
  unfolding handle_icmpv4
  handle_icmpv4-Reaches h transport content e len =
      let ping : Ping Header = record {
        net_header = refreshed ip sums (swapped ip icmp h);
        origin = header_bytes h ++ take 8 transport;
        message_length = length (transport ++ content);
      } in
      (
        ping,
        rw (test_of_eq (type_of transport) echo e) refl,
        replies-reach h ping (refreshed-IsTurned h) len,
      )
