-- ===== src/Icmp/Echo.antt =====
-- nat/icmp.go, gvisor/icmp.go: how an echo request is taken on. `accepts` is what `NewPingPacket` answers; a
-- request that it does not take is answered at once.
pub mod Swapped
pub mod Reached
pub mod Reached6
use lib_sager_net_core.Common.{
  ℕ, ◌+◌, ◌-◌, ◌%◌, ◌^◌, ◌≤◌, ◌<◌, ◌≡◌, ◌≢◌, refl, sym, ap, ◌∙◌, inl, inr, Bool, true, false, not,
  ◌&&◌, Option, none, some, List, [], ◌∷◌, ◌++◌, if◌then◌else◌, length, take, drop, replicate, ◌==◌,
  Bool-cases, length-append, arith,
}
use lib_sager_net_core.Nat.Packet.{complement16}
use lib_sager_net_core.Icmp.{
  Bytes, IpFields, IpHeaders, Checksums, IcmpMessages, ReplyError, write_failed, Ping, refreshed,
  reply_icmpv4, reply_icmpv6,
}
use lib_sager_net_core.Icmp.Replies.{IsDatagram, reply_icmpv4-IsDatagram}

-- What becomes of an ICMP packet: it is no echo request, it goes to the handler as a ping from an address to
-- another, or the header and message are written as its answer.
pub data Echo (Header : Type 0) : Type 0 where
  ignored : Echo Header
  relayed : (source destination : Bytes) (ping : Ping Header) (message : Bytes) → Echo Header
  answered : (header : Header) (message : Bytes) → Echo Header

module _ (ip : IpHeaders) (icmp : IcmpMessages) where
  open ip use {Header, fields, header_bytes, set_source, set_destination}
  open icmp use {type_of, code_of, set_type, set_icmp_checksum, calculate_icmp, echo, echo_reply}

  -- The header with its addresses swapped.
  unfoldable pub swapped : Header → Header
  swapped h = set_destination (fields h).source (set_source (fields h).destination h)

  -- The message turned into the answer, summed for the addresses `s` and `d`.
  unfoldable pub answer_message : (s d : Bytes) → Bytes → Bytes
  answer_message s d message =
      let cleared = set_icmp_checksum 0 (set_type echo_reply message) in
      set_icmp_checksum (complement16 (calculate_icmp s d cleared)) cleared

  -- `processICMPv6`
  unfoldable pub process_icmpv6 : (accepts : Bool) → Header → (message : Bytes) → Echo Header
  unfolding swapped answer_message
  process_icmpv6 accepts h message =
      let q = swapped h in
      let ping : Ping Header = record {
        net_header = q;
        origin = header_bytes q ++ take 8 message;
        message_length = length message;
      } in
      if not (type_of message == echo && code_of message == 0)
      then ignored
      else if accepts
      then relayed (fields h).source (fields h).destination ping message
      else answered q (answer_message (fields q).source (fields q).destination message)

  -- The handler of ICMPv6 in `gIcmpHandler`, of the transport header and the data; it quotes the header as it
  -- came.
  unfoldable pub handle_icmpv6 :
      (accepts : Bool) → Header → (transport content : Bytes) → Echo Header
  unfolding swapped answer_message
  handle_icmpv6 accepts h transport content =
      let message = transport ++ content in
      let ping : Ping Header = record {
        net_header = swapped h;
        origin = header_bytes h ++ take 8 transport;
        message_length = length message;
      } in
      if not (type_of transport == echo)
      then ignored
      else if accepts
      then relayed (fields h).source (fields h).destination ping message
      else answered (swapped h) (answer_message (fields h).destination (fields h).source message)

  -- The new view of an unreachable message in gvisor/icmp.go.
  abbrev pub new_region : Ping Header → Bytes
  new_region ping = replicate (icmp.error_header_size + length ping.origin) 0

  -- The reply that the handler of ICMPv6 gives to `NewPingPacket`, summed for the asker and the asked address.
  unfoldable pub handle_reply_icmpv6 :
      (head : ℕ) (written : Bool)
      → Header
      → Ping Header
      → (message : Bytes) → (Header × Bytes) × Option ReplyError
  unfolding reply_icmpv6
  handle_reply_icmpv6 head written h ping message =
      reply_icmpv6 ip icmp head (new_region ping) written (fields h).source (fields h).destination
        ping message

  module _ (sums : Checksums ip) where
    -- The reply that the handler of ICMPv4 gives.
    unfoldable pub handle_reply_icmpv4 :
        (head : ℕ) (written : Bool)
        → Ping Header
        → (message : Bytes) → (Header × Bytes) × Option ReplyError
    unfolding reply_icmpv4
    handle_reply_icmpv4 head written ping message =
        reply_icmpv4 ip icmp sums head (new_region ping) written ping message

    -- `processICMPv4`
    unfoldable pub process_icmpv4 : (accepts : Bool) → Header → (message : Bytes) → Echo Header
    unfolding swapped answer_message refreshed
    process_icmpv4 accepts h message =
        let q = refreshed ip sums (swapped h) in
        let ping : Ping Header = record {
          net_header = q;
          origin = header_bytes q ++ take 8 message;
          message_length = length message;
        } in
        if not (type_of message == echo && code_of message == 0)
        then ignored
        else if accepts
        then relayed (fields h).source (fields h).destination ping message
        else answered q (answer_message [] [] message)

    -- The handler of ICMPv4 in `gIcmpHandler`.
    unfoldable pub handle_icmpv4 :
        (accepts : Bool) → Header → (transport content : Bytes) → Echo Header
    unfolding swapped answer_message refreshed
    handle_icmpv4 accepts h transport content =
        let message = transport ++ content in
        let ping : Ping Header = record {
          net_header = refreshed ip sums (swapped h);
          origin = header_bytes h ++ take 8 transport;
          message_length = length message;
        } in
        if not (type_of transport == echo)
        then ignored
        else if accepts
        then relayed (fields h).source (fields h).destination ping message
        else answered (refreshed ip sums (swapped h)) (answer_message [] [] message)
