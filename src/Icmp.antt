-- ===== src/Icmp.antt =====
-- The replies to pings that nat/icmp.go and gvisor/icmp.go write: the functions that both give to
-- `NewPingPacket`. The header accessors of gVisor are parameters, with their documented behaviour as laws:
-- a setter changes its field alone, a sum of 16-bit words is taken up to the carries that are added again.
pub mod Headers
pub mod Replies
pub mod Unreachable
pub mod Echo
pub mod Samples
mod Tests
use lib_sager_net_core.Common.{
  ℕ, ◌+◌, ◌-◌, ◌%◌, ◌^◌, ◌≤◌, ◌<◌, ◌≡◌, Bool, true, false, Option, none, some, List, [], ◌∷◌, ◌++◌,
  if◌then◌else◌, length, take, drop, ◌==◌,
}
use lib_sager_net_core.Common.Bytes.{overlay}
use lib_sager_net_core.Nat.Packet.{complement16}

abbrev pub Bytes : Type 0
Bytes = List ℕ

-- The fields of an IP header that are read or written; an IPv6 header has no checksum, and its length is that
-- of the payload.
pub record IpFields : Type 0 where
  pub source : Bytes
  pub destination : Bytes
  pub length_field : ℕ

-- `header.IPv4` and `header.IPv6`: the header's own bytes, with no payload.
pub record IpHeaders : Type 1 where
  pub Header : Type 0
  pub fields : Header → IpFields
  pub header_bytes : Header → Bytes
  pub set_source : Bytes → Header → Header
  pub set_destination : Bytes → Header → Header
  pub set_length : ℕ → Header → Header
  pub fields-set_source :
      (a : Bytes) (h : Header) → fields (set_source a h) ≡ record (fields h) { source = a }
  pub fields-set_destination :
      (a : Bytes) (h : Header)
      → fields (set_destination a h) ≡ record (fields h) { destination = a }
  pub fields-set_length :
      (n : ℕ) (h : Header)
      → fields (set_length n h) ≡ record (fields h) { length_field = n % 2 ^ 16 }
  pub length-set_source :
      (a : Bytes) (h : Header) → length (header_bytes (set_source a h)) ≡ length (header_bytes h)
  pub length-set_destination :
      (a : Bytes) (h : Header)
      → length (header_bytes (set_destination a h)) ≡ length (header_bytes h)
  pub length-set_length :
      (n : ℕ) (h : Header) → length (header_bytes (set_length n h)) ≡ length (header_bytes h)

-- The checksum of an IPv4 header, and `header.ChecksumCombine`.
pub record Checksums (ip : IpHeaders) : Type 0 where
  pub checksum : ip.Header → ℕ
  pub set_checksum : ℕ → ip.Header → ip.Header
  pub calculate : ip.Header → ℕ
  pub checksum_combine : ℕ → ℕ → ℕ
  pub fields-set_checksum : (c : ℕ) (h : ip.Header) → ip.fields (set_checksum c h) ≡ ip.fields h
  pub length-set_checksum :
      (c : ℕ) (h : ip.Header)
      → length (ip.header_bytes (set_checksum c h)) ≡ length (ip.header_bytes h)
  pub checksum-set_length : (n : ℕ) (h : ip.Header) → checksum (ip.set_length n h) ≡ checksum h
  pub checksum-bound : (h : ip.Header) → checksum h ≤ 0xffff
  pub checksum-set_checksum : (c : ℕ) (h : ip.Header) → c ≤ 0xffff → checksum (set_checksum c h) ≡ c
  pub length_field-bound : (h : ip.Header) → (ip.fields h).length_field ≤ 0xffff
  pub calculate-bound : (h : ip.Header) → (0 < calculate h) × (calculate h ≤ 0xffff)
  pub calculate-set_checksum :
      (c : ℕ) (h : ip.Header)
      → c ≤ 0xffff
      → (calculate (set_checksum c h) + checksum h) % 0xffff ≡ (calculate h + c) % 0xffff
  pub calculate-set_length :
      (n : ℕ) (h : ip.Header)
      → (calculate (ip.set_length n h) + (ip.fields h).length_field) % 0xffff
        ≡ (calculate h + n % 2 ^ 16) % 0xffff
  pub combine-bound : (a b : ℕ) → a ≤ 0xffff → b ≤ 0xffff → checksum_combine a b ≤ 0xffff
  pub combine-residue :
      (a b : ℕ) → a ≤ 0xffff → b ≤ 0xffff → checksum_combine a b % 0xffff ≡ (a + b) % 0xffff

-- `SetChecksum(0)`, then `SetChecksum(^CalculateChecksum())`.
unfoldable pub refreshed : (ip : IpHeaders) → Checksums ip → ip.Header → ip.Header
refreshed ip sums h =
    let cleared = sums.set_checksum 0 h in
    sums.set_checksum (complement16 (sums.calculate cleared)) cleared

-- `header.ICMPv4` and `header.ICMPv6`, whose fields are in the bytes. `calculate_icmp` sums an ICMPv6 message
-- with its pseudo header, of the source and destination. A message has at least 8 bytes.
pub record IcmpMessages : Type 0 where
  pub type_of : Bytes → ℕ
  pub code_of : Bytes → ℕ
  pub set_type : ℕ → Bytes → Bytes
  pub set_icmp_checksum : ℕ → Bytes → Bytes
  pub calculate_icmp : (source destination : Bytes) → Bytes → ℕ
  pub dst_unreachable : ℕ
  pub echo : ℕ
  pub echo_reply : ℕ
  -- The bytes before the quoted datagram.
  pub error_header_size : ℕ
  pub type_of-set_type : (t : ℕ) (m : Bytes) → 8 ≤ length m → type_of (set_type t m) ≡ t
  pub type_of-set_icmp_checksum : (c : ℕ) (m : Bytes) → type_of (set_icmp_checksum c m) ≡ type_of m
  pub length-set_type : (t : ℕ) (m : Bytes) → length (set_type t m) ≡ length m
  pub length-set_icmp_checksum : (c : ℕ) (m : Bytes) → length (set_icmp_checksum c m) ≡ length m
  -- The checksum is the third and fourth byte.
  pub take-set_icmp_checksum : (c : ℕ) (m : Bytes) → take 2 (set_icmp_checksum c m) ≡ take 2 m
  pub drop-set_icmp_checksum : (c : ℕ) (m : Bytes) → drop 4 (set_icmp_checksum c m) ≡ drop 4 m
  pub calculate-complement :
      (s d m : Bytes)
      → 8 ≤ length m
      → let q = set_icmp_checksum 0 m in
        calculate_icmp s d (set_icmp_checksum (complement16 (calculate_icmp s d q)) q) ≡ 0xffff

-- What a reply function answers.
pub data ReplyError : Type 0 where
  write_failed : ReplyError
  net_unreachable : ReplyError

-- What a ping keeps for its replies: the IP header with the addresses swapped, the quoted datagram, and the
-- length of its message.
pub record Ping (Header : Type 0) : Type 0 where
  pub net_header : Header
  pub origin : Bytes
  pub message_length : ℕ

-- The error that a reply returns.
unfoldable pub reply_error : (written unreachable : Bool) → Option ReplyError
reply_error false _ = some write_failed
reply_error true true = some net_unreachable
reply_error true false = none

module _ (ip : IpHeaders) (icmp : IcmpMessages) where
  open ip use {Header, fields, header_bytes, set_length}
  open icmp use {type_of, set_icmp_checksum, calculate_icmp, dst_unreachable, error_header_size}

  -- The message of a reply. `region` is the new buffer for an unreachable message, of the error header's size
  -- and the quoted datagram's, and `head` the number of bytes that are taken over.
  unfoldable pub reply_message :
      (head : ℕ) (region : Bytes) → Ping Header → (message : Bytes) → Bytes
  unfolding overlay
  reply_message head region ping message =
      if type_of message == dst_unreachable
      then overlay (take head region) message
        ++ (drop head (take error_header_size region)
            ++ overlay (drop error_header_size region) ping.origin)
      else message

  -- The IPv6 reply, summed for the addresses `s` and `d`, those that are read when the reply is made: the header and message that are written, and the error.
  unfoldable pub reply_icmpv6 :
      (head : ℕ) (region : Bytes) (written : Bool) (s d : Bytes)
      → Ping Header
      → (message : Bytes) → (Header × Bytes) × Option ReplyError
  unfolding reply_message reply_error
  reply_icmpv6 head region written s d ping message =
      let m = reply_message head region ping message in
      let h =
        if length m == ping.message_length
        then ping.net_header
        else set_length (length m) ping.net_header in
      let cleared = set_icmp_checksum 0 m in
      let summed = set_icmp_checksum (complement16 (calculate_icmp s d cleared)) cleared in
      ((h, summed), reply_error written (type_of summed == dst_unreachable))

  module _ (sums : Checksums ip) where
    open sums use {checksum, set_checksum, checksum_combine}

    -- The IPv4 header of a reply whose message has another length: the old header's checksum is brought up to
    -- date by the difference of the lengths.
    unfoldable pub resized : (total : ℕ) → Header → Header
    resized total net =
        let h = set_length total net in
        set_checksum
          (complement16 (
            checksum_combine (complement16 (checksum h))
              (checksum_combine (fields h).length_field (complement16 (fields net).length_field))))
          h

    -- The IPv4 reply. The new length is that of the message that came in.
    unfoldable pub reply_icmpv4 :
        (head : ℕ) (region : Bytes) (written : Bool)
        → Ping Header
        → (message : Bytes) → (Header × Bytes) × Option ReplyError
    unfolding reply_message reply_error resized
    reply_icmpv4 head region written ping message =
        let m = reply_message head region ping message in
        let h =
          if length m == ping.message_length
          then ping.net_header
          else resized (length (header_bytes ping.net_header) + length message) ping.net_header in
        ((h, m), reply_error written (type_of m == dst_unreachable))
