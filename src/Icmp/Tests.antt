-- ===== src/Icmp/Tests.antt =====
-- Runs of the replies to pings: headers and messages with the accessors written out.
use lib_sager_net_core.Common.{
  ℕ, ◌-◌, ◌≤◌, ◌≡◌, ◌≢◌, refl, Bool, true, [], ◌∷◌, ◌++◌, length, take, replicate,
}
use lib_sager_net_core.Common.Bytes.{overlay}
use lib_sager_net_core.Icmp.{Bytes, Ping, reply_message, reply_icmpv6, resized, reply_icmpv4}
use lib_sager_net_core.Icmp.Echo.{relayed, process_icmpv4, process_icmpv6}
use lib_sager_net_core.Icmp.Echo.Reached.{Reaches, process_icmpv4-Reaches}
use lib_sager_net_core.Icmp.Echo.Reached6.{Reaches6, process_icmpv6-Reaches6}
use lib_sager_net_core.Icmp.Samples.{plain_headers, plain_checksums, first, plain_messages, Plain}

-- An echo request of 9 bytes from 10.0.0.1 to 1.1.1.1, in a datagram of 29 bytes.
abbrev request : Plain
request = record {
  plain_source = 10 ∷ 0 ∷ 0 ∷ 1 ∷ [];
  plain_destination = 1 ∷ 1 ∷ 1 ∷ 1 ∷ [];
  plain_length = 29;
  plain_checksum = 7;
}

abbrev ping_message : Bytes
ping_message = 8 ∷ 0 ∷ 1 ∷ 2 ∷ 0 ∷ 1 ∷ 0 ∷ 1 ∷ 99 ∷ []

abbrev turned : Plain
turned = record {
  plain_source = 1 ∷ 1 ∷ 1 ∷ 1 ∷ [];
  plain_destination = 10 ∷ 0 ∷ 0 ∷ 1 ∷ [];
  plain_length = 29;
  plain_checksum = 0xffff - 0x4500 - 29;
}

abbrev sample_ping : Ping Plain
sample_ping = record {
  net_header = turned;
  origin = overlay (replicate 20 0) (1 ∷ 1 ∷ 1 ∷ 1 ∷ 10 ∷ 0 ∷ 0 ∷ 1 ∷ []) ++ take 8 ping_message;
  message_length = 9;
}

process_icmpv4-Reaches_example :
    (ping : Ping Plain) × (process_icmpv4 plain_headers plain_messages plain_checksums true request
        ping_message
      ≡ relayed (10 ∷ 0 ∷ 0 ∷ 1 ∷ []) (1 ∷ 1 ∷ 1 ∷ 1 ∷ []) ping ping_message)
    × ((head : ℕ) (region : Bytes) (written : Bool) (reply : Bytes)
        → first reply ≢ 3
        → Reaches plain_headers plain_messages plain_checksums request reply
            (reply_icmpv4 plain_headers plain_messages plain_checksums head region written ping
              reply).0)
unfolding overlay
process_icmpv4-Reaches_example =
    process_icmpv4-Reaches plain_headers plain_messages plain_checksums request ping_message refl
      refl

test-reply_icmpv4 :
    (reply_icmpv4 plain_headers plain_messages plain_checksums 4
      (replicate 36 0)
      true
      sample_ping
      (0 ∷ 0 ∷ 1 ∷ 2 ∷ 0 ∷ 1 ∷ 0 ∷ 1 ∷ 99 ∷ 98 ∷ [])).0.0
    ≡ record turned { plain_length = 30; plain_checksum = 0xffff - 0x4500 - 30 }
unfolding reply_icmpv4 reply_message resized
test-reply_icmpv4 = refl

abbrev request6 : Plain
request6 = record request { plain_length = 9 }

process_icmpv6-Reaches6_example :
    (ping : Ping Plain) × (process_icmpv6 plain_headers plain_messages true request6 ping_message
      ≡ relayed (10 ∷ 0 ∷ 0 ∷ 1 ∷ []) (1 ∷ 1 ∷ 1 ∷ 1 ∷ []) ping ping_message)
    × ((head : ℕ) (region : Bytes) (written : Bool) (reply : Bytes)
        → 8 ≤ length (reply_message plain_headers plain_messages head region ping reply)
        → Reaches6 plain_headers plain_messages request6 reply
            (reply_icmpv6 plain_headers plain_messages head region written
              (1 ∷ 1 ∷ 1 ∷ 1 ∷ [])
              (10 ∷ 0 ∷ 0 ∷ 1 ∷ [])
              ping
              reply).0)
process_icmpv6-Reaches6_example =
    process_icmpv6-Reaches6 plain_headers plain_messages request6 ping_message refl refl
