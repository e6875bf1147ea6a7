-- ===== src/Nat/Forward/RoundTrip.antt =====
-- The address translation of nat/tcp.go: what comes back for a packet of a new flow, and of a flow whose
-- session is an old one.
use lib_sager_net_core.Common.{ℕ, ◌≡◌, ◌≢◌, sym, ap, ◌∙◌, some, none, List}
use lib_sager_net_core.Nat.Address.{vlan_client4, vlan_client6}
use lib_sager_net_core.Nat.Packet.{TcpPackets, HeaderChecksums}
use lib_sager_net_core.Nat.Sessions.{PeerValue, LruCache}
use lib_sager_net_core.Nat.Forward.{
  client_key, reply_key, fresh_value, refresh_tcp, refresh_header, process_ipv4, process_ipv6,
}
use lib_sager_net_core.Nat.Forward.Checksums.{view-refresh_tcp, view-refresh_header}
use lib_sager_net_core.Nat.Forward.Rewrite.{swap, rewrite-keeps}
use lib_sager_net_core.Nat.Forward.Written.{
  table_after, written_after-keeps, write_client, write_reply, write_round_trip,
}

module _ (lru : LruCache) (lib : TcpPackets) (checksums : HeaderChecksums lib) where
  open lru use {Cache, find}
  open lib use {Packet, view}

  abbrev pub refresh : Packet → Packet
  refresh q = refresh_tcp lru lib (refresh_header lru lib checksums q)

  pub view-refresh : (p : Packet) → view (refresh p) ≡ view p
  view-refresh p = view-refresh_tcp lru lib _ ∙ view-refresh_header lru lib checksums _

  -- The table after one IPv4 packet.
  abbrev pub after_ipv4 : ℕ → Cache → Packet → Cache
  after_ipv4 port c p = (process_ipv4 lru lib checksums port c p).0

  -- The session of a new flow, after its first packet and any others.
  pub find-after_ipv4 :
      (port : ℕ) (c : Cache) (p : Packet) (others : List Packet)
      → (view p).source_port ≢ port
      → find (client_key (view p)) c ≡ none
      → find (client_key (view p)) (table_after (after_ipv4 port) (after_ipv4 port c p) others)
        ≡ some (fresh_value (view p))
  unfolding process_ipv4
  find-after_ipv4 port c p others h e =
      let (q, w, vq, held) = write_client lru lib vlan_client4 refresh view-refresh port c p h e in
      written_after-keeps lru lib vlan_client4 refresh view-refresh port _ others _ _ held

  -- Round trip: after a new flow's first packet `p` was written as `q`, and after any further
  -- packets `others` of any flows, an answer `r` to `q` is written as an answer to `p`.
  pub process_ipv4_round_trip :
      (port : ℕ) (c : Cache) (p q r : Packet) (others : List Packet)
      → (view p).source_port ≢ port
      → find (client_key (view p)) c ≡ none
      → (process_ipv4 lru lib checksums port c p).1 ≡ some q
      → view r ≡ swap (view q)
      → (s : Packet) × ((process_ipv4 lru lib checksums port
            (table_after (after_ipv4 port) (after_ipv4 port c p) others)
            r).1
          ≡ some s)
        × (view s ≡ swap (view p))
  unfolding process_ipv4
  process_ipv4_round_trip port c p q r others h e w answer =
      write_round_trip lru lib vlan_client4 refresh view-refresh port c p q r others h e w answer

  -- The session key leaves out the destination port: if the table holds a session `v` for the flow's
  -- source port and destination address that was opened for another destination port, an answer `r`
  -- to the flow's packet `p` comes back from the port of `v`, not from the port `p` was sent to.
  pub process_ipv4_stale_session :
      (port : ℕ) (c : Cache) (p r : Packet) (v : PeerValue)
      → (view p).source_port ≢ port
      → find (client_key (view p)) c ≡ some v
      → v.destination_port ≢ (view p).destination_port
      → (view r).source_port ≡ port
      → reply_key (view r) ≡ client_key (view p)
      → (s : Packet) × ((process_ipv4 lru lib checksums port
            (process_ipv4 lru lib checksums port c p).0
            r).1
          ≡ some s)
        × ((view s).source_port ≡ v.destination_port)
        × ((view s).source_port ≢ (view p).destination_port)
  unfolding process_ipv4
  process_ipv4_stale_session port c p r v h e differs from_listener key =
      let (s, ws, vs) =
        write_reply lru lib vlan_client4 refresh view-refresh port
          (process_ipv4 lru lib checksums port c p).0 r v from_listener
          (rw key (rewrite-keeps lru lib port vlan_client4 c p _ v e)) in
      let source : (view s).source_port ≡ v.destination_port = ap (λ x. x.source_port) vs in
      (s, ws, source, λ same. differs (sym source ∙ same))

module _ (lru : LruCache) (lib : TcpPackets) where
  open lru use {Cache, find}
  open lib use {Packet, view}

  -- The table after one IPv6 packet.
  abbrev pub after_ipv6 : ℕ → Cache → Packet → Cache
  after_ipv6 port c p = (process_ipv6 lru lib port c p).0

  -- Round trip for IPv6: after a new flow's first packet `p` was written as `q`, and after any further
  -- packets `others` of any flows, an answer `r` to `q` is written as an answer to `p`.
  pub process_ipv6_round_trip :
      (port : ℕ) (c : Cache) (p q r : Packet) (others : List Packet)
      → (view p).source_port ≢ port
      → find (client_key (view p)) c ≡ none
      → (process_ipv6 lru lib port c p).1 ≡ some q
      → view r ≡ swap (view q)
      → (s : Packet) × ((process_ipv6 lru lib port
            (table_after (after_ipv6 port) (after_ipv6 port c p) others)
            r).1
          ≡ some s)
        × (view s ≡ swap (view p))
  unfolding process_ipv6
  process_ipv6_round_trip port c p q r others h e w answer =
      write_round_trip lru lib vlan_client6 (refresh_tcp lru lib) (view-refresh_tcp lru lib) port c
        p q r others h e w answer
