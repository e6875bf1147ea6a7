-- ===== src/Nat/Forward/Written.antt =====
-- The translation in both directions and across other packets, for either family: `client` is the
-- address of the virtual client, and `finish` renews the checksums of a packet.
use mathlib.Core.Option
use lib_sager_net_core.Common.{ℕ, ◌≡◌, ◌≢◌, sym, ap, ◌∙◌, some, none, Option, List, [], ◌∷◌}
use lib_sager_net_core.Nat.Address.{Address}
use lib_sager_net_core.Nat.Packet.{TcpPackets}
use lib_sager_net_core.Nat.Sessions.{PeerKey, PeerValue, LruCache}
use lib_sager_net_core.Nat.Forward.{
  client_key, reply_key, fresh_value, to_listener, to_client, rewrite,
}
use lib_sager_net_core.Nat.Forward.Rewrite.{
  swap, find-open_session, rewrite-keeps, view-to_listener, view-to_client, rewrite_client,
  rewrite_reply,
}

-- The session table after a series of packets, by what one packet does to it.
abbrev pub table_after : {C P : Type 0} → (C → P → C) → C → List P → C
table_after step c [] = c
table_after step c (p ∷ ps) = table_after step (step c p) ps

module _ (lru : LruCache) (lib : TcpPackets) (client : Address)
    (finish : TcpPackets.Packet lib → TcpPackets.Packet lib)
    (view-finish : (p : TcpPackets.Packet lib)
      → TcpPackets.view lib (finish p) ≡ TcpPackets.view lib p) where
  open lru use {Cache, find, touch}
  open lib use {Packet, view}

  -- What `process_ipv4` and `process_ipv6` have in common.
  abbrev pub write : ℕ → Cache → Packet → Cache × Option Packet
  write port c p = let (c', out) = rewrite lru lib port client c p in (c', Option.map finish out)

  abbrev pub written_after : ℕ → Cache → List Packet → Cache
  written_after port = table_after (λ c p. (write port c p).0)

  pub written_after-keeps :
      (port : ℕ) (c : Cache) (ps : List Packet) (k : PeerKey) (v : PeerValue)
      → find k c ≡ some v
      → find k (written_after port c ps) ≡ some v
  written_after-keeps port c [] k v h = h
  written_after-keeps port c (p ∷ ps) k v h =
      written_after-keeps port (write port c p).0 ps k v
        (rewrite-keeps lru lib port client c p k v h)

  -- A packet of the client: it is written with the destination as its source and the listener as its
  -- destination, and its session is in the table.
  pub write_client :
      (port : ℕ) (c : Cache) (p : Packet)
      → (view p).source_port ≢ port
      → find (client_key (view p)) c ≡ none
      → (q : Packet) × ((write port c p).1 ≡ some q)
        × (view q ≡ record {
          source_address = (view p).destination_address;
          destination_address = client;
          source_port = (view p).source_port;
          destination_port = port;
        })
        × (find (client_key (view p)) (write port c p).0 ≡ some (fresh_value (view p)))
  write_client port c p h e = (
    finish (to_listener lru lib port client p),
    rw (rewrite_client lru lib port client c p h),
    view-finish _ ∙ view-to_listener lru lib port client p,
    rw (rewrite_client lru lib port client c p h) (find-open_session lru _ _ c e),
  )

  -- A packet of the listener for a known session.
  pub write_reply :
      (port : ℕ) (c : Cache) (r : Packet) (v : PeerValue)
      → (view r).source_port ≡ port
      → find (reply_key (view r)) c ≡ some v
      → (s : Packet) × ((write port c r).1 ≡ some s)
        × (view s ≡ record {
          source_address = (view r).destination_address;
          destination_address = v.source_address;
          source_port = v.destination_port;
          destination_port = (view r).destination_port;
        })
  write_reply port c r v h e = (
    finish (to_client lru lib v r),
    rw (rewrite_reply lru lib port client c r v h e),
    view-finish _ ∙ view-to_client lru lib v r,
  )

  pub write_round_trip :
      (port : ℕ) (c : Cache) (p q r : Packet) (others : List Packet)
      → (view p).source_port ≢ port
      → find (client_key (view p)) c ≡ none
      → (write port c p).1 ≡ some q
      → view r ≡ swap (view q)
      → (s : Packet) × ((write port (written_after port (write port c p).0 others) r).1 ≡ some s)
        × (view s ≡ swap (view p))
  write_round_trip port c p q r others h e w answer =
      let (q', w', vq, held) = write_client port c p h e in
      let same : q ≡ q' = Option.some-injective _ _ (sym w ∙ w') in
      let answer' : view r ≡ _ = answer ∙ ap (λ x. swap (view x)) same ∙ ap swap vq in
      let (s, ws, vs) =
        write_reply port (written_after port (write port c p).0 others) r (fresh_value (view p))
          (ap (λ x. x.source_port) answer')
          (rw (ap reply_key answer') (written_after-keeps port _ others _ _ held)) in
      (
        s,
        ws,
        vs
            ∙ ap
                (λ x. record {
                  source_address = x.destination_address;
                  destination_address = (view p).source_address;
                  source_port = (view p).destination_port;
                  destination_port = x.destination_port;
                })
                answer',
      )
