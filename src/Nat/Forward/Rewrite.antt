-- ===== src/Nat/Forward/Rewrite.antt =====
-- The address translation of nat/tcp.go: a reply to a translated packet comes back as a reply to the
-- original one, and no packet disturbs the session of another flow.
use lib_sager_net_core.Common.{ℕ, ◌≡◌, ◌≢◌, ap, ◌∙◌, some, none, Option-cases, inl, inr, arith}
use lib_sager_net_core.Nat.Address.{Address}
use lib_sager_net_core.Nat.Packet.{Endpoints, TcpPackets}
use lib_sager_net_core.Nat.Sessions.{PeerKey, PeerValue, LruCache}
use lib_sager_net_core.Nat.Forward.{
  client_key, reply_key, fresh_value, open_session, to_listener, to_client, rewrite,
}

-- The endpoints of an answer.
abbrev pub swap : Endpoints → Endpoints
swap e = record {
  source_address = e.destination_address;
  destination_address = e.source_address;
  source_port = e.destination_port;
  destination_port = e.source_port;
}

module _ (lru : LruCache) where
  open lru use {Cache, find, touch}

  pub find-open_session :
      (k : PeerKey) (v : PeerValue) (c : Cache)
      → find k c ≡ none
      → find k (open_session lru k v c) ≡ some v
  unfolding open_session
  find-open_session k v c h = rw (h, open_session) (lru.find-store_self k v c)

  pub open_session-keeps :
      (j k : PeerKey) (v w : PeerValue) (c : Cache)
      → find j c ≡ some w
      → find j (open_session lru k v c) ≡ some w
  unfolding open_session
  open_session-keeps j k v w c h = elim (Option-cases (find k c)) [
    | inl e ↦
        rw (e, open_session) (lru.find-store_ne j k v c (λ same. cc (ap (λ x. find x c) same)) ∙ h)
    | inr (x, e) ↦ rw (e, open_session) (lru.find-touch j k c ∙ h)
  ]

module _ (lru : LruCache) (lib : TcpPackets) where
  open lru use {Cache, find, touch}
  open lib use {Packet, view}

  -- No packet, from either side and of whichever flow, changes a session that is in the table.
  pub rewrite-keeps :
      (port : ℕ) (client : Address) (c : Cache) (p : Packet) (k : PeerKey) (v : PeerValue)
      → find k c ≡ some v
      → find k (rewrite lru lib port client c p).0 ≡ some v
  unfolding rewrite
  rewrite-keeps port client c p k v h = ground (
    arith,
    lru.find-touch k (reply_key (view p)) c,
    open_session-keeps lru k (client_key (view p)) (fresh_value (view p)) v c,
  )

  pub view-to_listener :
      (port : ℕ) (client : Address) (p : Packet)
      → view (to_listener lru lib port client p) ≡ record {
        source_address = (view p).destination_address;
        destination_address = client;
        source_port = (view p).source_port;
        destination_port = port;
      }
  unfolding to_listener
  view-to_listener port client p =
      simp (
        lib.view-set_source_address, lib.view-set_destination_address,
        lib.view-set_destination_port,
      )

  pub view-to_client :
      (v : PeerValue) (p : Packet)
      → view (to_client lru lib v p) ≡ record {
        source_address = (view p).destination_address;
        destination_address = v.source_address;
        source_port = v.destination_port;
        destination_port = (view p).destination_port;
      }
  unfolding to_client
  view-to_client v p =
      simp (lib.view-set_source_address, lib.view-set_destination_address, lib.view-set_source_port)

  -- What a packet of the client becomes, and the session that the table then holds for it.
  pub rewrite_client :
      (port : ℕ) (client : Address) (c : Cache) (p : Packet)
      → (view p).source_port ≢ port
      → rewrite lru lib port client c p ≡ (
        open_session lru (client_key (view p)) (fresh_value (view p)) c,
        some (to_listener lru lib port client p),
      )
  unfolding rewrite
  rewrite_client port client c p h = ground arith

  pub rewrite_reply :
      (port : ℕ) (client : Address) (c : Cache) (r : Packet) (v : PeerValue)
      → (view r).source_port ≡ port
      → find (reply_key (view r)) c ≡ some v
      → rewrite lru lib port client c r
        ≡ (touch (reply_key (view r)) c, some (to_client lru lib v r))
  unfolding rewrite
  rewrite_reply port client c r v h e = ground arith

  pub rewrite_unknown :
      (port : ℕ) (client : Address) (c : Cache) (r : Packet)
      → (view r).source_port ≡ port
      → find (reply_key (view r)) c ≡ none
      → rewrite lru lib port client c r ≡ (touch (reply_key (view r)) c, none)
  unfolding rewrite
  rewrite_unknown port client c r h e = ground arith
