-- ===== src/Nat/Lifetime/Refine.antt =====
-- nat/tcp.go with its cache against the table of sessions as a function: the steps that each event takes.
use mathlib.Core.Option
use native.Mathlib.Decide.{ℕ_discrete}
use lib_sager_net_core.Common.{ℕ, ◌≡◌, ◌≢◌, none, some, List, [], ◌∷◌, Option-cases, inl, inr, map}
use lib_sager_net_core.Nat.Address.{Address, vlan_client4, vlan_client6}
use lib_sager_net_core.Nat.Packet.{TcpPackets, HeaderChecksums}
use lib_sager_net_core.Nat.Sessions.{PeerKey, PeerValue, LruCache}
use lib_sager_net_core.Nat.Forward.{
  client_key, reply_key, fresh_value, rewrite, open_session, process_ipv4, process_ipv6,
  refresh_tcp,
}
use lib_sager_net_core.Nat.Forward.RoundTrip.{refresh, view-refresh}
use lib_sager_net_core.Nat.Forward.Checksums.{view-refresh_tcp}
use lib_sager_net_core.Nat.Forward.Rewrite.{
  view-to_listener, view-to_client, rewrite_client, rewrite_reply, rewrite_unknown,
}
use lib_sager_net_core.Nat.Accept.{key_of_remote, accepted, dispatch, forget_session}
use lib_sager_net_core.Nat.Lifetime.{
  Event, packet_ipv4, packet_ipv6, accepts, forgets, expires, written, told, handle, run,
}
use lib_sager_net_core.Nat.Lifetime.Flows.{
  Flows, IsSame, IsSetAt, Arrival, segment, connection, removal, towards_listener, Step, opens,
  follows, replies, drops, connects, refuses, removes, Steps, stop, then',
}

module _ (lru : LruCache) where
  open lru use {Cache, find, touch, store, delete}

  -- The table that a cache stands for.
  abbrev pub flows : Cache → Flows
  flows c k = find k c

  touch-IsSame : (k : PeerKey) (c : Cache) → IsSame (flows c) (flows (touch k c))
  touch-IsSame k c j = lru.find-touch j k c

  delete-IsSetAt : (k : PeerKey) (c : Cache) → IsSetAt k none (flows c) (flows (delete k c))
  delete-IsSetAt k c = (lru.find-delete_self k c, λ j h. lru.find-delete_ne j k c h)

  store-IsSetAt :
      (k : PeerKey) (v : PeerValue) (c : Cache) → IsSetAt k (some v) (flows c) (flows (store k v c))
  store-IsSetAt k v c = (lru.find-store_self k v c, λ j h. lru.find-store_ne j k v c h)

  dispatch-Step :
      (port : ℕ) (c : Cache) (conn : ℕ) (ip : Address) (remote : ℕ)
      → Step port
          (flows c)
          (flows (dispatch lru c (accepted conn ip remote)).0)
          (connection conn ip remote)
          (told (dispatch lru c (accepted conn ip remote)).1)
  unfolding dispatch key_of_remote
  dispatch-Step port c conn ip remote =
      let key = key_of_remote ip remote in
      elim (Option-cases (find key c)) [
        | inl e ↦ rw (e, dispatch) (refuses conn ip remote e (touch-IsSame key c))
        | inr (v, e) ↦ rw (e, dispatch) (connects conn ip remote v e (touch-IsSame key c))
      ]

module _ (lru : LruCache) (lib : TcpPackets) (client : Address)
    (finish : TcpPackets.Packet lib → TcpPackets.Packet lib)
    (view-finish : (p : TcpPackets.Packet lib)
      → TcpPackets.view lib (finish p) ≡ TcpPackets.view lib p) where
  open lru use {Cache, find, touch, store}
  open lib use {Packet, view}

  client-Step :
      (port : ℕ) (c : Cache) (p : Packet)
      → (view p).source_port ≢ port
      → Step port
          (flows lru c)
          (flows lru (open_session lru (client_key (view p)) (fresh_value (view p)) c))
          (segment client (view p))
          (written (some (towards_listener port client (view p))))
  unfolding open_session
  client-Step port c p h = elim (Option-cases (find (client_key (view p)) c)) [
    | inl e ↦ rw (e, open_session) (opens client (view p) h e (store-IsSetAt lru _ _ c))
    | inr (v, e) ↦ rw (e, open_session) (follows client (view p) v h e (touch-IsSame lru _ c))
  ]

  write-Step :
      (port : ℕ) (c : Cache) (p : Packet)
      → let (c', out) = rewrite lru lib port client c p in
        Step port
          (flows lru c)
          (flows lru c')
          (segment client (view p))
          (written (Option.map view (Option.map finish out)))
  write-Step port c p = elim (ℕ_discrete (view p).source_port port) [
    | no h ↦
        rw (rewrite_client lru lib port client c p h, view-finish, view-to_listener)
          (client-Step port c p h)
    | yes h ↦ elim (Option-cases (find (reply_key (view p)) c)) [
      | inl e ↦
          rw (rewrite_unknown lru lib port client c p h e)
            (drops client (view p) h e (touch-IsSame lru _ c))
      | inr (v, e) ↦
          rw (rewrite_reply lru lib port client c p v h e, view-finish, view-to_client)
            (replies client (view p) v h e (touch-IsSame lru _ c))
    ]
  ]

module _ (lru : LruCache) (lib : TcpPackets) (checksums : HeaderChecksums lib) where
  open lru use {Cache}
  open lib use {Packet, view}

  abbrev pub arrival : Event Packet → Arrival
  arrival (packet_ipv4 p) = segment vlan_client4 (view p)
  arrival (packet_ipv6 p) = segment vlan_client6 (view p)
  arrival (accepts conn ip remote) = connection conn ip remote
  arrival (forgets k) = removal k
  arrival (expires k) = removal k

  pub handle-Step :
      (port : ℕ) (c : Cache) (e : Event Packet)
      → let (c', o) = handle lru lib checksums port c e in
        Step port (flows lru c) (flows lru c') (arrival e) o
  unfolding handle process_ipv4 process_ipv6 forget_session
  handle-Step port c (packet_ipv4 p) =
      write-Step lru lib vlan_client4 (refresh lru lib checksums) (view-refresh lru lib checksums)
        port c p
  handle-Step port c (packet_ipv6 p) =
      write-Step lru lib vlan_client6 (refresh_tcp lru lib) (view-refresh_tcp lru lib) port c p
  handle-Step port c (accepts conn ip remote) = dispatch-Step lru port c conn ip remote
  handle-Step port c (forgets k) = removes k (delete-IsSetAt lru k c)
  handle-Step port c (expires k) = removes k (delete-IsSetAt lru k c)

  -- Whatever packets of both families, connections and removals come, in whichever order: nat/tcp.go with its
  -- cache writes and tells what the table of sessions does as a function from keys, from that of the cache
  -- before to that of the cache after.
  pub run-Steps :
      (port : ℕ) (c : Cache) (es : List (Event Packet))
      → let (c', os) = run lru lib checksums port c es in
        Steps port (flows lru c) (map arrival es) os (flows lru c')
  unfolding run
  run-Steps port c [] = stop (flows lru c)
  run-Steps port c (e ∷ es) =
      then' _ _ _ _ _ _ _ (handle-Step port c e)
        (run-Steps port (handle lru lib checksums port c e).0 es)
