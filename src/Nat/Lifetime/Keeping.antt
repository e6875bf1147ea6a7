-- ===== src/Nat/Lifetime/Keeping.antt =====
-- A flow of nat/tcp.go, of either family, from its first packet on, while other flows come and go.
use mathlib.Core.Option
use mathlib.Core.Path.{subst}
use lib_sager_net_core.Common.{
  ℕ, ◌≡◌, ◌≢◌, refl, sym, ap, ◌∙◌, inl, inr, none, some, List, [], ◌∷◌, map, arith,
}
use lib_sager_net_core.Nat.Address.{Address, normalize_ip}
use lib_sager_net_core.Nat.Packet.{Endpoints, TcpPackets, HeaderChecksums}
use lib_sager_net_core.Nat.Sessions.{PeerKey, PeerValue, LruCache, key_cases}
use lib_sager_net_core.Nat.Forward.{client_key, reply_key, fresh_value}
use lib_sager_net_core.Nat.Forward.Rewrite.{swap}
use lib_sager_net_core.Nat.Accept.{new_connection, key_of_remote}
use lib_sager_net_core.Nat.Lifetime.{Event, accepts, Output, written, told, handle, run}
use lib_sager_net_core.Nat.Lifetime.Flows.{
  Flows, Arrival, segment, connection, removal, towards_listener, towards_client, Step, opens,
  follows, replies, drops, connects, refuses, removes, Steps, stop, then',
}
use lib_sager_net_core.Nat.Lifetime.Refine.{flows, arrival, handle-Step, run-Steps}
use lib_sager_net_core.Nat.Lifetime.Answers.{source_of, destination_of, connection-told}

-- Nothing that comes removes the session of a key.
abbrev pub Spares : PeerKey → Arrival → Type 0
Spares k (removal j) = k ≢ j
Spares k _ = Unit {0}

abbrev pub AllSpare : PeerKey → List Arrival → Type 0
AllSpare k [] = Unit {0}
AllSpare k (a ∷ as') = Spares k a × AllSpare k as'

remote_key :
    (ip : Address) (e : Endpoints)
    → normalize_ip ip ≡ e.destination_address
    → client_key e ≡ key_of_remote ip e.source_port
unfolding key_of_remote
remote_key ip e h = ground (arith, h)

module _ (port : ℕ) where
  Step-keeps :
      (t t' : Flows) {a : Arrival} {o : Output} (k : PeerKey) (v : PeerValue)
      → Step port t t' a o
      → Spares k a
      → t k ≡ some v
      → t' k ≡ some v
  Step-keeps t t' k v (opens client e h n (at, others)) s held = elim (key_cases k (client_key e)) [
    | inl same ↦ cc (held, n, ap t same)
    | inr ne ↦ others k ne ∙ held
  ]
  Step-keeps t t' k v (follows client e w h n same) s held = same k ∙ held
  Step-keeps t t' k v (replies client e w h n same) s held = same k ∙ held
  Step-keeps t t' k v (drops client e h n same) s held = same k ∙ held
  Step-keeps t t' k v (connects conn ip remote w h same) s held = same k ∙ held
  Step-keeps t t' k v (refuses conn ip remote h same) s held = same k ∙ held
  Step-keeps t t' k v (removes j (at, others)) s held = others k s ∙ held

  Steps-keeps :
      {t t' : Flows} {as' : List Arrival} {os : List Output} (k : PeerKey) (v : PeerValue)
      → Steps port t as' os t'
      → AllSpare k as'
      → t k ≡ some v
      → t' k ≡ some v
  Steps-keeps k v (stop _) s held = held
  Steps-keeps k v (then' t t1 t2 a o as' os st rest) (s, more) held =
      Steps-keeps k v rest more (Step-keeps t t1 k v st s held)

  -- The first packet of a flow, and what comes for a session that is there.
  Step-first :
      (t t' : Flows) (client : Address) (e : Endpoints) {o : Output}
      → Step port t t' (segment client e) o
      → e.source_port ≢ port
      → t (client_key e) ≡ none
      → (o ≡ written (some (towards_listener port client e)))
        × (t' (client_key e) ≡ some (fresh_value e))
  Step-first t t' client e (opens _ _ h n (at, others)) ne new = (refl, at)
  Step-first t t' client e (follows _ _ w h n same) ne new = cc (n, new)
  Step-first t t' client e (replies _ _ w h n same) ne new = absurd (ne h)
  Step-first t t' client e (drops _ _ h n same) ne new = absurd (ne h)

  Step-reply :
      (t t' : Flows) {o : Output} (client : Address) (e : Endpoints) (v : PeerValue)
      → Step port t t' (segment client e) o
      → e.source_port ≡ port
      → t (reply_key e) ≡ some v
      → o ≡ written (some (towards_client v e))
  Step-reply t t' client e v (opens _ _ h n set) from held = absurd (h from)
  Step-reply t t' client e v (follows _ _ w h n same) from held = absurd (h from)
  Step-reply t t' client e v (replies _ _ w h n same) from held =
      ap (λ x. written (some (towards_client x e))) (Option.some-injective _ _ (sym n ∙ held))
  Step-reply t t' client e v (drops _ _ h n same) from held = cc (n, held)

  Step-connection :
      (t t' : Flows) (conn : ℕ) (ip : Address) (remote : ℕ) (e : Endpoints) {o : Output}
      → Step port t t' (connection conn ip remote) o
      → client_key e ≡ key_of_remote ip remote
      → t (client_key e) ≡ some (fresh_value e)
      → o ≡ told (new_connection (source_of e) (destination_of e) conn ∷ [])
  Step-connection t t' conn ip remote e (connects _ _ _ v h same) key held =
      connection-told port [] t t' conn ip remote e v key
        (Option.some-injective _ _ (sym held ∙ ap t key ∙ h))
  Step-connection t t' conn ip remote e (refuses _ _ _ h same) key held = cc (h, held, ap t key)

module _ (lru : LruCache) (lib : TcpPackets) (checksums : HeaderChecksums lib) where
  open lru use {Cache, find}
  open lib use {Packet, view}

  -- A flow of either family, whose key has no session: its first packet is written to the listener. After that and
  -- whatever other packets of both families, connections and removals, except those of this session, an answer to
  -- the written packet is written as an answer to the first one, and a connection that the listener accepts from
  -- the flow's destination (plain, or as an IPv4 address in 16 bytes) and source port goes to the handler with the ends of the flow.
  pub run_round_trip :
      (port : ℕ) (c : Cache) (first reply : Event Packet) (es : List (Event Packet))
      (client client' : Address) (e : Endpoints) (conn : ℕ) (ip : Address)
      → arrival lru lib checksums first ≡ segment client e
      → e.source_port ≢ port
      → find (client_key e) c ≡ none
      → AllSpare (client_key e) (map (arrival lru lib checksums) es)
      → arrival lru lib checksums reply ≡ segment client' (swap (towards_listener port client e))
      → normalize_ip ip ≡ e.destination_address
      → let (c1, o1) = handle lru lib checksums port c first in
        let c2 = (run lru lib checksums port c1 es).0 in
        (o1 ≡ written (some (towards_listener port client e)))
        × ((handle lru lib checksums port c2 reply).1 ≡ written (some (swap e)))
        × ((handle lru lib checksums port c2 (accepts conn ip e.source_port)).1
            ≡ told (new_connection (source_of e) (destination_of e) conn ∷ []))
  run_round_trip port c first reply es client client' e conn ip opening from_client new spared
        answer key =
      let hd = handle lru lib checksums port in
      let c1 = (hd c first).0 in
      let c2 = (run lru lib checksums port c1 es).0 in
      let back = swap (towards_listener port client e) in
      let (o1, held1) =
        Step-first port (flows lru c) (flows lru c1) client e
          (subst (λ a. Step port (flows lru c) (flows lru c1) a (hd c first).1) opening
            (handle-Step lru lib checksums port c first))
          from_client new in
      let held2 =
        Steps-keeps port (client_key e) (fresh_value e) (run-Steps lru lib checksums port c1 es)
          spared held1 in
      (
        o1,
        Step-reply port (flows lru c2) (flows lru (hd c2 reply).0) client' back (fresh_value e)
            (subst (λ a. Step port (flows lru c2) (flows lru (hd c2 reply).0) a (hd c2 reply).1)
              answer (handle-Step lru lib checksums port c2 reply))
            refl held2,
        Step-connection port (flows lru c2) _ conn ip e.source_port e
            (handle-Step lru lib checksums port c2 (accepts conn ip e.source_port))
            (remote_key ip e key) held2,
      )
