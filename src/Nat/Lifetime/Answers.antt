-- ===== src/Nat/Lifetime/Answers.antt =====
-- What nat/tcp.go writes to the client and tells the handler, against what the client has sent before.
use mathlib.Core.Logic.Or
use mathlib.Core.Option
use mathlib.Core.List.{Mem, mem-cons}
use lib_sager_net_core.Common.{
  ℕ, ◌≡◌, ◌≢◌, refl, sym, ap, ◌∙◌, ◌⊎◌, inl, inr, none, some, List, [], ◌∷◌, map, ◌==◌,
  if◌then◌else◌, arith,
}
use lib_sager_net_core.Nat.Address.{Address, Destination, normalize_ip, network_tcp}
use lib_sager_net_core.Nat.Packet.{Endpoints, TcpPackets, HeaderChecksums}
use lib_sager_net_core.Nat.Sessions.{PeerKey, PeerValue, LruCache, key_cases}
use lib_sager_net_core.Nat.Forward.{client_key, reply_key, fresh_value}
use lib_sager_net_core.Nat.Forward.Rewrite.{swap}
use lib_sager_net_core.Nat.Accept.{new_connection, close_connection, key_of_remote}
use lib_sager_net_core.Nat.Lifetime.{Event, Output, written, told, run}
use lib_sager_net_core.Nat.Lifetime.Flows.{
  Flows, IsSame, IsSetAt, Arrival, segment, connection, removal, towards_listener, towards_client,
  Step, opens, follows, replies, drops, connects, refuses, removes, Steps, stop, then',
}
use lib_sager_net_core.Nat.Lifetime.Refine.{arrival, run-Steps}

-- The packets that the client has sent, with what comes now.
abbrev pub seen_after : ℕ → List Endpoints → Arrival → List Endpoints
seen_after port seen (segment client e) = if e.source_port == port then seen else e ∷ seen
seen_after port seen _ = seen

abbrev pub source_of : Endpoints → Destination
source_of e = record { address = e.source_address; port = e.source_port; network = network_tcp }

abbrev pub destination_of : Endpoints → Destination
destination_of e = record {
  address = e.destination_address;
  port = e.destination_port;
  network = network_tcp;
}

-- A packet of the client goes to the listener. Any other packet is dropped, or is written as an answer to a
-- packet that the client has sent. A connection is closed, or goes to the handler with the source and the
-- destination of a packet that the client has sent.
abbrev pub IsAnswer : ℕ → List Endpoints → Arrival → Output → Type 0
IsAnswer port seen (segment client e) o =
    (e.source_port ≢ port → o ≡ written (some (towards_listener port client e)))
    × (e.source_port ≡ port
        → (o ≡ written none)
          ⊎ ((a : Endpoints) × Mem a seen
              × (client_key a ≡ reply_key e)
              × (o ≡ written (some (swap a)))))
IsAnswer port seen (connection conn ip remote) o =
    (o ≡ told (close_connection conn ∷ []))
    ⊎ ((a : Endpoints) × Mem a seen
        × (client_key a ≡ key_of_remote ip remote)
        × (o ≡ told (new_connection (source_of a) (destination_of a) conn ∷ [])))
IsAnswer port seen (removal k) o = o ≡ told []

abbrev pub AreAnswers : ℕ → List Endpoints → List Arrival → List Output → Type 0
AreAnswers port seen (a ∷ as') (o ∷ os) =
    IsAnswer port seen a o × AreAnswers port (seen_after port seen a) as' os
AreAnswers port seen [] [] = Unit {0}
AreAnswers port seen _ _ = ⊥

-- Every session in the table is that of a packet that the client has sent.
abbrev pub IsKnown : List Endpoints → Flows → Type 0
IsKnown seen t =
    (k : PeerKey) (v : PeerValue)
    → t k ≡ some v
    → (a : Endpoints) × Mem a seen × (client_key a ≡ k) × (fresh_value a ≡ v)

IsKnown-more :
    (seen : List Endpoints) (t : Flows) (e : Endpoints) → IsKnown seen t → IsKnown (e ∷ seen) t
IsKnown-more seen t e known k v h =
    let (a, m, key, value) = known k v h in (a, mem-cons.1 (Or.inr m), key, value)

IsKnown-same :
    (seen : List Endpoints) (t t' : Flows) → IsSame t t' → IsKnown seen t → IsKnown seen t'
IsKnown-same seen t t' same known k v h = known k v (sym (same k) ∙ h)

module _ (port : ℕ) (seen : List Endpoints) (t t' : Flows) where
  IsKnown-opened :
      (e : Endpoints)
      → IsSetAt (client_key e) (some (fresh_value e)) t t'
      → IsKnown seen t
      → IsKnown (e ∷ seen) t'
  IsKnown-opened e (at, others) known k v h = elim (key_cases k (client_key e)) [
    | inl same ↦ (
      e,
      mem-cons.1 (Or.inl refl),
      sym same,
      Option.some-injective _ _ (sym at ∙ ap t' (sym same) ∙ h),
    )
    | inr ne ↦ IsKnown-more seen t e known k v (sym (others k ne) ∙ h)
  ]

  IsKnown-removed : (k : PeerKey) → IsSetAt k none t t' → IsKnown seen t → IsKnown seen t'
  IsKnown-removed k (at, others) known j v h = elim (key_cases j k) [
    | inl same ↦ cc (at, ap t' same)
    | inr ne ↦ known j v (sym (others j ne) ∙ h)
  ]

  seen_client :
      (client : Address) (e : Endpoints)
      → e.source_port ≢ port
      → seen_after port seen (segment client e) ≡ e ∷ seen
  seen_client client e h = ground arith

  seen_listener :
      (client : Address) (e : Endpoints)
      → e.source_port ≡ port
      → seen_after port seen (segment client e) ≡ seen
  seen_listener client e h = ground arith

  Step-IsKnown :
      {a : Arrival} {o : Output}
      → Step port t t' a o
      → IsKnown seen t
      → IsKnown (seen_after port seen a) t'
  Step-IsKnown (opens client e h n set) known =
      rw (seen_client client e h) (IsKnown-opened e set known)
  Step-IsKnown (follows client e v h n same) known =
      rw (seen_client client e h) (IsKnown-more seen t' e (IsKnown-same seen t t' same known))
  Step-IsKnown (replies client e v h n same) known =
      rw (seen_listener client e h) (IsKnown-same seen t t' same known)
  Step-IsKnown (drops client e h n same) known =
      rw (seen_listener client e h) (IsKnown-same seen t t' same known)
  Step-IsKnown (connects conn ip remote v h same) known = IsKnown-same seen t t' same known
  Step-IsKnown (refuses conn ip remote h same) known = IsKnown-same seen t t' same known
  Step-IsKnown (removes k set) known = IsKnown-removed k set known

  towards_client-swap :
      (e a : Endpoints) (v : PeerValue)
      → client_key a ≡ reply_key e
      → fresh_value a ≡ v
      → towards_client v e ≡ swap a
  towards_client-swap e a v key value = ground (arith, key, value)

  pub connection-told :
      (conn : ℕ) (ip : Address) (remote : ℕ) (a : Endpoints) (v : PeerValue)
      → client_key a ≡ key_of_remote ip remote
      → fresh_value a ≡ v
      → told (
          new_connection
            (record { address = v.source_address; port = remote; network = network_tcp })
            (record { address = normalize_ip ip; port = v.destination_port; network = network_tcp })
            conn
          ∷ [])
        ≡ told (new_connection (source_of a) (destination_of a) conn ∷ [])
  unfolding key_of_remote
  connection-told conn ip remote a v key value = ground (arith, key, value)

  Step-IsAnswer :
      {a : Arrival} {o : Output} → Step port t t' a o → IsKnown seen t → IsAnswer port seen a o
  Step-IsAnswer (opens client e h n set) known = (λ _. refl, λ listener. absurd (h listener))
  Step-IsAnswer (follows client e v h n same) known = (λ _. refl, λ listener. absurd (h listener))
  Step-IsAnswer (replies client e v h n same) known =
      let (a, m, key, value) = known (reply_key e) v n in
      (
        λ other. absurd (other h),
        λ _. inr (a, m, key, ap (λ x. written (some x)) (towards_client-swap e a v key value)),
      )
  Step-IsAnswer (drops client e h n same) known = (λ other. absurd (other h), λ _. inl refl)
  Step-IsAnswer (connects conn ip remote v h same) known =
      let (a, m, key, value) = known (key_of_remote ip remote) v h in
      inr (a, m, key, connection-told conn ip remote a v key value)
  Step-IsAnswer (refuses conn ip remote h same) known = inl refl
  Step-IsAnswer (removes k set) known = refl

Steps-AreAnswers :
    (port : ℕ) (seen : List Endpoints) {t t' : Flows} {as' : List Arrival} {os : List Output}
    → Steps port t as' os t'
    → IsKnown seen t
    → AreAnswers port seen as' os
Steps-AreAnswers port seen (stop _) known = tt
Steps-AreAnswers port seen (then' t t' t'' a o as' os st rest) known = (
  Step-IsAnswer port seen t t' st known,
  Steps-AreAnswers port (seen_after port seen a) rest (Step-IsKnown port seen t t' st known),
)

module _ (lru : LruCache) (lib : TcpPackets) (checksums : HeaderChecksums lib) where
  open lru use {Cache, find}
  open lib use {Packet}

  -- From an empty cache, whatever packets of both families, connections and removals come, in whichever order:
  -- each packet of the client is written to the listener; each other packet that is written is an answer to a
  -- packet that the client sent before; and each connection that goes to the handler has the source and the
  -- destination of a packet that the client sent before.
  pub run-AreAnswers :
      (port : ℕ) (c : Cache) (es : List (Event Packet))
      → ((k : PeerKey) → find k c ≡ none)
      → AreAnswers port [] (map (arrival lru lib checksums) es) (run lru lib checksums port c es).1
  run-AreAnswers port c es empty =
      Steps-AreAnswers port [] (run-Steps lru lib checksums port c es) (λ k v h. cc (empty k))
