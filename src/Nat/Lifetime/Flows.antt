-- ===== src/Nat/Lifetime/Flows.antt =====
-- The table of sessions of nat/tcp.go as a function from keys, which a step changes at one key or not at all, with
-- what is written and told at each step.
use lib_sager_net_core.Common.{ℕ, ◌≡◌, ◌≢◌, Option, none, some, List, [], ◌∷◌}
use lib_sager_net_core.Nat.Address.{Address, normalize_ip, network_tcp}
use lib_sager_net_core.Nat.Packet.{Endpoints}
use lib_sager_net_core.Nat.Sessions.{PeerKey, PeerValue}
use lib_sager_net_core.Nat.Forward.{client_key, reply_key, fresh_value}
use lib_sager_net_core.Nat.Accept.{new_connection, close_connection, key_of_remote}
use lib_sager_net_core.Nat.Lifetime.{Output, written, told}

abbrev pub Flows : Type 0
Flows = PeerKey → Option PeerValue

-- Nothing changes, or the entry of one key does.
abbrev pub IsSame : Flows → Flows → Type 0
IsSame t t' = (k : PeerKey) → t' k ≡ t k

abbrev pub IsSetAt : PeerKey → Option PeerValue → Flows → Flows → Type 0
IsSetAt k o t t' = (t' k ≡ o) × ((j : PeerKey) → j ≢ k → t' j ≡ t j)

-- What comes: a packet by its endpoints, with the address of the virtual client of its family; a connection; or
-- the removal of an entry.
pub data Arrival : Type 0 where
  segment : (client : Address) → Endpoints → Arrival
  connection : ℕ → Address → ℕ → Arrival
  removal : PeerKey → Arrival

-- A packet of the client goes to the listener; one of the listener goes to the client of its session.
abbrev pub towards_listener : ℕ → Address → Endpoints → Endpoints
towards_listener port client e = record {
  source_address = e.destination_address;
  destination_address = client;
  source_port = e.source_port;
  destination_port = port;
}

abbrev pub towards_client : PeerValue → Endpoints → Endpoints
towards_client v e = record {
  source_address = e.destination_address;
  destination_address = v.source_address;
  source_port = v.destination_port;
  destination_port = e.destination_port;
}

pub data Step (port : ℕ) (t t' : Flows) : Arrival → Output → Type 0 where
  opens :
      (client : Address) (e : Endpoints)
      → e.source_port ≢ port
      → t (client_key e) ≡ none
      → IsSetAt (client_key e) (some (fresh_value e)) t t'
      → Step port t t' (segment client e) (written (some (towards_listener port client e)))
  follows :
      (client : Address) (e : Endpoints) (v : PeerValue)
      → e.source_port ≢ port
      → t (client_key e) ≡ some v
      → IsSame t t'
      → Step port t t' (segment client e) (written (some (towards_listener port client e)))
  replies :
      (client : Address) (e : Endpoints) (v : PeerValue)
      → e.source_port ≡ port
      → t (reply_key e) ≡ some v
      → IsSame t t'
      → Step port t t' (segment client e) (written (some (towards_client v e)))
  drops :
      (client : Address) (e : Endpoints)
      → e.source_port ≡ port
      → t (reply_key e) ≡ none
      → IsSame t t'
      → Step port t t' (segment client e) (written none)
  connects :
      (conn : ℕ) (ip : Address) (remote : ℕ) (v : PeerValue)
      → t (key_of_remote ip remote) ≡ some v
      → IsSame t t'
      → Step port t t' (connection conn ip remote) (
          told (
            new_connection
              (record { address = v.source_address; port = remote; network = network_tcp })
              (record {
                address = normalize_ip ip;
                port = v.destination_port;
                network = network_tcp;
              })
              conn
            ∷ []))
  refuses :
      (conn : ℕ) (ip : Address) (remote : ℕ)
      → t (key_of_remote ip remote) ≡ none
      → IsSame t t'
      → Step port t t' (connection conn ip remote) (told (close_connection conn ∷ []))
  removes : (k : PeerKey) → IsSetAt k none t t' → Step port t t' (removal k) (told [])

pub data Steps (port : ℕ) : Flows → List Arrival → List Output → Flows → Type 0 where
  stop : (t : Flows) → Steps port t [] [] t
  then' :
      (t t' t'' : Flows) (a : Arrival) (o : Output) (as' : List Arrival) (os : List Output)
      → Step port t t' a o
      → Steps port t' as' os t''
      → Steps port t (a ∷ as') (o ∷ os) t''
