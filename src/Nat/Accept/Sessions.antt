-- ===== src/Nat/Accept/Sessions.antt =====
-- What `dispatch` of nat/tcp.go tells the handler about a connection, and how its loop ends.
use lib_sager_net_core.Common.{
  ℕ, ◌≡◌, ◌≢◌, refl, some, none, true, List, [], ◌∷◌, ◌++◌, arith, if◌then◌else◌, Bool, ◌∙◌,
}
use lib_sager_net_core.Nat.Address.{Address, normalize_ip, network_tcp}
use lib_sager_net_core.Nat.Packet.{TcpPackets, HeaderChecksums}
use lib_sager_net_core.Nat.Sessions.{PeerKey, PeerValue, LruCache}
use lib_sager_net_core.Nat.Forward.{client_key, fresh_value}
use lib_sager_net_core.Nat.Forward.Written.{table_after}
use lib_sager_net_core.Nat.Forward.RoundTrip.{after_ipv4, find-after_ipv4}
use lib_sager_net_core.Nat.Accept.{
  AcceptResult, accepted, accept_failed, Effect, new_connection, close_connection, log_error,
  close_listener, handle_error, key_of_remote, dispatch, after_dispatch, dispatch_loop,
}

-- The effects of the loop when accepting fails.
abbrev pub closing_effects : Bool → List Effect
closing_effects closed = log_error ∷ (if closed then [] else close_listener ∷ handle_error ∷ [])

-- Some accepted connections, each with its remote address.
abbrev pub all_accepted : List (ℕ × Address × ℕ) → List AcceptResult
all_accepted [] = []
all_accepted ((conn, ip, port) ∷ rest) = accepted conn ip port ∷ all_accepted rest

module _ (lru : LruCache) where
  open lru use {Cache, find, touch, delete}

  pub dispatch_known :
      (c : Cache) (conn : ℕ) (ip : Address) (port : ℕ) (v : PeerValue)
      → find (key_of_remote ip port) c ≡ some v
      → (dispatch lru c (accepted conn ip port)).1
        ≡ new_connection
            (record { address = v.source_address; port = port; network = network_tcp })
            (record { address = normalize_ip ip; port = v.destination_port; network = network_tcp })
            conn
          ∷ []
  unfolding dispatch key_of_remote
  dispatch_known c conn ip port v h = rw (h, dispatch)

  -- A connection with no session in the table is closed, the handler never sees it, and the loop goes
  -- on with the next one.
  pub dispatch_loop_unknown :
      (c : Cache) (conn : ℕ) (ip : Address) (port : ℕ) (rest : List AcceptResult)
      → find (key_of_remote ip port) c ≡ none
      → let next = dispatch_loop lru (touch (key_of_remote ip port) c) rest in
        dispatch_loop lru c (accepted conn ip port ∷ rest)
        ≡ (next.0, close_connection conn ∷ log_error ∷ next.1, next.2)
  unfolding dispatch_loop dispatch key_of_remote after_dispatch
  dispatch_loop_unknown c conn ip port rest h = ground arith

  pub dispatch_loop_failed :
      (c : Cache) (after : List AcceptResult) (closed : Bool)
      → dispatch_loop lru c (accept_failed closed ∷ after) ≡ (c, closing_effects closed, true)
  unfolding dispatch_loop dispatch after_dispatch
  dispatch_loop_failed c after closed = refl

  -- The table after some connections were accepted, and what is done with each: one whose port and normalized
  -- address have a session goes to the handler with the session's ends, another is closed and logged.
  abbrev pub served : Cache → List (ℕ × Address × ℕ) → Cache × List Effect
  served c [] = (c, [])
  served c ((conn, ip, port) ∷ rest) =
      let key : PeerKey = record { destination_address = normalize_ip ip; source_port = port } in
      let more = served (touch key c) rest in
      (
        more.0,
        elim (find key c) [
          | none ↦ close_connection conn ∷ log_error ∷ more.1
          | some v ↦
              new_connection
                (record { address = v.source_address; port = port; network = network_tcp })
                (record {
                  address = normalize_ip ip;
                  port = v.destination_port;
                  network = network_tcp;
                })
                conn
              ∷ more.1
        ],
      )

  -- From any table, over any accepted connections before a failure of `AcceptTCP`: the loop serves each of them in
  -- order, the known ones to the handler with their session's ends, the unknown ones closed and logged without
  -- ending the loop; at the failure it returns, and what comes later is not read. The listener is closed and the
  -- error handler called exactly if the failure is not `net.ErrClosed`.
  pub dispatch_loop_stops :
      (c : Cache) (before : List (ℕ × Address × ℕ)) (after : List AcceptResult) (closed : Bool)
      → dispatch_loop lru c (all_accepted before ++ accept_failed closed ∷ after)
        ≡ ((served c before).0, (served c before).1 ++ closing_effects closed, true)
  unfolding dispatch_loop dispatch key_of_remote after_dispatch
  dispatch_loop_stops c [] after closed = refl
  dispatch_loop_stops c ((conn, ip, port) ∷ rest) after closed =
      let key : PeerKey = record { destination_address = normalize_ip ip; source_port = port } in
      ground (arith, dispatch_loop_stops (touch key c) rest after closed)

module _ (lru : LruCache) (lib : TcpPackets) (checksums : HeaderChecksums lib) where
  open lru use {Cache, find}
  open lib use {Packet, view}

  -- After the first packet `p` of a new flow and any further packets, a connection that the listener
  -- accepts from the flow's destination address (plain, or as an IPv4 address in 16 bytes) and source
  -- port goes to the handler with the source and the destination that `p` had.
  pub dispatch-process_ipv4 :
      (port : ℕ) (c : Cache) (p : Packet) (others : List Packet) (conn : ℕ) (ip : Address)
      → (view p).source_port ≢ port
      → find (client_key (view p)) c ≡ none
      → normalize_ip ip ≡ (view p).destination_address
      → (dispatch lru
          (table_after
            (after_ipv4 lru lib checksums port)
            (after_ipv4 lru lib checksums port c p)
            others)
          (accepted conn ip (view p).source_port)).1
        ≡ new_connection
            (record {
              address = (view p).source_address;
              port = (view p).source_port;
              network = network_tcp;
            })
            (record {
              address = (view p).destination_address;
              port = (view p).destination_port;
              network = network_tcp;
            })
            conn
          ∷ []
  unfolding key_of_remote
  dispatch-process_ipv4 port c p others conn ip h e same =
      dispatch_known lru _ conn ip (view p).source_port (fresh_value (view p))
        (rw same (find-after_ipv4 lru lib checksums port c p others h e))
      ∙ rw same
