-- ===== src/Nat/Accept.antt =====
-- nat/tcp.go: `dispatch` and `dispatchLoop`, which accept the redirected connections, look up their
-- sessions and hand them to the tun's handler; and the delayed removal of a session.
pub mod Sessions
mod Tests
use lib_sager_net_core.Common.{ℕ, Bool, true, false, none, some, List, [], ◌∷◌, ◌++◌, if◌then◌else◌}
use lib_sager_net_core.Nat.Address.{Address, normalize_ip, Destination, network_tcp}
use lib_sager_net_core.Nat.Sessions.{PeerKey, LruCache}

-- The result of `t.listener.AcceptTCP`: a connection and its remote address, or an error, which is
-- `net.ErrClosed` or another one.
pub data AcceptResult : Type 0 where
  accepted : ℕ → Address → ℕ → AcceptResult
  accept_failed : Bool → AcceptResult

-- What the loop does to the outside, in its order.
pub data Effect : Type 0 where
  -- `go handler.NewConnection(source, destination, conn)`
  new_connection : Destination → Destination → ℕ → Effect
  close_connection : ℕ → Effect
  log_error : Effect
  -- `t.Close()` and `t.tun.errorHandler(e.String())`
  close_listener : Effect
  handle_error : Effect

-- The pair `(stop, err)`; `closed` tells whether the error is `net.ErrClosed`.
pub data DispatchResult : Type 0 where
  dispatched : DispatchResult
  failed : (stop closed : Bool) → DispatchResult

-- `key` in `dispatch`
unfoldable pub key_of_remote : Address → ℕ → PeerKey
key_of_remote ip port = record { destination_address = normalize_ip ip; source_port = port }

-- The body of the loop after `dispatch`: what it does, and whether it returns.
pub after_dispatch : DispatchResult → List Effect × Bool
after_dispatch dispatched = ([], false)
after_dispatch (failed stop closed) =
    if stop
    then (log_error ∷ (if closed then [] else close_listener ∷ handle_error ∷ []), true)
    else (log_error ∷ [], false)

module _ (lru : LruCache) where
  open lru use {Cache, find, touch, delete}

  unfoldable pub dispatch : Cache → AcceptResult → Cache × List Effect × DispatchResult
  dispatch c (accept_failed closed) = (c, [], failed true closed)
  dispatch c (accepted conn ip port) =
      let key = key_of_remote ip port in
      elim (find key c) [
        | none ↦ (touch key c, close_connection conn ∷ [], failed false false)
        | some session ↦ (
          touch key c,
          new_connection
                (record { address = session.source_address; port = port; network = network_tcp })
                (record {
                  address = key.destination_address;
                  port = session.destination_port;
                  network = network_tcp;
                })
                conn
              ∷ [],
          dispatched,
        )
      ]

  -- The end of the goroutine that `dispatch` starts, five seconds after the connection ended.
  unfoldable pub forget_session : PeerKey → Cache → Cache
  forget_session key c = delete key c

  -- `dispatchLoop`, over the results of the calls of `AcceptTCP`; true if the loop has returned.
  pub dispatch_loop : Cache → List AcceptResult → Cache × List Effect × Bool
  dispatch_loop c [] = (c, [], false)
  dispatch_loop c (a ∷ as') =
      let (c', effects, r) = dispatch c a in
      let (more, stop) = after_dispatch r in
      let rest : Cache × List Effect × Bool = dispatch_loop c' as' in
      if stop then (c', effects ++ more, true) else (rest.0, (effects ++ more) ++ rest.1, rest.2)
