-- ===== src/Tun/Ping.antt =====
-- tun.go: `NewPingPacket`, which picks an outbound for a ping and relays its responses.
pub mod Release
use lib_sager_net_core.Common.{
  ℕ, Bool, true, false, not, Option, none, some, List, [], ◌∷◌, ◌++◌, if◌then◌else◌, String,
}
use lib_sager_net_core.Tun.Relay.{
  Effect, await_lock, close_closer, store_lock, delete_lock, broadcast, add_connection,
  remove_connection, store_conn, spawn_send, write_back, release_buffer, delete_conn, send_to,
  Answers, Reading,
}

-- The outbound: the handler of the route's tag, or with no route the default outbound, if it is a
-- WireGuard client. `route` is the tag that `PickRoute` gives.
pub ping_handler :
    {H : Type 0}
    → (route : Option String) → (String → Option H)
    → (default_outbound : Option H) → Option H
ping_handler (some tag) handlers default_outbound = handlers tag
ping_handler none handlers default_outbound = default_outbound

-- The goroutine that reads the responses.
pub relay_pings : (fails : List ℕ → Bool) → List Reading → List Effect
relay_pings fails [] = close_closer ∷ delete_conn ∷ []
relay_pings fails ((payload, _) ∷ rest) =
    let more = relay_pings fails rest in
    write_back payload none
    ∷ release_buffer
    ∷ (if fails payload then close_closer ∷ delete_conn ∷ [] else more)

-- `NewPingPacket`: its effects, those of the goroutine that it starts, and its result. The deferred
-- functions run last: `RemoveConnection`, then the release of the lock.
pub new_ping_packet : {H : Type 0} → Answers → Option H → List Effect × List Effect × Bool
unfolding relay_pings
new_ping_packet a handler =
    let (sending, done) = send_to a.has_conn a.write_fails in
    if done
    then (sending ++ close_closer ∷ [], [], true)
    else if a.lock_loaded
    then (await_lock ∷ ((send_to a.has_conn_later a.write_fails).0 ++ close_closer ∷ []), [], true)
    else elim handler [
      | none ↦ (store_lock ∷ delete_lock ∷ broadcast ∷ [], [], false)
      | some _ ↦ (
        store_lock ∷ add_connection ∷ store_conn ∷ spawn_send ∷ remove_connection ∷ delete_lock
            ∷ broadcast ∷ [],
        relay_pings a.back_fails a.readings,
        true,
      )
    ]
