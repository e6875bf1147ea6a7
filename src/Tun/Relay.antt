-- ===== src/Tun/Relay.antt =====
-- tun.go: the bodies of `NewPacket` and `NewConnection` as what they do to the outside, in order. The
-- answers of the tables, the network and the tun are arguments; Tun/Lock.antt has what happens when
-- several calls run at once.
pub mod Paths
use lib_sager_net_core.Common.{
  ℕ, Bool, true, false, not, ◌&&◌, Option, none, some, List, [], ◌∷◌, ◌++◌, if◌then◌else◌,
}

pub data Effect : Type 0 where
  -- `conn.writeTo`, and `conn.Close` after its error
  write_packet close_conn : Effect
  -- `comm.CloseIgnore(closer)`
  close_closer : Effect
  -- the entry that `lockTable.LoadOrStore` adds, `cond.Wait`, `lockTable.Delete`, `cond.Broadcast`
  store_lock await_lock delete_lock broadcast : Effect
  dial : Effect
  -- `v2rayNet.AddConnection` and `RemoveConnection`
  add_connection remove_connection : Effect
  -- the same four of the app's entry in `lockTable`, with `appStats.Store`
  store_uid_lock await_uid_lock store_stats delete_uid_lock broadcast_uid : Effect
  -- "unexpected sync read failed"
  panic : Effect
  -- the counters of the app, when a connection begins and ends (`Stats.enter` and `Stats.leave`)
  enter_stats leave_stats : Effect
  -- `udpTable.Store` and `Delete`
  store_conn delete_conn : Effect
  -- `go sendTo()`
  spawn_send : Effect
  -- `writeBack(buffer.Bytes(), addr)`; `none` is a nil address
  write_back : (payload : List ℕ) (addr : Option ℕ) → Effect
  release_buffer : Effect
  -- `DispatchConn`, which returns when the connection is over
  dispatch_conn : Effect

-- What `conn.readFrom` gives: a payload and the address of its sender, `none` if it is no UDP address.
-- The end of the list is an error.
abbrev pub Reading : Type 0
Reading = List ℕ × Option ℕ

-- The loop of `NewPacket`; `fails` tells the payloads at which `writeBack` returns an error.
pub relay : (dns : Bool) → (fails : List ℕ → Bool) → List Reading → List Effect
relay dns fails [] = []
relay dns fails ((payload, addr) ∷ rest) =
    let more = relay dns fails rest in
    let to : Option ℕ = if dns then none else addr in
    write_back payload to ∷ release_buffer ∷ (if fails payload then [] else more)

-- `sendTo`: its effects, and its result.
unfoldable pub send_to : (has_conn write_fails : Bool) → List Effect × Bool
send_to has_conn write_fails =
    if has_conn
    then (write_packet ∷ (if write_fails then close_conn ∷ [] else []), true)
    else ([], false)

-- The answers to a call of `NewPacket` or `NewPingPacket`.
pub record Answers : Type 0 where
  -- the first `udpTable.Load`, and the one after `cond.Wait`
  pub has_conn : Bool
  pub has_conn_later : Bool
  pub write_fails : Bool
  -- `lockTable.LoadOrStore`
  pub lock_loaded : Bool
  pub dial_fails : Bool
  -- `t.trafficStats && !self && !isDns`
  pub counted : Bool
  -- of the app's counters: the first `appStats.Load`, `lockTable.LoadOrStore`, and the second
  -- `appStats.Load`
  pub has_stats : Bool
  pub uid_lock_loaded : Bool
  pub has_stats_later : Bool
  pub dns : Bool
  pub back_fails : List ℕ → Bool
  pub readings : List Reading

-- How the counters of the app are found or made; true for the panic.
pub open_stats : Answers → List Effect × Bool
open_stats a =
    if a.has_stats
    then ([], false)
    else if a.uid_lock_loaded
    then (await_uid_lock ∷ (if a.has_stats_later then [] else panic ∷ []), not a.has_stats_later)
    else (store_uid_lock ∷ store_stats ∷ delete_uid_lock ∷ broadcast_uid ∷ [], false)

-- Whether the call panics once it has dialled.
pub crashes : Answers → Bool
unfolding open_stats
crashes a = a.counted && (open_stats a).1

-- The counters before the body, and the deferred functions after it, also after a panic.
pub with_stats : Answers → List Effect → List Effect
unfolding open_stats crashes
with_stats a body =
    let opened = open_stats a in
    if a.counted
    then opened.0
      ++ (if opened.1
          then remove_connection ∷ []
          else enter_stats ∷ (body ++ leave_stats ∷ remove_connection ∷ []))
    else body ++ remove_connection ∷ []

-- `NewPacket` once the connection is dialled and counted.
pub relay_packets : Answers → List Effect
unfolding relay
relay_packets a =
    store_conn
    ∷ spawn_send
    ∷ delete_lock
    ∷ broadcast
    ∷ (relay a.dns a.back_fails a.readings ++ close_closer ∷ delete_conn ∷ [])

-- `NewPacket` from the dial on, for the call that stored the lock.
pub serve_packets : Answers → List Effect
unfolding with_stats relay_packets
serve_packets a =
    if a.dial_fails then dial ∷ [] else dial ∷ add_connection ∷ with_stats a (relay_packets a)

-- `NewPacket`
pub new_packet : Answers → List Effect
unfolding send_to serve_packets
new_packet a =
    let (sending, done) = send_to a.has_conn a.write_fails in
    if done
    then sending ++ close_closer ∷ []
    else if a.lock_loaded
    then await_lock ∷ ((send_to a.has_conn_later a.write_fails).0 ++ close_closer ∷ [])
    else store_lock ∷ serve_packets a

-- `NewConnection`, after the inbound session is made.
pub new_connection : Answers → List Effect
unfolding with_stats
new_connection a = add_connection ∷ with_stats a (dispatch_conn ∷ [])
