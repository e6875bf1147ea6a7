-- ===== src/Tun/Lock.antt =====
-- tun.go, `NewPacket`: how the calls for packets of one source share a connection, by the entries of
-- `udpTable` and `lockTable` at the source's key. Each call is a thread; a step is one access to a
-- table, or one event of its condition variable. A condition variable is named by its thread.
pub mod Exclusion
pub mod Stuck
use lib_sager_net_core.Common.{ℕ, ◌≡◌, Bool, true, false, Option, none, some, ◌==◌, if◌then◌else◌}

pub data Pc : Type 0 where
  -- before `sendTo`
  start : Pc
  -- `sendTo` found no connection; before `lockTable.LoadOrStore`
  at_lock : Pc
  -- the lock of the thread was loaded; before `cond.Wait` has queued this one
  loaded : ℕ → Pc
  parked : ℕ → Pc
  -- woken up, before the second `sendTo`
  woken : Pc
  -- this thread stored its own lock, and dials
  dialing : Pc
  -- the connection is in the table; before `lockTable.Delete`
  stored : Pc
  -- before `cond.Broadcast`
  unlocked : Pc
  -- in the loop of `conn.readFrom`
  reading : Pc
  -- returned: after `sendTo`, after the loop, after an error of the dial
  sent : Pc
  finished : Pc
  dial_failed : Pc

pub record System : Type 0 where
  -- the thread whose connection is in `udpTable`
  pub conn : Option ℕ
  -- the thread whose condition variable is in `lockTable`
  pub lock : Option ℕ
  pub pc : ℕ → Pc

abbrev pub update : ℕ → Pc → (ℕ → Pc) → ℕ → Pc
update i p pc j = if j == i then p else pc j

-- What a broadcast does to a thread.
abbrev pub wake : ℕ → Pc → Pc
wake i (parked c) = if c == i then woken else parked c
wake i start = start
wake i at_lock = at_lock
wake i (loaded c) = loaded c
wake i woken = woken
wake i dialing = dialing
wake i stored = stored
wake i unlocked = unlocked
wake i reading = reading
wake i sent = sent
wake i finished = finished
wake i dial_failed = dial_failed

pub data Step : System → System → Type 0 where
  -- `sendTo` at the beginning: `udpTable.Load`
  send_found :
      (s : System) (i c : ℕ)
      → s.pc i ≡ start
      → s.conn ≡ some c
      → Step s (record s { pc = update i sent s.pc })
  send_missing :
      (s : System) (i : ℕ)
      → s.pc i ≡ start
      → s.conn ≡ none
      → Step s (record s { pc = update i at_lock s.pc })
  -- `lockTable.LoadOrStore`
  lock_loaded :
      (s : System) (i c : ℕ)
      → s.pc i ≡ at_lock
      → s.lock ≡ some c
      → Step s (record s { pc = update i (loaded c) s.pc })
  lock_stored :
      (s : System) (i : ℕ)
      → s.pc i ≡ at_lock
      → s.lock ≡ none
      → Step s (record s { lock = some i; pc = update i dialing s.pc })
  -- `cond.Wait`
  park :
      (s : System) (i c : ℕ)
      → s.pc i ≡ loaded c
      → Step s (record s { pc = update i (parked c) s.pc })
  -- the second `sendTo`, which sends if there is a connection
  resend : (s : System) (i : ℕ) → s.pc i ≡ woken → Step s (record s { pc = update i sent s.pc })
  -- `dialUDP` with an error, and the `return`
  dial_fails :
      (s : System) (i : ℕ) → s.pc i ≡ dialing → Step s (record s { pc = update i dial_failed s.pc })
  -- `dialUDP`, and `udpTable.Store`
  dial_succeeds :
      (s : System) (i : ℕ)
      → s.pc i ≡ dialing
      → Step s (record s { conn = some i; pc = update i stored s.pc })
  -- `lockTable.Delete`
  unlock :
      (s : System) (i : ℕ)
      → s.pc i ≡ stored
      → Step s (record s { lock = none; pc = update i unlocked s.pc })
  -- `cond.Broadcast`
  broadcast :
      (s : System) (i : ℕ)
      → s.pc i ≡ unlocked
      → Step s (record s { pc = update i reading (λ j. wake i (s.pc j)) })
  -- the end of the loop, and `udpTable.Delete`
  close :
      (s : System) (i : ℕ)
      → s.pc i ≡ reading
      → Step s (record s { conn = none; pc = update i finished s.pc })

pub data Reach (s : System) : System → Type 0 where
  here : Reach s s
  next : {t u : System} → Reach s t → Step t u → Reach s u

-- No connection, no lock, and every thread at its beginning.
abbrev pub initial : System
initial = record { conn = none; lock = none; pc = λ _. start }
