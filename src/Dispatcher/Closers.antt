-- ===== src/Dispatcher/Closers.antt =====
-- v2ray.go: `Close` of `dispatcherConn` where several goroutines run it at once: `handleInput`, the timer, the writers
-- and the app. It takes no lock, so a step is one access to the connection; between them other goroutines go on.
use lib_sager_net_core.Common.{ℕ, suc, ◌≡◌, ◌≤◌, Bool, true, false, ◌==◌, if◌then◌else◌}
use lib_sager_net_core.Dispatcher.{Buffer, Conn, Endpoint, new_conn, push, read_from}

-- Where a goroutine stands in `Close`.
pub data Stage : Type 0 where
  -- before the test of `c.closed`
  testing : Stage
  -- the test found it open; before `c.closed = true`
  marking : Stage
  -- before `c.cancel()`, the two `common.Interrupt` and `close(c.cache)`
  cancelling interrupting_reader interrupting_writer closing_cache : Stage
  -- returned at the test, or at the end
  skipped returned : Stage
  -- the channel was closed already
  crashed : Stage

pub record System : Type 0 where
  pub conn : Conn
  pub stage : ℕ → Stage

abbrev pub update : ℕ → Stage → (ℕ → Stage) → ℕ → Stage
update i p stage j = if j == i then p else stage j

pub data Step : System → System → Type 0 where
  test_open :
      (s : System) (i : ℕ)
      → s.stage i ≡ testing
      → s.conn.closed ≡ false
      → Step s (record s { stage = update i marking s.stage })
  test_closed :
      (s : System) (i : ℕ)
      → s.stage i ≡ testing
      → s.conn.closed ≡ true
      → Step s (record s { stage = update i skipped s.stage })
  mark :
      (s : System) (i : ℕ)
      → s.stage i ≡ marking
      → Step s
          (record { conn = record (s.conn) { closed = true }; stage = update i cancelling s.stage })
  cancel :
      (s : System) (i : ℕ)
      → s.stage i ≡ cancelling
      → Step s (record {
        conn = record (s.conn) { ctx_done = true };
        stage = update i interrupting_reader s.stage;
      })
  interrupt_reader :
      (s : System) (i : ℕ)
      → s.stage i ≡ interrupting_reader
      → Step s (record {
        conn = record (s.conn) { interrupts = suc s.conn.interrupts };
        stage = update i interrupting_writer s.stage;
      })
  interrupt_writer :
      (s : System) (i : ℕ)
      → s.stage i ≡ interrupting_writer
      → Step s (record {
        conn = record (s.conn) { interrupts = suc s.conn.interrupts };
        stage = update i closing_cache s.stage;
      })
  close_cache :
      (s : System) (i : ℕ)
      → s.stage i ≡ closing_cache
      → s.conn.cache_closed ≡ false
      → Step s (record {
        conn = record (s.conn) { cache_closed = true };
        stage = update i returned s.stage;
      })
  close_again :
      (s : System) (i : ℕ)
      → s.stage i ≡ closing_cache
      → s.conn.cache_closed ≡ true
      → Step s (record s { stage = update i crashed s.stage })
  -- what `handleInput` and the readers do beside it
  arrive :
      (s : System) (choice : Bool) (b : Buffer)
      → Step s (record s { conn = (push choice b s.conn).0 })
  read : (s : System) (choice : Bool) → Step s (record s { conn = (read_from choice s.conn).0 })

pub data Reach (s : System) : System → Type 0 where
  here : Reach s s
  next : {t u : System} → Reach s t → Step t u → Reach s u

abbrev pub start : Endpoint → System
start dest = record { conn = new_conn dest; stage = λ _. testing }

-- What has happened to a connection when a goroutine stands at a stage.
abbrev pub HasDone : Stage → Conn → Type 0
HasDone testing c = Unit {0}
HasDone marking c = Unit {0}
HasDone cancelling c = c.closed ≡ true
HasDone interrupting_reader c = (c.closed ≡ true) × (c.ctx_done ≡ true)
HasDone interrupting_writer c = (c.closed ≡ true) × (c.ctx_done ≡ true) × (1 ≤ c.interrupts)
HasDone closing_cache c = (c.closed ≡ true) × (c.ctx_done ≡ true) × (2 ≤ c.interrupts)
HasDone skipped c = c.closed ≡ true
HasDone returned c =
    (c.closed ≡ true) × (c.ctx_done ≡ true) × (2 ≤ c.interrupts) × (c.cache_closed ≡ true)
HasDone crashed c =
    (c.closed ≡ true) × (c.ctx_done ≡ true) × (2 ≤ c.interrupts) × (c.cache_closed ≡ true)

-- Nothing is undone.
abbrev Grows : (c d : Conn) → Type 0
Grows c d =
    (c.closed ≡ true → d.closed ≡ true)
    × (c.ctx_done ≡ true → d.ctx_done ≡ true)
    × (c.interrupts ≤ d.interrupts)
    × (c.cache_closed ≡ true → d.cache_closed ≡ true)

-- Every goroutine has done what its stage says, and the channel was closed by one that returned.
abbrev IsValid : System → Type 0
IsValid s =
    ((i : ℕ) → HasDone (s.stage i) s.conn)
    × (s.conn.cache_closed ≡ true → (j : ℕ) × (s.stage j ≡ returned))
