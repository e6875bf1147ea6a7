-- ===== src/Dispatcher.antt =====
-- v2ray.go: `dispatcherConn`, the packet connection over a link of the v2ray core. Where several cases
-- of a `select` are ready Go takes any of them, so such a `select` takes the choice as an argument.
pub mod Queue
pub mod Closing
pub mod Closers
pub mod Input
mod Tests
use lib_sager_net_core.Common.{
  ℕ, suc, Bool, true, false, not, ◌&&◌, ◌||◌, Option, none, some, List, [], ◌∷◌, ◌++◌,
  if◌then◌else◌, length, take, ltb, ◌+◌, ◌==◌, String,
}

-- `net.Address` as far as the code looks at it.
pub data SourceAddress : Type 0 where
  domain : String → SourceAddress
  ip : List ℕ → SourceAddress

-- `net.Destination`
pub record Endpoint : Type 0 where
  pub address : SourceAddress
  pub port : ℕ

-- A buffer of the link: its payload, and its endpoint, `none` for nil.
pub record Buffer : Type 0 where
  pub payload : List ℕ
  pub endpoint : Option Endpoint

-- `udp.Packet`
pub record Packet : Type 0 where
  pub payload : List ℕ
  pub source : Endpoint

abbrev pub cache_size : ℕ
cache_size = 16

-- The state of the connection. `ctx_done` tells whether its context is cancelled; the timer updates,
-- the interruptions of the link and the released buffers are counted.
pub record Conn : Type 0 where
  pub dest : Endpoint
  pub closed : Bool
  pub ctx_done : Bool
  pub cache : List Packet
  pub cache_closed : Bool
  pub interrupts : ℕ
  pub updates : ℕ
  pub released : ℕ

abbrev pub new_conn : Endpoint → Conn
new_conn dest = record {
  dest = dest;
  closed = false;
  ctx_done = false;
  cache = [];
  cache_closed = false;
  interrupts = 0;
  updates = 0;
  released = 0;
}

-- `net.AnyIP`
abbrev pub any_ip : SourceAddress
any_ip = ip (0 ∷ 0 ∷ 0 ∷ 0 ∷ [])

abbrev pub without_domain : Endpoint → Endpoint
without_domain e = elim e.address [ domain _ ↦ record e { address = any_ip } | ip _ ↦ e ]

-- The packet that `handleInput` makes of a buffer.
pub packet_of : Conn → Buffer → Packet
packet_of c b =
    let source : Endpoint = elim b.endpoint [ none ↦ c.dest | some e ↦ e ] in
    record { payload = b.payload; source = without_domain source }

pub data Pushed : Type 0 where
  queued dropped skipped : Pushed
  -- a send on the closed channel
  panicked : Pushed

-- The body of the loop over `mb` in `handleInput`. `choice` takes the send where the context is done
-- too.
pub push : (choice : Bool) → Buffer → Conn → Conn × Pushed
unfolding packet_of
push choice b c =
    let drop : Conn × Pushed = (record c { released = suc c.released }, dropped) in
    if length b.payload == 0
    then (c, skipped)
    else if c.cache_closed
    then (if choice || not c.ctx_done then (c, panicked) else drop)
    else if ltb (length c.cache) cache_size && (choice || not c.ctx_done)
    then (record c { cache = c.cache ++ packet_of c b ∷ [] }, queued)
    else drop

pub data Read : Type 0 where
  received : Packet → Read
  eof : Read
  -- nothing is ready: the call waits
  blocked : Read
  -- a nil packet is read from the closed channel
  crashed : Read

-- `readFrom`. `choice` takes the channel where the context is done too.
pub read_from : (choice : Bool) → Conn → Conn × Read
read_from choice c = if c.ctx_done && not choice then (c, eof) else elim c.cache [
  | p ∷ rest ↦ (record c { cache = rest }, received p)
  | [] ↦ (c, if c.cache_closed || c.ctx_done then eof else blocked)
]

-- `ReadFrom`, which does not ask whether the channel is closed. Its payload is copied to the caller's
-- slice, and released.
pub read_from_slice : (choice : Bool) → Conn → Conn × Read
read_from_slice choice c = if c.ctx_done && not choice then (c, eof) else elim c.cache [
  | p ∷ rest ↦ (record c { cache = rest; released = suc c.released }, received p)
  | [] ↦ (c, if c.cache_closed then crashed else if c.ctx_done then eof else blocked)
]

-- `Close`, where no other call of it runs at the same time; Dispatcher/Closers.antt has its single steps.
pub close : Conn → Conn
close c = if c.closed then c else record c {
  closed = true;
  ctx_done = true;
  interrupts = c.interrupts + 2;
  cache_closed = true;
}

-- `writeTo`: `failed` is an error of the link's writer.
pub write_to : (failed : Bool) → Conn → Conn × Bool
unfolding close
write_to failed c =
    if failed
    then (close (record c { released = suc c.released }), true)
    else (record c { updates = suc c.updates }, false)

-- What a read of the link gives: an error, or buffers, each with the choice of its `select`.
pub data Pulled : Type 0 where
  pull_failed : Pulled
  pulled : List (Bool × Buffer) → Pulled

-- The loop over `mb` in `handleInput`, and whether it panics.
pub push_all : List (Bool × Buffer) → Conn → Conn × Bool
unfolding push
push_all [] c = (c, false)
push_all ((choice, b) ∷ bs) c =
    let (c', r) = push choice b c in
    let rest = push_all bs c' in
    elim r [ panicked ↦ (c', true) | queued ↦ rest | dropped ↦ rest | skipped ↦ rest ]

-- `handleInput`, over what the link gives until the loop waits for it: whether it panics.
pub handle_input : List Pulled → Conn → Conn × Bool
unfolding push_all close
handle_input [] c = if c.ctx_done then (close c, false) else (c, false)
handle_input (pull_failed ∷ rs) c = (close c, false)
handle_input (pulled bs ∷ rs) c =
    let (c', panics) = push_all bs (record c { updates = suc c.updates }) in
    let rest = handle_input rs c' in
    if c.ctx_done then (close c, false) else if panics then (close c', true) else rest

-- `WriteTo`: the payload that is written, at most what a new buffer holds, and the count, `none` for an error.
pub write_to_slice :
    (buf_size : ℕ) → (failed : Bool) → (p : List ℕ) → Conn → Conn × List ℕ × Option ℕ
unfolding close
write_to_slice buf_size failed p c =
    if failed
    then (close (record c { released = suc c.released }), take buf_size p, none)
    else (record c { updates = suc c.updates }, take buf_size p, some (length p))
