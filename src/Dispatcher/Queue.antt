-- ===== src/Dispatcher/Queue.antt =====
-- The cache between `handleInput` and the readers is a bounded queue.
use lib_sager_net_core.Common.{
  ℕ, Option, none, some, not, ◌&&◌, ◌==◌, ltb, ◌+◌, ◌-◌, if◌then◌else◌, suc, ◌≡◌, ◌≢◌, ◌↔◌, ◌<◌,
  sym, refl, Bool, true, false, List, [], ◌∷◌, ◌++◌, length, ◌≤◌, arith, length-append, ap, ◌∙◌,
}
use mathlib.Core.List.{append-nil, append_assoc}
use lib_sager_net_core.Dispatcher.{
  Buffer, Packet, Conn, Endpoint, new_conn, packet_of, push, queued, dropped, skipped, panicked,
  read_from, Read, received, cache_size, Pushed, SourceAddress, domain, ip,
}

-- What happens to an open connection: a buffer arrives, or a reader asks.
pub data Event : Type 0 where
  arrives : Buffer → Event
  reads : Event

abbrev pub packet_if_queued : Pushed → Packet → List Packet
packet_if_queued queued p = p ∷ []
packet_if_queued _ p = []

abbrev pub packet_if_read : Read → List Packet
packet_if_read (received p) = p ∷ []
packet_if_read _ = []

-- The connection after the events, the packets that were queued and those that were read.
pub run : List Event → Conn → Conn × List Packet × List Packet
run [] c = (c, [], [])
run (arrives b ∷ es) c =
    let (c', r) = push true b c in
    let (d, ins, outs) = run es c' in (d, packet_if_queued r (packet_of c b) ++ ins, outs)
run (reads ∷ es) c =
    let (c', r) = read_from true c in
    let (d, ins, outs) = run es c' in (d, ins, packet_if_read r ++ outs)

abbrev pub IsOpen : Conn → Type 0
IsOpen c = (c.cache_closed ≡ false) × (c.ctx_done ≡ false) × (length c.cache ≤ cache_size)

pub push-IsOpen :
    (b : Buffer) (c : Conn)
    → IsOpen c
    → let (c', r) = push true b c in
      IsOpen c' × (c'.cache ≡ c.cache ++ packet_if_queued r (packet_of c b))
unfolding push
push-IsOpen b c h = grind (arith, append-nil c.cache, length-append c.cache (packet_of c b ∷ []))

pub read-IsOpen :
    (c : Conn)
    → IsOpen c
    → let (c', r) = read_from true c in IsOpen c' × (c.cache ≡ packet_if_read r ++ c'.cache)
unfolding read_from
read-IsOpen c h = ground arith

pub run_queue :
    (es : List Event) (c : Conn)
    → IsOpen c
    → let (d, ins, outs) = run es c in IsOpen d × (c.cache ++ ins ≡ outs ++ d.cache)
unfolding run
run_queue [] c h = (h, append-nil c.cache)
run_queue (arrives b ∷ es) c h =
    let (o, e) = push-IsOpen b c h in
    let (o', q) = run_queue es (push true b c).0 o in
    (
      o',
      sym (append_assoc c.cache (packet_if_queued (push true b c).1 (packet_of c b)) _)
          ∙ ap (λ x. x ++ (run es (push true b c).0).1) (sym e)
          ∙ q,
    )
run_queue (reads ∷ es) c h =
    let (o, e) = read-IsOpen c h in
    let (o', q) = run_queue es (read_from true c).0 o in
    let out = packet_if_read (read_from true c).1 in
    (
      o',
      ap (λ x. x ++ (run es (read_from true c).0).1) e
          ∙ append_assoc out _ _
          ∙ ap (λ x. out ++ x) q
          ∙ sym (append_assoc out _ _),
    )

-- An address, with 0.0.0.0 in place of a domain.
abbrev pub ip_only : SourceAddress → SourceAddress
ip_only (domain _) = ip (0 ∷ 0 ∷ 0 ∷ 0 ∷ [])
ip_only (ip a) = ip a

-- The endpoint that a packet is from: the buffer's, or the destination.
abbrev pub endpoint_or : (dest : Endpoint) → Option Endpoint → Endpoint
endpoint_or dest none = dest
endpoint_or dest (some e) = e

-- The packet of a buffer.
abbrev pub packet_for : (dest : Endpoint) → Buffer → Packet
packet_for dest b =
    let e = endpoint_or dest b.endpoint in
    record { payload = b.payload; source = record { address = ip_only e.address; port = e.port } }

packet_of-packet_for : (c : Conn) (b : Buffer) → packet_of c b ≡ packet_for c.dest b
unfolding packet_of
packet_of-packet_for c b = ground arith

-- The packets that a cache of 16 takes, with `n` in it at first: of each buffer that is not empty, while there is
-- room.
abbrev pub taken_in : (dest : Endpoint) → (n : ℕ) → List Event → List Packet
taken_in dest n [] = []
taken_in dest n (arrives b ∷ es) =
    if length b.payload == 0
    then taken_in dest n es
    else if ltb n 16
    then packet_for dest b ∷ taken_in dest (n + 1) es
    else taken_in dest n es
taken_in dest n (reads ∷ es) = taken_in dest (n - 1) es

-- How many are in it at the end.
abbrev pub left_in : (n : ℕ) → List Event → ℕ
left_in n [] = n
left_in n (arrives b ∷ es) =
    if length b.payload == 0
    then left_in n es
    else if ltb n 16
    then left_in (n + 1) es
    else left_in n es
left_in n (reads ∷ es) = left_in (n - 1) es

push_room :
    (b : Buffer) (c : Conn)
    → IsOpen c
    → let (c', r) = push true b c in
      let takes = not (length b.payload == 0) && ltb (length c.cache) 16 in
      (packet_if_queued r (packet_of c b) ≡ (if takes then packet_for c.dest b ∷ [] else []))
      × (c'.dest ≡ c.dest)
      × (length c'.cache ≡ (if takes then length c.cache + 1 else length c.cache))
unfolding push
push_room b c h =
    grind (arith, packet_of-packet_for c b, length-append c.cache (packet_of c b ∷ []))

read_room :
    (c : Conn)
    → IsOpen c
    → ((read_from true c).0.dest ≡ c.dest)
      × (length (read_from true c).0.cache ≡ length c.cache - 1)
unfolding read_from
read_room c h = ground arith

run-taken_in :
    (es : List Event) (c : Conn)
    → IsOpen c
    → ((run es c).1 ≡ taken_in c.dest (length c.cache) es)
      × (length (run es c).0.cache ≡ left_in (length c.cache) es)
unfolding run
run-taken_in [] c h = (refl, refl)
run-taken_in (arrives b ∷ es) c h =
    ground (arith, push_room b c h, run-taken_in es (push true b c).0 (push-IsOpen b c h).0)
run-taken_in (reads ∷ es) c h =
    ground (arith, read_room c h, run-taken_in es (read_from true c).0 (read-IsOpen c h).0)

-- While a new connection is open, and whatever arrives and however readers ask: the packets queued are those of the
-- buffers that are not empty and arrive while fewer than 16 are in the cache; those read so far are the queued ones in
-- their order without the last, which are those in the cache; and each read takes one out if there is one, so that
-- at the end as many are there as a count of the events says, at most 16.
pub run_fifo :
    (es : List Event) (dest : Endpoint)
    → let (c, ins, outs) = run es (new_conn dest) in
      (ins ≡ taken_in dest 0 es)
      × (ins ≡ outs ++ c.cache)
      × (length c.cache ≡ left_in 0 es)
      × (length c.cache ≤ 16)
run_fifo es dest =
    let start : IsOpen (new_conn dest) = (refl, refl, omega arith) in
    let (o, q) = run_queue es (new_conn dest) start in
    let (ins, count) = run-taken_in es (new_conn dest) start in (ins, q, count, o.2)

-- Whether the source of a packet is an IP address.
abbrev pub has_ip : Packet → Bool
has_ip p = elim p.source.address [ domain _ ↦ false | ip _ ↦ true ]

-- A buffer that arrives at an open connection is skipped if it is empty, queued if there is room, and
-- dropped and released if the cache is full; it never blocks the link and never panics. The source of
-- a queued packet is an IP address: a domain is replaced by the unspecified address.
pub push_open_cases :
    (choice : Bool) (b : Buffer) (c : Conn)
    → IsOpen c
    → let (c', r) = push choice b c in
      (r ≢ panicked)
      × ((r ≡ skipped) ↔ (length b.payload ≡ 0))
      × (r ≡ dropped → (length c.cache ≡ cache_size) × (c'.released ≡ suc c.released))
      × (r ≡ queued → (length c.cache < cache_size) × (has_ip (packet_of c b) ≡ true))
unfolding push packet_of
push_open_cases choice b c h = ground arith
