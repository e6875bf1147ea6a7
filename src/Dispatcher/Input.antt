-- ===== src/Dispatcher/Input.antt =====
-- What the loop of `handleInput` leaves in the cache where no reader asks, and how it ends.
pub mod Ending
use lib_sager_net_core.Common.{
  take-all, ℕ, zero, suc, ◌+◌, ◌≤◌, ◌<◌, ◌≡◌, ◌≢◌, ◌⊎◌, inl, inr, refl, sym, ap, ◌∙◌, Bool, true,
  false, Option, none, some, List, [], ◌∷◌, ◌++◌, length, take, if◌then◌else◌, ◌==◌, Bool-cases,
  length-append, arith,
}
use mathlib.Core.List.{append-nil, append_assoc}
use lib_sager_net_core.Dispatcher.{
  Buffer, Packet, Conn, Endpoint, new_conn, packet_of, push, Pushed, queued, dropped, skipped,
  panicked, cache_size, close, Pulled, pull_failed, pulled, push_all, handle_input, write_to_slice,
}
use lib_sager_net_core.Dispatcher.Queue.{IsOpen}

-- The packets of the buffers that are not empty.
pub arriving : Endpoint → List (Bool × Buffer) → List Packet
arriving dest [] = []
arriving dest ((choice, b) ∷ bs) =
    let rest = arriving dest bs in
    if length b.payload == 0 then rest else packet_of (new_conn dest) b ∷ rest

take-append-left : {A : Type 0} (n : ℕ) (xs ys : List A) → length xs ≡ n → take n (xs ++ ys) ≡ xs
take-append-left zero [] ys h = refl
take-append-left zero (x ∷ xs) ys h = absurd (omega arith)
take-append-left (suc n) [] ys h = absurd (omega arith)
take-append-left (suc n) (x ∷ xs) ys h = ap (λ t. x ∷ t) (take-append-left n xs ys (omega arith))

-- What one buffer does to an open connection.
push-step :
    (choice : Bool) (b : Buffer) (c : Conn)
    → IsOpen c
    → let (c', r) = push choice b c in
      IsOpen c'
      × (r ≢ panicked)
      × (c'.dest ≡ c.dest)
      × (c'.closed ≡ c.closed)
      × (((length b.payload == 0 ≡ true) × (c'.cache ≡ c.cache) × (c'.released ≡ c.released))
          ⊎ ((length b.payload == 0 ≡ false)
              × (length c.cache < cache_size)
              × (c'.cache ≡ c.cache ++ (packet_of (new_conn c.dest) b ∷ []))
              × (c'.released ≡ c.released))
          ⊎ ((length b.payload == 0 ≡ false)
              × (length c.cache ≡ cache_size)
              × (c'.cache ≡ c.cache)
              × (c'.released ≡ suc c.released)))
unfolding push packet_of
push-step choice b c h = ground (arith, length-append c.cache (packet_of (new_conn c.dest) b ∷ []))

push_all-step :
    (choice : Bool) (b : Buffer) (bs : List (Bool × Buffer)) (c : Conn)
    → (push choice b c).1 ≢ panicked
    → push_all ((choice, b) ∷ bs) c ≡ push_all bs (push choice b c).0
unfolding push_all
push_all-step choice b bs c h = ground arith

-- What the loop over one read leaves.
abbrev pub IsTaken : (ps : List Packet) → Conn → Conn × Bool → Type 0
IsTaken ps c (c', panics) =
    IsOpen c'
    × (panics ≡ false)
    × (c'.dest ≡ c.dest)
    × (c'.closed ≡ c.closed)
    × (c'.cache ≡ take cache_size (c.cache ++ ps))
    × (c'.released + length c'.cache ≡ c.released + length c.cache + length ps)

-- One packet before others, which is queued or dropped.
IsTaken-more :
    (p : Packet) (ps : List Packet) (c d : Conn) (r : Conn × Bool)
    → IsOpen c
    → d.dest ≡ c.dest
    → d.closed ≡ c.closed
    → ((length c.cache < cache_size) × (d.cache ≡ c.cache ++ (p ∷ [])) × (d.released ≡ c.released))
      ⊎ ((length c.cache ≡ cache_size) × (d.cache ≡ c.cache) × (d.released ≡ suc c.released))
    → IsTaken ps d r
    → IsTaken (p ∷ ps) c r
IsTaken-more p ps c d r open_c dest closed (inl (room, cache, released))
      (open_r, fine, dest_r, closed_r, cache_r, count) =
    (
      open_r,
      fine,
      dest_r ∙ dest,
      closed_r ∙ closed,
      cache_r
          ∙ ap (λ (t : List Packet). take cache_size (t ++ ps)) cache
          ∙ ap (take cache_size) (append_assoc c.cache (p ∷ []) ps),
      omega (
        arith,
        count,
        released,
        ap (λ (t : List Packet). length t) cache,
        length-append c.cache (p ∷ []),
      ),
    )
IsTaken-more p ps c d r open_c dest closed (inr (full, cache, released))
      (open_r, fine, dest_r, closed_r, cache_r, count) =
    (
      open_r,
      fine,
      dest_r ∙ dest,
      closed_r ∙ closed,
      cache_r
          ∙ ap (λ (t : List Packet). take cache_size (t ++ ps)) cache
          ∙ take-append-left cache_size c.cache ps full
          ∙ sym (take-append-left cache_size c.cache (p ∷ ps) full),
      omega (arith, count, released, ap (λ (t : List Packet). length t) cache),
    )

arriving-none : (dest : Endpoint) → arriving dest [] ≡ []
unfolding arriving
arriving-none dest = refl

push_all-none : (c : Conn) → push_all [] c ≡ (c, false)
unfolding push_all
push_all-none c = refl

-- One buffer before others.
arriving-IsTaken :
    (choice : Bool) (b : Buffer) (bs : List (Bool × Buffer)) (dest : Endpoint) (c d : Conn)
    (r : Conn × Bool)
    → c.dest ≡ dest
    → IsOpen c
    → d.dest ≡ c.dest
    → d.closed ≡ c.closed
    → ((length b.payload == 0 ≡ true) × (d.cache ≡ c.cache) × (d.released ≡ c.released))
      ⊎ ((length b.payload == 0 ≡ false)
          × (length c.cache < cache_size)
          × (d.cache ≡ c.cache ++ (packet_of (new_conn c.dest) b ∷ []))
          × (d.released ≡ c.released))
      ⊎ ((length b.payload == 0 ≡ false)
          × (length c.cache ≡ cache_size)
          × (d.cache ≡ c.cache)
          × (d.released ≡ suc c.released))
    → IsTaken (arriving dest bs) d r
    → IsTaken (arriving dest ((choice, b) ∷ bs)) c r
unfolding arriving
arriving-IsTaken choice b bs dest c d r e open_c same closed (inl (empty, cache, released))
      (open_r, fine, dest_r, closed_r, cache_r, count) =
    rw empty (
      open_r,
      fine,
      dest_r ∙ same,
      closed_r ∙ closed,
      cache_r ∙ ap (λ (t : List Packet). take cache_size (t ++ arriving dest bs)) cache,
      omega (arith, count, released, ap (λ (t : List Packet). length t) cache),
    )
arriving-IsTaken choice b bs dest c d r e open_c same closed
      (inr (inl (full, room, cache, released))) taken =
    rw full (
      IsTaken-more (packet_of (new_conn dest) b) (arriving dest bs) c d r open_c same closed
        (inl (
          room,
          cache ∙ ap (λ (x : Endpoint). c.cache ++ (packet_of (new_conn x) b ∷ [])) e,
          released,
        ))
        taken)
arriving-IsTaken choice b bs dest c d r e open_c same closed
      (inr (inr (full, no_room, cache, released))) taken =
    rw full (
      IsTaken-more (packet_of (new_conn dest) b) (arriving dest bs) c d r open_c same closed
        (inr (no_room, cache, released)) taken)

pub push_all-IsTaken :
    (bs : List (Bool × Buffer)) (dest : Endpoint) (c : Conn)
    → c.dest ≡ dest
    → IsOpen c
    → IsTaken (arriving dest bs) c (push_all bs c)
push_all-IsTaken [] dest c e h =
    rw (push_all-none c, arriving-none dest)
      (
        h,
        refl,
        refl,
        refl,
        sym (ap (take cache_size) (append-nil c.cache) ∙ take-all cache_size c.cache h.2),
        omega arith,
      )
push_all-IsTaken ((choice, b) ∷ bs) dest c e h =
    let (open_d, fine, same, closed, how) = push-step choice b c h in
    rw (push_all-step choice b bs c fine) (
      arriving-IsTaken choice b bs dest c (push choice b c).0 (push_all bs (push choice b c).0) e h
        same closed how (push_all-IsTaken bs dest (push choice b c).0 (same ∙ e) open_d))
