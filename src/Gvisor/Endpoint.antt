-- ===== src/Gvisor/Endpoint.antt =====
-- gvisor/endpoint.go: the endpoint's attachment and its goroutine, and the packets that the stack writes.
-- `rawfile.AppendIovecFromBytes` is a parameter, with the law that it appends the bytes.
use lib_sager_net_core.Common.{
  ℕ, suc, ◌-◌, ◌≤◌, ◌≡◌, refl, ap, ◌∙◌, sym, Bool, true, false, Option, none, some, List, [], ◌∷◌,
  ◌++◌, if◌then◌else◌, length, arith,
}
use mathlib.Core.List
use mathlib.Core.List.{append-nil, append_assoc}
use lib_sager_net_core.Gvisor.Reading.{joined}

-- `rwEndpoint`: the dispatcher (by a number; `none` is nil), the goroutines of the wait group that run, and the
-- writes to the eventfd.
pub record RwEndpoint : Type 0 where
  pub dispatcher : Option ℕ
  pub running : ℕ
  pub stops : ℕ

abbrev pub new_rw_endpoint : RwEndpoint
new_rw_endpoint = record { dispatcher = none; running = 0; stops = 0 }

-- `Attach`. In the first branch the goroutine has ended once `Wait` returns.
pub attach : Option ℕ → RwEndpoint → RwEndpoint
attach none e = elim e.dispatcher [
  | none ↦ e
  | some _ ↦ record { dispatcher = none; running = 0; stops = suc e.stops }
]
attach (some d) e = elim e.dispatcher [
  | none ↦ record { dispatcher = some d; running = suc e.running; stops = e.stops }
  | some _ ↦ e
]

pub is_attached : RwEndpoint → Bool
is_attached e = elim e.dispatcher [ none ↦ false | some _ ↦ true ]

-- The goroutine of `Attach`, once `dispatchLoop` has returned.
pub loop_returned : RwEndpoint → RwEndpoint
loop_returned e = record { dispatcher = e.dispatcher; running = e.running - 1; stops = e.stops }

-- What happens to an endpoint.
pub data Event : Type 0 where
  attaches : Option ℕ → Event
  returns : Event

pub happen : Event → RwEndpoint → RwEndpoint
unfolding attach loop_returned
happen (attaches d) e = attach d e
happen returns e = loop_returned e

pub history : List Event → RwEndpoint → RwEndpoint
history [] e = e
history (v ∷ vs) e = history vs (happen v e)

-- At most one goroutine reads, and none where nothing is attached.
abbrev pub IsSound : RwEndpoint → Type 0
IsSound e = (e.running ≤ 1) × (is_attached e ≡ false → e.running ≡ 0)

happen-IsSound : (v : Event) (e : RwEndpoint) → IsSound e → IsSound (happen v e)
unfolding happen attach loop_returned is_attached
happen-IsSound (attaches none) e (h, k) = ground arith
happen-IsSound (attaches (some d)) e (h, k) = ground arith
happen-IsSound returns e (h, k) = ground arith

history-from_IsSound : (vs : List Event) (e : RwEndpoint) → IsSound e → IsSound (history vs e)
unfolding history
history-from_IsSound [] e h = h
history-from_IsSound (v ∷ vs) e h = history-from_IsSound vs (happen v e) (happen-IsSound v e h)

-- After any attachments, detachments and returns of the loop, at most one goroutine reads packets for the
-- endpoint, and none while it is not attached.
pub history-IsSound : (vs : List Event) → IsSound (history vs new_rw_endpoint)
unfolding is_attached
history-IsSound vs = history-from_IsSound vs new_rw_endpoint (omega arith, λ _. refl)

module _ (append_iovec : List (List ℕ) → List ℕ → List (List ℕ)) where
  -- The loop over the views of one packet, and that over the packets.
  pub append_views : List (List ℕ) → List (List ℕ) → List (List ℕ)
  append_views batch [] = batch
  append_views batch (v ∷ views) = append_views (append_iovec batch v) views

  pub append_packets : List (List ℕ) → List (List (List ℕ)) → List (List ℕ)
  unfolding append_views
  append_packets batch [] = batch
  append_packets batch (p ∷ pkts) = append_packets (append_views batch p) pkts

  -- `WritePackets`, where the write succeeds or not: the one datagram that is written, and the count and
  -- whether there is no error.
  pub write_packets : (written : Bool) → List (List (List ℕ)) → List ℕ × ℕ × Bool
  unfolding append_packets
  write_packets written pkts =
      let batch = append_packets [] pkts in
      (joined batch, if written then length pkts else 0, written)

  module _
      (joined-append_iovec : (batch : List (List ℕ)) (v : List ℕ)
        → joined (append_iovec batch v) ≡ joined batch ++ v) where
    joined-append_views :
        (batch views : List (List ℕ))
        → joined (append_views batch views) ≡ joined batch ++ joined views
    unfolding append_views
    joined-append_views batch [] = sym (append-nil (joined batch))
    joined-append_views batch (v ∷ views) =
        joined-append_views (append_iovec batch v) views
        ∙ ap (λ (t : List ℕ). t ++ joined views) (joined-append_iovec batch v)
        ∙ append_assoc (joined batch) v (joined views)

    joined-append_packets :
        (batch : List (List ℕ)) (pkts : List (List (List ℕ)))
        → joined (append_packets batch pkts) ≡ joined batch ++ joined (List.map joined pkts)
    unfolding append_packets
    joined-append_packets batch [] = sym (append-nil (joined batch))
    joined-append_packets batch (p ∷ pkts) =
        joined-append_packets (append_views batch p) pkts
        ∙ ap (λ (t : List ℕ). t ++ joined (List.map joined pkts)) (joined-append_views batch p)
        ∙ append_assoc (joined batch) (joined p) (joined (List.map joined pkts))

    -- However many packets `WritePackets` is given, it writes one datagram, the bytes of all of them in their
    -- order, and reports their number where the write succeeds and 0 where it fails.
    pub write_packets-joined :
        (written : Bool) (pkts : List (List (List ℕ)))
        → write_packets written pkts
          ≡ (joined (List.map joined pkts), (if written then length pkts else 0), written)
    unfolding write_packets
    write_packets-joined written pkts = rw (joined-append_packets [] pkts) refl
