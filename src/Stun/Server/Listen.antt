-- ===== src/Stun/Server/Listen.antt =====
-- `listen` of stun/stun.go, the goroutine that reads the socket. It keeps the slice of the last
-- message as its buffer, `b = b[:n]`.
use lib_sager_net_core.Common.{
  take-all, length-take, ℕ, ◌≡◌, ◌≢◌, ap, Bool-cases, inl, inr, Bool, true, List, [], ◌∷◌, length,
  take, if◌then◌else◌, arith, ◌≤◌, ◌<◌,
}

-- The messages sent to the channel, from the length of the buffer and the datagrams that arrive before
-- a read fails; and the length of the buffer after. `decodes` is `Message.Decode`.
pub listen : (decodes : List ℕ → Bool) → ℕ → List (List ℕ) → List (List ℕ) × ℕ
listen decodes size [] = ([], size)
listen decodes size (datagram ∷ rest) =
    let raw = take size datagram in
    let more = listen decodes (length raw) rest in
    if decodes raw then (raw ∷ more.0, more.1) else ([], length raw)

-- No list is longer than the one before it, the first not longer than `n`.
abbrev pub Shrinks : ℕ → List (List ℕ) → Type 0
Shrinks n [] = Unit
Shrinks n (x ∷ xs) = (length x ≤ n) × Shrinks (length x) xs

-- The buffer never grows again: no message that `listen` delivers is longer than the one before it,
-- whatever arrives.
pub listen-Shrinks :
    (decodes : List ℕ → Bool) (size : ℕ) (datagrams : List (List ℕ))
    → Shrinks size (listen decodes size datagrams).0
unfolding listen
listen-Shrinks decodes size [] = tt
listen-Shrinks decodes size (d ∷ ds) = elim (Bool-cases (decodes (take size d))) [
  | inl good ↦
      rw good (rw length-take (omega arith), listen-Shrinks decodes (length (take size d)) ds)
  | inr bad ↦ rw bad tt
]

-- A response that is longer than the one received before it is cut to that one's length: a first
-- datagram that fits the buffer and decodes, then a longer one, which the decoder gets without its
-- end.
pub listen_cuts :
    (decodes : List ℕ → Bool) (size : ℕ) (first second : List ℕ)
    → length first ≤ size
    → length first < length second
    → decodes first ≡ true
    → decodes (take (length first) second) ≡ true
    → ((listen decodes size (first ∷ second ∷ [])).0 ≡ first ∷ take (length first) second ∷ [])
      × (take (length first) second ≢ second)
unfolding listen
listen_cuts decodes size first second fits longer good good' = (
  rw (take-all size first fits, good, good'),
  λ same. absurd (omega (arith, length-take (length first) second, ap length same)),
)
