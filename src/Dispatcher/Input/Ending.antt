-- ===== src/Dispatcher/Input/Ending.antt =====
-- How `handleInput` ends, where no reader asks, and what `WriteTo` writes.
use lib_sager_net_core.Common.{
  length-take, ℕ, suc, ◌+◌, ◌<◌, ◌≡◌, ◌≢◌, refl, ap, Bool, true, false, some, List, [], ◌∷◌, ◌++◌,
  length, take, arith,
}
use lib_sager_net_core.Dispatcher.{
  Buffer, Packet, Conn, Endpoint, cache_size, Pulled, pull_failed, pulled, write_to_slice,
}
use lib_sager_net_core.Dispatcher.Input.{arriving}

-- The packets of all reads of the link.
pub arrivals : Endpoint → List (List (Bool × Buffer)) → List Packet
arrivals dest [] = []
arrivals dest (bs ∷ reads) = arriving dest bs ++ arrivals dest reads

-- Reads of the link, then its error.
abbrev pub then_fails : List (List (Bool × Buffer)) → List Pulled
then_fails [] = pull_failed ∷ []
then_fails (bs ∷ reads) = pulled bs ∷ then_fails reads

abbrev counted : Conn → Conn
counted c = record c { updates = suc c.updates }

-- How the loop ends.
abbrev pub IsEnded : (ps : List Packet) → Conn → Conn × Bool → Type 0
IsEnded ps c (c', panics) =
    (panics ≡ false)
    × (c'.closed ≡ true)
    × (c'.cache ≡ take cache_size (c.cache ++ ps))
    × (c'.released + length c'.cache ≡ c.released + length c.cache + length ps)

-- A write of more bytes than a new buffer holds reports them all, and writes the first ones.
pub write_to_slice_cuts :
    (buf_size : ℕ) (p : List ℕ) (c : Conn)
    → buf_size < length p
    → ((write_to_slice buf_size false p c).2 ≡ some (length p))
      × ((write_to_slice buf_size false p c).1 ≢ p)
unfolding write_to_slice
write_to_slice_cuts buf_size p c h =
    (refl, λ e. absurd (omega (arith, ap (λ (t : List ℕ). length t) e, length-take buf_size p)))
