-- ===== src/Gvisor/Reading.antt =====
-- gvisor/dispatchers.go: the buffers that a packet is read into, and the loop of the endpoint
-- (gvisor/endpoint.go). `readv`, and the version of a packet (`header.IPVersion`), are parameters. An
-- iovec points to the view of its index, so the iovecs are the views.
pub mod Views
pub mod Packets
use lib_sager_net_core.Common.{
  ℕ, suc, ◌+◌, ◌-◌, ◌≤◌, ◌<◌, ◌≡◌, Bool, true, false, Option, none, some, List, [], ◌∷◌, ◌++◌,
  if◌then◌else◌, length, take, replicate, leb, ◌==◌,
}

-- `bufConfig`
abbrev pub buf_config : List ℕ
buf_config = 128 ∷ 256 ∷ 256 ∷ 512 ∷ 1024 ∷ 2048 ∷ 4096 ∷ 8192 ∷ 16384 ∷ 32768 ∷ []

-- `iovecBuffer.views`; `none` is nil.
abbrev pub Views : Type 0
Views = List (Option (List ℕ))

abbrev pub bytes_of : Option (List ℕ) → List ℕ
bytes_of none = []
bytes_of (some v) = v

-- `newIovecBuffer`
unfoldable pub new_views : (sizes : List ℕ) → Views
new_views [] = []
new_views (_ ∷ sizes) = none ∷ new_views sizes

-- `nextIovecs`: new views up to the first that is there.
unfoldable pub next_views : (sizes : List ℕ) → Views → Views
next_views [] vs = vs
next_views (size ∷ sizes) [] = []
next_views (size ∷ sizes) (none ∷ vs) = some (replicate size 0) ∷ next_views sizes vs
next_views (size ∷ sizes) (some v ∷ vs) = some v ∷ vs

-- The loop of `pullViews` with `c` bytes counted: the views taken, and those left; `none` where the loop
-- ends without a break.
unfoldable pub pull_from : (n c : ℕ) → Views → Option (List (List ℕ) × Views)
pull_from n c [] = none
pull_from n c (v ∷ vs) =
    let c' = c + length (bytes_of v) in
    let rest = pull_from n c' vs in
    if leb n c'
    then some (take (length (bytes_of v) - (c' - n)) (bytes_of v) ∷ [], none ∷ vs)
    else elim rest [ none ↦ none | some (taken, left) ↦ some (bytes_of v ∷ taken, none ∷ left) ]

-- `pullViews`
unfoldable pub pull_views : ℕ → Views → List (List ℕ) × Views
unfolding pull_from
pull_views n vs = elim (pull_from n 0 vs) [ none ↦ ([], vs) | some r ↦ r ]

-- What one `BlockingReadvUntilStopped` gives: a packet, an error, or a stop, which is no packet.
pub data Reading : Type 0 where
  packet : List ℕ → Reading
  read_error : Reading
  stopped : Reading

pub data Protocol : Type 0 where
  ipv4 ipv6 : Protocol

abbrev pub protocol_of : ℕ → Option Protocol
protocol_of v = if v == 4 then some ipv4 else if v == 6 then some ipv6 else none

abbrev pub total : List ℕ → ℕ
total [] = 0
total (n ∷ ns) = n + total ns

-- The bytes of some parts, in their order.
abbrev pub joined : List (List ℕ) → List ℕ
joined [] = []
joined (p ∷ ps) = p ++ joined ps

abbrev pub contents : Views → List ℕ
contents [] = []
contents (v ∷ vs) = bytes_of v ++ contents vs

-- All views are there, with the sizes.
abbrev pub IsReady : (sizes : List ℕ) → Views → Type 0
IsReady [] [] = Unit
IsReady (size ∷ sizes) (some v ∷ vs) = (length v ≡ size) × IsReady sizes vs
IsReady _ _ = ⊥

-- What is delivered of the bytes that are pulled: nothing where there is no octet to tell the version, or it
-- is another version.
unfoldable pub guessed : (ip_version : List ℕ → ℕ) → List ℕ → Option (Protocol × List ℕ)
guessed ip_version [] = none
guessed ip_version (b ∷ bs) = elim (protocol_of (ip_version (b ∷ []))) [
  | none ↦ none
  | some p ↦ some (p, b ∷ bs)
]

-- `readv` writes a packet that fits into the views at their beginning, and moves no view.
pub record Readv : Type 0 where
  pub fill : List ℕ → Views → Views
  pub fill-IsReady :
      (data_read : List ℕ) (sizes : List ℕ) (vs : Views)
      → IsReady sizes vs
      → IsReady sizes (fill data_read vs)
  pub take-fill :
      (data_read : List ℕ) (sizes : List ℕ) (vs : Views)
      → IsReady sizes vs
      → length data_read ≤ total sizes
      → take (length data_read) (contents (fill data_read vs)) ≡ data_read

module _ (readv : Readv) (ip_version : List ℕ → ℕ) (sizes : List ℕ) where
  open readv use {fill}

  -- `dispatch`: the views left, the packet that is delivered to the stack, and whether the loop goes on.
  unfoldable pub dispatch : Reading → Views → Views × Option (Protocol × List ℕ) × Bool
  dispatch (packet bytes) vs =
      let n = length bytes in
      let (taken, left) = pull_views n (fill bytes (next_views sizes vs)) in
      let data_pulled = joined taken in
      if n == 0
      then (fill bytes (next_views sizes vs), none, false)
      else (left, guessed ip_version data_pulled, true)
  dispatch read_error vs = (next_views sizes vs, none, false)
  dispatch stopped vs = (next_views sizes vs, none, false)

  -- `dispatchLoop`, over what the reads give: the packets that are delivered, and whether the loop has
  -- returned.
  unfoldable pub dispatch_loop : List Reading → Views → List (Protocol × List ℕ) × Bool
  dispatch_loop [] vs = ([], false)
  dispatch_loop (r ∷ rs) vs =
      let (left, delivered, goes_on) = dispatch r vs in
      let rest = dispatch_loop rs left in
      let here : List (Protocol × List ℕ) = elim delivered [ none ↦ [] | some d ↦ d ∷ [] ] in
      if goes_on then (here ++ rest.0, rest.1) else (here, true)
