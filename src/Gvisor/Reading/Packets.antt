-- ===== src/Gvisor/Reading/Packets.antt =====
-- gvisor/dispatchers.go, gvisor/endpoint.go: what the loop of the endpoint delivers, against a description
-- that knows no buffers.
use lib_sager_net_core.Common.{
  ℕ, suc, ◌/◌, ◌≤◌, ◌≡◌, refl, leb, ltb, ◌&&◌, if◌then◌else◌, ◌∙◌, Bool, true, false, Option, none,
  some, List, [], ◌∷◌, ◌++◌, length, arith,
}
use lib_sager_net_core.Gvisor.Reading.{
  Views, new_views, next_views, pull_views, ipv4, ipv6, Reading, packet, read_error, stopped,
  Protocol, guessed, total, joined, IsReady, Readv, dispatch, dispatch_loop,
}
use lib_sager_net_core.Gvisor.Reading.Views.{next_views-new_views-IsReady, pull_views-IsReady}

-- The packets of version 4 or 6, by the upper half of the first octet, with their protocol.
abbrev pub of_version : (first : ℕ) (bytes : List ℕ) → List (Protocol × List ℕ)
of_version first bytes =
    if leb 64 first && ltb first 80
    then (ipv4, bytes) ∷ []
    else if leb 96 first && ltb first 112
    then (ipv6, bytes) ∷ []
    else []

-- The packets that are delivered of what is read, and whether the reading is over: each packet of version 4 or 6,
-- whole and in order, up to the first error, stop or empty packet.
pub delivered_packets : List Reading → List (Protocol × List ℕ) × Bool
delivered_packets [] = ([], false)
delivered_packets (packet [] ∷ rs) = ([], true)
delivered_packets (packet (b ∷ bytes) ∷ rs) =
    let rest = delivered_packets rs in (of_version b (b ∷ bytes) ++ rest.0, rest.1)
delivered_packets (read_error ∷ rs) = ([], true)
delivered_packets (stopped ∷ rs) = ([], true)

-- `header.IPVersion` is the upper half of the first octet.
abbrev pub IsIpVersion : (List ℕ → ℕ) → Type 0
IsIpVersion ip_version = (b : ℕ) (bytes : List ℕ) → ip_version (b ∷ bytes) ≡ b / 16

-- What a list of zero or one packet adds.
abbrev listed : Option (Protocol × List ℕ) → List (Protocol × List ℕ)
listed none = []
listed (some d) = d ∷ []

listed-guessed :
    (ip_version : List ℕ → ℕ) (b : ℕ) (bytes : List ℕ)
    → IsIpVersion ip_version
    → listed (guessed ip_version (b ∷ bytes)) ≡ of_version b (b ∷ bytes)
unfolding guessed
listed-guessed ip_version b bytes v = ground (arith, v b [])

-- Every packet fits into the buffers.
abbrev pub Fits : (sizes : List ℕ) → List Reading → Type 0
Fits sizes [] = Unit {0}
Fits sizes (packet bytes ∷ rs) = (length bytes ≤ total sizes) × Fits sizes rs
Fits sizes (_ ∷ rs) = Fits sizes rs

module _ (readv : Readv) (ip_version : List ℕ → ℕ) (sizes : List ℕ) where
  open readv use {fill, fill-IsReady, take-fill}

  -- A packet that fits is delivered as it was read, and the buffers can be made ready again.
  dispatch-packet :
      (b : ℕ) (bytes : List ℕ) (vs : Views)
      → IsReady sizes (next_views sizes vs)
      → suc (length bytes) ≤ total sizes
      → (left : Views) × (dispatch readv ip_version sizes (packet (b ∷ bytes)) vs
          ≡ (left, guessed ip_version (b ∷ bytes), true))
        × IsReady sizes (next_views sizes left)
  unfolding dispatch
  dispatch-packet b bytes vs ready h =
      let filled = fill (b ∷ bytes) (next_views sizes vs) in
      let (pulled, after) =
        pull_views-IsReady sizes filled (suc (length bytes))
          (fill-IsReady (b ∷ bytes) sizes (next_views sizes vs) ready) (omega arith) h in
      let whole : joined (pull_views (suc (length bytes)) filled).0 ≡ b ∷ bytes =
        pulled ∙ take-fill (b ∷ bytes) sizes (next_views sizes vs) ready h in
      ((pull_views (suc (length bytes)) filled).1, rw whole (ground arith), after)

  dispatch_loop-delivered_packets :
      IsIpVersion ip_version
      → (rs : List Reading) (vs : Views) → IsReady sizes (next_views sizes vs)
      → Fits sizes rs
      → dispatch_loop readv ip_version sizes rs vs ≡ delivered_packets rs
  unfolding dispatch_loop dispatch delivered_packets
  dispatch_loop-delivered_packets v [] vs ready h = refl
  dispatch_loop-delivered_packets v (packet [] ∷ rs) vs ready h = refl
  dispatch_loop-delivered_packets v (packet (b ∷ bytes) ∷ rs) vs ready (hb, h) =
      let (left, e, after) = dispatch-packet b bytes vs ready hb in
      rw (e, dispatch_loop-delivered_packets v rs left after h)
        (ground (arith, listed-guessed ip_version b bytes v))
  dispatch_loop-delivered_packets v (read_error ∷ rs) vs ready h = refl
  dispatch_loop-delivered_packets v (stopped ∷ rs) vs ready h = refl

  -- If `header.IPVersion` is the upper half of the first octet: from new buffers, over any reads of which every
  -- packet fits into the buffers, the loop of the endpoint delivers each packet whose first octet is 64 to 79 as
  -- IPv4 and each whose first octet is 96 to 111 as IPv6, whole and in order, and no other packet, up to the first
  -- error, stop or empty packet, where it returns.
  pub dispatch_loop_refines :
      IsIpVersion ip_version
      → (rs : List Reading) → Fits sizes rs
      → dispatch_loop readv ip_version sizes rs (new_views sizes) ≡ delivered_packets rs
  dispatch_loop_refines v rs h =
      dispatch_loop-delivered_packets v rs (new_views sizes) (next_views-new_views-IsReady sizes) h
