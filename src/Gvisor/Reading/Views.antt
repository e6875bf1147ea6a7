-- ===== src/Gvisor/Reading/Views.antt =====
-- gvisor/dispatchers.go: what `pullViews` takes from the buffers, and what `nextIovecs` puts back.
use lib_sager_net_core.Common.{
  ℕ, zero, suc, ◌+◌, ◌-◌, ◌≤◌, ◌<◌, ◌≡◌, refl, sym, ap, ◌∙◌, ◌⊎◌, inl, inr, true, false, none, some,
  List, [], ◌∷◌, ◌++◌, length, take, replicate, leb, arith,
}
use mathlib.Core.List.{append-nil}
use lib_sager_net_core.Gvisor.Reading.{
  Views, new_views, next_views, pull_from, pull_views, total, joined, contents, IsReady,
}

length-replicate : (n a : ℕ) → length (replicate n a) ≡ n
length-replicate zero a = refl
length-replicate (suc n) a = ap suc (length-replicate n a)

take-append-left : (n : ℕ) (xs ys : List ℕ) → n ≤ length xs → take n (xs ++ ys) ≡ take n xs
take-append-left zero xs ys h = refl
take-append-left (suc n) [] ys h = ground arith
take-append-left (suc n) (x ∷ xs) ys h =
    ap (λ (t : List ℕ). x ∷ t) (take-append-left n xs ys (omega arith))

take-append-right :
    (n : ℕ) (xs ys : List ℕ) → length xs ≤ n → take n (xs ++ ys) ≡ xs ++ take (n - length xs) ys
take-append-right n [] ys h = ap (λ (k : ℕ). take k ys) (omega arith)
take-append-right zero (x ∷ xs) ys h = ground arith
take-append-right (suc n) (x ∷ xs) ys h =
    ap (λ (t : List ℕ). x ∷ t)
      (take-append-right n xs ys (omega arith) ∙ ap (λ (k : ℕ). xs ++ take k ys) (omega arith))

-- Views that are all there stay.
pub next_views-of_ready :
    (sizes : List ℕ) (vs : Views) → IsReady sizes vs → next_views sizes vs ≡ vs
unfolding next_views
next_views-of_ready [] [] h = refl
next_views-of_ready (size ∷ sizes) (some v ∷ vs) h = refl
next_views-of_ready [] (v ∷ vs) h = elim h [ ]
next_views-of_ready (size ∷ sizes) [] h = elim h [ ]
next_views-of_ready (size ∷ sizes) (none ∷ vs) h = elim h [ ]

pub next_views-new_views-IsReady :
    (sizes : List ℕ) → IsReady sizes (next_views sizes (new_views sizes))
unfolding next_views new_views
next_views-new_views-IsReady [] = tt
next_views-new_views-IsReady (size ∷ sizes) =
    (length-replicate size 0, next_views-new_views-IsReady sizes)

-- What a run of the loop of `pullViews` promises.
abbrev pub Pulled : (n c : ℕ) (sizes : List ℕ) (vs : Views) → Type 0
Pulled n c sizes vs =
    (r : List (List ℕ) × Views) × (pull_from n c vs ≡ some r)
    × (joined r.0 ≡ take (n - c) (contents vs))
    × IsReady sizes (next_views sizes r.1)

leb-of_le : (a b : ℕ) → a ≤ b → leb a b ≡ true
leb-of_le a b h = ground arith

le-or_gt : (a b : ℕ) → (a ≤ b) ⊎ (b < a)
le-or_gt a b = omega arith

leb-of_gt : (a b : ℕ) → b < a → leb a b ≡ false
leb-of_gt a b h = ground arith

module _ (size : ℕ) (sizes : List ℕ) (v : List ℕ) (vs : Views) (n c : ℕ)
    (hv : length v ≡ size) where
  pull_from-last :
      c < n → n ≤ c + length v → IsReady sizes vs → Pulled n c (size ∷ sizes) (some v ∷ vs)
  unfolding pull_from next_views
  pull_from-last hc h ready = (
    (take (length v - ((c + length v) - n)) v ∷ [], none ∷ vs),
    rw (leb-of_le n (c + length v) h) refl,
    append-nil (take (length v - ((c + length v) - n)) v)
        ∙ ap (λ (k : ℕ). take k v) (omega arith)
        ∙ sym (take-append-left (n - c) v (contents vs) (omega arith)),
    (length-replicate size 0, rw (next_views-of_ready sizes vs ready) ready),
  )

  pull_from-more :
      c + length v < n → Pulled n (c + length v) sizes vs → Pulled n c (size ∷ sizes) (some v ∷ vs)
  unfolding pull_from next_views
  pull_from-more h ((taken, left), e, bytes, ready) = (
    (v ∷ taken, none ∷ left),
    rw (leb-of_gt n (c + length v) h, e) refl,
    ap (λ (t : List ℕ). v ++ t) (bytes ∙ ap (λ (k : ℕ). take k (contents vs)) (omega arith))
        ∙ sym (take-append-right (n - c) v (contents vs) (omega arith)),
    (length-replicate size 0, ready),
  )

-- From views that are all there, the loop takes the bytes that are asked for.
pull_from-IsReady :
    (sizes : List ℕ) (vs : Views) (n c : ℕ)
    → IsReady sizes vs
    → c < n
    → n ≤ c + total sizes
    → Pulled n c sizes vs
pull_from-IsReady [] [] n c ready hc h = absurd (omega arith)
pull_from-IsReady (size ∷ sizes) (some v ∷ vs) n c (hv, ready) hc h =
    elim (le-or_gt n (c + length v)) [
      | inl p ↦ pull_from-last size sizes v vs n c hv hc p ready
      | inr p ↦
          pull_from-more size sizes v vs n c hv (omega arith)
            (pull_from-IsReady sizes vs n (c + length v) ready (omega arith) (omega arith))
    ]
pull_from-IsReady [] (v ∷ vs) n c ready hc h = elim ready [ ]
pull_from-IsReady (size ∷ sizes) [] n c ready hc h = elim ready [ ]
pull_from-IsReady (size ∷ sizes) (none ∷ vs) n c ready hc h = elim ready [ ]

pull_views-of_some :
    (n : ℕ) (vs : Views) (r : List (List ℕ) × Views)
    → pull_from n 0 vs ≡ some r
    → pull_views n vs ≡ r
unfolding pull_views
pull_views-of_some n vs r e = ground (arith, e)

pub pull_views-IsReady :
    (sizes : List ℕ) (vs : Views) (n : ℕ)
    → IsReady sizes vs
    → 0 < n
    → n ≤ total sizes
    → (joined (pull_views n vs).0 ≡ take n (contents vs))
      × IsReady sizes (next_views sizes (pull_views n vs).1)
pull_views-IsReady sizes vs n ready h0 h =
    let (r, e, bytes, after) = pull_from-IsReady sizes vs n 0 ready h0 (omega arith) in
    rw (pull_views-of_some n vs r e)
      (bytes ∙ ap (λ (k : ℕ). take k (contents vs)) (omega arith), after)
