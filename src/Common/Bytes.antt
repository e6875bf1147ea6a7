-- ===== src/Common/Bytes.antt =====
-- Go's `copy` of bytes.
use lib_sager_net_core.Common.{ℕ, suc, ◌≡◌, refl, ap, List, [], ◌∷◌, length, arith}

-- `copy(to, from)`: as much as there is room for.
unfoldable pub overlay : (to from : List ℕ) → List ℕ
overlay [] from = []
overlay (t ∷ to) [] = t ∷ to
overlay (t ∷ to) (b ∷ from) = b ∷ overlay to from

pub length-overlay : (to from : List ℕ) → length (overlay to from) ≡ length to
unfolding overlay
length-overlay [] from = refl
length-overlay (t ∷ to) [] = refl
length-overlay (t ∷ to) (b ∷ from) = ap suc (length-overlay to from)

-- A source of the same length replaces all.
pub overlay-whole : (to from : List ℕ) → length to ≡ length from → overlay to from ≡ from
unfolding overlay
overlay-whole [] [] h = refl
overlay-whole [] (b ∷ from) h = absurd (omega arith)
overlay-whole (t ∷ to) [] h = absurd (omega arith)
overlay-whole (t ∷ to) (b ∷ from) h =
    ap (λ (r : List ℕ). b ∷ r) (overlay-whole to from (omega arith))
