-- ===== src/Dns/Lookup.antt =====
-- What `Lookup` answers for what the resolver reports.
use lib_sager_net_core.Common.{
  ℕ, ◌≡◌, ◌≢◌, refl, Bool, true, false, Option, none, List, [], ◌∷◌, ◌++◌, ◌==◌, arith, map,
}
use lib_sager_net_core.Dns.{
  split_lines, filter, Report, success, report, reports, new_query, lookup,
}

-- No byte is a newline.
abbrev pub IsLine : List ℕ → Type 0
IsLine [] = Unit
IsLine (c ∷ s) = ((c == 10) ≡ false) × IsLine s

-- Lines, a newline between each two.
abbrev pub joined_lines : List ℕ → List (List ℕ) → List ℕ
joined_lines l [] = l
joined_lines l (m ∷ ms) = l ++ 10 ∷ joined_lines m ms

split_lines_last : (l : List ℕ) → IsLine l → split_lines l ≡ l ∷ []
unfolding split_lines
split_lines_last [] h = refl
split_lines_last (c ∷ l) h = ground (arith, split_lines_last l h.1)

split_lines-append : (l s : List ℕ) → IsLine l → split_lines (l ++ 10 ∷ s) ≡ l ∷ split_lines s
unfolding split_lines
split_lines-append [] s h = refl
split_lines-append (c ∷ l) s h = ground (arith, split_lines-append l s h.1)

module _ {Ip : Type 0} (is_not_blank : List ℕ → Bool) (parse_ip : List ℕ → Option Ip) where
  abbrev pub AllLines : List (List ℕ) → Type 0
  AllLines [] = Unit
  AllLines (l ∷ ls) = IsLine l × (is_not_blank l ≡ true) × AllLines ls

  split-joined :
      (l : List ℕ) (ls : List (List ℕ))
      → AllLines (l ∷ ls)
      → filter is_not_blank (split_lines (joined_lines l ls)) ≡ l ∷ ls
  unfolding filter
  split-joined l [] h = rw (split_lines_last l h.0) (ground arith)
  split-joined l (m ∷ ms) h =
      rw (split_lines-append l (joined_lines m ms) h.0) (ground (arith, split-joined m ms h.2))

  -- If the resolver reports lines that are not blank, one newline between each two, and no error,
  -- `Lookup` answers the IP of each line, in their order.
  pub lookup-joined :
      (l : List ℕ) (ls : List (List ℕ))
      → AllLines (l ∷ ls)
      → lookup is_not_blank parse_ip (success (joined_lines l ls) ∷ []) none
        ≡ (map parse_ip (l ∷ ls), none)
  unfolding lookup reports report
  lookup-joined l ls h = rw (split-joined l ls h) refl

  -- Whatever the resolver reports, in whichever order, if `Lookup` gives no error, then the resolver
  -- returned none and reported none, and there is an IP.
  pub lookup_succeeds :
      (rs : List Report) (err : Option ℕ)
      → (lookup is_not_blank parse_ip rs err).1 ≡ none
      → (err ≡ none)
        × ((reports is_not_blank parse_ip rs (new_query is_not_blank parse_ip)).error ≡ none)
        × ((lookup is_not_blank parse_ip rs err).0 ≢ [])
  unfolding lookup
  lookup_succeeds rs err h = ground arith
