-- ===== src/Protect/Order.antt =====
-- `Dial` tries the addresses in their order, up to the first that succeeds.
use lib_sager_net_core.Common.{
  ℕ, ◌≡◌, refl, true, Option, none, some, List, [], ◌∷◌, ◌++◌, arith, is_some, String,
}
use lib_sager_net_core.Protect.{
  DialAddress, DialDestination, DialError, DialResult, dial_next, dial_each, dial_addresses,
}

module _ (resolve : String → Option (List (List ℕ)) × Option DialError)
    (ip_address : List ℕ → DialAddress) (dial_at : DialDestination → DialResult) where
  abbrev pub at_ip : DialDestination → List ℕ → DialResult
  at_ip d x = dial_at (record d { address = some (ip_address x) })

  -- Every address of the list fails.
  abbrev pub AllFail : DialDestination → List (List ℕ) → Type 0
  AllFail d [] = Unit
  AllFail d (x ∷ xs) = (is_some (at_ip d x).1 ≡ true) × AllFail d xs

  pub dial_next_finds :
      (d : DialDestination) (last : DialResult) (before after : List (List ℕ)) (x : List ℕ)
      → is_some last.1 ≡ true
      → AllFail d before
      → (at_ip d x).1 ≡ none
      → dial_next resolve ip_address dial_at d last (before ++ x ∷ after) ≡ at_ip d x
  unfolding dial_next
  dial_next_finds d last [] [] x h f e = ground arith
  dial_next_finds d last [] (y ∷ after) x h f e = ground arith
  dial_next_finds d last (b ∷ before) after x h f e =
      ground (arith, dial_next_finds d (at_ip d b) before after x f.0 f.1 e)

  pub dial_each_finds :
      (d : DialDestination) (before after : List (List ℕ)) (x : List ℕ)
      → AllFail d before
      → (at_ip d x).1 ≡ none
      → dial_each resolve ip_address dial_at d (before ++ x ∷ after) ≡ at_ip d x
  unfolding dial_each
  dial_each_finds d [] [] x f e = refl
  dial_each_finds d [] (y ∷ after) x f e = ground arith
  dial_each_finds d (b ∷ before) after x f e =
      dial_next_finds d (at_ip d b) before after x f.0 f.1 e

  -- `Dial` to a domain gives the connection to the first of the resolved addresses that can be
  -- dialled: all before it fail, and those after it do not matter.
  pub dial_addresses_first :
      (d : DialDestination) (name : String) (before after : List (List ℕ)) (x : List ℕ)
      → resolve name ≡ (some (before ++ x ∷ after), none)
      → AllFail d before
      → (at_ip d x).1 ≡ none
      → dial_addresses resolve ip_address dial_at d (DialAddress.domain name) ≡ at_ip d x
  unfolding dial_addresses
  dial_addresses_first d name [] after x h f e = ground (arith, dial_each_finds d [] after x f e)
  dial_addresses_first d name (b ∷ before) after x h f e =
      ground (arith, dial_each_finds d (b ∷ before) after x f e)
