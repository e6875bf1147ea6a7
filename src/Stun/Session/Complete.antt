-- ===== src/Stun/Session/Complete.antt =====
-- `Test` as a whole.
use lib_sager_net_core.Common.{ℕ, ◌≤◌, ◌≡◌, Option, none, some, String, arith}
use lib_sager_net_core.Stun.Server.{StunError, Network}
use lib_sager_net_core.Stun.Discovery.Mapping.{mapping_tests-IsConsistent}
use lib_sager_net_core.Stun.Discovery.Filtering.{filtering_tests-IsConsistent}
use lib_sager_net_core.Stun.Session.{ConnectAnswers, tested, test, test_filtering, stun_test}

module _ (net : Network)
    (answer : String → Network.World net → ConnectAnswers × Network.World net) where
  open net use {World}

  -- A class of `mappingTests`: no NAT, or one of the three ways of mapping.
  abbrev pub IsMapping : ℕ → Type 0
  IsMapping n = (1 ≤ n) × (n ≤ 4)

  -- A class of `filteringTests`, which has none for no NAT.
  abbrev pub IsFiltering : ℕ → Type 0
  IsFiltering n = (2 ≤ n) × (n ≤ 4)

  -- What `StunTest` may give: two classes that were found, or an error and no result, or a panic.
  abbrev pub IsComplete : Option (Option (ℕ × ℕ) × Option StunError) → Type 0
  IsComplete none = Unit
  IsComplete (some (some (mapping, filtering), none)) = IsMapping mapping × IsFiltering filtering
  IsComplete (some (none, some _)) = Unit
  IsComplete _ = ⊥

  test_filtering_complete :
      (addr : String) (mapping : ℕ) (w : World) (m f : ℕ)
      → IsMapping mapping
      → (test_filtering net answer addr mapping w).0 ≡ tested m f none
      → IsMapping m × IsFiltering f
  unfolding test_filtering
  test_filtering_complete addr mapping w m f h e = grind (arith, filtering_tests-IsConsistent)

  pub test_complete :
      (addr : String) (w : World) (m f : ℕ)
      → (test net answer addr w).0 ≡ tested m f none
      → IsMapping m × IsFiltering f
  unfolding test
  test_complete addr w m f e = grind (arith, mapping_tests-IsConsistent, test_filtering_complete)

  -- Whatever the servers and the sockets do, `StunTest` panics, or returns an error and no result, or returns two
  -- results: one of the mapping's four classes (1 to 4) and one of the filtering's three (2 to 4).
  pub stun_test-IsComplete : (addr : String) (w : World) → IsComplete (stun_test net answer addr w)
  unfolding stun_test
  stun_test-IsComplete addr w = grind (arith, test_complete)
