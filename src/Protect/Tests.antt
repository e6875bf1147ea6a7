-- ===== src/Protect/Tests.antt =====
-- Runs of the protected dialer.
use lib_sager_net_core.Common.{
  ℕ, ◌≡◌, refl, true, false, Option, none, some, List, [], ◌∷◌, String, if◌then◌else◌, bytes_eq,
}
use lib_sager_net_core.Protect.{
  domain, ip, network_tcp, DialDestination, DialError, DialResult, Outcomes, system, dial,
  dial_addresses, fd_request,
}
use lib_sager_net_core.Protect.Sockets.{
  protects_first, uses_only, uses_network, closes, dial_protects, dial-closes_once,
}
use lib_sager_net_core.Protect.Order.{dial_addresses_first}

abbrev to_web : DialDestination
to_web = record {
  address = some (ip true (93 ∷ 184 ∷ 216 ∷ 34 ∷ []));
  port = 443;
  network = network_tcp;
}

-- The connection is refused.
abbrev refused : Outcomes
refused = record {
  socket_fd = some 30;
  socket_error = 0;
  protected = true;
  link_error = some 111;
  has_file = true;
  conn_error = none;
  resolve_error = none;
  conn = 5;
}

abbrev unprotected : Outcomes
unprotected = record refused { protected = false }

dial_protects_example :
    (protects_first [] (dial unprotected true to_web).0 ≡ true)
    × (uses_only unprotected.socket_fd (dial unprotected true to_web).0 ≡ true)
    × (unprotected.protected ≡ false
        → (uses_network (dial unprotected true to_web).0 ≡ false)
          × ((dial unprotected true to_web).1.0 ≡ none))
dial_protects_example = dial_protects unprotected true to_web

dial-closes_once_example : closes 30 (dial refused false to_web).0 ≡ 1
unfolding fd_request
dial-closes_once_example = dial-closes_once refused false to_web 30 refl refl refl

-- A name with two addresses, of which only the second can be dialled.
abbrev resolve_two : String → Option (List (List ℕ)) × Option DialError
resolve_two _ = (some ((10 ∷ 0 ∷ 0 ∷ 1 ∷ []) ∷ (10 ∷ 0 ∷ 0 ∷ 2 ∷ []) ∷ []), none)

abbrev dial_second : DialDestination → DialResult
dial_second d = elim d.address [
  | some (ip _ bytes) ↦
      if bytes_eq bytes (10 ∷ 0 ∷ 0 ∷ 2 ∷ []) then (some 7, none) else (none, some (system 113))
  | _ ↦ (none, some (system 113))
]

dial_addresses_first_example :
    dial_addresses resolve_two (ip true) dial_second to_web (domain "example.org") ≡ (some 7, none)
dial_addresses_first_example =
    dial_addresses_first resolve_two (ip true) dial_second to_web "example.org"
      ((10 ∷ 0 ∷ 0 ∷ 1 ∷ []) ∷ []) [] (10 ∷ 0 ∷ 0 ∷ 2 ∷ []) refl (refl, tt) refl
