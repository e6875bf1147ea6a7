-- ===== src/Http/Tests.antt =====
-- Runs of the HTTP client.
use lib_sager_net_core.Common.{ℕ, ◌↔◌, List, true, ◌≡◌, ◌≢◌, refl, false, none, some, [], ◌∷◌}
use lib_sager_net_core.Common.Text.{codes}
use lib_sager_net_core.Http.{
  dial_proxy, handshake, dial_direct, dial_context, Body, HttpResponse, new_response, refused,
  response, execute, set_url,
}
use lib_sager_net_core.Http.Responses.{execute_status}
use lib_sager_net_core.Http.Client.{
  CipherSuite, tls12, tls13, new_http_client, pinned_tls12, restricted_tls, keep_alive, set_all,
  Takes12, Takes13, set_all_versions,
}

abbrev page : Body
page = record { bytes = codes "no"; fails = false; closed = 0 }

abbrev code : ℕ
code = 404

execute_status_example :
    let r = execute (some (new_response code (codes "404 Not Found") page)) in
    (code ≡ 200 → r ≡ (response, some (new_response code (codes "404 Not Found") page)))
    × (code ≢ 200
        → (h : HttpResponse) × (r.1 ≡ some h)
          × (h.body.closed ≡ 1)
          × (r.0 ≡ refused (codes "HTTP 404 Not Found: no")))
execute_status_example = execute_status code (codes "404 Not Found") page

-- After a failed handshake nothing closes the connection to the proxy.
test-dial_context :
    dial_context (some 7) false (some 8) ≡ (dial_proxy ∷ handshake 7 ∷ dial_direct ∷ [], some 8)
unfolding dial_context
test-dial_context = refl

test-set_url : set_url none ≡ none
unfolding set_url
test-set_url = refl

-- A cipher suite of each version.
abbrev two_suites : List CipherSuite
two_suites =
    record { id = 0x1301; supported_versions = tls13 ∷ [] }
    ∷ record { id = 0xc02f; supported_versions = tls12 ∷ [] }
    ∷ []

-- Restricted and then pinned: neither version is left.
set_all_versions_example :
    let c = set_all two_suites (restricted_tls ∷ pinned_tls12 ∷ keep_alive ∷ []) new_http_client in
    (Takes13 c ↔ (true ≡ false)) × (Takes12 two_suites c ↔ (true ≡ false))
set_all_versions_example =
    set_all_versions two_suites refl refl (restricted_tls ∷ pinned_tls12 ∷ keep_alive ∷ [])
