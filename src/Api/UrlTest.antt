-- ===== src/Api/UrlTest.antt =====
-- urltest.go: the steps of `UrlTest`, from what the parser, the resolver and the client answer.
use lib_sager_net_core.Common.{
  ℕ, ◌≡◌, ◌⊎◌, Bool, true, false, not, ◌&&◌, Option, none, some, List, if◌then◌else◌, ◌==◌, arith,
}
use lib_sager_net_core.Common.Int.{ℤ, pos}
use lib_sager_net_core.Procfs.{int32_of}
use lib_sager_net_core.Nat.Address.{Destination, network_udp}
use lib_sager_net_core.Dns.System.{dns_destination}
use lib_sager_net_core.Instance.Life.{Instance, dial_context}
use lib_sager_net_core.Instance.Dialling.{
  DispatchAnswer, Connected, connect, Dispatching, dispatch_invalid, dispatch_context,
}

pub record Answers : Type 0 where
  -- `url.Parse`
  pub parses : Bool
  -- whether the host is a domain, and whether its lookup through the instance succeeds
  pub is_domain : Bool
  pub resolves : Bool
  -- the status that `Do` gives, `none` for an error, and the milliseconds that it took
  pub status : Option ℕ
  pub elapsed : ℕ

pub data UrlError : Type 0 where
  url_failed lookup_failed request_failed : UrlError
  unexpected_status : ℕ → UrlError

-- `http.StatusOK` and `http.StatusNoContent`
abbrev pub status_ok : ℕ
status_ok = 200

abbrev pub status_no_content : ℕ
status_no_content = 204

-- `UrlTest`: the time, or 0 with the error.
unfoldable pub url_test : Answers → ℤ × Option UrlError
url_test a =
    if not a.parses
    then (pos 0, some url_failed)
    else if a.is_domain && not a.resolves
    then (pos 0, some lookup_failed)
    else elim a.status [
      | none ↦ (pos 0, some request_failed)
      | some code ↦
          if not (code == status_no_content) && not (code == status_ok)
          then (pos 0, some (unexpected_status code))
          else (int32_of (pos a.elapsed), none)
    ]

-- `Dial` of the resolver of the test, for whichever network and address.
unfoldable pub dial_lookup :
    Instance → DispatchAnswer → (network address : List ℕ) → Destination × Connected
dial_lookup s answer network address = (dns_destination, connect s answer network_udp)

-- `DialContext` of the transport: one end of a new pipe, where the address can be parsed, and what becomes of the
-- dispatch of the other, which runs beside.
unfoldable pub dial_transport :
    (parses : Bool)
    → (in_conn out_conn : ℕ) → Instance
    → (error : Option ℕ) → Option (ℕ × Dispatching)
dial_transport parses in_conn out_conn s error =
    if parses then some (in_conn, dispatch_context s out_conn error) else none

-- On an instance that is not started the transport gets a connection all the same, whose other end nobody serves: the
-- error of the dispatch is not looked at.
pub dial_transport_unserved :
    (in_conn out_conn : ℕ) (s : Instance) (error : Option ℕ)
    → s.started ≡ false
    → dial_transport true in_conn out_conn s error ≡ some (in_conn, dispatch_invalid)
unfolding dial_transport dispatch_context dial_context
dial_transport_unserved in_conn out_conn s error h = ground (arith, h)

-- A test succeeds exactly where the link parses, its host is an address or is resolved, and the answer has one of the
-- two statuses; and then its result is the time in milliseconds as an int32.
pub url_test_succeeds :
    (a : Answers)
    → ((url_test a).1 ≡ none → (url_test a).0 ≡ int32_of (pos a.elapsed))
      × ((url_test a).1 ≡ none
          → (a.parses ≡ true)
            × (a.is_domain ≡ true → a.resolves ≡ true)
            × ((a.status ≡ some status_ok) ⊎ (a.status ≡ some status_no_content)))
      × (a.parses ≡ true
          → (a.is_domain ≡ true → a.resolves ≡ true)
          → (a.status ≡ some status_ok) ⊎ (a.status ≡ some status_no_content)
          → (url_test a).1 ≡ none)
unfolding url_test
url_test_succeeds a = ground arith
