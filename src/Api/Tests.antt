-- ===== src/Api/Tests.antt =====
-- A run of the loop of the service.
use lib_sager_net_core.Common.{◌≡◌, refl, false, true, some, [], ◌∷◌}
use lib_sager_net_core.Api.{
  ApiInstance, response_of, upgrade_response, read_failed, read_from, query, upgrade_error,
  parse_error, send, warn, inform, round, loop,
}

abbrev service : ApiInstance
service = record {
  device_name = 65 ∷ [];
  socks_port = 2080;
  dns_port = 65536;
  debug = false;
  bypass_lan = true;
}

loop_runs :
    loop some
      (λ _. false)
      service
      (read_from 1 parse_error ∷ read_failed ∷ read_from 2 query ∷ read_from 3 upgrade_error ∷ [])
    ≡ warn ∷ inform ∷ send 2 (response_of service) ∷ send 3 upgrade_response ∷ warn ∷ []
unfolding loop round
loop_runs = refl
