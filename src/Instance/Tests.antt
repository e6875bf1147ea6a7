-- ===== src/Instance/Tests.antt =====
-- Runs of an instance.
use lib_sager_net_core.Common.{◌≡◌, refl, none, List, [], ◌∷◌}
use lib_sager_net_core.Instance.Config.{
  vmess_account, other_account, Settings, vmess_settings, no_settings, CoreConfig, loaded,
  load_error, load_json, load_config,
}
use lib_sager_net_core.Instance.Config.Accounts.{load_config-cleared}

abbrev two_outbounds : List Settings
two_outbounds = no_settings ∷ vmess_settings ((vmess_account 64 1 ∷ other_account 2 ∷ []) ∷ []) ∷ []

-- An inbound with a VMess account of an alter id, too.
abbrev vmess_both : CoreConfig
vmess_both = record {
  inbound = vmess_settings ((vmess_account 64 3 ∷ []) ∷ []) ∷ [];
  outbound = two_outbounds;
  others = 5;
}

load_config-cleared_example :
    (load_config (loaded vmess_both) (load_error []) none).1
    ≡ loaded (record {
      inbound = vmess_settings ((vmess_account 64 3 ∷ []) ∷ []) ∷ [];
      outbound =
          no_settings ∷ vmess_settings ((vmess_account 0 1 ∷ other_account 2 ∷ []) ∷ []) ∷ [];
      others = 5;
    })
unfolding load_json
load_config-cleared_example =
    load_config-cleared (loaded vmess_both) (load_error []) none vmess_both refl
