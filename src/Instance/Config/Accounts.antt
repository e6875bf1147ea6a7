-- ===== src/Instance/Config/Accounts.antt =====
-- The VMess accounts of a configuration that is loaded.
use lib_sager_net_core.Common.{ℕ, ◌≡◌, refl, false, Option, List, [], ◌∷◌, arith, map}
use lib_sager_net_core.Instance.Config.{
  Account, vmess_account, Settings, no_settings, unreadable_settings, other_settings,
  vmess_settings, reset_account, reset_users, reset_receivers, reset_settings, reset_outbounds,
  CoreConfig, Loaded, loaded, load_json, load_config,
}

-- The account with an alter id of 0, whatever it was.
abbrev pub without_alter_id : Account → Account
without_alter_id (vmess_account _ rest) = vmess_account 0 rest
without_alter_id a = a

abbrev pub cleared : Settings → Settings
cleared (vmess_settings receivers) = vmess_settings (map (map without_alter_id) receivers)
cleared s = s

pub reset_account-without : (a : Account) → (reset_account a).0 ≡ without_alter_id a
unfolding reset_account
reset_account-without a = ground arith

pub reset_users-without :
    (us : List Account)
    → ((reset_users us).0 ≡ map without_alter_id us)
      × ((reset_users us).1 ≡ false → us ≡ map without_alter_id us)
unfolding reset_users reset_account
reset_users-without [] = (refl, λ _. refl)
reset_users-without (u ∷ us) = ground (arith, reset_users-without us)

pub reset_receivers-without :
    (es : List (List Account))
    → ((reset_receivers es).0 ≡ map (map without_alter_id) es)
      × ((reset_receivers es).1 ≡ false → es ≡ map (map without_alter_id) es)
unfolding reset_receivers
reset_receivers-without [] = (refl, λ _. refl)
reset_receivers-without (e ∷ es) = ground (arith, reset_users-without e, reset_receivers-without es)

pub reset_settings-cleared : (s : Settings) → reset_settings s ≡ cleared s
unfolding reset_settings
reset_settings-cleared no_settings = refl
reset_settings-cleared unreadable_settings = refl
reset_settings-cleared (other_settings n) = refl
reset_settings-cleared (vmess_settings es) = ground (arith, reset_receivers-without es)

pub reset_outbounds-cleared : (os : List Settings) → reset_outbounds os ≡ map cleared os
unfolding reset_outbounds
reset_outbounds-cleared [] = refl
reset_outbounds-cleared (o ∷ os) = cc (reset_settings-cleared o, reset_outbounds-cleared os)

-- Whatever the loader gives, a configuration that `LoadConfig` hands to the core is the loaded one with the alter id
-- of every VMess account of an outbound at 0: the inbounds, their VMess accounts too, and all else are as loaded.
pub load_config-cleared :
    (first second : Loaded) (extracted : Option (List ℕ)) (c : CoreConfig)
    → (load_json first second extracted).1 ≡ loaded c
    → (load_config first second extracted).1
      ≡ loaded (record c { outbound = map cleared c.outbound })
unfolding load_config
load_config-cleared first second extracted c h = ground (arith, reset_outbounds-cleared c.outbound)
