-- ===== src/Instance/Config.antt =====
-- v2ray.go: `LoadConfig`. The JSON loader, the extraction of assets and the core are parameters. Of a
-- configuration the code looks at the VMess accounts of the outbounds; what is in the inbounds' settings it leaves.
pub mod Accounts
use lib_sager_net_core.Common.{
  ℕ, suc, Bool, true, false, not, ◌&&◌, ◌||◌, Option, none, some, List, [], ◌∷◌, ◌++◌,
  if◌then◌else◌, ltb, bytes_eq, map, length, drop, ◌-◌, leb,
}
use lib_sager_net_core.Common.Text.{codes}

-- `user.Account` as `GetInstanceOf` gives it.
pub data Account : Type 0 where
  no_account unreadable_account : Account
  other_account : ℕ → Account
  vmess_account : (alter_id rest : ℕ) → Account

-- `outbound.ProxySettings`: the users of each receiver of a VMess outbound. `encoding` numbers the
-- encoded message, which is made anew where the code stores the settings back.
pub data Settings : Type 0 where
  no_settings unreadable_settings : Settings
  other_settings : ℕ → Settings
  vmess_settings : (receivers : List (List Account)) → Settings

-- The innermost body of the loops: the account after it, and `reset`.
pub reset_account : Account → Account × Bool
reset_account (vmess_account alter_id rest) =
    if ltb 0 alter_id then (vmess_account 0 rest, true) else (vmess_account alter_id rest, false)
reset_account a = (a, false)

pub reset_users : List Account → List Account × Bool
unfolding reset_account
reset_users [] = ([], false)
reset_users (u ∷ us) =
    let (u', r) = reset_account u in let (us', rs) = reset_users us in (u' ∷ us', r || rs)

pub reset_receivers : List (List Account) → List (List Account) × Bool
unfolding reset_users
reset_receivers [] = ([], false)
reset_receivers (e ∷ es) =
    let (e', r) = reset_users e in let (es', rs) = reset_receivers es in (e' ∷ es', r || rs)

-- One outbound: the decoded copy is stored back only if something was reset.
pub reset_settings : Settings → Settings
unfolding reset_receivers
reset_settings (vmess_settings receivers) =
    let (changed, reset) = reset_receivers receivers in
    if reset then vmess_settings changed else vmess_settings receivers
reset_settings s = s

-- `config.Outbound`
pub reset_outbounds : List Settings → List Settings
unfolding reset_settings
reset_outbounds = map reset_settings

-- `strings.HasSuffix`
pub has_suffix : List ℕ → List ℕ → Bool
has_suffix text suffix =
    leb (length suffix) (length text) && bytes_eq (drop (length text - length suffix) text) suffix

pub data Asset : Type 0 where
  geoip geosite : Asset

-- Which asset the text of a loader's error asks for, and whether by force.
pub wanted_asset : List ℕ → Option (Asset × Bool)
unfolding has_suffix
wanted_asset text =
    if has_suffix text (codes "geoip.dat: no such file or directory")
    then some (geoip, true)
    else if has_suffix text (codes "not found in geoip.dat")
    then some (geoip, false)
    else if has_suffix text (codes "geosite.dat: no such file or directory")
    then some (geosite, true)
    else if has_suffix text (codes "not found in geosite.dat")
    then some (geosite, false)
    else none

-- `core.Config`: the proxy settings of its inbounds and of its outbounds, and the rest.
pub record CoreConfig : Type 0 where
  pub inbound : List Settings
  pub outbound : List Settings
  pub others : ℕ

-- An error is its text.
pub data Loaded : Type 0 where
  loaded : CoreConfig → Loaded
  load_error : List ℕ → Loaded

-- The calls that loading makes.
pub data Call : Type 0 where
  load : Call
  extract : Asset → (force : Bool) → Call

-- The configuration, before the accounts are reset: `first` and `second` are what the loader gives,
-- and `extracted` is the error of `extractAssetName`.
unfoldable pub load_json :
    (first second : Loaded) → (extracted : Option (List ℕ)) → List Call × Loaded
unfolding wanted_asset
load_json (loaded c) second extracted = (load ∷ [], loaded c)
load_json (load_error text) second extracted = elim (wanted_asset text) [
  | none ↦ (load ∷ [], load_error text)
  | some (asset, force) ↦ elim extracted [
    | some e ↦ (load ∷ extract asset force ∷ [], load_error e)
    | none ↦ (load ∷ extract asset force ∷ load ∷ [], second)
  ]
]

-- `LoadConfig` up to `core.New`: what the core is made from, or the error.
pub load_config : (first second : Loaded) → (extracted : Option (List ℕ)) → List Call × Loaded
unfolding load_json reset_outbounds
load_config first second extracted =
    let (calls, r) = load_json first second extracted in
    elim r [
      | loaded c ↦ (calls, loaded (record c { outbound = reset_outbounds c.outbound }))
      | load_error e ↦ (calls, load_error e)
    ]
