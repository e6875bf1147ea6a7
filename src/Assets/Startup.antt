-- ===== src/Assets/Startup.antt =====
-- assets.go: what `InitializeV2Ray` starts. Its goroutine extracts three assets and the root certificates, in this
-- order, under the lock `assetsAccess`.
pub mod Readers
pub mod Safety
use lib_sager_net_core.Common.{
  ℕ, ◌≡◌, refl, Bool, true, false, ◌||◌, Option, none, some, List, [], ◌∷◌, if◌then◌else◌, ◌==◌,
  arith,
}
use lib_sager_net_core.Assets.{
  Files, Answers, Outcome, done, failed, extract_asset_name, unpacked, copied,
}
use lib_sager_net_core.Assets.Roots.{
  Pem, RootFiles, RootAnswers, Certificates, extract_root_ca_certs_pem, update_system_roots,
}
use lib_sager_net_core.Assets.Seeker.{missing, extract_asset_name-first}

-- `geoipDat`, `geositeDat`, `browserForwarder`, and any other file.
pub data Asset : Type 0 where
  geoip_dat geosite_dat browser_forwarder : Asset
  other_file : ℕ → Asset

abbrev pub asset_eq : Asset → Asset → Bool
asset_eq geoip_dat geoip_dat = true
asset_eq geosite_dat geosite_dat = true
asset_eq browser_forwarder browser_forwarder = true
asset_eq (other_file m) (other_file n) = m == n
asset_eq _ _ = false

-- `extracted[name] = true`
abbrev pub mark : Asset → (Asset → Bool) → Asset → Bool
mark a extracted b = asset_eq a b || extracted b

-- The files and variables that the goroutine changes.
pub record Startup : Type 0 where
  pub geoip : Files
  pub geosite : Files
  pub browser : Files
  pub root_files : RootFiles
  pub certificates : Certificates
  pub extracted : Asset → Bool

-- What the system answers to the goroutine: for each asset, for the certificates, `useSystemCerts`, and the
-- certificates that are read then.
pub record StartupAnswers : Type 0 where
  pub official : Bool
  pub for_geoip : Answers
  pub for_geosite : Answers
  pub for_browser : Answers
  pub for_roots : RootAnswers
  pub use_system : Bool
  pub read_roots : Option Pem

-- The `extract` of `InitializeV2Ray`: an error is only written to the log.
abbrev pub marked : Outcome → Asset → (Asset → Bool) → Asset → Bool
marked done a extracted = mark a extracted
marked failed a extracted = extracted

module _ (parse_uint : List ℕ → Option ℕ) where
  -- The goroutine.
  unfoldable pub start_up : StartupAnswers → Startup → Startup
  start_up a s =
      let (geoip, o1) = extract_asset_name parse_uint a.official false a.for_geoip s.geoip in
      let (geosite, o2) = extract_asset_name parse_uint a.official false a.for_geosite s.geosite in
      let (browser, o3) = extract_asset_name parse_uint a.official false a.for_browser s.browser in
      let (root_files, o4) = extract_root_ca_certs_pem a.for_roots s.root_files in
      record {
        geoip = geoip;
        geosite = geosite;
        browser = browser;
        root_files = root_files;
        certificates = elim o4 [
          | failed ↦ s.certificates
          | done ↦ update_system_roots a.use_system a.read_roots s.certificates
        ];
        extracted =
            marked o3 browser_forwarder (marked o2 geosite_dat (marked o1 geoip_dat s.extracted));
      }

  -- An asset of the bundle with a version, each step of whose extraction succeeds.
  abbrev pub IsExtractable : Answers → List ℕ → Type 0
  IsExtractable a v =
      (a.bundled ≡ some v)
      × (a.copying ≡ copied)
      × (a.unpack_fails ≡ false)
      × (a.create_version_fails ≡ false)
      × (a.write_version_fails ≡ false)

  first :
      (official : Bool) (a : Answers) (v : List ℕ)
      → IsExtractable a v
      → extract_asset_name parse_uint official false a missing
        ≡ (record { asset = some (unpacked v); version = some v }, done)
  first official a v (bundled, copying, unpack, create, write) =
      extract_asset_name-first parse_uint official a v bundled copying unpack create write

  -- On a fresh install where each step of the extraction of the first two assets succeeds, whatever happens to the
  -- third and to the certificates: the two are there whole with their versions, and are marked as extracted.
  pub start_up_fresh :
      (a : StartupAnswers) (s : Startup) (v w : List ℕ)
      → s.geoip ≡ missing
      → s.geosite ≡ missing
      → IsExtractable a.for_geoip v
      → IsExtractable a.for_geosite w
      → let t = start_up a s in
        (t.geoip ≡ record { asset = some (unpacked v); version = some v })
        × (t.geosite ≡ record { asset = some (unpacked w); version = some w })
        × (t.extracted geoip_dat ≡ true)
        × (t.extracted geosite_dat ≡ true)
  unfolding start_up
  start_up_fresh a s v w no_geoip no_geosite geoip geosite = ground (
    arith,
    no_geoip,
    no_geosite,
    first a.official a.for_geoip v geoip,
    first a.official a.for_geosite w geosite,
  )
