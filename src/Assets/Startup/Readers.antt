-- ===== src/Assets/Startup/Readers.antt =====
-- assets.go: the readers of assets beside the goroutine of `InitializeV2Ray`, as a step relation. A reader is a call
-- of `filesystem.NewFileSeeker`, by its number; it waits where its asset is not marked as extracted, until the
-- goroutine gives the lock back.
use lib_sager_net_core.Common.{ℕ, ◌≡◌, Bool, false, if◌then◌else◌, ◌==◌}
use lib_sager_net_core.Assets.Startup.{Asset, geoip_dat, geosite_dat, browser_forwarder, mark}

-- How far the goroutine is.
pub data Stage : Type 0 where
  extracting_geoip extracting_geosite extracting_browser extracting_roots unlocked : Stage

pub data Reader : Type 0 where
  idle : Reader
  -- at `assetsAccess.Lock`, and past it
  waiting looking : Asset → Reader

pub record System : Type 0 where
  pub stage : Stage
  pub extracted : Asset → Bool
  pub readers : ℕ → Reader

abbrev pub update : ℕ → Reader → (ℕ → Reader) → ℕ → Reader
update i r readers j = if j == i then r else readers j

-- The stage after one, which leaves out the certificates for an error or not.
abbrev pub next_stage : Stage → Stage
next_stage extracting_geoip = extracting_geosite
next_stage extracting_geosite = extracting_browser
next_stage extracting_browser = extracting_roots
next_stage extracting_roots = unlocked
next_stage unlocked = unlocked

-- The asset that is extracted at a stage.
abbrev pub IsExtracting : Stage → Asset → Type 0
IsExtracting extracting_geoip a = a ≡ geoip_dat
IsExtracting extracting_geosite a = a ≡ geosite_dat
IsExtracting extracting_browser a = a ≡ browser_forwarder
IsExtracting _ a = ⊥

pub data Step (s t : System) : Type 0 where
  extracts :
      (a : Asset)
      → IsExtracting s.stage a
      → t ≡ record s { stage = next_stage s.stage; extracted = mark a s.extracted }
      → Step s t
  -- an extraction or the certificates fail, or the certificates are done
  goes_on : t ≡ record s { stage = next_stage s.stage } → Step s t
  opens :
      (i : ℕ) (a : Asset)
      → s.readers i ≡ idle
      → t
        ≡ record s { readers = update i (if s.extracted a then looking a else waiting a) s.readers }
      → Step s t
  locks :
      (i : ℕ) (a : Asset)
      → s.readers i ≡ waiting a
      → s.stage ≡ unlocked
      → t ≡ record s { readers = update i (looking a) s.readers }
      → Step s t
  -- the file of the bundle is marked, other files are not
  returns :
      (i : ℕ) (a : Asset) (from_bundle : Bool)
      → s.readers i ≡ looking a
      → t ≡ record s {
        extracted = if from_bundle then mark a s.extracted else s.extracted;
        readers = update i idle s.readers;
      }
      → Step s t

pub data Reach (s : System) : System → Type 0 where
  here : Reach s s
  next : {t u : System} → Reach s t → Step t u → Reach s u

-- The start, with the goroutine or, where `skipExtract` is set, without.
abbrev pub initial : (skip_extract : Bool) → System
initial skip = record {
  stage = if skip then unlocked else extracting_geoip;
  extracted = λ _. false;
  readers = λ _. idle;
}
