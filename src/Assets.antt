-- ===== src/Assets.antt =====
-- assets.go, `extractAssetName` for an asset that has a version file, with `extractAsset`, and `unxz` of
-- io.go. The files are those of the asset in its directory; what the file system and the bundled assets
-- answer in one call is an argument. The temporary file of `unxz` is left out.
pub mod Versions
pub mod Roots
pub mod Seeker
pub mod Startup
mod Tests
use lib_sager_net_core.Common.{
  ℕ, Bool, true, false, not, ◌||◌, Option, none, some, List, [], ◌∷◌, if◌then◌else◌, ltb, bytes_eq,
}

-- What the file of an asset holds: a part of the archive, the archive, or the unpacked asset of the
-- bundle with a version.
pub data Content : Type 0 where
  partial packed : Content
  unpacked : (version : List ℕ) → Content

-- `dir + name` and `dir + version`; `none` where there is no such file.
pub record Files : Type 0 where
  pub asset : Option Content
  pub version : Option (List ℕ)

-- `extractAsset`: where it ends.
pub data Copying : Type 0 where
  open_fails create_fails copy_fails copied : Copying

pub record Answers : Type 0 where
  -- `ioutil.ReadFile` of the version file
  pub read_fails : Bool
  -- `loadAssetVersion`: the bundled version, `none` for an error
  pub bundled : Option (List ℕ)
  pub copying : Copying
  -- `Unxz` or the renaming
  pub unpack_fails : Bool
  -- `os.Create` of the version file, and the write to it
  pub create_version_fails : Bool
  pub write_version_fails : Bool

pub data Outcome : Type 0 where
  done failed : Outcome

-- `extractAsset`: the file is made before the copy.
pub extract_asset : Copying → Files → Files × Outcome
extract_asset open_fails d = (d, failed)
extract_asset create_fails d = (d, failed)
extract_asset copy_fails d = (record d { asset = some partial }, failed)
extract_asset copied d = (record d { asset = some packed }, done)

-- `unxz`: the unpacked file takes the place of the archive at the end.
pub unxz : (fails : Bool) → (version : List ℕ) → Files → Files × Outcome
unxz fails v d = if fails then (d, failed) else (record d { asset = some (unpacked v) }, done)

-- `os.Create` of the version file, which empties it, and the write.
pub write_version : Answers → List ℕ → Files → Files × Outcome
write_version a v d =
    if a.create_version_fails
    then (d, failed)
    else if a.write_version_fails
    then (record d { version = some [] }, failed)
    else (record d { version = some v }, done)

-- From `extractAsset` on, with the bundled version.
pub extract : Answers → List ℕ → Files → Files × Outcome
unfolding extract_asset unxz write_version
extract a v d =
    let (d1, o1) = extract_asset a.copying d in
    let (d2, o2) = unxz a.unpack_fails v d1 in
    let last : Files × Outcome = write_version a v d2 in
    elim o1 [ failed ↦ (d1, failed) | done ↦ elim o2 [ failed ↦ (d2, failed) | done ↦ last ] ]

-- `strconv.ParseUint(_, 10, 64)` is a parameter, `none` for its error.
module _ (parse_uint : List ℕ → Option ℕ) where
  -- Whether a bundled version takes the place of the local one.
  pub is_update : (bundled local : List ℕ) → (force : Bool) → Bool
  is_update v l force = elim (parse_uint v) [
    | none ↦ not (bytes_eq v l) || force
    | some av ↦ elim (parse_uint l) [ none ↦ true | some lv ↦ ltb lv av || force ]
  ]

  -- `doExtract`, or `none` where the bundled version is asked for and cannot be read.
  pub do_extract : (official force : Bool) → Answers → Files → Option Bool
  unfolding is_update
  do_extract official force a d = elim d.version [
    | none ↦ some (elim d.asset [ none ↦ true | some _ ↦ force ])
    | some l ↦
        if official
        then (if a.read_fails
            then some true
            else elim a.bundled [ none ↦ none | some v ↦ some (is_update v l force) ])
        else some force
  ]

  -- `extractAssetName`
  pub extract_asset_name : (official force : Bool) → Answers → Files → Files × Outcome
  unfolding do_extract
  extract_asset_name official force a d = elim (do_extract official force a d) [
    | none ↦ (d, failed)
    | some wanted ↦
        if wanted then elim a.bundled [ none ↦ (d, failed) | some v ↦ extract a v d ] else (d, done)
  ]
