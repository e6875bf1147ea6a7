-- ===== src/Assets/Seeker.antt =====
-- assets.go: `filesystem.NewFileSeeker`, as `InitializeV2Ray` sets it, for an asset that is extracted to the
-- external directory. The wait for the first extraction is left out, and a file that is
-- there can be opened.
use lib_sager_net_core.Common.{
  ℕ, ◌≡◌, refl, Bool, false, Option, none, some, List, if◌then◌else◌, arith,
}
use lib_sager_net_core.Assets.{
  Content, partial, unpacked, Files, Answers, copy_fails, copied, done, failed, extract_asset,
  extract_asset_name, do_extract, extract, unxz, write_version,
}

-- What is opened: a file of the two directories, the bundle's own file, or nothing.
pub data Opened : Type 0 where
  from_file : Content → Opened
  from_bundle : Opened
  not_opened : Opened

-- What the file system and the bundle answer beside the extraction: the file in the internal directory, whether
-- `os.Stat` fails at a path for another reason than that there is none, and whether the bundle has the file as it
-- is.
pub record SeekerAnswers : Type 0 where
  pub internal : Option Content
  pub internal_fails : Bool
  pub external_fails : Bool
  pub in_bundle : Bool

-- The first loop over the paths; `none` where it goes through.
unfoldable pub look_first : SeekerAnswers → Files → Option Content
look_first s d =
    let external : Option Content = if s.external_fails then none else d.asset in
    if s.internal_fails then external else elim s.internal [ some c ↦ some c | none ↦ external ]

-- The second loop, which stops at an error.
unfoldable pub look_again : SeekerAnswers → Files → Opened
look_again s d =
    let external : Opened =
      if s.external_fails
      then not_opened
      else elim d.asset [ some c ↦ from_file c | none ↦ not_opened ] in
    if s.internal_fails
    then not_opened
    else elim s.internal [ some c ↦ from_file c | none ↦ external ]

abbrev pub missing : Files
missing = record { asset = none; version = none }

module _ (parse_uint : List ℕ → Option ℕ) where
  unfoldable pub new_file_seeker :
      (official : Bool) → SeekerAnswers → Answers → Files → Files × Opened
  unfolding look_first look_again
  new_file_seeker official s a d =
      let (d', o) = extract_asset_name parse_uint official false a d in
      elim (look_first s d) [
        | some c ↦ (d, from_file c)
        | none ↦
            if s.in_bundle
            then (d, from_bundle)
            else elim o [ failed ↦ (d', not_opened) | done ↦ (d', look_again s d') ]
      ]

  -- Nothing is there, and each path can be looked at.
  abbrev pub IsFresh : SeekerAnswers → Type 0
  IsFresh s =
      (s.internal ≡ none)
      × (s.internal_fails ≡ false)
      × (s.external_fails ≡ false)
      × (s.in_bundle ≡ false)

  new_file_seeker-extracts :
      (official : Bool) (s : SeekerAnswers) (a : Answers) (d d' : Files) (c : Content)
      → IsFresh s
      → d.asset ≡ none
      → extract_asset_name parse_uint official false a d ≡ (d', done)
      → d'.asset ≡ some c
      → new_file_seeker official s a d ≡ (d', from_file c)
  unfolding new_file_seeker look_first look_again
  new_file_seeker-extracts official s a d d' c (no_internal, i, e, no_bundle) none_there extracted
        there =
      ground (arith, no_internal, i, e, no_bundle, none_there, extracted, there)

  new_file_seeker-there :
      (official : Bool) (s : SeekerAnswers) (a : Answers) (d : Files) (c : Content)
      → IsFresh s
      → d.asset ≡ some c
      → new_file_seeker official s a d ≡ (d, from_file c)
  unfolding new_file_seeker look_first
  new_file_seeker-there official s a d c (no_internal, i, e, no_bundle) there =
      ground (arith, no_internal, i, e, there)

  new_file_seeker-fails :
      (official : Bool) (s : SeekerAnswers) (a : Answers) (d d' : Files)
      → IsFresh s
      → d.asset ≡ none
      → extract_asset_name parse_uint official false a d ≡ (d', failed)
      → new_file_seeker official s a d ≡ (d', not_opened)
  unfolding new_file_seeker look_first
  new_file_seeker-fails official s a d d' (no_internal, i, e, no_bundle) none_there broken =
      ground (arith, no_internal, i, e, no_bundle, none_there, broken)

  pub extract_asset_name-first :
      (official : Bool) (a : Answers) (v : List ℕ)
      → a.bundled ≡ some v
      → a.copying ≡ copied
      → a.unpack_fails ≡ false
      → a.create_version_fails ≡ false
      → a.write_version_fails ≡ false
      → extract_asset_name parse_uint official false a missing
        ≡ (record { asset = some (unpacked v); version = some v }, done)
  unfolding extract_asset_name do_extract extract extract_asset unxz write_version
  extract_asset_name-first official a v bundled copying unpack create write =
      ground (arith, bundled, copying, unpack, create, write)

  extract_asset_name-cut :
      (official : Bool) (a : Answers) (v : List ℕ)
      → a.bundled ≡ some v
      → a.copying ≡ copy_fails
      → extract_asset_name parse_uint official false a missing
        ≡ (record { asset = some partial; version = none }, failed)
  unfolding extract_asset_name do_extract extract extract_asset
  extract_asset_name-cut official a v bundled copying = ground (arith, bundled, copying)

  -- On a fresh install, of an asset that the bundle has with a version: if every step of its extraction
  -- succeeds, the asset is opened whole, and each later read opens it again and changes nothing. If the copy
  -- fails, nothing is opened, and yet each later read opens the part of the archive that is left, as the asset.
  pub new_file_seeker_after :
      (official later : Bool) (s s' : SeekerAnswers) (a b : Answers) (v : List ℕ)
      → IsFresh s
      → IsFresh s'
      → a.bundled ≡ some v
      → a.unpack_fails ≡ false
      → a.create_version_fails ≡ false
      → a.write_version_fails ≡ false
      → let (d, opened) = new_file_seeker official s a missing in
        (a.copying ≡ copied
          → (opened ≡ from_file (unpacked v))
            × (new_file_seeker later s' b d ≡ (d, from_file (unpacked v))))
        × (a.copying ≡ copy_fails
            → (opened ≡ not_opened) × (new_file_seeker later s' b d ≡ (d, from_file partial)))
  new_file_seeker_after official later s s' a b v fresh fresh' bundled unpack create write = (
    λ copying.
        let e =
          new_file_seeker-extracts official s a missing
            (record { asset = some (unpacked v); version = some v }) (unpacked v) fresh refl
            (extract_asset_name-first official a v bundled copying unpack create write) refl in
        rw e (
          refl,
          new_file_seeker-there later s' b (record { asset = some (unpacked v); version = some v })
              (unpacked v) fresh' refl,
        ),
    λ copying.
        let e =
          new_file_seeker-fails official s a missing
            (record { asset = some partial; version = none }) fresh refl
            (extract_asset_name-cut official a v bundled copying) in
        rw e (
          refl,
          new_file_seeker-there later s' b (record { asset = some partial; version = none }) partial
              fresh' refl,
        ),
  )
