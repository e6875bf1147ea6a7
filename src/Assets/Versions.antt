-- ===== src/Assets/Versions.antt =====
-- What the versions of an asset have to do with what is extracted.
use lib_sager_net_core.Common.{
  ℕ, ◌≡◌, Bool, true, false, Option, none, some, List, if◌then◌else◌, ltb, bytes_eq_iff, arith,
}
use lib_sager_net_core.Assets.{
  partial, unpacked, Files, copy_fails, Answers, done, extract_asset, unxz, write_version, extract,
  is_update, do_extract, extract_asset_name,
}

-- An extraction that succeeds leaves the unpacked asset with its version beside it.
pub extract_done :
    (a : Answers) (v : List ℕ) (d : Files)
    → (extract a v d).1 ≡ done
    → (extract a v d).0 ≡ record { asset = some (unpacked v); version = some v }
unfolding extract extract_asset unxz write_version
extract_done a v d h = ground arith

module _ (parse_uint : List ℕ → Option ℕ) where
  is_update_self : (v : List ℕ) → is_update parse_uint v v false ≡ false
  unfolding is_update
  is_update_self v = ground (arith, bytes_eq_iff v v)

  unforced :
      (v l : List ℕ) (force : Bool)
      → is_update parse_uint v l force ≡ false
      → is_update parse_uint v l false ≡ false
  unfolding is_update
  unforced v l force h = ground arith

  -- Extracting is idempotent: after a call that succeeds, forced or not, a further call that is not
  -- forced and finds the same bundled version and a version file that can be read changes no file and
  -- succeeds.
  pub extract_asset_name_again :
      (official force : Bool) (a b : Answers) (d : Files)
      → (extract_asset_name parse_uint official force a d).1 ≡ done
      → b.read_fails ≡ false
      → b.bundled ≡ a.bundled
      → extract_asset_name parse_uint official false b
          (extract_asset_name parse_uint official force a d).0
        ≡ ((extract_asset_name parse_uint official force a d).0, done)
  unfolding extract_asset_name do_extract
  extract_asset_name_again official force a b d ok reads same =
      grind (arith, extract_done, is_update_self, unforced)

  -- With the official assets in use and numeric versions, a call that is not forced, that can read the
  -- local version and that succeeds leaves the newer of the local and the bundled version, and the
  -- asset that was there if that is the local one.
  pub extract_asset_name_newer :
      (a : Answers) (d : Files) (l v : List ℕ) (lv av : ℕ)
      → d.version ≡ some l
      → a.read_fails ≡ false
      → a.bundled ≡ some v
      → parse_uint l ≡ some lv
      → parse_uint v ≡ some av
      → (extract_asset_name parse_uint true false a d).1 ≡ done
      → (extract_asset_name parse_uint true false a d).0
        ≡ (if ltb lv av then record { asset = some (unpacked v); version = some v } else d)
  unfolding extract_asset_name do_extract is_update
  extract_asset_name_newer a d l v lv av has reads b pl pv ok = ground (arith, extract_done a v d)

  -- A first extraction whose copy fails is never repaired: the part that was copied stays, and every
  -- later call that is not forced leaves it as it is and succeeds.
  pub extract_asset_name_broken :
      (official later : Bool) (a b : Answers) (v : List ℕ)
      → a.bundled ≡ some v
      → a.copying ≡ copy_fails
      → let missing : Files = record { asset = none; version = none } in
        let d = (extract_asset_name parse_uint official false a missing).0 in
        (d.asset ≡ some partial) × (extract_asset_name parse_uint later false b d ≡ (d, done))
  unfolding extract_asset_name do_extract extract extract_asset
  extract_asset_name_broken official later a b v h c = ground arith
