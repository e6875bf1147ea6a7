-- ===== src/Assets/Tests.antt =====
-- Runs of the extraction of an asset.
use lib_sager_net_core.Common.{ℕ, ◌≡◌, refl, arith, true, false, Option, none, some, List, [], ◌∷◌}
use lib_sager_net_core.Assets.{
  Files, unpacked, partial, Answers, copied, copy_fails, done, extract_asset_name, do_extract,
  is_update, extract, extract_asset, unxz, write_version,
}
use lib_sager_net_core.Assets.Seeker.{
  SeekerAnswers, from_file, not_opened, new_file_seeker, missing, new_file_seeker_after,
}
use lib_sager_net_core.Assets.Roots.{
  RootAnswers, RootFiles, whole, sum_emptied, IsComplete, extract_root_ca_certs_pem,
  extract_root_ca_certs_pem-IsComplete,
}
use lib_sager_net_core.Assets.Startup.{geoip_dat, geosite_dat, other_file, mark}
use lib_sager_net_core.Assets.Startup.Readers.{
  extracting_geosite, unlocked, idle, looking, update, extracts, opens, Reach, here, next, initial,
}
use lib_sager_net_core.Assets.Startup.Safety.{readers_see_no_part}

-- The number of one digit.
abbrev digit : List ℕ → Option ℕ
digit (n ∷ []) = some n
digit _ = none

abbrev answers : Answers
answers = record {
  read_fails = false;
  bundled = some (7 ∷ []);
  copying = copied;
  unpack_fails = false;
  create_version_fails = false;
  write_version_fails = false;
}

abbrev old_files : Files
old_files = record { asset = some (unpacked (5 ∷ [])); version = some (5 ∷ []) }

abbrev new_files : Files
new_files = record { asset = some (unpacked (7 ∷ [])); version = some (7 ∷ []) }

updates : extract_asset_name digit true false answers old_files ≡ (new_files, done)
unfolding extract_asset_name do_extract is_update extract extract_asset unxz write_version
updates = refl

succeeds : (extract_asset_name digit true false answers old_files).1 ≡ done
unfolding extract_asset_name do_extract is_update extract extract_asset unxz write_version
succeeds = refl

abbrev disk_full : Answers
disk_full = record answers { copying = copy_fails }

-- New certificates whose sum cannot be written, over old ones.
abbrev no_sum : RootAnswers
no_sum = record {
  bundled_sum = some (5 ∷ []);
  sum_unreadable = false;
  create_fails = false;
  pem_fails = false;
  sum_write = sum_emptied;
}

abbrev old_roots : RootFiles
old_roots = record { pem = some (whole (4 ∷ [])); sum = some (4 ∷ []) }

extract_root_ca_certs_pem-IsComplete_example :
    IsComplete (5 ∷ []) (extract_root_ca_certs_pem no_sum old_roots).0
    × ((extract_root_ca_certs_pem no_sum old_roots).1 ≡ done
        → (extract_root_ca_certs_pem no_sum old_roots).0
          ≡ record { pem = some (whole (5 ∷ [])); sum = some (5 ∷ []) })
extract_root_ca_certs_pem-IsComplete_example =
    extract_root_ca_certs_pem-IsComplete (5 ∷ []) no_sum old_roots (λ e. cc) (refl, refl)
      (λ e. ground arith)

abbrev fresh_install : SeekerAnswers
fresh_install = record {
  internal = none;
  internal_fails = false;
  external_fails = false;
  in_bundle = false;
}

new_file_seeker_after_example :
    let (d, opened) = new_file_seeker digit true fresh_install disk_full missing in
    (disk_full.copying ≡ copied
      → (opened ≡ from_file (unpacked (7 ∷ [])))
        × (new_file_seeker digit false fresh_install answers d
            ≡ (d, from_file (unpacked (7 ∷ [])))))
    × (disk_full.copying ≡ copy_fails
        → (opened ≡ not_opened)
          × (new_file_seeker digit false fresh_install answers d ≡ (d, from_file partial)))
new_file_seeker_after_example =
    new_file_seeker_after digit true false fresh_install fresh_install disk_full answers (7 ∷ [])
      (refl, refl, refl, refl) (refl, refl, refl, refl) refl refl refl refl

-- A reader that opens the first asset while the second is extracted.
abbrev reader_steps : Reach (initial false) (record {
  stage = extracting_geosite;
  extracted = mark geoip_dat (λ _. false);
  readers = update 4 (looking geoip_dat) (λ _. idle);
})
reader_steps = next (next here (extracts geoip_dat refl refl)) (opens 4 geoip_dat refl refl)

readers_see_no_part_example :
    ¬ (geoip_dat ≡ geosite_dat)
    × ((n : ℕ) → geoip_dat ≡ other_file n → extracting_geosite ≡ unlocked)
readers_see_no_part_example =
    readers_see_no_part false
      (record {
        stage = extracting_geosite;
        extracted = mark geoip_dat (λ _. false);
        readers = update 4 (looking geoip_dat) (λ _. idle);
      })
      4 geoip_dat reader_steps refl
