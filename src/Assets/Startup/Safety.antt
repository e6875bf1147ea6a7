-- ===== src/Assets/Startup/Safety.antt =====
-- assets.go: what the readers of assets look for while the goroutine of `InitializeV2Ray` extracts, and together.
use lib_sager_net_core.Common.{
  ℕ, ◌≡◌, ◌≢◌, ◌⊎◌, inl, inr, refl, sym, ap, ◌∙◌, Bool, true, false, if◌then◌else◌, ==_iff, arith,
  Bool-cases,
}
use mathlib.Core.Path.{subst}
use lib_sager_net_core.Assets.Startup.{
  Asset, geoip_dat, geosite_dat, browser_forwarder, other_file, asset_eq, mark,
}
use lib_sager_net_core.Assets.Startup.Readers.{
  Stage, extracting_geoip, extracting_geosite, extracting_browser, extracting_roots, unlocked,
  Reader, idle, waiting, looking, System, update, next_stage, IsExtracting, Step, extracts, goes_on,
  opens, locks, returns, Reach, here, next, initial,
}

-- The assets whose extraction is over; while some are left, no other.
abbrev pub IsPast : Stage → Asset → Type 0
IsPast extracting_geoip a = ⊥
IsPast extracting_geosite a = a ≡ geoip_dat
IsPast extracting_browser a = (a ≡ geoip_dat) ⊎ (a ≡ geosite_dat)
IsPast extracting_roots a = (a ≡ geoip_dat) ⊎ ((a ≡ geosite_dat) ⊎ (a ≡ browser_forwarder))
IsPast unlocked a = Unit {0}

IsPast-next : (g : Stage) (a : Asset) → IsPast g a → IsPast (next_stage g) a
IsPast-next extracting_geoip a h = absurd h
IsPast-next extracting_geosite a h = inl h
IsPast-next extracting_browser a (inl h) = inl h
IsPast-next extracting_browser a (inr h) = inr (inl h)
IsPast-next extracting_roots a h = tt
IsPast-next unlocked a h = tt

IsPast-extracting : (g : Stage) (a : Asset) → IsExtracting g a → IsPast (next_stage g) a
IsPast-extracting extracting_geoip a h = h
IsPast-extracting extracting_geosite a h = inr h
IsPast-extracting extracting_browser a h = inr (inr h)
IsPast-extracting extracting_roots a h = absurd h
IsPast-extracting unlocked a h = absurd h

IsPast-not : (g : Stage) (a : Asset) → IsPast g a → ¬ (IsExtracting g a)
IsPast-not extracting_geoip a p e = p
IsPast-not extracting_geosite a p e = cc (p, e)
IsPast-not extracting_browser a (inl p) e = cc (p, e)
IsPast-not extracting_browser a (inr p) e = cc (p, e)
IsPast-not extracting_roots a p e = e
IsPast-not unlocked a p e = e

IsPast-other : (g : Stage) (a : Asset) → IsPast g a → (n : ℕ) → a ≡ other_file n → g ≡ unlocked
IsPast-other extracting_geoip a p n e = absurd p
IsPast-other extracting_geosite a p n e = cc (p, e)
IsPast-other extracting_browser a (inl p) n e = cc (p, e)
IsPast-other extracting_browser a (inr p) n e = cc (p, e)
IsPast-other extracting_roots a (inl p) n e = cc (p, e)
IsPast-other extracting_roots a (inr (inl p)) n e = cc (p, e)
IsPast-other extracting_roots a (inr (inr p)) n e = cc (p, e)
IsPast-other unlocked a p n e = refl

asset_eq_same : (a b : Asset) → asset_eq a b ≡ true → a ≡ b
asset_eq_same geoip_dat geoip_dat h = refl
asset_eq_same geosite_dat geosite_dat h = refl
asset_eq_same browser_forwarder browser_forwarder h = refl
asset_eq_same (other_file m) (other_file n) h = ap other_file ((==_iff m n).0 h)
asset_eq_same _ _ h = cc h

-- What is marked, or looked at, has been extracted as far as it will be.
pub record IsSafe (s : System) : Type 0 where
  pub marked : (a : Asset) → s.extracted a ≡ true → IsPast s.stage a
  pub looked : (i : ℕ) (a : Asset) → s.readers i ≡ looking a → IsPast s.stage a

update_self : (i : ℕ) (r : Reader) (readers : ℕ → Reader) → update i r readers i ≡ r
update_self i r readers = ground arith

update_ne : (i j : ℕ) (r : Reader) (readers : ℕ → Reader) → i ≢ j → update i r readers j ≡ readers j
update_ne i j r readers h = ground arith

mark-cases :
    (a b : Asset) (extracted : Asset → Bool)
    → mark a extracted b ≡ true
    → (a ≡ b) ⊎ (extracted b ≡ true)
mark-cases a b extracted h = elim (Bool-cases (asset_eq a b)) [
  | inl e ↦ inl (asset_eq_same a b e)
  | inr e ↦ inr (ground arith)
]

returned-cases :
    (from_bundle : Bool) (a b : Asset) (extracted : Asset → Bool)
    → (if from_bundle then mark a extracted else extracted) b ≡ true
    → (a ≡ b) ⊎ (extracted b ≡ true)
returned-cases true a b extracted h = mark-cases a b extracted h
returned-cases false a b extracted h = inr h

-- What a changed reader looks at.
update-looking :
    (i j : ℕ) (r : Reader) (readers : ℕ → Reader) (a : Asset)
    → update i r readers j ≡ looking a
    → (r ≡ looking a) ⊎ (readers j ≡ looking a)
update-looking i j r readers a h = ground arith

opened-looking :
    (marked : Bool) (a b : Asset)
    → (if marked then looking a else waiting a) ≡ looking b
    → (marked ≡ true) × (a ≡ b)
opened-looking marked a b h = ground arith

Step-IsSafe : {s t : System} → Step s t → IsSafe s → IsSafe t
Step-IsSafe {s} {t} (extracts a e q) safe = rw q (record {
  marked = λ b h. elim (mark-cases a b s.extracted h) [
    | inl same ↦ subst (λ c. IsPast (next_stage s.stage) c) same (IsPast-extracting s.stage a e)
    | inr h' ↦ IsPast-next s.stage b (safe.marked b h')
  ];
  looked = λ i b h. IsPast-next s.stage b (safe.looked i b h);
})
Step-IsSafe {s} {t} (goes_on q) safe = rw q (record {
  marked = λ b h. IsPast-next s.stage b (safe.marked b h);
  looked = λ i b h. IsPast-next s.stage b (safe.looked i b h);
})
Step-IsSafe {s} {t} (opens i a r q) safe = rw q (record {
  marked = safe.marked;
  looked = λ j b h. elim (update-looking i j _ s.readers b h) [
    | inl new ↦
        let (m, same) = opened-looking (s.extracted a) a b new in
        subst (λ c. IsPast s.stage c) same (safe.marked a m)
    | inr old ↦ safe.looked j b old
  ];
})
Step-IsSafe {s} {t} (locks i a r u q) safe =
    rw (q, u) (record { marked = λ b h. tt; looked = λ j b h. tt })
Step-IsSafe {s} {t} (returns i a from_bundle r q) safe = rw q (record {
  marked = λ b h. elim (returned-cases from_bundle a b s.extracted h) [
    | inl same ↦ subst (λ c. IsPast s.stage c) same (safe.looked i a r)
    | inr h' ↦ safe.marked b h'
  ];
  looked = λ j b h. elim (update-looking i j idle s.readers b h) [
    | inl new ↦ cc new
    | inr old ↦ safe.looked j b old
  ];
})

initial-IsSafe : (skip : Bool) → IsSafe (initial skip)
initial-IsSafe skip = record { marked = λ a h. cc h; looked = λ i a h. cc h }

Reach-IsSafe : {s t : System} → IsSafe s → Reach s t → IsSafe t
Reach-IsSafe safe here = safe
Reach-IsSafe safe (next r st) = Step-IsSafe st (Reach-IsSafe safe r)

-- However the goroutine and the readers interleave, with the extraction skipped or not: while a reader looks for the
-- files of an asset, the goroutine is not extracting this asset, and will not; and a reader of a file that it
-- does not extract looks for nothing until the goroutine has given the lock back.
pub readers_see_no_part :
    (skip : Bool) (t : System) (i : ℕ) (a : Asset)
    → Reach (initial skip) t
    → t.readers i ≡ looking a
    → ¬ (IsExtracting t.stage a) × ((n : ℕ) → a ≡ other_file n → t.stage ≡ unlocked)
readers_see_no_part skip t i a r h =
    let past = (Reach-IsSafe (initial-IsSafe skip) r).looked i a h in
    (IsPast-not t.stage a past, IsPast-other t.stage a past)

-- Two readers of one asset that is not marked as extracted can look for its files, and so extract it, at the same
-- time: past the lock, nothing keeps them apart.
pub readers_overlap :
    (i j n : ℕ)
    → i ≢ j
    → (t : System) × Reach (initial true) t
      × (t.readers i ≡ looking (other_file n))
      × (t.readers j ≡ looking (other_file n))
readers_overlap i j n ne =
    let a = other_file n in
    let ne' : j ≢ i = λ e. ne (sym e) in
    let none_reads : ℕ → Reader = λ _. idle in
    let w1 : ℕ → Reader = update i (waiting a) none_reads in
    let w2 : ℕ → Reader = update j (waiting a) w1 in
    let l1 : ℕ → Reader = update i (looking a) w2 in
    let l2 : ℕ → Reader = update j (looking a) l1 in
    (
      record { stage = unlocked; extracted = λ _. false; readers = l2 },
      next
          (next
            (next (next here (opens i a refl refl))
              (opens j a (update_ne i j (waiting a) none_reads ne) refl))
            (locks i a (update_ne j i (waiting a) w1 ne' ∙ update_self i (waiting a) none_reads)
              refl refl))
          (locks j a (update_ne i j (looking a) w2 ne ∙ update_self j (waiting a) w1) refl refl),
      update_ne j i (looking a) l1 ne' ∙ update_self i (looking a) w2,
      update_self j (looking a) l1,
    )
