-- ===== src/Assets/Roots.antt =====
-- assets.go, `extractRootCACertsPem`, and certs.go: the bundled root certificates on disk, and which roots are in
-- use. What the file system and the bundle answer in one call is an argument.
use lib_sager_net_core.Common.{
  ℕ, ◌≡◌, ◌≢◌, ◌⊎◌, refl, Bool, true, false, not, ◌&&◌, Option, none, some, List, [], if◌then◌else◌,
  bytes_eq, bytes_eq_iff, Bool-cases, inl, inr, arith,
}
use lib_sager_net_core.Assets.{Outcome, done, failed}

-- The file with the certificates: a part of them, or those of the bundle with a sum.
pub data Pem : Type 0 where
  cut_off : Pem
  whole : (sum : List ℕ) → Pem

-- `path` and `sumPath`; `none` where there is no such file.
pub record RootFiles : Type 0 where
  pub pem : Option Pem
  pub sum : Option (List ℕ)

-- How `ioutil.WriteFile` of the sum ends: an error can leave the file as it was, or empty.
pub data SumWrite : Type 0 where
  sum_written sum_not_opened sum_emptied : SumWrite

pub record RootAnswers : Type 0 where
  pub bundled_sum : Option (List ℕ)
  pub sum_unreadable : Bool
  pub create_fails : Bool
  pub pem_fails : Bool
  pub sum_write : SumWrite

-- The write of the sum.
pub write_sum : SumWrite → List ℕ → RootFiles → RootFiles × Outcome
write_sum sum_written s d = (record d { sum = some s }, done)
write_sum sum_not_opened s d = (d, failed)
write_sum sum_emptied s d = (record d { sum = some [] }, failed)

-- From `os.Create` on.
pub write_pem : RootAnswers → List ℕ → RootFiles → RootFiles × Outcome
unfolding write_sum
write_pem a s d =
    if a.create_fails
    then (d, failed)
    else if a.pem_fails
    then (record d { pem = some cut_off }, failed)
    else write_sum a.sum_write s (record d { pem = some (whole s) })

-- Whether the file with the sum says that the bundle's certificates are there.
pub is_current : RootAnswers → List ℕ → RootFiles → Bool
is_current a s d = elim d.sum [ none ↦ false | some l ↦ not a.sum_unreadable && bytes_eq s l ]

-- `extractRootCACertsPem`
pub extract_root_ca_certs_pem : RootAnswers → RootFiles → RootFiles × Outcome
unfolding write_pem is_current
extract_root_ca_certs_pem a d = elim a.bundled_sum [
  | none ↦ (d, failed)
  | some s ↦ if is_current a s d then (d, done) else write_pem a s d
]

-- The roots that are in use: those of the system, or those of a file.
pub data Roots : Type 0 where
  system_roots : Roots
  file_roots : Pem → Roots

-- `disableSystem` and `systemRoots`
pub record Certificates : Type 0 where
  pub disable_system : Bool
  pub roots : Roots

-- `updateRootCACerts`: the certificates that the file was read to, `none` for an error.
pub update_root_ca_certs : Option Pem → Certificates → Certificates
update_root_ca_certs none c = c
update_root_ca_certs (some pem) c = record c { roots = file_roots pem }

-- `UpdateSystemRoots`
pub update_system_roots : (use_system : Bool) → Option Pem → Certificates → Certificates
unfolding update_root_ca_certs
update_system_roots true read c =
    if c.disable_system then record { disable_system = false; roots = system_roots } else c
update_system_roots false read c =
    if c.disable_system then c else update_root_ca_certs read (record c { disable_system = true })

-- The sum on disk is that of the bundle only where all its certificates are.
abbrev pub IsComplete : List ℕ → RootFiles → Type 0
IsComplete s d = d.sum ≡ some s → d.pem ≡ some (whole s)

-- A call with the bundle's sum that can read a sum on disk.
abbrev pub CanRead : List ℕ → RootAnswers → Type 0
CanRead s a = (a.bundled_sum ≡ some s) × (a.sum_unreadable ≡ false)

Option-cases : {A : Type 0} (o : Option A) → o ≡ none ⊎ ((x : A) × (o ≡ some x))
Option-cases none = inl refl
Option-cases (some x) = inr (x, refl)

write_sum-IsComplete :
    (w : SumWrite) (s : List ℕ) (d : RootFiles)
    → s ≢ []
    → d.pem ≡ some (whole s)
    → IsComplete s (write_sum w s d).0
unfolding write_sum
write_sum-IsComplete sum_written s d ne h = λ e. h
write_sum-IsComplete sum_not_opened s d ne h = λ e. h
write_sum-IsComplete sum_emptied s d ne h = λ e. h

write_pem-IsComplete :
    (a : RootAnswers) (s : List ℕ) (d : RootFiles)
    → s ≢ []
    → d.sum ≢ some s
    → IsComplete s (write_pem a s d).0
unfolding write_pem
write_pem-IsComplete a s d ne other = elim (Bool-cases a.create_fails) [
  | inl c ↦ rw c (λ e. absurd (other e))
  | inr c ↦ elim (Bool-cases a.pem_fails) [
    | inl p ↦ rw (c, p) (λ e. absurd (other e))
    | inr p ↦
        rw (c, p) (write_sum-IsComplete a.sum_write s (record d { pem = some (whole s) }) ne refl)
  ]
]

write_pem_done :
    (a : RootAnswers) (s : List ℕ) (d : RootFiles)
    → (write_pem a s d).1 ≡ done
    → (write_pem a s d).0 ≡ record { pem = some (whole s); sum = some s }
unfolding write_pem write_sum
write_pem_done a s d h = ground arith

is_current-of_sum :
    (a : RootAnswers) (s : List ℕ) (d : RootFiles)
    → a.sum_unreadable ≡ false
    → d.sum ≡ some s
    → is_current a s d ≡ true
unfolding is_current
is_current-of_sum a s d readable e = ground (arith, readable, e, bytes_eq_iff s s)

is_current-sum :
    (a : RootAnswers) (s : List ℕ) (d : RootFiles)
    → a.sum_unreadable ≡ false
    → is_current a s d ≡ true
    → d.sum ≡ some s
unfolding is_current
is_current-sum a s d readable h = elim (Option-cases d.sum) [
  | inl e ↦ ground (arith, e)
  | inr (l, e) ↦ ground (arith, e, bytes_eq_iff s l)
]

extract-of_current :
    (a : RootAnswers) (s : List ℕ) (d : RootFiles)
    → a.bundled_sum ≡ some s
    → is_current a s d ≡ true
    → extract_root_ca_certs_pem a d ≡ (d, done)
unfolding extract_root_ca_certs_pem
extract-of_current a s d bundled e = ground (arith, bundled, e)

extract-of_other :
    (a : RootAnswers) (s : List ℕ) (d : RootFiles)
    → a.bundled_sum ≡ some s
    → is_current a s d ≡ false
    → extract_root_ca_certs_pem a d ≡ write_pem a s d
unfolding extract_root_ca_certs_pem
extract-of_other a s d bundled e = ground (arith, bundled, e)

files_eq :
    (d : RootFiles) (s : List ℕ)
    → d.pem ≡ some (whole s)
    → d.sum ≡ some s
    → d ≡ record { pem = some (whole s); sum = some s }
files_eq d s h k = ground arith

-- For the sum of a bundle that is not empty, and a sum on disk that can be read: if the bundle's sum does not stand
-- beside certificates that are not all the bundle's before a call, then it does not after it, however the call ends;
-- and a call that then succeeds leaves the bundle's certificates with their sum.
pub extract_root_ca_certs_pem-IsComplete :
    (s : List ℕ) (a : RootAnswers) (d : RootFiles)
    → s ≢ []
    → CanRead s a
    → IsComplete s d
    → IsComplete s (extract_root_ca_certs_pem a d).0
      × ((extract_root_ca_certs_pem a d).1 ≡ done
          → (extract_root_ca_certs_pem a d).0 ≡ record { pem = some (whole s); sum = some s })
unfolding extract_root_ca_certs_pem
extract_root_ca_certs_pem-IsComplete s a d ne (bundled, readable) complete =
    elim (Bool-cases (is_current a s d)) [
      | inl e ↦
          let at_disk : d.sum ≡ some s = is_current-sum a s d readable e in
          rw (extract-of_current a s d bundled e)
            (complete, λ _. files_eq d s (complete at_disk) at_disk)
      | inr e ↦ rw (extract-of_other a s d bundled e) (
        write_pem-IsComplete a s d ne (λ at_disk. cc (e, is_current-of_sum a s d readable at_disk)),
        write_pem_done a s d,
      )
    ]

-- After a failed load the flag says that the system's roots are out of use, while they are in use; a further call
-- that asks for the bundled roots does nothing, whatever the file holds by then.
pub update_system_roots_no_retry :
    (roots : Roots) (read : Option Pem)
    → let after =
        update_system_roots false none (record { disable_system = false; roots = roots }) in
      (after.disable_system ≡ true)
      × (after.roots ≡ roots)
      × (update_system_roots false read after ≡ after)
unfolding update_system_roots update_root_ca_certs
update_system_roots_no_retry roots read = (refl, refl, refl)
