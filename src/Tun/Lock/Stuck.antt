-- ===== src/Tun/Lock/Stuck.antt =====
-- Calls that never return: after a dial that failed, and after a wake-up that came too early.
use lib_sager_net_core.Common.{
  ℕ, ◌≡◌, ◌≢◌, refl, Bool, true, false, none, ◌==◌, arith, ◌⊎◌, ==_self,
}
use lib_sager_net_core.Tun.Lock.{
  Pc, start, at_lock, loaded, parked, reading, sent, finished, dial_failed, System, Step,
  send_found, send_missing, lock_loaded, lock_stored, park, resend, dial_fails, dial_succeeds,
  unlock, broadcast, close, Reach, here, next, initial,
}
use lib_sager_net_core.Tun.Lock.Exclusion.{
  IsLocked, Step-IsLocked, Reach-IsLocked, initial-IsLocked,
}

-- The call `i` has failed to dial: its lock is in the table for good, and there is no connection.
pub record IsDead (i : ℕ) (s : System) : Type 0 where
  pub locked : IsLocked s
  pub failed : s.pc i ≡ dial_failed
  pub missing : s.conn ≡ none

-- A thread that is before its second `sendTo`, if it waits for `i` at all.
abbrev pub waits : ℕ → Pc → Bool
waits i start = true
waits i at_lock = true
waits i (loaded c) = c == i
waits i (parked c) = c == i
waits i _ = false

pub Step-IsDead : {s t : System} (i : ℕ) → Step s t → IsDead i s → IsDead i t
Step-IsDead i st h = record {
  locked = Step-IsLocked st h.locked;
  failed = failed-step i st h;
  missing = missing-step i st h;
}
  where
    failed-step : {s t : System} (i : ℕ) → Step s t → IsDead i s → t.pc i ≡ dial_failed
    failed-step i (send_found s k c p q) h = ground (arith, h.failed)
    failed-step i (send_missing s k p q) h = ground (arith, h.failed)
    failed-step i (lock_loaded s k c p q) h = ground (arith, h.failed)
    failed-step i (lock_stored s k p q) h = ground (arith, h.failed)
    failed-step i (park s k c p) h = ground (arith, h.failed)
    failed-step i (resend s k p) h = ground (arith, h.failed)
    failed-step i (dial_fails s k p) h = ground (arith, h.failed)
    failed-step i (dial_succeeds s k p) h = ground (arith, h.failed)
    failed-step i (unlock s k p) h = ground (arith, h.failed)
    failed-step i (broadcast s k p) h = ground (arith, h.failed)
    failed-step i (close s k p) h = ground (arith, h.failed)

    missing-step : {s t : System} (i : ℕ) → Step s t → IsDead i s → t.conn ≡ none
    missing-step i (dial_succeeds s k p) h = ground (arith, h.failed, h.locked.0 i, h.locked.0 k)
    missing-step i (close s k p) h = refl
    missing-step i (send_found s k c p q) h = h.missing
    missing-step i (send_missing s k p q) h = h.missing
    missing-step i (lock_loaded s k c p q) h = h.missing
    missing-step i (lock_stored s k p q) h = h.missing
    missing-step i (park s k c p) h = h.missing
    missing-step i (resend s k p) h = h.missing
    missing-step i (dial_fails s k p) h = h.missing
    missing-step i (unlock s k p) h = h.missing
    missing-step i (broadcast s k p) h = h.missing

pub Step-waits :
    {s t : System} (i j : ℕ)
    → Step s t
    → IsDead i s
    → waits i (s.pc j) ≡ true
    → waits i (t.pc j) ≡ true
Step-waits i j (send_found s k c p q) h w = ground (arith, h.missing)
Step-waits i j (send_missing s k p q) h w = ground arith
Step-waits i j (lock_loaded s k c p q) h w = ground (arith, h.locked.0 i, h.failed)
Step-waits i j (lock_stored s k p q) h w = ground (arith, h.locked.0 i, h.failed)
Step-waits i j (park s k c p) h w = ground arith
Step-waits i j (resend s k p) h w = ground arith
Step-waits i j (dial_fails s k p) h w = ground arith
Step-waits i j (dial_succeeds s k p) h w = ground arith
Step-waits i j (unlock s k p) h w = ground arith
Step-waits i j (broadcast s k p) h w = ground (arith, h.failed)
Step-waits i j (close s k p) h w = ground arith

IsDead-forever :
    {s t : System} (i j : ℕ)
    → Reach s t
    → IsDead i s
    → waits i (s.pc j) ≡ true
    → IsDead i t × (waits i (t.pc j) ≡ true)
IsDead-forever i j here h w = (h, w)
IsDead-forever i j (next r st) h w =
    let (h', w') = IsDead-forever i j r h w in (Step-IsDead i st h', Step-waits i j st h' w')

-- A dial that fails blocks its source for good: if in a reachable state a call has failed to dial and
-- there is no connection, then in every later state there is no connection, and a call `j` that had
-- not begun, or was on its way to wait for that one, has neither sent its packet nor returned.
pub dial_failed_blocks :
    (s t : System) (i j : ℕ)
    → Reach initial s
    → s.pc i ≡ dial_failed
    → s.conn ≡ none
    → waits i (s.pc j) ≡ true
    → Reach s t
    → (t.conn ≡ none) × (t.pc j ≢ sent) × (t.pc j ≢ finished) × (waits i (t.pc j) ≡ true)
dial_failed_blocks s t i j r f m w later =
    let (h, w') =
      IsDead-forever i j later
        (record { locked = Reach-IsLocked initial-IsLocked r; failed = f; missing = m }) w in
    (h.missing, λ e. ground arith, λ e. ground arith, w')

-- The wake-up of `i` is over, or will never come.
abbrev pub is_past : Pc → Bool
is_past reading = true
is_past finished = true
is_past _ = false

abbrev pub waits_for : ℕ → Pc → Bool
waits_for i (loaded c) = c == i
waits_for i (parked c) = c == i
waits_for i _ = false

Step-is_past :
    {s t : System} (i j : ℕ)
    → Step s t
    → is_past (s.pc i) ≡ true
    → waits_for i (s.pc j) ≡ true
    → (is_past (t.pc i) ≡ true) × (waits_for i (t.pc j) ≡ true)
Step-is_past i j (send_found s k c p q) h w = ground arith
Step-is_past i j (send_missing s k p q) h w = ground arith
Step-is_past i j (lock_loaded s k c p q) h w = ground arith
Step-is_past i j (lock_stored s k p q) h w = ground arith
Step-is_past i j (park s k c p) h w = ground arith
Step-is_past i j (resend s k p) h w = ground arith
Step-is_past i j (dial_fails s k p) h w = ground arith
Step-is_past i j (dial_succeeds s k p) h w = ground arith
Step-is_past i j (unlock s k p) h w = ground arith
Step-is_past i j (broadcast s k p) h w = ground arith
Step-is_past i j (close s k p) h w = ground arith

-- A lost wake-up: if a call `j` has loaded the lock of `i`, and is not queued on it when `i` makes its
-- broadcast, then `j` waits for `i` in every later state, though `i` may have long returned.
pub wake_up_lost :
    {s t : System} (i j : ℕ)
    → Reach s t
    → is_past (s.pc i) ≡ true
    → s.pc j ≡ loaded i
    → (t.pc j ≡ loaded i) ⊎ (t.pc j ≡ parked i)
wake_up_lost {s} {t} i j r h e = ground (arith, past_forever r (rw e (==_self i)))
  where
    past_forever :
        {u : System}
        → Reach s u
        → waits_for i (s.pc j) ≡ true
        → (is_past (u.pc i) ≡ true) × (waits_for i (u.pc j) ≡ true)
    past_forever here w = (h, w)
    past_forever (next r st) w = let (h', w') = past_forever r w in Step-is_past i j st h' w'
