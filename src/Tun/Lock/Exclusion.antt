-- ===== src/Tun/Lock/Exclusion.antt =====
-- At most one call dials for a source at a time.
use lib_sager_net_core.Common.{ℕ, ◌≡◌, refl, Bool, true, false, Option, none, some, arith}
use lib_sager_net_core.Tun.Lock.{
  Pc, start, at_lock, loaded, parked, woken, dialing, stored, reading, sent, finished, dial_failed,
  System, update, Step, send_found, send_missing, lock_loaded, lock_stored, park, resend,
  dial_fails, dial_succeeds, unlock, broadcast, close, Reach, here, next, initial,
}

-- Whether the thread's condition variable stands in `lockTable`.
abbrev pub holds_lock : Pc → Bool
holds_lock dialing = true
holds_lock stored = true
holds_lock dial_failed = true
holds_lock _ = false

-- The lock is that of the thread which holds it.
abbrev pub IsLocked : System → Type 0
IsLocked s =
    ((i : ℕ) → holds_lock (s.pc i) ≡ true → s.lock ≡ some i)
    × ((i : ℕ) → s.lock ≡ some i → holds_lock (s.pc i) ≡ true)

-- A thread moves on, and keeps the lock or goes on without it.
moves-IsLocked :
    (s : System) (i : ℕ) (p q : Pc) (c : Option ℕ)
    → s.pc i ≡ p
    → holds_lock p ≡ holds_lock q
    → IsLocked s
    → IsLocked (record s { conn = c; pc = update i q s.pc })
moves-IsLocked s i p q c e same h =
    (λ j. ground (arith, h.0 j, h.1 j), λ j. ground (arith, h.0 j, h.1 j))

pub Step-IsLocked : {s t : System} → Step s t → IsLocked s → IsLocked t
Step-IsLocked (send_found s i c p q) h = moves-IsLocked s i start sent s.conn p refl h
Step-IsLocked (send_missing s i p q) h = moves-IsLocked s i start at_lock s.conn p refl h
Step-IsLocked (lock_loaded s i c p q) h = moves-IsLocked s i at_lock (loaded c) s.conn p refl h
Step-IsLocked (lock_stored s i p q) h =
    (λ j. ground (arith, h.0 j, h.1 j), λ j. ground (arith, h.0 j, h.1 j))
Step-IsLocked (park s i c p) h = moves-IsLocked s i (loaded c) (parked c) s.conn p refl h
Step-IsLocked (resend s i p) h = moves-IsLocked s i woken sent s.conn p refl h
Step-IsLocked (dial_fails s i p) h = moves-IsLocked s i dialing dial_failed s.conn p refl h
Step-IsLocked (dial_succeeds s i p) h = moves-IsLocked s i dialing stored (some i) p refl h
Step-IsLocked (unlock s i p) h =
    (λ j. ground (arith, h.0 j, h.1 j, h.0 i), λ j. ground (arith, h.0 j, h.1 j))
Step-IsLocked (broadcast s i p) h =
    (λ j. ground (arith, h.0 j, h.1 j), λ j. ground (arith, h.0 j, h.1 j))
Step-IsLocked (close s i p) h = moves-IsLocked s i reading finished none p refl h

pub Reach-IsLocked : {s t : System} → IsLocked s → Reach s t → IsLocked t
Reach-IsLocked h here = h
Reach-IsLocked h (next r st) = Step-IsLocked st (Reach-IsLocked h r)

pub initial-IsLocked : IsLocked initial
initial-IsLocked = (λ i. ground arith, λ i. ground arith)

-- However the calls for one source interleave, and however many there are, no two of them dial or
-- store their connection at the same time.
pub dialing_exclusive :
    (s : System) (i j : ℕ)
    → Reach initial s
    → holds_lock (s.pc i) ≡ true
    → holds_lock (s.pc j) ≡ true
    → i ≡ j
dialing_exclusive s i j r hi hj =
    let h = Reach-IsLocked initial-IsLocked r in cc (h.0 i hi, h.0 j hj)
