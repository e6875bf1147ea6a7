-- ===== src/Api/Restart.antt =====
-- api.go: `Start`, `Close` and the loops, as a step relation; the lock of the two is held throughout each, and the
-- loop looks at `started` without it.
use lib_sager_net_core.Common.{ℕ, suc, ◌-◌, ◌≡◌, ◌<◌, refl, Bool, true, false, if◌then◌else◌, arith}

-- Whether the service is started, how many sockets are open, and how many loops have not returned.
pub record Service : Type 0 where
  pub started : Bool
  pub open_sockets : ℕ
  pub loops : ℕ

-- `NewApiInstance`
abbrev pub new_service : Service
new_service = record { started = false; open_sockets = 0; loops = 0 }

pub data StartResult : Type 0 where
  start_done already_started listen_failed : StartResult

-- `Start`
unfoldable pub start : (listens : Bool) → Service → Service × StartResult
start listens s =
    if s.started
    then (s, already_started)
    else if listens
    then (
      record { started = true; open_sockets = suc s.open_sockets; loops = suc s.loops },
      start_done,
    )
    else (s, listen_failed)

-- `Close`
unfoldable pub close : Service → Service
close s = if s.started then record s { started = false; open_sockets = s.open_sockets - 1 } else s

pub data Step (s t : Service) : Type 0 where
  starts : (listens : Bool) → t ≡ (start listens s).0 → Step s t
  closes : t ≡ close s → Step s t
  -- a loop tests `i.started` and returns
  returns : s.started ≡ false → 0 < s.loops → t ≡ record s { loops = s.loops - 1 } → Step s t

pub data Reach (s : Service) : Service → Type 0 where
  here : Reach s s
  next : {t u : Service} → Reach s t → Step t u → Reach s u

-- A started service has one socket and a loop at least, any other has no socket.
abbrev pub IsServed : Service → Type 0
IsServed s = (s.open_sockets ≡ (if s.started then 1 else 0)) × (s.started ≡ true → 0 < s.loops)

Step-IsServed : (s t : Service) → Step s t → IsServed s → IsServed t
unfolding start close
Step-IsServed s t (starts listens e) h = ground (arith, e, h)
Step-IsServed s t (closes e) h = ground (arith, e, h)
Step-IsServed s t (returns off some_left e) h = ground (arith, e, h, off)

-- Whatever calls of Start and Close come, and however the loops end between them: a started service has exactly one
-- open socket and at least one loop, and any other has none open.
pub Reach-IsServed : (t : Service) → Reach new_service t → IsServed t
Reach-IsServed t here = (refl, λ h. cc h)
Reach-IsServed t (next {t = s} r st) = Step-IsServed s t st (Reach-IsServed s r)

-- After Start, Close and Start before the first loop has looked at the flag, two loops run on one service.
pub restart_doubles : (t : Service) × Reach new_service t × (t.started ≡ true) × (t.loops ≡ 2)
unfolding start close
restart_doubles = (
  record { started = true; open_sockets = 1; loops = 2 },
  next (next (next here (starts true refl)) (closes refl)) (starts true refl),
  refl,
  refl,
)
