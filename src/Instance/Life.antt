-- ===== src/Instance/Life.antt =====
-- v2ray.go: `NewV2rayInstance`, the end of `LoadConfig`, `Start`, `QueryStats`, `Close` and the guards
-- of `dialContext`, `dispatchContext` and `dialUDP`; and the methods of observatory.go. A core of v2ray
-- is a number, and so is each of its features, by the core it is of; `none` is nil.
pub mod Running
use lib_sager_net_core.Common.{
  ℕ, Bool, true, false, Option, none, some, List, [], ◌∷◌, ◌++◌, if◌then◌else◌,
}

-- `V2RayInstance`
pub record Instance : Type 0 where
  pub started : Bool
  pub core : Option ℕ
  pub dispatcher : Option ℕ
  pub router : Option ℕ
  pub outbound_manager : Option ℕ
  pub stats_manager : Option ℕ
  pub observatory : Option ℕ
  pub dns_client : Option ℕ

-- `NewV2rayInstance`, and the value that `Close` leaves.
abbrev pub new_instance : Instance
new_instance = record {
  started = false;
  core = none;
  dispatcher = none;
  router = none;
  outbound_manager = none;
  stats_manager = none;
  observatory = none;
  dns_client = none;
}

-- The end of `LoadConfig`: `made` is the core that `core.New` gives, with whether it has an
-- observatory, or `none` for an error.
pub adopt : (made : Option (ℕ × Bool)) → Instance → Instance
adopt none s = s
adopt (some (n, has_observatory)) s = record {
  started = s.started;
  core = some n;
  dispatcher = some n;
  router = some n;
  outbound_manager = some n;
  stats_manager = some n;
  observatory = if has_observatory then some n else s.observatory;
  dns_client = some n;
}

pub data CoreCall : Type 0 where
  core_start core_close : ℕ → CoreCall

pub data StartError : Type 0 where
  already_started not_initialized : StartError
  core_failed : ℕ → StartError

-- `Start`; `answer` is the error of the core's `Start`.
pub start : (answer : Option ℕ) → Instance → List CoreCall × Instance × Option StartError
start answer s = if s.started then ([], s, some already_started) else elim s.core [
  | none ↦ ([], s, some not_initialized)
  | some n ↦ elim answer [
    | some e ↦ (core_start n ∷ [], s, some (core_failed e))
    | none ↦ (core_start n ∷ [], record s { started = true }, none)
  ]
]

pub data Closed : Type 0 where
  closed : (error : Option ℕ) → Closed
  -- the nil core's `Close`
  close_panicked : Closed

-- `Close`; `answer` is the error of the core's `Close`.
unfoldable pub close : (answer : Option ℕ) → Instance → List CoreCall × Instance × Closed
close answer s =
    if s.started
    then elim s.core [
      | none ↦ ([], s, close_panicked)
      | some n ↦ elim answer [
        | some e ↦ (core_close n ∷ [], s, closed (some e))
        | none ↦ (core_close n ∷ [], new_instance, closed none)
      ]
    ]
    else ([], s, closed none)

pub data Dialled : Type 0 where
  -- `os.ErrInvalid`
  invalid : Dialled
  -- `Dispatch` of this core's dispatcher is called
  dispatched : ℕ → Dialled
  dial_panicked : Dialled

-- The guard that `dialContext`, `dispatchContext` and `dialUDP` share.
unfoldable pub dial_context : Instance → Dialled
dial_context s =
    if s.started
    then elim s.dispatcher [ some n ↦ dispatched n | none ↦ dial_panicked ]
    else invalid

-- `QueryStats`: the result, and the counter after; `counter` is `none` where there is no counter.
pub query_stats : (counter : Option ℕ) → Instance → ℕ × Option ℕ
query_stats counter s = elim s.stats_manager [
  | none ↦ (0, counter)
  | some _ ↦ elim counter [ none ↦ (0, none) | some n ↦ (n, some 0) ]
]

-- The methods of observatory.go, up to the observer they reach: that of the core's number, or an error.
pub data Observer : Type 0 where
  observer : ℕ → Observer
  unavailable : Observer
  observer_error : ℕ → Observer
  observer_panicked : Observer

-- `GetObservatoryStatus` and `UpdateStatus`; `answer` is the error of `GetFeaturesByTag`.
pub status_observer : (answer : Option ℕ) → Instance → Observer
status_observer answer s = elim s.observatory [
  | none ↦ unavailable
  | some n ↦ elim answer [ some e ↦ observer_error e | none ↦ observer n ]
]

-- `SetStatusUpdateListener`, which looks the observer up in the same way with a listener and without.
pub listener_observer : (answer : Option ℕ) → Instance → Observer
listener_observer answer s = elim s.observatory [
  | none ↦ observer_panicked
  | some n ↦ elim answer [ some e ↦ observer_error e | none ↦ observer n ]
]

-- The calls that change the instance.
pub data Op : Type 0 where
  load_op : (made : Option (ℕ × Bool)) → Op
  start_op close_op : (answer : Option ℕ) → Op

pub step : Op → Instance → List CoreCall × Instance
unfolding adopt start close
step (load_op made) s = ([], adopt made s)
step (start_op answer) s = let (calls, s', _) = start answer s in (calls, s')
step (close_op answer) s = let (calls, s', _) = close answer s in (calls, s')

pub run : List Op → Instance → List CoreCall × Instance
unfolding step
run [] s = ([], s)
run (o ∷ ops) s = let (calls, s') = step o s in let (more, t) = run ops s' in (calls ++ more, t)
