-- ===== src/Instance/Life/Running.antt =====
-- v2ray.go and observatory.go: what holds of an instance after any calls.
use lib_sager_net_core.Common.{
  ℕ, ◌≡◌, ◌≢◌, refl, Bool, true, Option, none, some, List, [], ◌∷◌, ◌++◌, arith, map,
}
use lib_sager_net_core.Instance.Life.{
  Instance, new_instance, adopt, start, close, close_panicked, dial_panicked, dial_context,
  observer_panicked, unavailable, status_observer, listener_observer, Op, load_op, start_op,
  close_op, step, run, core_start, core_close,
}

-- A started instance has a core, and the features are the core's.
pub IsSound : Instance → Type 0
IsSound s =
    (s.started ≡ true → s.core ≢ none)
    × (s.dispatcher ≡ s.core)
    × (s.router ≡ s.core)
    × (s.outbound_manager ≡ s.core)
    × (s.stats_manager ≡ s.core)
    × (s.dns_client ≡ s.core)

new_instance-IsSound : IsSound new_instance
unfolding IsSound
new_instance-IsSound = ground arith

step-IsSound : (o : Op) (s : Instance) → IsSound s → IsSound (step o s).1
unfolding IsSound adopt start close step
step-IsSound (load_op none) s h = h
step-IsSound (load_op (some (n, b))) s h = ground arith
step-IsSound (start_op answer) s h = ground arith
step-IsSound (close_op answer) s h = ground arith

run-IsSound_from : (ops : List Op) (s : Instance) → IsSound s → IsSound (run ops s).1
unfolding run
run-IsSound_from [] s h = h
run-IsSound_from (o ∷ ops) s h = run-IsSound_from ops (step o s).1 (step-IsSound o s h)

-- After any calls of `LoadConfig`, `Start` and `Close`, whatever they answer, a started instance has a
-- core, and its dispatcher, router, managers and DNS client are those of its core.
pub run-IsSound : (ops : List Op) → IsSound (run ops new_instance).1
run-IsSound ops = run-IsSound_from ops new_instance new_instance-IsSound

-- After any calls, `dialContext` does not dereference nil and `Close` does not.
pub run_no_panic :
    (ops : List Op) (answer : Option ℕ)
    → (dial_context (run ops new_instance).1 ≢ dial_panicked)
      × ((close answer (run ops new_instance).1).2 ≢ close_panicked)
unfolding IsSound dial_context close
run_no_panic ops answer =
    let s = (run ops new_instance).1 in let h : IsSound s = run-IsSound ops in ground arith

-- Further calls of `Start` on a started instance make no call of the core.
close_after_starts :
    (answers : List (Option ℕ)) (s : Instance) (n : ℕ)
    → s.started ≡ true
    → s.core ≡ some n
    → run (map start_op answers ++ close_op none ∷ []) s ≡ (core_close n ∷ [], new_instance)
unfolding run step start close
close_after_starts [] s n h e = ground arith
close_after_starts (a ∷ as') s n h e = ground (arith, close_after_starts as' s n h e)

-- A configuration is loaded, the core starts, `Start` is called again with any answers, and the core
-- closes.
abbrev pub session : (n : ℕ) (has_observatory : Bool) → (answers : List (Option ℕ)) → List Op
session n b answers =
    load_op (some (n, b)) ∷ start_op none ∷ (map start_op answers ++ close_op none ∷ [])

-- On a new instance, loading a configuration, starting its core, calling `Start` again any number of
-- times and closing it makes two calls of the core, one `Start` and one `Close`, and leaves a new
-- instance; the answers of the repeated `Start` play no role.
pub run-session :
    (n : ℕ) (b : Bool) (answers : List (Option ℕ))
    → run (session n b answers) new_instance ≡ (core_start n ∷ core_close n ∷ [], new_instance)
unfolding run step adopt start
run-session n b answers = ground (
  arith,
  close_after_starts answers ((step (start_op none) (adopt (some (n, b)) new_instance)).1) n refl
      refl,
)

-- Loading a configuration into an instance whose core `m` runs, and closing the instance, closes the
-- new core alone: no call is made of `m`.
pub reload_abandons :
    (m n : ℕ) (b : Bool) (s : Instance)
    → s.started ≡ true
    → s.core ≡ some m
    → run (load_op (some (n, b)) ∷ close_op none ∷ []) s ≡ (core_close n ∷ [], new_instance)
unfolding run step adopt close
reload_abandons m n b s h e = ground arith

-- Without an observatory `GetObservatoryStatus` and `UpdateStatus` give an error, and
-- `SetStatusUpdateListener` dereferences nil.
pub listener_panics :
    (answer : Option ℕ) (s : Instance)
    → s.observatory ≡ none
    → (status_observer answer s ≡ unavailable) × (listener_observer answer s ≡ observer_panicked)
unfolding status_observer listener_observer
listener_panics answer s h = ground arith
