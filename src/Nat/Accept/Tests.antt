-- ===== src/Nat/Accept/Tests.antt =====
-- Runs of `dispatch` and `dispatchLoop` on small tables.
use lib_sager_net_core.Common.{◌≡◌, true, false, [], ◌∷◌}
use lib_sager_net_core.Nat.Samples.{table, empty, web}
use lib_sager_net_core.Nat.Accept.{
  accepted, accept_failed, close_connection, log_error, dispatch_loop, close_listener, handle_error,
}
use lib_sager_net_core.Nat.Accept.Sessions.{dispatch_loop_stops}

dispatch_loop_stops_example :
    dispatch_loop table empty
      (accepted 3 web 40000 ∷ accept_failed false ∷ accepted 4 web 40000 ∷ [])
    ≡ (empty, close_connection 3 ∷ log_error ∷ log_error ∷ close_listener ∷ handle_error ∷ [], true)
dispatch_loop_stops_example =
    dispatch_loop_stops table empty ((3, web, 40000) ∷ []) (accepted 4 web 40000 ∷ []) false
