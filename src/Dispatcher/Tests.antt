-- ===== src/Dispatcher/Tests.antt =====
-- Runs of a packet connection.
use lib_sager_net_core.Common.{◌≡◌, Bool, true, false, none, List, [], ◌∷◌, ◌++◌, length, ◌≤◌}
use lib_sager_net_core.Dispatcher.{ip, Endpoint, Buffer, new_conn}
use lib_sager_net_core.Dispatcher.Queue.{Event, arrives, reads, run, taken_in, run_fifo}
use lib_sager_net_core.Dispatcher.Closers.{
  testing, marking, cancelling, interrupting_reader, interrupting_writer, closing_cache, returned,
  crashed, System, update,
}

abbrev server : Endpoint
server = record { address = ip (10 ∷ 0 ∷ 0 ∷ 1 ∷ []); port = 53 }

abbrev answer : Buffer
answer = record { payload = 1 ∷ 2 ∷ []; endpoint = none }

abbrev two_arrive : List Event
two_arrive = arrives answer ∷ reads ∷ arrives answer ∷ []

run_fifo_example :
    let (c, ins, outs) = run two_arrive (new_conn server) in
    (ins ≡ taken_in server 0 two_arrive)
    × (ins ≡ outs ++ c.cache)
    × (length c.cache ≡ 1)
    × (length c.cache ≤ 16)
run_fifo_example = run_fifo two_arrive server

-- Two goroutines find the connection open.
abbrev both_marking : System
both_marking = record {
  conn = new_conn server;
  stage = update 1 marking (update 0 marking (λ _. testing));
}

-- The first goes on to the end.
abbrev first_done : System
first_done = record {
  conn = record (new_conn server) {
    closed = true;
    ctx_done = true;
    interrupts = 2;
    cache_closed = true;
  };
  stage = update 0 returned (
      update 0 closing_cache (
        update 0 interrupting_writer
          (update 0 interrupting_reader (update 0 cancelling both_marking.stage))));
}

-- The second then closes the channel again.
abbrev second_crashed : System
second_crashed = record {
  conn = record (first_done.conn) { interrupts = 4 };
  stage = update 1 crashed (
      update 1 closing_cache (
        update 1 interrupting_writer
          (update 1 interrupting_reader (update 1 cancelling first_done.stage))));
}

abbrev two_reads : List (List (Bool × Buffer))
two_reads =
    ((true, answer) ∷ (false, record { payload = []; endpoint = none }) ∷ [])
    ∷ ((true, answer) ∷ [])
    ∷ []
