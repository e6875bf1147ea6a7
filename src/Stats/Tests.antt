-- ===== src/Stats/Tests.antt =====
-- Runs of the counters.
use lib_sager_net_core.Common.{false, List, [], ◌∷◌}
use lib_sager_net_core.Stats.Traffic.{Event, tcp_reads, udp_receives, listener_asks}

abbrev traffic : List Event
traffic = tcp_reads 100 ∷ listener_asks ∷ udp_receives 40 false ∷ []
