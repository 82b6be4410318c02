-- ===== src/Tcp/Server/Tests.antt =====
-- Tcp/Server at concrete inputs: a main loop and one more, two connections.
use tudou.Prelude.{ℕ, true, false, ◌≡◌, refl, List, [], ◌∷◌, arith, lookup, insert, erase}
use tudou.Reactor.ThreadPool.{EventLoopThreadPool, get_next_loop, get_all_loops}
use tudou.Tcp.Server.{
  TcpServer, created, start, on_connect, create_connection, remove_connection, on_close,
  shutdown_loop, shutdown_connections, take_task, run_loop, Event, connects, runs, closes,
  happenings,
}
use tudou.Tcp.Server.Table.{total}
use tudou.Tcp.Server.Count.{start-IsCounted, happenings-IsCounted}
use tudou.Tcp.Server.Counted.{IsCounted}
use tudou.Tcp.Server.Drain.{happenings_drain}
use tudou.Tcp.Server.Draining.{has_shut}

abbrev pool : EventLoopThreadPool
pool = record { main_loop = 1; io_loops = 2 ∷ []; io_loops_index = 0 }

abbrev fresh : TcpServer
fresh = record {
  state = created;
  loop_thread_pool = pool;
  connection_records_by_loop = [];
  active_connection_count = 0;
  connection_heartbeat = true;
  has_connection_callback = true;
  has_message_callback = true;
  has_close_callback = true;
  allocated = 0;
  tasks = [];
  effects = [];
}

abbrev two_connections : List Event
two_connections = connects ∷ runs 2 ∷ connects ∷ runs 2 ∷ []

happenings-IsCounted_example : IsCounted (happenings (start fresh pool) two_connections)
unfolding start
happenings-IsCounted_example =
    happenings-IsCounted two_connections (start fresh pool) (start-IsCounted fresh pool refl)
      (omega arith)

counts_two : (happenings (start fresh pool) two_connections).active_connection_count ≡ 2
unfolding start on_connect get_next_loop get_all_loops run_loop take_task create_connection lookup
    insert
counts_two = refl

-- A third connection comes too late, and one of the two closes by itself.
abbrev last_events : List Event
last_events = connects ∷ closes 2 0 ∷ runs 2 ∷ runs 1 ∷ []

abbrev serving : TcpServer
serving = happenings (start fresh pool) two_connections

nothing_left :
    (loop : ℕ) → has_shut loop (happenings (shutdown_connections serving) last_events).tasks ≡ false
unfolding start on_connect get_next_loop get_all_loops run_loop take_task create_connection lookup
    insert shutdown_connections on_close remove_connection erase shutdown_loop
nothing_left loop = refl

happenings_drain_example :
    let after = happenings (shutdown_connections serving) last_events in
    (total after.connection_records_by_loop ≡ 0) × (after.active_connection_count ≡ 0)
unfolding start on_connect get_next_loop get_all_loops run_loop take_task create_connection lookup
    insert
happenings_drain_example =
    happenings_drain serving last_events happenings-IsCounted_example (omega arith) nothing_left
