-- ===== src/Tcp/Server.antt =====
-- src/tudou/tcp/TcpServer.h and TcpServer.cpp: the connections of each loop, and how they end.
-- A loop and a connection are numbers; `allocated` numbers the connections in the order in which
-- they are made, as the addresses of live objects differ. `run_in_loop` puts a task behind the
-- others of its loop; the steps of the server are run one at a time.
pub mod Table
pub mod Counted
pub mod Count
pub mod Draining
pub mod Drain
mod Tests
use tudou.Prelude.{
  ℕ, ◌+◌, Bool, true, false, List, [], ◌∷◌, ◌++◌, Option, none, some, if◌then◌else◌, ◌==◌, lookup,
  insert, erase, number_eq, map, add_size, sub_size, length,
}
use tudou.Reactor.ThreadPool.{EventLoopThreadPool, get_next_loop, get_all_loops}

pub data ServerState : Type 0 where
  created running draining stopped : ServerState

-- Whether the connection has a heartbeat.
pub record ConnectionRecord : Type 0 where
  pub heartbeat : Bool

abbrev pub ConnectionRecords : Type 0
ConnectionRecords = List (ℕ × ConnectionRecord)

-- What is left to run on a loop: the lambdas of on_connect and of shutdown_connections.
pub data Task : Type 0 where
  connect shut : Task

-- What the server asks of others, in order.
pub data Effect : Type 0 where
  accepted connected message closed : ℕ → Effect
  start_heartbeat stop_heartbeat refresh_heartbeat force_close : ℕ → Effect
  dropped quit : Effect

pub record TcpServer : Type 0 where
  pub state : ServerState
  pub loop_thread_pool : EventLoopThreadPool
  pub connection_records_by_loop : List (ℕ × ConnectionRecords)
  pub active_connection_count : ℕ
  pub connection_heartbeat : Bool
  pub has_connection_callback : Bool
  pub has_message_callback : Bool
  pub has_close_callback : Bool
  pub allocated : ℕ
  pub tasks : List (ℕ × Task)
  pub effects : List Effect

abbrev pub is_running : ServerState → Bool
is_running running = true
is_running created = false
is_running draining = false
is_running stopped = false

abbrev pub with_effects : TcpServer → List Effect → TcpServer
with_effects s es = record s { effects = s.effects ++ es }

abbrev pub run_in_loop : TcpServer → ℕ → Task → TcpServer
run_in_loop s loop task = record s { tasks = s.tasks ++ (loop, task) ∷ [] }

abbrev pub empty_records : List ℕ → List (ℕ × ConnectionRecords)
empty_records [] = []
empty_records (loop ∷ loops) = insert loop [] (empty_records loops)

-- The part of start before the loop.
unfoldable pub start : TcpServer → EventLoopThreadPool → TcpServer
start s pool = record s {
  state = running;
  loop_thread_pool = pool;
  connection_records_by_loop = empty_records (get_all_loops pool);
}

unfoldable pub stop : TcpServer → TcpServer
stop s = if is_running s.state then with_effects (record s { state = draining }) (quit ∷ []) else s

-- The interval and the timeout, of which only the signs matter here.
unfoldable pub set_connection_heartbeat : TcpServer → Bool → Bool → TcpServer
set_connection_heartbeat s interval_positive timeout_positive = record s {
  connection_heartbeat = if interval_positive then timeout_positive else false;
}

unfoldable pub on_connect : TcpServer → TcpServer
on_connect s =
    if is_running s.state
    then elim (get_next_loop s.loop_thread_pool) [
      | none ↦ s
      | some (loop, pool) ↦ run_in_loop (record s { loop_thread_pool = pool }) loop connect
    ]
    else with_effects s (dropped ∷ [])

abbrev pub if_set : Bool → Effect → List Effect
if_set true e = e ∷ []
if_set false e = []

-- A connection is registered with its heartbeat, which then starts.
abbrev pub register : TcpServer → ℕ → ConnectionRecords → TcpServer
register s loop local_records =
    let conn = s.allocated in
    with_effects
      (record s {
        connection_records_by_loop =
            insert loop (insert conn (record { heartbeat = s.connection_heartbeat }) local_records)
              s.connection_records_by_loop;
        active_connection_count = add_size s.active_connection_count 1;
        allocated = conn + 1;
      })
      (accepted conn ∷ if_set s.connection_heartbeat (start_heartbeat conn))

-- The lambda of on_connect: create_connection, and the callback if there is a connection.
unfoldable pub create_connection : TcpServer → ℕ → TcpServer
create_connection s loop =
    if is_running s.state
    then elim (lookup loop s.connection_records_by_loop) [
      | none ↦ s
      | some local_records ↦
          with_effects (register s loop local_records)
            (if_set s.has_connection_callback (connected s.allocated))
    ]
    else with_effects s (dropped ∷ [])

abbrev pub unregister : TcpServer → ℕ → ℕ → ConnectionRecords → ConnectionRecord → TcpServer
unregister s loop conn local_records r =
    with_effects
      (record s {
        connection_records_by_loop =
            insert loop (erase conn local_records) s.connection_records_by_loop;
        active_connection_count = sub_size s.active_connection_count 1;
      })
      (if_set r.heartbeat (stop_heartbeat conn))

unfoldable pub remove_connection : TcpServer → ℕ → ℕ → TcpServer
remove_connection s loop conn = elim (lookup loop s.connection_records_by_loop) [
  | none ↦ s
  | some local_records ↦ elim (lookup conn local_records) [
    | none ↦ s
    | some r ↦ unregister s loop conn local_records r
  ]
]

unfoldable pub on_close : TcpServer → ℕ → ℕ → TcpServer
on_close s loop conn =
    with_effects (remove_connection s loop conn) (if_set s.has_close_callback (closed conn))

abbrev pub heartbeat_of : ℕ → Option ConnectionRecords → Bool
heartbeat_of conn none = false
heartbeat_of conn (some local_records) = elim (lookup conn local_records) [
  | none ↦ false
  | some r ↦ r.heartbeat
]

unfoldable pub refresh_connection_heartbeat : TcpServer → ℕ → ℕ → TcpServer
refresh_connection_heartbeat s loop conn =
    if s.connection_heartbeat
    then with_effects s (
        if_set (heartbeat_of conn (lookup loop s.connection_records_by_loop))
          (refresh_heartbeat conn))
    else s

unfoldable pub on_message : TcpServer → ℕ → ℕ → TcpServer
on_message s loop conn =
    with_effects (refresh_connection_heartbeat s loop conn)
      (if_set s.has_message_callback (message conn))

-- What is done with the records that were taken out: the callbacks are cleared first, so that
-- force_close tells nobody.
abbrev pub close_effects : ConnectionRecords → List Effect
close_effects [] = []
close_effects ((conn, r) ∷ rest) =
    if_set r.heartbeat (stop_heartbeat conn) ++ force_close conn ∷ close_effects rest

abbrev pub count_down : ConnectionRecords → ℕ → ℕ
count_down [] n = n
count_down (r ∷ rest) n = count_down rest (sub_size n 1)

-- The lambda of shutdown_connections.
unfoldable pub shutdown_loop : TcpServer → ℕ → TcpServer
shutdown_loop s loop = elim (lookup loop s.connection_records_by_loop) [
  | none ↦ s
  | some local_records ↦
      with_effects
        (record s {
          connection_records_by_loop = insert loop [] s.connection_records_by_loop;
          active_connection_count = count_down local_records s.active_connection_count;
        })
        (close_effects local_records)
]

abbrev pub shut_task : ℕ × ConnectionRecords → ℕ × Task
shut_task (loop, local_records) = (loop, shut)

-- shutdown_connections up to the wait, which ends when the count is zero.
unfoldable pub shutdown_connections : TcpServer → TcpServer
shutdown_connections s = record s {
  state = draining;
  tasks = s.tasks ++ map shut_task s.connection_records_by_loop;
}

abbrev pub run_task : TcpServer → ℕ → Task → TcpServer
run_task s loop connect = create_connection s loop
run_task s loop shut = shutdown_loop s loop

-- The earliest task of a loop is taken off the list.
unfoldable pub take_task : ℕ → List (ℕ × Task) → Option (Task × List (ℕ × Task))
take_task loop [] = none
take_task loop ((l, task) ∷ tasks) =
    let later : Option (Task × List (ℕ × Task)) = elim (take_task loop tasks) [
      | none ↦ none
      | some (t, rest) ↦ some (t, (l, task) ∷ rest)
    ] in
    if l == loop then some (task, tasks) else later

unfoldable pub run_loop : TcpServer → ℕ → TcpServer
run_loop s loop = elim (take_task loop s.tasks) [
  | none ↦ s
  | some (task, rest) ↦ run_task (record s { tasks = rest }) loop task
]

-- The end of start, once the wait is over: the table and the pool go.
unfoldable pub finish : TcpServer → TcpServer
finish s =
    if s.active_connection_count == 0
    then record s { connection_records_by_loop = []; state = stopped }
    else s

-- What can happen to a server that has been started.
pub data Event : Type 0 where
  connects stops shuts finishes : Event
  sets_heartbeat : Bool → Bool → Event
  runs : ℕ → Event
  messages closes : ℕ → ℕ → Event

abbrev pub happen : TcpServer → Event → TcpServer
happen s connects = on_connect s
happen s stops = stop s
happen s shuts = shutdown_connections s
happen s finishes = finish s
happen s (sets_heartbeat interval timeout) = set_connection_heartbeat s interval timeout
happen s (runs loop) = run_loop s loop
happen s (messages loop conn) = on_message s loop conn
happen s (closes loop conn) = on_close s loop conn

abbrev pub happenings : TcpServer → List Event → TcpServer
happenings s [] = s
happenings s (e ∷ es) = happenings (happen s e) es
