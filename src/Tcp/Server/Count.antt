-- ===== src/Tcp/Server/Count.antt =====
-- src/tudou/tcp/TcpServer.cpp: activeConnectionCount_ is the number of connections in the tables.
use tudou.Prelude.{
  ℕ, ◌+◌, ◌-◌, ◌≤◌, ◌<◌, ◌≡◌, refl, Bool, true, false, List, [], ◌∷◌, Option, none, some, arith,
  lookup, insert, erase, number_eq, if◌then◌else◌, ◌==◌, length, count_key, count_key-lookup,
  length-erase, length-insert, size_mod,
}
use tudou.Reactor.ThreadPool.{EventLoopThreadPool, get_all_loops}
use tudou.Tcp.Server.{
  if_set, connected, ConnectionRecord, ConnectionRecords, Task, connect, shut, Effect, TcpServer,
  is_running, with_effects, start, stopped, dropped, set_connection_heartbeat, register,
  create_connection, unregister, remove_connection, on_close, close_effects, count_down,
  shutdown_loop, shutdown_connections, run_task, take_task, run_loop, finish, Event, connects,
  stops, shuts, finishes, sets_heartbeat, runs, messages, closes, happen, happenings,
}
use tudou.Tcp.Server.Table.{
  count_key-insert_old, Tidies-empty_records, empty_records_lem, total, total-insert,
  length-le-total, count_down_lem, Tidy-le, []-Tidy, insert-Tidy, erase-Tidy, insert-Tidies,
}
use tudou.Tcp.Server.Counted.{
  IsCounted, Counts, SameTable-Counts, on_connect-SameTable, stop-SameTable, on_message-SameTable,
}

module _ (s : TcpServer) (c : IsCounted s) (room : s.allocated + 1 < size_mod) where
  apart_still :
      (loop : ℕ) (old new : ConnectionRecords)
      → lookup loop s.connection_records_by_loop ≡ some old
      → (l : ℕ) → count_key l (insert loop new s.connection_records_by_loop) ≤ 1
  apart_still loop old new e l =
      omega (arith, count_key-insert_old loop l old new s.connection_records_by_loop e, c.apart l)

  register-Counts :
      (loop : ℕ) (m : ConnectionRecords) (es : List Effect)
      → lookup loop s.connection_records_by_loop ≡ some m
      → Counts s (with_effects (register s loop m) es)
  register-Counts loop m es e = record {
    sound = record {
      counted = omega (arith, c.counted, c.few, grown, longer);
      few = omega (arith, c.few, grown, longer);
      tidy =
          insert-Tidies s.allocated (s.allocated + 1) loop new s.connection_records_by_loop
            (omega arith) c.tidy (insert-Tidy s.allocated r m (c.tidy loop m e));
      apart = apart_still loop m new e;
    };
    more = omega arith;
  }
    where
      r : ConnectionRecord
      r = record { heartbeat = s.connection_heartbeat }

      new : ConnectionRecords
      new = insert s.allocated r m

      grown :
          total (insert loop new s.connection_records_by_loop) + length m
          ≡ total s.connection_records_by_loop + length new
      grown = total-insert loop m new s.connection_records_by_loop e

      longer : length new ≡ length m + 1
      longer = length-insert s.allocated r m ((c.tidy loop m e).older s.allocated (omega arith))

  unregister-Counts :
      (loop conn : ℕ) (m : ConnectionRecords) (r : ConnectionRecord)
      → lookup loop s.connection_records_by_loop ≡ some m
      → lookup conn m ≡ some r
      → Counts s (unregister s loop conn m r)
  unregister-Counts loop conn m r e f = record {
    sound = record {
      counted = omega (arith, c.counted, c.few, shrunk, shorter, one, (c.tidy loop m e).once conn);
      few = omega (arith, c.few, shrunk, shorter);
      tidy =
          insert-Tidies s.allocated s.allocated loop (erase conn m) s.connection_records_by_loop
            (omega arith) c.tidy (erase-Tidy s.allocated conn m (c.tidy loop m e));
      apart = apart_still loop m (erase conn m) e;
    };
    more = omega arith;
  }
    where
      shrunk :
          total (insert loop (erase conn m) s.connection_records_by_loop) + length m
          ≡ total s.connection_records_by_loop + length (erase conn m)
      shrunk = total-insert loop m (erase conn m) s.connection_records_by_loop e

      shorter : length (erase conn m) + count_key conn m ≡ length m
      shorter = length-erase conn m

      one : 1 ≤ count_key conn m
      one = count_key-lookup conn r m f

  emptied-Counts :
      (loop : ℕ) (m : ConnectionRecords) (es : List Effect)
      → lookup loop s.connection_records_by_loop ≡ some m
      → Counts s (
          with_effects
            (record s {
              connection_records_by_loop = insert loop [] s.connection_records_by_loop;
              active_connection_count = count_down m s.active_connection_count;
            })
            es)
  emptied-Counts loop m es e = record {
    sound = record {
      counted = omega (arith, c.counted, c.few, shrunk, down);
      few = omega (arith, c.few, shrunk);
      tidy =
          insert-Tidies s.allocated s.allocated loop [] s.connection_records_by_loop (omega arith)
            c.tidy ([]-Tidy s.allocated);
      apart = apart_still loop m [] e;
    };
    more = omega arith;
  }
    where
      shrunk :
          total (insert loop [] s.connection_records_by_loop) + length m
          ≡ total s.connection_records_by_loop + 0
      shrunk = total-insert loop m [] s.connection_records_by_loop e

      down : count_down m s.active_connection_count ≡ s.active_connection_count - length m
      down =
          count_down_lem m s.active_connection_count
            (omega (arith, c.counted, length-le-total loop m s.connection_records_by_loop e))
            (omega (arith, c.counted, c.few))

  itself : Counts s s
  itself = SameTable-Counts s s (record { records = refl; count = refl; ids = refl }) c

  told : (es : List Effect) → Counts s (with_effects s es)
  told es = SameTable-Counts s _ (record { records = refl; count = refl; ids = refl }) c

  create_connection-Counts : (loop : ℕ) → Counts s (create_connection s loop)
  unfolding create_connection
  create_connection-Counts loop = chosen (is_running s.state)
    where
      made : Option ConnectionRecords → TcpServer
      made o = elim o [
        | none ↦ s
        | some m ↦
            with_effects (register s loop m)
              (if_set s.has_connection_callback (connected s.allocated))
      ]

      found :
          (o : Option ConnectionRecords)
          → lookup loop s.connection_records_by_loop ≡ o
          → Counts s (made o)
      found none e = itself
      found (some m) e = register-Counts loop m _ e

      chosen :
          (t : Bool)
          → Counts s (
              if t
              then made (lookup loop s.connection_records_by_loop)
              else with_effects s (dropped ∷ []))
      chosen true = found (lookup loop s.connection_records_by_loop) refl
      chosen false = told (dropped ∷ [])

  remove_connection-Counts : (loop conn : ℕ) → Counts s (remove_connection s loop conn)
  unfolding remove_connection
  remove_connection-Counts loop conn = found (lookup loop s.connection_records_by_loop) refl
    where
      without : ConnectionRecords → Option ConnectionRecord → TcpServer
      without m o = elim o [ none ↦ s | some r ↦ unregister s loop conn m r ]

      registered :
          (m : ConnectionRecords) (o : Option ConnectionRecord)
          → lookup loop s.connection_records_by_loop ≡ some m
          → lookup conn m ≡ o
          → Counts s (without m o)
      registered m none e f = itself
      registered m (some r) e f = unregister-Counts loop conn m r e f

      found :
          (o : Option ConnectionRecords)
          → lookup loop s.connection_records_by_loop ≡ o
          → Counts s (elim o [ none ↦ s | some m ↦ without m (lookup conn m) ])
      found none e = itself
      found (some m) e = registered m (lookup conn m) e refl

  on_close-Counts : (loop conn : ℕ) → Counts s (on_close s loop conn)
  unfolding on_close
  on_close-Counts loop conn =
      let r = remove_connection-Counts loop conn in
      record {
        sound = record {
          counted = r.sound.counted;
          few = r.sound.few;
          tidy = r.sound.tidy;
          apart = r.sound.apart;
        };
        more = r.more;
      }

  shutdown_loop-Counts : (loop : ℕ) → Counts s (shutdown_loop s loop)
  unfolding shutdown_loop
  shutdown_loop-Counts loop = found (lookup loop s.connection_records_by_loop) refl
    where
      emptied : ConnectionRecords → TcpServer
      emptied m =
          with_effects
            (record s {
              connection_records_by_loop = insert loop [] s.connection_records_by_loop;
              active_connection_count = count_down m s.active_connection_count;
            })
            (close_effects m)

      found :
          (o : Option ConnectionRecords)
          → lookup loop s.connection_records_by_loop ≡ o
          → Counts s (elim o [ none ↦ s | some m ↦ emptied m ])
      found none e = itself
      found (some m) e = emptied-Counts loop m _ e

  finish-Counts : Counts s (finish s)
  unfolding finish total lookup count_key
  finish-Counts = chosen (s.active_connection_count == 0) refl
    where
      chosen :
          (t : Bool)
          → (s.active_connection_count == 0) ≡ t
          → Counts s
              (if t then record s { connection_records_by_loop = []; state = stopped } else s)
      chosen true e = record {
        sound = record {
          counted = ground (arith, e);
          few = omega arith;
          tidy = λ loop m f. cc f;
          apart = λ loop. omega arith;
        };
        more = omega arith;
      }
      chosen false e = itself

run_task-Counts :
    (s : TcpServer) (loop : ℕ) (task : Task)
    → IsCounted s
    → s.allocated + 1 < size_mod
    → Counts s (run_task s loop task)
run_task-Counts s loop connect c room = create_connection-Counts s c room loop
run_task-Counts s loop shut c room = shutdown_loop-Counts s c room loop

run_loop-Counts :
    (s : TcpServer) (loop : ℕ)
    → IsCounted s
    → s.allocated + 1 < size_mod
    → Counts s (run_loop s loop)
unfolding run_loop
run_loop-Counts s loop c room = taken (take_task loop s.tasks)
  where
    taken :
        (o : Option (Task × List (ℕ × Task)))
        → Counts s (elim o [
          | none ↦ s
          | some (task, rest) ↦ run_task (record s { tasks = rest }) loop task
        ])
    taken none = itself s c room
    taken (some (task, rest)) =
        let r =
          run_task-Counts (record s { tasks = rest }) loop task
            (record { counted = c.counted; few = c.few; tidy = c.tidy; apart = c.apart }) room in
        record { sound = r.sound; more = r.more }

happen-Counts :
    (s : TcpServer) (e : Event) → IsCounted s → s.allocated + 1 < size_mod → Counts s (happen s e)
unfolding shutdown_connections set_connection_heartbeat
happen-Counts s connects c room = SameTable-Counts s _ (on_connect-SameTable s) c
happen-Counts s stops c room = SameTable-Counts s _ (stop-SameTable s) c
happen-Counts s shuts c room =
    SameTable-Counts s _ (record { records = refl; count = refl; ids = refl }) c
happen-Counts s finishes c room = finish-Counts s c room
happen-Counts s (sets_heartbeat interval timeout) c room =
    SameTable-Counts s _ (record { records = refl; count = refl; ids = refl }) c
happen-Counts s (runs loop) c room = run_loop-Counts s loop c room
happen-Counts s (messages loop conn) c room =
    SameTable-Counts s _ (on_message-SameTable s loop conn) c
happen-Counts s (closes loop conn) c room = on_close-Counts s c room loop conn

-- No connection is there when start enters the loop.
pub start-IsCounted :
    (s : TcpServer) (pool : EventLoopThreadPool)
    → s.active_connection_count ≡ 0
    → IsCounted (start s pool)
unfolding start
start-IsCounted s pool none_yet = record {
  counted = omega (arith, (empty_records_lem (get_all_loops pool)).0);
  few = omega (arith, (empty_records_lem (get_all_loops pool)).0);
  tidy = λ loop r e.
      Tidy-le 0 s.allocated r (omega arith) (Tidies-empty_records (get_all_loops pool) loop r e);
  apart = (empty_records_lem (get_all_loops pool)).1;
}

-- Whatever happens to a server and in whatever order, its count of active connections is the number
-- of connections in the tables of its loops, none of which stands twice in a table. It held at the
-- start, and a size_t counts the connections.
pub happenings-IsCounted :
    (es : List Event) (s : TcpServer)
    → IsCounted s
    → s.allocated + length es < size_mod
    → IsCounted (happenings s es)
happenings-IsCounted [] s c room = c
happenings-IsCounted (e ∷ es) s c room =
    let h = happen-Counts s e c (omega arith) in
    happenings-IsCounted es (happen s e) h.sound (omega (arith, h.more))
