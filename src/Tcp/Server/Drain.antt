-- ===== src/Tcp/Server/Drain.antt =====
-- src/tudou/tcp/TcpServer.cpp: after shutdown_connections every table runs empty and stays so.
use tudou.Prelude.{
  ℕ, ◌+◌, ◌<◌, ◌≡◌, refl, ap, sym, subst, ◌∙◌, ◌⊎◌, inl, inr, Bool, true, false, List, [], ◌∷◌,
  Option, none, some, arith, lookup, lookup-insert, insert, erase, number_eq, if◌then◌else◌, ◌==◌,
  ==_iff, length, size_mod, Bool-cases,
}
use tudou.Tcp.Server.{
  refresh_heartbeat, message, ConnectionRecord, ConnectionRecords, Task, connect, shut, Effect,
  TcpServer, stopped, is_running, with_effects, stop, dropped, set_connection_heartbeat, on_connect,
  create_connection, unregister, remove_connection, on_close, refresh_connection_heartbeat,
  on_message, close_effects, count_down, shutdown_loop, shutdown_connections, run_task, take_task,
  run_loop, finish, Event, connects, stops, shuts, finishes, sets_heartbeat, runs, messages, closes,
  happen, happenings, heartbeat_of, if_set,
}
use tudou.Tcp.Server.Table.{total, total-eq-zero}
use tudou.Tcp.Server.Count.{happenings-IsCounted}
use tudou.Tcp.Server.Counted.{IsCounted}
use tudou.Tcp.Server.Draining.{
  has_shut, IsDraining, shutdown_connections-IsDraining, Taken, Takes, take_task-Takes,
  insert-Cleared,
}

module _ (s : TcpServer) (d : IsDraining s) where
  -- The state and the tables are as before, and there are the same tasks to shut down.
  kept : (es : List Effect) → IsDraining (with_effects s es)
  kept es = record { down = d.down; cleared = d.cleared }

  IsDraining-if :
      (t : Bool) (x y : TcpServer) → t ≡ false → IsDraining y → IsDraining (if t then x else y)
  IsDraining-if true x y e h = cc e
  IsDraining-if false x y e h = h

  on_connect-IsDraining : IsDraining (on_connect s)
  unfolding on_connect
  on_connect-IsDraining = IsDraining-if (is_running s.state) _ _ d.down (kept (dropped ∷ []))

  stop-IsDraining : IsDraining (stop s)
  unfolding stop
  stop-IsDraining = IsDraining-if (is_running s.state) _ s d.down d

  create_connection-IsDraining : (loop : ℕ) → IsDraining (create_connection s loop)
  unfolding create_connection
  create_connection-IsDraining loop =
      IsDraining-if (is_running s.state) _ _ d.down (kept (dropped ∷ []))

  finish-IsDraining : IsDraining (finish s)
  unfolding finish lookup
  finish-IsDraining = chosen (s.active_connection_count == 0)
    where
      chosen :
          (t : Bool)
          → IsDraining
              (if t then record s { connection_records_by_loop = []; state = stopped } else s)
      chosen true = record { down = refl; cleared = λ loop r e. cc e }
      chosen false = d

  remove_connection-IsDraining : (loop conn : ℕ) → IsDraining (remove_connection s loop conn)
  unfolding remove_connection erase
  remove_connection-IsDraining loop conn = found (lookup loop s.connection_records_by_loop) refl
    where
      gone :
          (m : ConnectionRecords) (r : ConnectionRecord)
          → lookup loop s.connection_records_by_loop ≡ some m
          → IsDraining (unregister s loop conn m r)
      gone m r e = record {
        down = d.down;
        cleared =
            insert-Cleared loop (erase conn m) s.connection_records_by_loop s.tasks d.cleared
              (elim (d.cleared loop m e) [
                | inl none_left ↦ inl (ap (erase conn) none_left)
                | inr waits ↦ inr waits
              ]);
      }

      without :
          (m : ConnectionRecords) (o : Option ConnectionRecord)
          → lookup loop s.connection_records_by_loop ≡ some m
          → IsDraining (elim o [ none ↦ s | some r ↦ unregister s loop conn m r ])
      without m none e = d
      without m (some r) e = gone m r e

      found :
          (o : Option ConnectionRecords)
          → lookup loop s.connection_records_by_loop ≡ o
          → IsDraining (elim o [
            | none ↦ s
            | some m ↦ elim (lookup conn m) [ none ↦ s | some r ↦ unregister s loop conn m r ]
          ])
      found none e = d
      found (some m) e = without m (lookup conn m) e

  on_close-IsDraining : (loop conn : ℕ) → IsDraining (on_close s loop conn)
  unfolding on_close
  on_close-IsDraining loop conn =
      let r = remove_connection-IsDraining loop conn in
      record { down = r.down; cleared = r.cleared }

  on_message-IsDraining : (loop conn : ℕ) → IsDraining (on_message s loop conn)
  unfolding on_message refresh_connection_heartbeat
  on_message-IsDraining loop conn = chosen s.connection_heartbeat
    where
      chosen :
          (t : Bool)
          → IsDraining (
              with_effects
                (if t
                  then with_effects s (
                      if_set
                        (heartbeat_of conn (lookup loop s.connection_records_by_loop))
                        (refresh_heartbeat conn))
                  else s)
                (if_set s.has_message_callback (message conn)))
      chosen true = record { down = d.down; cleared = d.cleared }
      chosen false = record { down = d.down; cleared = d.cleared }

-- A task of `loop` is taken and run.
run_task-IsDraining :
    (s : TcpServer) (loop : ℕ) (task : Task) (rest : List (ℕ × Task))
    → IsDraining s
    → Taken loop s.tasks task rest
    → IsDraining (run_task (record s { tasks = rest }) loop task)
unfolding shutdown_loop
run_task-IsDraining s loop connect rest d t =
    create_connection-IsDraining (record s { tasks = rest })
      (record {
        down = d.down;
        cleared =
            λ l r e. subst (λ b. (r ≡ []) ⊎ (b ≡ true)) (sym (t.same refl l)) (d.cleared l r e);
      })
      loop
run_task-IsDraining s loop shut rest d t = emptied (lookup loop s.connection_records_by_loop) refl
  where
    apart :
        (l : ℕ) (r : ConnectionRecords)
        → (loop == l) ≡ false
        → lookup l s.connection_records_by_loop ≡ some r
        → (r ≡ []) ⊎ (has_shut l rest ≡ true)
    apart l r other e =
        subst (λ b. (r ≡ []) ⊎ (b ≡ true)) (sym (t.others l other)) (d.cleared l r e)

    own :
        (l : ℕ) (r : ConnectionRecords)
        → lookup l (insert loop [] s.connection_records_by_loop) ≡ some r
        → (r ≡ []) ⊎ (has_shut l rest ≡ true)
    own l r e = elim (Bool-cases (loop == l)) [
      | inl same ↦
          inl (ground (arith, same, lookup-insert loop l [] s.connection_records_by_loop, e))
      | inr other ↦
          apart l r other
            (ground (arith, other, lookup-insert loop l [] s.connection_records_by_loop, e))
    ]

    unknown :
        lookup loop s.connection_records_by_loop ≡ none
        → (l : ℕ) (r : ConnectionRecords) → lookup l s.connection_records_by_loop ≡ some r
        → (r ≡ []) ⊎ (has_shut l rest ≡ true)
    unknown absent l r e = elim (Bool-cases (loop == l)) [
      | inl same ↦ cc (
          sym absent ∙ ap (λ k. lookup k s.connection_records_by_loop) ((==_iff loop l).0 same) ∙ e)
      | inr other ↦ apart l r other e
    ]

    emptied :
        (o : Option ConnectionRecords)
        → lookup loop s.connection_records_by_loop ≡ o
        → IsDraining (elim o [
          | none ↦ record s { tasks = rest }
          | some m ↦
              with_effects
                (record s {
                  tasks = rest;
                  connection_records_by_loop = insert loop [] s.connection_records_by_loop;
                  active_connection_count = count_down m s.active_connection_count;
                })
                (close_effects m)
        ])
    emptied none absent = record { down = d.down; cleared = unknown absent }
    emptied (some m) e = record { down = d.down; cleared = own }

run_loop-IsDraining : (s : TcpServer) (loop : ℕ) → IsDraining s → IsDraining (run_loop s loop)
unfolding run_loop
run_loop-IsDraining s loop d = taken (take_task loop s.tasks) (take_task-Takes loop s.tasks)
  where
    taken :
        (o : Option (Task × List (ℕ × Task)))
        → Takes loop s.tasks o
        → IsDraining (elim o [
          | none ↦ s
          | some (task, rest) ↦ run_task (record s { tasks = rest }) loop task
        ])
    taken none t = d
    taken (some (task, rest)) t = run_task-IsDraining s loop task rest d t

happen-IsDraining : (s : TcpServer) (e : Event) → IsDraining s → IsDraining (happen s e)
unfolding set_connection_heartbeat
happen-IsDraining s connects d = on_connect-IsDraining s d
happen-IsDraining s stops d = stop-IsDraining s d
happen-IsDraining s shuts d = shutdown_connections-IsDraining s
happen-IsDraining s finishes d = finish-IsDraining s d
happen-IsDraining s (sets_heartbeat interval timeout) d = record {
  down = d.down;
  cleared = d.cleared;
}
happen-IsDraining s (runs loop) d = run_loop-IsDraining s loop d
happen-IsDraining s (messages loop conn) d = on_message-IsDraining s d loop conn
happen-IsDraining s (closes loop conn) d = on_close-IsDraining s d loop conn

happenings-IsDraining :
    (es : List Event) (s : TcpServer) → IsDraining s → IsDraining (happenings s es)
happenings-IsDraining [] s d = d
happenings-IsDraining (e ∷ es) s d = happenings-IsDraining es (happen s e) (happen-IsDraining s e d)

-- Once shutdown_connections has handed out its tasks, and whatever happens then, new connections,
-- messages and closes included: when no loop has such a task left, no connection stands in a table
-- and the count for which shutdown_connections waits is zero. The count was right before.
pub happenings_drain :
    (s : TcpServer) (es : List Event)
    → IsCounted s
    → s.allocated + length es < size_mod
    → let after = happenings (shutdown_connections s) es in
      ((loop : ℕ) → has_shut loop after.tasks ≡ false)
      → (total after.connection_records_by_loop ≡ 0) × (after.active_connection_count ≡ 0)
unfolding shutdown_connections
happenings_drain s es c room done = (none_left, k.counted ∙ none_left)
  where
    d : IsDraining (happenings (shutdown_connections s) es)
    d = happenings-IsDraining es (shutdown_connections s) (shutdown_connections-IsDraining s)

    k : IsCounted (happenings (shutdown_connections s) es)
    k =
        happenings-IsCounted es (shutdown_connections s)
          (record { counted = c.counted; few = c.few; tidy = c.tidy; apart = c.apart }) room

    empty_table :
        (loop : ℕ) (r : ConnectionRecords)
        → lookup loop (happenings (shutdown_connections s) es).connection_records_by_loop ≡ some r
        → r ≡ []
    empty_table loop r e = elim (d.cleared loop r e) [
      | inl nothing ↦ nothing
      | inr waits ↦ cc (waits, done loop)
    ]

    none_left : total (happenings (shutdown_connections s) es).connection_records_by_loop ≡ 0
    none_left = total-eq-zero _ k.apart empty_table
