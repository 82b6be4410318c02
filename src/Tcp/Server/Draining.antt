-- ===== src/Tcp/Server/Draining.antt =====
-- src/tudou/tcp/TcpServer.cpp: the tables that the tasks of shutdown_connections have still to empty.
use tudou.Prelude.{
  ℕ, ◌≡◌, refl, ap, sym, subst, ◌∙◌, ◌⊎◌, inl, inr, Bool, true, false, ◌||◌, List, [], ◌∷◌, ◌++◌,
  map, Option, none, some, arith, lookup, lookup-insert, insert, number_eq, if◌then◌else◌, ◌==◌,
  ==_iff, Bool-cases,
}
use tudou.Tcp.Server.{
  ConnectionRecords, Task, connect, shut, TcpServer, is_running, shutdown_connections, shut_task,
  take_task,
}

-- The loop has a task of shutdown_connections before it.
abbrev pub has_shut : ℕ → List (ℕ × Task) → Bool
has_shut loop [] = false
has_shut loop ((l, connect) ∷ tasks) = has_shut loop tasks
has_shut loop ((l, shut) ∷ tasks) = (l == loop) || has_shut loop tasks

abbrev Tables : Type 0
Tables = List (ℕ × ConnectionRecords)

-- A loop has an empty table, or has yet to empty it.
abbrev Cleared : Tables → List (ℕ × Task) → Type 0
Cleared m tasks =
    (loop : ℕ) (r : ConnectionRecords)
    → lookup loop m ≡ some r
    → (r ≡ []) ⊎ (has_shut loop tasks ≡ true)

pub record IsDraining (s : TcpServer) : Type 0 where
  pub down : is_running s.state ≡ false
  pub cleared : Cleared s.connection_records_by_loop s.tasks

has_shut-append :
    (loop : ℕ) (ts us : List (ℕ × Task))
    → has_shut loop (ts ++ us) ≡ has_shut loop ts || has_shut loop us
has_shut-append loop [] us = refl
has_shut-append loop ((l, connect) ∷ ts) us = has_shut-append loop ts us
has_shut-append loop ((l, shut) ∷ ts) us = ground (arith, has_shut-append loop ts us)

has_shut-tables :
    (loop : ℕ) (r : ConnectionRecords) (m : Tables)
    → lookup loop m ≡ some r
    → has_shut loop (map shut_task m) ≡ true
unfolding lookup
has_shut-tables loop r [] e = cc e
has_shut-tables loop r ((l, r') ∷ m) e = ground (arith, e, has_shut-tables loop r m)

pub shutdown_connections-IsDraining : (s : TcpServer) → IsDraining (shutdown_connections s)
unfolding shutdown_connections
shutdown_connections-IsDraining s = record {
  down = refl;
  cleared = λ loop r e. inr (
      ground (
        arith,
        has_shut-append loop s.tasks (map shut_task s.connection_records_by_loop),
        has_shut-tables loop r s.connection_records_by_loop e,
      ));
}

-- What is left of the tasks once one of `loop` is taken.
pub record Taken (loop : ℕ) (tasks : List (ℕ × Task)) (task : Task) (rest : List (ℕ × Task))
    : Type 0 where
  pub others : (l : ℕ) → (loop == l) ≡ false → has_shut l rest ≡ has_shut l tasks
  pub same : task ≡ connect → (l : ℕ) → has_shut l rest ≡ has_shut l tasks

abbrev pub Takes : ℕ → List (ℕ × Task) → Option (Task × List (ℕ × Task)) → Type 0
Takes loop tasks none = Unit
Takes loop tasks (some (task, rest)) = Taken loop tasks task rest

pub take_task-Takes : (loop : ℕ) (tasks : List (ℕ × Task)) → Takes loop tasks (take_task loop tasks)
unfolding take_task
take_task-Takes loop [] = tt
take_task-Takes loop ((l, task) ∷ tasks) = elim (Bool-cases (l == loop)) [
  | inl here ↦ rw (take_task, here) (first task here)
  | inr later ↦ rw (take_task, later) (behind (take_task loop tasks) (take_task-Takes loop tasks))
]
  where
    first : (t : Task) → (l == loop) ≡ true → Taken loop ((l, t) ∷ tasks) t tasks
    first connect here = record { others = λ k other. refl; same = λ e k. refl }
    first shut here = record { others = λ k other. ground (arith, here, other); same = λ e k. cc e }

    past :
        (t u : Task) (rest : List (ℕ × Task))
        → Taken loop tasks u rest
        → Taken loop ((l, t) ∷ tasks) u ((l, t) ∷ rest)
    past connect u rest k = record { others = k.others; same = k.same }
    past shut u rest k = record {
      others = λ j other. ap (λ b. (l == j) || b) (k.others j other);
      same = λ e j. ap (λ b. (l == j) || b) (k.same e j);
    }

    behind :
        (o : Option (Task × List (ℕ × Task)))
        → Takes loop tasks o
        → Takes loop
            ((l, task) ∷ tasks)
            (elim o [ none ↦ none | some (t, rest) ↦ some (t, (l, task) ∷ rest) ])
    behind none k = tt
    behind (some (u, rest)) k = past task u rest k

pub insert-Cleared :
    (loop : ℕ) (new : ConnectionRecords) (m : Tables) (tasks : List (ℕ × Task))
    → Cleared m tasks
    → (new ≡ []) ⊎ (has_shut loop tasks ≡ true)
    → Cleared (insert loop new m) tasks
insert-Cleared loop new m tasks c h l r e = elim (Bool-cases (loop == l)) [
  | inl same ↦ own same h
  | inr other ↦ c l r (ground (arith, other, found))
]
  where
    found : (if loop == l then some new else lookup l m) ≡ some r
    found = sym (lookup-insert loop l new m) ∙ e

    own :
        (loop == l) ≡ true
        → (new ≡ []) ⊎ (has_shut loop tasks ≡ true)
        → (r ≡ []) ⊎ (has_shut l tasks ≡ true)
    own same (inl e) = inl (ground (arith, same, found, e))
    own same (inr e) = inr (subst (λ k. has_shut k tasks ≡ true) ((==_iff loop l).0 same) e)
