-- ===== src/Tcp/Connection/Threads.antt =====
-- src/tudou/tcp/TcpConnection.cpp: the calls that other threads may make, which hop to the loop of
-- the connection by queue_in_loop; the loop runs these tasks in their order.
use tudou.Prelude.{
  ℕ, ◌≡◌, refl, sym, ap, ◌∙◌, subst, Bool, true, false, List, [], ◌∷◌, ◌++◌, append-nil,
  append_assoc, Option, if◌then◌else◌,
}
use tudou.Tcp.Buffer.{WriteOutcome}
use tudou.Tcp.Connection.{
  TcpConnection, send_in_loop, send_file_in_loop, send_file_with_header_in_loop,
  force_close_in_loop,
}
use tudou.Tcp.Connection.Close.{
  Operation, sends, sends_file, sends_file_behind, forces_close, operate, operations,
}

-- A task that waits on the loop.
pub data Hop : Type 0 where
  hop_send : List ℕ → Hop
  hop_file : Option (ℕ × Bool) → ℕ → ℕ → Hop
  hop_file_behind : List ℕ → Option (ℕ × Bool) → ℕ → ℕ → Hop
  hop_force_close : Hop

pub record Shared : Type 0 where
  pub connection : TcpConnection
  pub tasks : List Hop

abbrev pub hop_later : Shared → Hop → Shared
hop_later s hop = record s { tasks = s.tasks ++ hop ∷ [] }

module _ (content : ℕ → List ℕ) (sendfile : ℕ → ℕ → ℕ → WriteOutcome) where
  -- What happens: a call, from the thread of the loop or not, with the answers of the kernel for the
  -- first case; the loop runs a task; or it does anything else with the connection.
  pub data Move : Type 0 where
    calls : Bool → Hop → (List ℕ → WriteOutcome) → Move
    runs_task : (List ℕ → WriteOutcome) → Move
    does : Operation content sendfile → Move

  -- What a call is on the loop.
  abbrev pub operation : Hop → (List ℕ → WriteOutcome) → Operation content sendfile
  operation (hop_send msg) write = sends write msg
  operation (hop_file file size offset) write = sends_file file size offset
  operation (hop_file_behind header file size offset) write =
      sends_file_behind write header file size offset
  operation hop_force_close write = forces_close

  -- The operations of the loop, in their order, with these tasks before it.
  abbrev pub performed : List Hop → List Move → List (Operation content sendfile)
  performed tasks [] = []
  performed tasks (calls true hop write ∷ ms) = operation hop write ∷ performed tasks ms
  performed tasks (calls false hop write ∷ ms) = performed (tasks ++ hop ∷ []) ms
  performed [] (runs_task write ∷ ms) = performed [] ms
  performed (hop ∷ tasks) (runs_task write ∷ ms) = operation hop write ∷ performed tasks ms
  performed tasks (does op ∷ ms) = op ∷ performed tasks ms

  -- The tasks among them, and the calls of other threads.
  abbrev pub hopped : List Hop → List Move → List Hop
  hopped tasks [] = []
  hopped tasks (calls true hop write ∷ ms) = hopped tasks ms
  hopped tasks (calls false hop write ∷ ms) = hopped (tasks ++ hop ∷ []) ms
  hopped [] (runs_task write ∷ ms) = hopped [] ms
  hopped (hop ∷ tasks) (runs_task write ∷ ms) = hop ∷ hopped tasks ms
  hopped tasks (does op ∷ ms) = hopped tasks ms

  abbrev pub from_others : List Move → List Hop
  from_others [] = []
  from_others (calls true hop write ∷ ms) = from_others ms
  from_others (calls false hop write ∷ ms) = hop ∷ from_others ms
  from_others (runs_task write ∷ ms) = from_others ms
  from_others (does op ∷ ms) = from_others ms

  module _ (is_regular_file : ℕ → Bool) where
    abbrev pub send : Bool → (List ℕ → WriteOutcome) → Shared → List ℕ → Shared
    send in_loop_thread write s msg =
        if in_loop_thread
        then record s { connection = send_in_loop write s.connection msg }
        else hop_later s (hop_send msg)

    abbrev pub send_file : Bool → Shared → Option (ℕ × Bool) → ℕ → ℕ → Shared
    send_file in_loop_thread s file size offset =
        if in_loop_thread
        then record s {
          connection =
              send_file_in_loop content sendfile is_regular_file s.connection file size offset;
        }
        else hop_later s (hop_file file size offset)

    abbrev pub send_file_with_header :
        Bool → (List ℕ → WriteOutcome) → Shared → List ℕ → Option (ℕ × Bool) → ℕ → ℕ → Shared
    send_file_with_header in_loop_thread write s header file size offset =
        if in_loop_thread
        then record s {
          connection =
              send_file_with_header_in_loop content sendfile is_regular_file write s.connection
                header file size offset;
        }
        else hop_later s (hop_file_behind header file size offset)

    abbrev pub force_close : Bool → Shared → Shared
    force_close in_loop_thread s =
        if in_loop_thread
        then record s { connection = force_close_in_loop s.connection }
        else hop_later s hop_force_close

    abbrev pub call : Bool → Hop → (List ℕ → WriteOutcome) → Shared → Shared
    call in_loop (hop_send msg) write s = send in_loop write s msg
    call in_loop (hop_file file size offset) write s = send_file in_loop s file size offset
    call in_loop (hop_file_behind header file size offset) write s =
        send_file_with_header in_loop write s header file size offset
    call in_loop hop_force_close write s = force_close in_loop s

    abbrev pub run_task : List Hop → (List ℕ → WriteOutcome) → Shared → Shared
    run_task [] write s = s
    run_task (hop ∷ tasks) write s = call true hop write (record s { tasks = tasks })

    abbrev pub move : Shared → Move → Shared
    move s (calls in_loop hop write) = call in_loop hop write s
    move s (runs_task write) = run_task s.tasks write s
    move s (does op) = record s {
      connection = operate content sendfile is_regular_file s.connection op;
    }

    abbrev pub moves : Shared → List Move → Shared
    moves s [] = s
    moves s (m ∷ ms) = moves (move s m) ms

    called-operation :
        (hop : Hop) (write : List ℕ → WriteOutcome) (s : Shared)
        → call true hop write s ≡ record s {
          connection = operate content sendfile is_regular_file s.connection (operation hop write);
        }
    called-operation (hop_send msg) write s = refl
    called-operation (hop_file file size offset) write s = refl
    called-operation (hop_file_behind header file size offset) write s = refl
    called-operation hop_force_close write s = refl

    queued :
        (hop : Hop) (write : List ℕ → WriteOutcome) (s : Shared)
        → call false hop write s ≡ hop_later s hop
    queued (hop_send msg) write s = refl
    queued (hop_file file size offset) write s = refl
    queued (hop_file_behind header file size offset) write s = refl
    queued hop_force_close write s = refl

    -- The connection is what the operations make of it, and no task is lost or out of its turn.
    abbrev pub InOrder : TcpConnection → List Hop → List Move → Shared → Type 0
    InOrder c tasks ms s =
        (s.connection ≡ operations content sendfile is_regular_file c (performed tasks ms))
        × (hopped tasks ms ++ s.tasks ≡ tasks ++ from_others ms)

    -- Whatever threads call on a connection, and whatever the loop does in between: the connection is
    -- what the operations of the loop make of it, one after the other; and the calls of other threads
    -- that have been run, followed by those that wait, are the ones that waited at the start followed
    -- by the ones made since, in their order.
    pub moves-InOrder :
        (ms : List Move) (c : TcpConnection) (tasks : List Hop)
        → InOrder c tasks ms (moves (record { connection = c; tasks = tasks }) ms)
    moves-InOrder [] c tasks = (refl, sym (append-nil tasks))
    moves-InOrder (calls true hop write ∷ ms) c tasks =
        subst (λ s. InOrder c tasks (calls true hop write ∷ ms) (moves s ms))
          (sym (called-operation hop write _))
          (moves-InOrder ms (operate content sendfile is_regular_file c (operation hop write))
            tasks)
    moves-InOrder (calls false hop write ∷ ms) c tasks =
        let p = moves-InOrder ms c (tasks ++ hop ∷ []) in
        subst (λ s. InOrder c tasks (calls false hop write ∷ ms) (moves s ms))
          (sym (queued hop write _)) (p.0, p.1 ∙ append_assoc tasks (hop ∷ []) (from_others ms))
    moves-InOrder (runs_task write ∷ ms) c [] = moves-InOrder ms c []
    moves-InOrder (runs_task write ∷ ms) c (hop ∷ tasks) =
        let p =
          moves-InOrder ms (operate content sendfile is_regular_file c (operation hop write))
            tasks in
        subst (λ s. InOrder c (hop ∷ tasks) (runs_task write ∷ ms) (moves s ms))
          (sym (called-operation hop write _)) (p.0, ap (◌∷◌ hop) p.1)
    moves-InOrder (does op ∷ ms) c tasks =
        moves-InOrder ms (operate content sendfile is_regular_file c op) tasks
