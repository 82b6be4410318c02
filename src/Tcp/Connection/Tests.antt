-- ===== src/Tcp/Connection/Tests.antt =====
-- Tcp/Connection at concrete inputs.
use tudou.Prelude.{ℕ, true, false, ◌≡◌, refl, List, [], ◌∷◌, arith}
use tudou.Tcp.Buffer.{WriteOutcome, write_error, wrote}
use tudou.Tcp.Buffer.Tests.{half_used, half_used-IsValid}
use tudou.Tcp.Connection.{TcpConnection, new_connection, send_in_loop}
use tudou.Tcp.Connection.Outgoing.{Sent}
use tudou.Tcp.Connection.Send.{may_fail, send_in_loop-Sent}
use tudou.Tcp.Connection.Threads.{
  Move, calls, runs_task, hop_send, hop_force_close, moves, InOrder, moves-InOrder,
}
use tudou.Tcp.Connection.Close.{Once, operations, operations-Once, sends, forces_close, reads_close}

-- The bytes 3 and 4 wait.
abbrev behind : TcpConnection
behind = record new_connection { write_buffer = half_used; is_writing = true; has_close = true }

-- A kernel that takes three bytes of each write.
abbrev takes_three : List ℕ → WriteOutcome
takes_three bytes = wrote 3

send_in_loop-Sent_example :
    Sent
      (may_fail takes_three behind (5 ∷ 6 ∷ []))
      behind
      (5 ∷ 6 ∷ [])
      (send_in_loop takes_three behind (5 ∷ 6 ∷ []))
send_in_loop-Sent_example =
    send_in_loop-Sent takes_three behind (5 ∷ 6 ∷ []) half_used-IsValid (omega arith)

abbrev digits_file : ℕ → List ℕ
digits_file fd = 1 ∷ 2 ∷ 3 ∷ 4 ∷ 5 ∷ []

abbrev sends_two : ℕ → ℕ → ℕ → WriteOutcome
sends_two fd offset remaining = wrote 2

-- A connection that is reset, and closed again twice.
operations-Once_example : Once (
    operations digits_file sends_two
      (λ fd. true)
      behind
      (sends (λ bytes. write_error 104) (1 ∷ []) ∷ forces_close ∷ reads_close ∷ []))
operations-Once_example =
    operations-Once digits_file sends_two (λ fd. true)
      (sends (λ bytes. write_error 104) (1 ∷ []) ∷ forces_close ∷ reads_close ∷ [])
      (record { told = refl })

abbrev no_write : List ℕ → WriteOutcome
no_write bytes = write_error 11

-- Another thread sends and then closes, and the loop sends before it runs these tasks.
abbrev history : List (Move digits_file sends_two)
history =
    calls false (hop_send (1 ∷ [])) no_write
    ∷ calls false hop_force_close no_write
    ∷ calls true (hop_send (2 ∷ [])) no_write
    ∷ runs_task no_write
    ∷ []

moves-InOrder_example :
    InOrder digits_file sends_two
      (λ fd. true)
      new_connection
      []
      history
      (moves digits_file sends_two
        (λ fd. true)
        (record { connection = new_connection; tasks = [] })
        history)
moves-InOrder_example = moves-InOrder digits_file sends_two (λ fd. true) history new_connection []

closing_waits :
    (moves digits_file sends_two
      (λ fd. true)
      (record { connection = new_connection; tasks = [] })
      history).tasks
    ≡ hop_force_close ∷ []
closing_waits = refl
