-- ===== src/Rpc/Channel/Tests.antt =====
-- Rpc/Channel at concrete inputs: every response parses.
use tudou.Prelude.{
  ℕ, Bool, true, false, ◌≡◌, refl, List, [], ◌∷◌, none, some, arith, lookup, insert, number_eq,
}
use tudou.Tcp.Buffer.{
  new_buffer, write_to_buffer, read_all, read_from_buffer, append_at_write_index, copy_at,
}
use tudou.Rpc.Protocol.{header_bytes, to_be}
use tudou.Reactor.Channel.{disable_writing}
use tudou.Rpc.Codec.{encode}
use tudou.Rpc.Channel.Write.{
  ResponseContext, BinaryRpcChannel, new_blocking, new_on_loop, wrote, refused, on_write,
  write_bytes, write_request_nonblocking, closed_prematurely, decode_error,
  cleanup_pending_requests,
}
use tudou.Rpc.Channel.Calls.{
  waiting, received, call_method, register_request, encode_request, write_blocking, receive_round,
}
use tudou.Rpc.Channel.Once.Operations.{calls, receives, cleans, registers, stops, operations}
use tudou.Rpc.Channel.Once.{new_blocking-Once, operations-Ended, Ended}
use tudou.Rpc.Channel.Stalls.Steps
use tudou.Rpc.Channel.Stalls.{loop_steps_stall}
use tudou.Rpc.Channel.Hangs.{receive_rounds, call_method_hangs}

abbrev any : ℕ → List ℕ → Bool
any response body = true

abbrev context : ResponseContext
context = record { response = 3; coroutine = none }

-- A call, some bytes of its response, and an error of the stream, whose cleanup another thread's
-- call follows before the channel stops.
operations-Ended_example : Ended any new_blocking (
    calls context (some (1 ∷ [])) (some []) (wrote 30 ∷ [])
    ∷ receives (received (0x54 ∷ 0x44 ∷ []))
    ∷ cleans decode_error
    ∷ registers context
    ∷ stops
    ∷ [])
unfolding new_buffer
operations-Ended_example =
    operations-Ended any _ new_blocking new_blocking-Once (omega arith) (omega arith)

-- That call then waits on a channel that has stopped, which reads no more.
left_waiting :
    operations any new_blocking
      (cleans decode_error ∷ registers context ∷ stops ∷ receives (received (1 ∷ [])) ∷ [])
    ≡ some (record new_blocking {
      next_sequence_id = 2;
      running = false;
      receiving = false;
      pending_requests = (1, context) ∷ [];
    })
unfolding cleanup_pending_requests register_request receive_round insert
left_waiting = refl

abbrev flushed : BinaryRpcChannel
unfolding on_write
flushed = on_write (new_on_loop 4) false []

abbrev idle : BinaryRpcChannel
unfolding call_method encode_request
idle =
    (call_method flushed (record { response = 3; coroutine = some 1 }) (some (1 ∷ [])) (some [])
      []).0

-- The socket is connected, and there is nothing to flush. Then a coroutine calls, and a thread, whose
-- second write fails.
abbrev threaded : BinaryRpcChannel
unfolding call_method encode_request write_blocking
threaded = (call_method idle context (some (1 ∷ [])) (some []) (wrote 2 ∷ refused ∷ [])).0

loop_steps_stall_example : threaded.wire ≡ 0x54 ∷ 0x44 ∷ []
unfolding call_method write_request_nonblocking encode_request insert write_bytes on_write
    disable_writing write_blocking encode write_to_buffer read_all read_from_buffer header_bytes
    to_be append_at_write_index new_buffer copy_at
loop_steps_stall_example =
    loop_steps_stall any (new_on_loop 4) []
      (Steps.calls 3 (some 1) (some (1 ∷ [])) (some []) []
        ∷ Steps.writes false (wrote 30 ∷ [])
        ∷ Steps.calls 3 none (some (1 ∷ [])) (some []) (wrote 2 ∷ refused ∷ [])
        ∷ [])
      threaded refl refl refl

abbrev ended : BinaryRpcChannel
unfolding cleanup_pending_requests
ended = record (cleanup_pending_requests new_blocking closed_prematurely) { receiving = false }

abbrev request_bytes : List ℕ
request_bytes =
    0x54 ∷ 0x44 ∷ 1 ∷ 0 ∷ 0 ∷ 0 ∷ 0 ∷ 0 ∷ 0 ∷ 0 ∷ 0 ∷ 1 ∷ 0 ∷ 0 ∷ 0 ∷ 0 ∷ 0 ∷ 0 ∷ 0 ∷ 0 ∷ []

call_method_hangs_example :
    let (after, state) = call_method ended context (some []) (some []) (wrote 20 ∷ []) in
    (state ≡ waiting)
    × (lookup ended.next_sequence_id after.pending_requests ≡ some context)
    × (receive_rounds any after (received [] ∷ []) ≡ some after)
unfolding ended receive_round cleanup_pending_requests encode_request write_blocking encode
    write_to_buffer read_all read_from_buffer header_bytes to_be append_at_write_index new_buffer
    copy_at
call_method_hangs_example =
    call_method_hangs any new_blocking ended context (some []) (some []) request_bytes request_bytes
      (wrote 20 ∷ []) (received [] ∷ []) refl refl refl refl refl refl
