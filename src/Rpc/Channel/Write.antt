-- ===== src/Rpc/Channel/Write.antt =====
-- src/tudou/rpc/binary/BinaryRpcChannel.cpp: the state, and the writes to the socket.
use tudou.Prelude.{
  ℕ, Bool, true, false, List, [], ◌∷◌, ◌++◌, Option, none, some, map, if◌then◌else◌, take, drop,
}
use tudou.Tcp.Buffer.{Buffer, new_buffer, initial_size}
use tudou.Reactor.Channel.{
  Channel, new_channel, enable_reading, enable_writing, disable_writing, disable_all,
}

-- The texts of the exceptions.
pub data Reason : Type 0 where
  closed_prematurely read_failed decode_error connect_failed write_failed destructed : Reason
  parse_failed : Reason

-- What a caller is given: the body of its response, or an exception.
pub data Outcome : Type 0 where
  answered : List ℕ → Outcome
  failed : Reason → Outcome

-- `coroutine` is none for a caller that blocks on the promise.
pub record ResponseContext : Type 0 where
  pub response : ℕ
  pub coroutine : Option ℕ

-- `completed` are the promises that were set and the coroutines that were resumed, by their
-- sequence ids, `wire` the bytes that the socket took; `receiving` says that the thread is in its
-- loop.
pub record BinaryRpcChannel : Type 0 where
  pub next_sequence_id : ℕ
  pub running : Bool
  pub receiving : Bool
  pub pending_requests : List (ℕ × ResponseContext)
  pub read_buf : Buffer
  pub write_buffer : List ℕ
  pub connected : Bool
  pub channel : Option Channel
  pub completed : List (ℕ × Outcome)
  pub wire : List ℕ

-- After a `connect` that succeeded, with the thread started.
abbrev pub new_blocking : BinaryRpcChannel
new_blocking = record {
  next_sequence_id = 1;
  running = true;
  receiving = true;
  pending_requests = [];
  read_buf = new_buffer initial_size;
  write_buffer = [];
  connected = true;
  channel = none;
  completed = [];
  wire = [];
}

-- After a `connect` that succeeded or is in progress.
abbrev pub new_on_loop : ℕ → BinaryRpcChannel
new_on_loop fd = record new_blocking {
  receiving = false;
  connected = false;
  channel = some (enable_writing (enable_reading (new_channel fd)));
}

abbrev pub on_channel : (Channel → Channel) → Option Channel → Option Channel
on_channel f none = none
on_channel f (some ch) = some (f ch)

abbrev pub fail_request : Reason → ℕ × ResponseContext → ℕ × Outcome
fail_request reason (seq, context) = (seq, failed reason)

unfoldable pub cleanup_pending_requests : BinaryRpcChannel → Reason → BinaryRpcChannel
cleanup_pending_requests c reason = record c {
  pending_requests = [];
  completed = c.completed ++ map (fail_request reason) c.pending_requests;
}

-- What follows the cleanup, without the mutex of the map.
abbrev pub stop_channel : BinaryRpcChannel → BinaryRpcChannel
stop_channel c = record c { running = false; channel = on_channel disable_all c.channel }

-- The three lines that follow each error on the event loop, when no other thread calls in between.
unfoldable pub shut : BinaryRpcChannel → Reason → BinaryRpcChannel
shut c reason = stop_channel (cleanup_pending_requests c reason)

pub data WriteResult : Type 0 where
  wrote : ℕ → WriteResult
  interrupted would_block refused : WriteResult

pub data WriteEnd : Type 0 where
  drained blocked broken : WriteEnd

pub record Written : Type 0 where
  pub sent : List ℕ
  pub rest : List ℕ
  pub end : WriteEnd

abbrev pub after_sent : List ℕ → Written → Written
after_sent bytes w = record w { sent = bytes ++ w.sent }

-- The loop of `write` on a socket that does not block.
unfoldable pub write_bytes : List ℕ → List WriteResult → Written
write_bytes [] results = record { sent = []; rest = []; end = drained }
write_bytes (b ∷ bytes) [] = record { sent = []; rest = b ∷ bytes; end = blocked }
write_bytes (b ∷ bytes) (wrote n ∷ results) =
    after_sent (take n (b ∷ bytes)) (write_bytes (drop n (b ∷ bytes)) results)
write_bytes (b ∷ bytes) (interrupted ∷ results) = write_bytes (b ∷ bytes) results
write_bytes (b ∷ bytes) (would_block ∷ results) = record {
  sent = [];
  rest = b ∷ bytes;
  end = blocked;
}
write_bytes (b ∷ bytes) (refused ∷ results) = record { sent = []; rest = b ∷ bytes; end = broken }

-- What on_write does with the outcome of its loop.
abbrev pub after_flush : BinaryRpcChannel → Written → BinaryRpcChannel
after_flush c w = elim w.end [
  | drained ↦ record c {
    write_buffer = [];
    wire = c.wire ++ w.sent;
    channel = on_channel disable_writing c.channel;
  }
  | blocked ↦ record c { write_buffer = w.rest; wire = c.wire ++ w.sent }
  | broken ↦ shut (record c { wire = c.wire ++ w.sent }) write_failed
]

abbrev pub is_nil : List ℕ → Bool
is_nil [] = true
is_nil (b ∷ bytes) = false

-- `socket_error`: getsockopt fails, or has an error.
unfoldable pub on_write : BinaryRpcChannel → Bool → List WriteResult → BinaryRpcChannel
on_write c socket_error results =
    if socket_error
    then shut c connect_failed
    else if is_nil c.write_buffer
    then record c { channel = on_channel disable_writing c.channel }
    else after_flush c (write_bytes c.write_buffer results)

-- The outcome of the loop of write_request_nonblocking; the flag says that it threw.
abbrev pub after_request : BinaryRpcChannel → Written → BinaryRpcChannel × Bool
after_request c w = elim w.end [
  | drained ↦ (record c { wire = c.wire ++ w.sent }, false)
  | blocked ↦ (
    record c {
      write_buffer = c.write_buffer ++ w.rest;
      wire = c.wire ++ w.sent;
      channel = on_channel enable_writing c.channel;
    },
    false,
  )
  | broken ↦ (record c { wire = c.wire ++ w.sent }, true)
]

unfoldable pub write_request_nonblocking :
    BinaryRpcChannel → List ℕ → List WriteResult → BinaryRpcChannel × Bool
write_request_nonblocking c bytes results =
    if c.connected
    then if is_nil c.write_buffer
      then after_request c (write_bytes bytes results)
      else (record c { write_buffer = c.write_buffer ++ bytes }, false)
    else (record c { write_buffer = c.write_buffer ++ bytes }, false)
