-- ===== src/Rpc/Channel/Once/Operations.antt =====
-- src/tudou/rpc/binary/BinaryRpcChannel.cpp: what can happen to a channel, one operation after
-- the other.
use tudou.Prelude.{ℕ, ◌+◌, Bool, false, ◌||◌, ◌==◌, List, [], ◌∷◌, Option, none, some, length}
use tudou.Rpc.Channel.Write.{
  Reason, ResponseContext, BinaryRpcChannel, WriteResult, on_write, stop_channel,
  cleanup_pending_requests,
}
use tudou.Rpc.Channel.Calls.{
  call_method, register_request, forget, ReadResult, received, signal, again, reset, end_of_file,
  on_read, receive_round, destruct,
}
use tudou.Rpc.Channel.Once.Keeps.{}
use tudou.Rpc.Channel.Once.Sends.{}

-- What can happen to a channel: calls from any thread, and events of the loop or of the thread. The
-- parts of a call and of `shut` that hold the mutex of the map are operations too, so that those of
-- several threads can be mixed: `registers` is a call up to its write, `throws` what a call whose
-- write fails does to its request, `cleans` and `stops` the two parts of `shut`.
pub data Operation : Type 0 where
  calls : ResponseContext → Option (List ℕ) → Option (List ℕ) → List WriteResult → Operation
  registers : ResponseContext → Operation
  throws : ℕ → Operation
  reads : List ReadResult → Operation
  writes : Bool → List WriteResult → Operation
  receives : ReadResult → Operation
  cleans : Reason → Operation
  stops : Operation
  destructs : Operation

abbrev pub bytes_of : ReadResult → ℕ
bytes_of (received bytes) = length bytes
bytes_of signal = 0
bytes_of again = 0
bytes_of reset = 0
bytes_of end_of_file = 0

abbrev pub bytes_read : List ReadResult → ℕ
bytes_read [] = 0
bytes_read (r ∷ results) = bytes_of r + bytes_read results

abbrev pub brought : Operation → ℕ
brought (calls context meta body results) = 0
brought (registers context) = 0
brought (throws seq) = 0
brought (reads results) = bytes_read results
brought (writes failed results) = 0
brought (receives result) = bytes_of result
brought (cleans reason) = 0
brought stops = 0
brought destructs = 0

abbrev pub brought_by : List Operation → ℕ
brought_by [] = 0
brought_by (o ∷ os) = brought o + brought_by os

-- The call with this sequence id throws.
abbrev pub gives_up : ℕ → Operation → Bool
gives_up s (throws seq) = seq == s
gives_up s (calls context meta body results) = false
gives_up s (registers context) = false
gives_up s (reads results) = false
gives_up s (writes failed results) = false
gives_up s (receives _) = false
gives_up s (cleans reason) = false
gives_up s stops = false
gives_up s destructs = false

abbrev pub is_given_up : ℕ → List Operation → Bool
is_given_up s [] = false
is_given_up s (o ∷ os) = gives_up s o || is_given_up s os

abbrev pub and_then :
    Option BinaryRpcChannel → (BinaryRpcChannel → Option BinaryRpcChannel) → Option BinaryRpcChannel
and_then none next = none
and_then (some c) next = next c

module _ (parses : ℕ → List ℕ → Bool) where
  abbrev pub step : BinaryRpcChannel → Operation → Option BinaryRpcChannel
  step c (calls context meta body results) = some (call_method c context meta body results).0
  step c (registers context) = some (register_request c context)
  step c (throws seq) = some (forget c seq)
  step c (reads results) = on_read parses c results
  step c (writes failed results) = some (on_write c failed results)
  step c (receives result) = receive_round parses c result
  step c (cleans reason) = some (cleanup_pending_requests c reason)
  step c stops = some (stop_channel c)
  step c destructs = some (destruct c)

  abbrev pub operations : BinaryRpcChannel → List Operation → Option BinaryRpcChannel
  operations c [] = some c
  operations c (o ∷ os) = and_then (step c o) (λ d. operations d os)
