-- ===== src/Rpc/Channel/Stalls/Steps.antt =====
-- src/tudou/rpc/binary/BinaryRpcChannel.cpp: what is done with a channel on the event loop.
use tudou.Prelude.{
  ℕ, Bool, false, List, [], ◌∷◌, ◌++◌, Option, none, some, if◌then◌else◌, number_eq,
}
use tudou.Reactor.Channel.{Channel, is_writing}
use tudou.Rpc.Channel.Write.{BinaryRpcChannel, WriteResult, on_write}
use tudou.Rpc.Channel.Calls.{encode_request, call_method, write_blocking, ReadResult, on_read}
use tudou.Rpc.Channel.Once.Operations.{and_then}

-- What the loop, its coroutines and other threads do with a channel; the poller brings a write event
-- only to a channel that asks for it. A call with no coroutine is one from outside a coroutine.
pub data LoopStep : Type 0 where
  calls : ℕ → Option ℕ → Option (List ℕ) → Option (List ℕ) → List WriteResult → LoopStep
  reads : List ReadResult → LoopStep
  writes : Bool → List WriteResult → LoopStep

-- What a caller that blocks writes of its request.
abbrev pub written_by_thread : Option (List ℕ) → List WriteResult → List ℕ
written_by_thread none results = []
written_by_thread (some bytes) results = (write_blocking bytes results).0

-- The bytes that a call from outside a coroutine writes to the socket itself.
abbrev pub direct_bytes : BinaryRpcChannel → LoopStep → List ℕ
direct_bytes c (calls response none meta body results) =
    if c.running
    then written_by_thread (encode_request meta body c.next_sequence_id) results
    else []
direct_bytes c (calls response (some coroutine) meta body results) = []
direct_bytes c (reads results) = []
direct_bytes c (writes failed results) = []

abbrev pub wants_write : Option Channel → Bool
wants_write none = false
wants_write (some ch) = is_writing ch

module _ (parses : ℕ → List ℕ → Bool) where
  abbrev pub loop_step : BinaryRpcChannel → LoopStep → Option BinaryRpcChannel
  loop_step c (calls response coroutine meta body results) =
      some
        (call_method c (record { response = response; coroutine = coroutine }) meta body results).0
  loop_step c (reads results) = on_read parses c results
  loop_step c (writes failed results) =
      if wants_write c.channel then some (on_write c failed results) else some c

  abbrev pub loop_steps : BinaryRpcChannel → List LoopStep → Option BinaryRpcChannel
  loop_steps c [] = some c
  loop_steps c (s ∷ steps) = and_then (loop_step c s) (λ d. loop_steps d steps)

  abbrev pub all_direct_bytes : BinaryRpcChannel → List LoopStep → List ℕ
  all_direct_bytes c [] = []
  all_direct_bytes c (s ∷ steps) =
      direct_bytes c s ++ elim (loop_step c s) [ none ↦ [] | some d ↦ all_direct_bytes d steps ]
