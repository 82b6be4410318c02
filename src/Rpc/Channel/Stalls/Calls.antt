-- ===== src/Rpc/Channel/Stalls/Calls.antt =====
-- src/tudou/rpc/binary/BinaryRpcChannel.cpp: calls on a channel that has flushed.
use tudou.Prelude.{
  append_assoc, add_size, ℕ, refl, sym, subst, Bool, true, false, List, [], ◌∷◌, ◌++◌, Option, none,
  some, if◌then◌else◌, number_eq, append-nil,
}
use tudou.Rpc.Channel.Write.{ResponseContext, BinaryRpcChannel, WriteResult, on_write}
use tudou.Rpc.Channel.Calls.{
  CallState, encode_request, call_method, send_request, thrown, waiting, forget, write_blocking,
  send_for_thread, registered,
}
use tudou.Rpc.Channel.Once.Operations.{and_then}
use tudou.Rpc.Channel.Stalls.Steps.{
  LoopStep, calls, reads, writes, written_by_thread, direct_bytes, loop_step, loop_steps,
  all_direct_bytes,
}
use tudou.Rpc.Channel.Stalls.Events.{
  Quiet, Quietly, Quietly-some, Quietly-same, Quiet-if, registered-Quiet, write_request-Quiet,
  on_read-Quietly, more-Quiet, forget-Quiet,
}

module _ (parses : ℕ → List ℕ → Bool) where
  send_for_thread-Quiet :
      (wire : List ℕ) (c : BinaryRpcChannel) (seq : ℕ) (bytes : List ℕ) (results : List WriteResult)
      → Quiet parses wire c
      → Quiet parses
          (wire ++ (write_blocking bytes results).0)
          (send_for_thread c seq bytes results).0
  send_for_thread-Quiet wire c seq bytes results q = ended (write_blocking bytes results).1
    where
      sent : BinaryRpcChannel
      sent = record c { wire = c.wire ++ (write_blocking bytes results).0 }

      more : Quiet parses (wire ++ (write_blocking bytes results).0) sent
      more = more-Quiet parses wire c (write_blocking bytes results).0 q

      ended :
          (threw : Bool)
          → Quiet parses
              (wire ++ (write_blocking bytes results).0)
              (if◌then◌else◌ {A = BinaryRpcChannel × CallState} threw
                (forget sent seq, thrown)
                (sent, waiting)).0
      ended true = forget-Quiet parses _ sent seq more
      ended false = more

  send_request-Quiet :
      (wire : List ℕ) (c : BinaryRpcChannel) (seq : ℕ) (bytes : Option (List ℕ))
      (results : List WriteResult)
      → Quiet parses wire c
      → Quiet parses
          (wire ++ written_by_thread bytes results)
          (send_request c seq none bytes results).0
  send_request-Quiet wire c seq none results q =
      subst (λ w. Quiet parses w (forget c seq)) (sym (append-nil wire))
        (forget-Quiet parses wire c seq q)
  send_request-Quiet wire c seq (some bytes) results q =
      send_for_thread-Quiet wire c seq bytes results q

  coroutine-Quiet :
      (wire : List ℕ) (c : BinaryRpcChannel) (seq coroutine : ℕ) (bytes : Option (List ℕ))
      (results : List WriteResult)
      → Quiet parses wire c
      → Quiet parses wire (send_request c seq (some coroutine) bytes results).0
  coroutine-Quiet wire c seq coroutine none results q = forget-Quiet parses wire c seq q
  coroutine-Quiet wire c seq coroutine (some bytes) results q =
      write_request-Quiet parses wire c bytes results q

  numbered-Quiet :
      (wire : List ℕ) (c : BinaryRpcChannel) (id : ℕ)
      → Quiet parses wire c
      → Quiet parses wire (record c { next_sequence_id = id })
  numbered-Quiet wire c id q = record {
    unconnected = q.unconnected;
    unasked = q.unasked;
    unsent = q.unsent;
  }

  loop_step-Quietly :
      (wire : List ℕ) (c : BinaryRpcChannel) (s : LoopStep)
      → Quiet parses wire c
      → Quietly parses (wire ++ direct_bytes c s) (loop_step parses c s)
  unfolding call_method
  loop_step-Quietly wire c (calls response none meta body results) q =
      Quietly-some parses _ _ (called c.running)
    where
      context : ResponseContext
      context = record { response = response; coroutine = none }

      called :
          (running : Bool)
          → Quiet parses
              (wire
                ++ (if running
                    then written_by_thread (encode_request meta body c.next_sequence_id) results
                    else []))
              (if running
                then send_request
                    (registered
                      (record c { next_sequence_id = add_size c.next_sequence_id 1 })
                      c.next_sequence_id
                      context)
                    c.next_sequence_id
                    none
                    (encode_request meta body c.next_sequence_id)
                    results
                else (record c { next_sequence_id = add_size c.next_sequence_id 1 }, thrown)).0
      called true =
          send_request-Quiet wire _ c.next_sequence_id (encode_request meta body c.next_sequence_id)
            results (registered-Quiet parses wire c c.next_sequence_id _ context q)
      called false =
          subst
            (λ w. Quiet parses w (record c { next_sequence_id = add_size c.next_sequence_id 1 }))
            (sym (append-nil wire)) (numbered-Quiet wire c _ q)
  loop_step-Quietly wire c (calls response (some coroutine) meta body results) q =
      Quietly-same parses wire _ (
        Quietly-some parses wire _ (
          Quiet-if parses wire c.running _ _
            (coroutine-Quiet wire _ c.next_sequence_id coroutine
              (encode_request meta body c.next_sequence_id) results
              (registered-Quiet parses wire c c.next_sequence_id _ context q))
            (numbered-Quiet wire c _ q)))
    where
      context : ResponseContext
      context = record { response = response; coroutine = some coroutine }
  loop_step-Quietly wire c (reads results) q =
      Quietly-same parses wire _ (on_read-Quietly parses wire c results q)
  loop_step-Quietly wire c (writes failed results) q = Quietly-same parses wire _ (
      subst (λ t. Quietly parses wire (if t then some (on_write c failed results) else some c))
        (sym q.unasked) (Quietly-some parses wire c q))

  pub loop_steps-Quietly :
      (wire : List ℕ) (c : BinaryRpcChannel) (steps : List LoopStep)
      → Quiet parses wire c
      → Quietly parses (wire ++ all_direct_bytes parses c steps) (loop_steps parses c steps)
  loop_steps-Quietly wire c [] q = Quietly-same parses wire (some c) (Quietly-some parses wire c q)
  loop_steps-Quietly wire c (s ∷ steps) q =
      onward (loop_step parses c s) (loop_step-Quietly wire c s q)
        (λ d. loop_steps-Quietly (wire ++ direct_bytes c s) d steps)
    where
      onward :
          (r : Option BinaryRpcChannel)
          → Quietly parses (wire ++ direct_bytes c s) r
          → ((d : BinaryRpcChannel)
              → Quiet parses (wire ++ direct_bytes c s) d
              → Quietly parses
                  ((wire ++ direct_bytes c s) ++ all_direct_bytes parses d steps)
                  (loop_steps parses d steps))
          → Quietly parses
              (wire
                ++ (direct_bytes c s
                    ++ elim r [ none ↦ [] | some d ↦ all_direct_bytes parses d steps ]))
              (and_then r (λ d. loop_steps parses d steps))
      onward none q next = λ d e. cc e
      onward (some d) q next =
          subst (λ w. Quietly parses w (loop_steps parses d steps))
            (append_assoc wire (direct_bytes c s) (all_direct_bytes parses d steps))
            (next d (q d refl))
