-- ===== src/Rpc/Channel/Hangs.antt =====
-- src/tudou/rpc/binary/BinaryRpcChannel.cpp: a call behind the end of the receiving thread.
use tudou.Prelude.{
  ℕ, ◌≡◌, refl, ap, ap₂, sym, ◌∙◌, subst, Bool, true, false, ◌&&◌, List, [], ◌∷◌, ◌++◌, Option,
  none, some, if◌then◌else◌, lookup, lookup_inserted, number_eq, add_size, arith,
}
use tudou.Rpc.Channel.Write.{
  ResponseContext, BinaryRpcChannel, WriteResult, cleanup_pending_requests, closed_prematurely,
}
use tudou.Rpc.Channel.Calls.{
  CallState, thrown, waiting, encode_request, write_blocking, call_method, send_request, forget,
  registered, ReadResult, end_of_file, receive_turn, receive_round,
}
use tudou.Rpc.Channel.Once.Operations.{and_then}

module _ (parses : ℕ → List ℕ → Bool) where
  abbrev pub receive_rounds : BinaryRpcChannel → List ReadResult → Option BinaryRpcChannel
  receive_rounds c [] = some c
  receive_rounds c (r ∷ rs) = and_then (receive_round parses c r) (λ d. receive_rounds d rs)

  idle_round :
      (c : BinaryRpcChannel) (r : ReadResult)
      → c.receiving ≡ false
      → receive_round parses c r ≡ some c
  unfolding receive_round
  idle_round c r e =
      ap (λ t. receive_turn parses c t r) outside
      ∙ ap (λ t. some (record c { receiving = t })) (sym e)
    where
      outside : c.running && c.receiving ≡ false
      outside = ground arith

  idle_rounds :
      (c : BinaryRpcChannel) (rs : List ReadResult)
      → c.receiving ≡ false
      → receive_rounds c rs ≡ some c
  idle_rounds c [] e = refl
  idle_rounds c (r ∷ rs) e =
      ap (λ o. and_then o (λ d. receive_rounds d rs)) (idle_round c r e) ∙ idle_rounds c rs e

  abbrev over : BinaryRpcChannel → BinaryRpcChannel
  over c = record (cleanup_pending_requests c closed_prematurely) { receiving = false }

  over_runs : (c : BinaryRpcChannel) → c.running ≡ true → (over c).running ≡ true
  unfolding cleanup_pending_requests
  over_runs c up = up

  last_round :
      (c : BinaryRpcChannel)
      → c.running ≡ true
      → c.receiving ≡ true
      → receive_round parses c end_of_file ≡ some (over c)
  unfolding receive_round
  last_round c up in_loop = ap (λ t. receive_turn parses c t end_of_file) (ap₂ ◌&&◌ up in_loop)

  -- What the call leaves: the request on the map, and the bytes on their way.
  called :
      (c : BinaryRpcChannel) (context : ResponseContext) (meta body : Option (List ℕ))
      (bytes sent : List ℕ) (results : List WriteResult)
      → c.running ≡ true
      → context.coroutine ≡ none
      → encode_request meta body c.next_sequence_id ≡ some bytes
      → write_blocking bytes results ≡ (sent, false)
      → call_method c context meta body results ≡ (
        record (registered
            (record c { next_sequence_id = add_size c.next_sequence_id 1 })
            c.next_sequence_id
            context) { wire = c.wire ++ sent },
        waiting,
      )
  unfolding call_method
  called c context meta body bytes sent results up blocking encoded written =
      ap
        (λ t.
          if t
          then send_request base c.next_sequence_id context.coroutine
              (encode_request meta body c.next_sequence_id) results
          else (numbered, thrown))
        up
      ∙ ap₂ (λ who o. send_request base c.next_sequence_id who o results) blocking encoded
      ∙ ap
          (λ (w : List ℕ × Bool).
            if w.1
            then (forget (record base { wire = c.wire ++ w.0 }) c.next_sequence_id, thrown)
            else (record base { wire = c.wire ++ w.0 }, waiting))
          written
    where
      numbered : BinaryRpcChannel
      numbered = record c { next_sequence_id = add_size c.next_sequence_id 1 }

      base : BinaryRpcChannel
      base = registered numbered c.next_sequence_id context

  -- Once the receiving thread has met the end of the connection, the channel still says that it
  -- runs. A call on it by a thread, whose request can be encoded and whose bytes the socket takes,
  -- then waits; and no number of rounds of the receiving thread, which has ended, changes that.
  pub call_method_hangs :
      (c d : BinaryRpcChannel) (context : ResponseContext) (meta body : Option (List ℕ))
      (bytes sent : List ℕ) (results : List WriteResult) (rs : List ReadResult)
      → c.running ≡ true
      → c.receiving ≡ true
      → receive_round parses c end_of_file ≡ some d
      → context.coroutine ≡ none
      → encode_request meta body d.next_sequence_id ≡ some bytes
      → write_blocking bytes results ≡ (sent, false)
      → let (after, state) = call_method d context meta body results in
        (state ≡ waiting)
        × (lookup d.next_sequence_id after.pending_requests ≡ some context)
        × (receive_rounds after rs ≡ some after)
  call_method_hangs c d context meta body bytes sent results rs up in_loop ended blocking encoded
        written =
      subst
        (λ (r : BinaryRpcChannel × CallState).
          (r.1 ≡ waiting)
          × (lookup d.next_sequence_id r.0.pending_requests ≡ some context)
          × (receive_rounds r.0 rs ≡ some r.0))
        (sym (called d context meta body bytes sent results runs blocking encoded written))
        (refl, lookup_inserted d.next_sequence_id context d.pending_requests, idle_rounds _ rs out)
    where
      left : over c ≡ d
      left = ap (λ o. elim o [ none ↦ c | some x ↦ x ]) (sym (last_round c up in_loop) ∙ ended)

      runs : d.running ≡ true
      runs = ap (λ (x : BinaryRpcChannel). x.running) (sym left) ∙ over_runs c up

      out : d.receiving ≡ false
      out = ap (λ (x : BinaryRpcChannel). x.receiving) (sym left)
