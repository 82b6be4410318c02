-- ===== src/Rpc/Channel/Once.antt =====
-- src/tudou/rpc/binary/BinaryRpcChannel.cpp: who is told of a response, and how often.
pub mod Keeps
pub mod Operations
mod Reads
pub mod Responses
mod Sends
use tudou.Prelude.{
  count_key, ℕ, zero, suc, ◌+◌, ◌-◌, ◌≤◌, ◌<◌, ◌≡◌, refl, ap, sym, ◌∙◌, Bool, true, false, ◌&&◌,
  ◌||◌, ◌==◌, ltb, if◌then◌else◌, List, [], ◌∷◌, ◌++◌, Option, none, some, arith, length,
  Bool-cases, inl, inr, size_mod, append-nil,
}
use tudou.Tcp.Buffer.{Buffer, write_to_buffer, initial_size}
use tudou.Tcp.Buffer.Contents.{IsValid, max_size, contents, length-contents, new_buffer-IsValid}
use tudou.Tcp.Buffer.Write.{write_to_buffer_appends, length-write_to_buffer_le}
use tudou.Rpc.Channel.Write.{
  Reason, ResponseContext, BinaryRpcChannel, new_blocking, WriteResult, on_write, shut,
  stop_channel, closed_prematurely, read_failed, destructed, cleanup_pending_requests,
}
use tudou.Rpc.Channel.Calls.{
  call_method, register_request, forget, ReadResult, received, signal, again, reset, end_of_file,
  read_socket, on_read, receive_turn, receive_round, destruct, serve_buffered,
}
use tudou.Rpc.Channel.Once.Responses.{Served, serve_responses-Served}
use tudou.Rpc.Channel.Once.Keeps.{
  told, Once, Kept, shut-Kept, idle-Kept, buffered-Kept, Kept_then, receiving-Kept, cleanup-Kept,
  stop_channel-Kept,
}
use tudou.Rpc.Channel.Once.Sends.{
  call_method-Kept, register_request-Kept, forget-Once, told-forget_other, told-forget_le,
  on_write-Kept,
}
use tudou.Rpc.Channel.Once.Operations.{
  Operation, calls, registers, throws, reads, writes, receives, cleans, stops, destructs, bytes_of,
  bytes_read, brought, brought_by, gives_up, is_given_up, and_then, step, operations,
}
use tudou.Rpc.Channel.Once.Reads.{Stepped, on_read-Stepped, receive_round-Stepped}

pub new_blocking-Once : Once new_blocking
unfolding count_key
new_blocking-Once = record {
  at_most = λ s. omega arith;
  fresh = λ s h. refl;
  valid = new_buffer-IsValid initial_size (omega arith);
}

module _ (parses : ℕ → List ℕ → Bool) where
  -- The same of an operation, which can be the end of a call.
  record Moved (c : BinaryRpcChannel) (op : Operation) : Type 0 where
    after : BinaryRpcChannel
    run : step parses c op ≡ some after
    once : Once after
    same : (s : ℕ) → s < c.next_sequence_id → gives_up s op ≡ false → told s after ≡ told s c
    fewer : (s : ℕ) → s < c.next_sequence_id → told s after ≤ told s c
    halted : c.running ≡ false → after.running ≡ false
    refuses : c.running ≡ false → (s : ℕ) → c.next_sequence_id ≤ s → told s after ≡ 0
    older : c.next_sequence_id ≤ after.next_sequence_id
    newer : after.next_sequence_id ≤ c.next_sequence_id + 1
    storage : length after.read_buf.buffer ≤ length c.read_buf.buffer + brought op

  Stepped-Moved :
      (c : BinaryRpcChannel) (op : Operation)
      → Stepped parses c (brought op) (step parses c op)
      → Moved c op
  Stepped-Moved c op s = record {
    after = s.after;
    run = s.run;
    once = s.kept.once;
    same = λ i h g. s.kept.same i h;
    fewer = λ i h. omega (arith, s.kept.same i h);
    halted = s.kept.halted;
    refuses = s.kept.refuses;
    older = s.kept.older;
    newer = s.kept.newer;
    storage = s.kept.storage;
  }

  Kept-Moved :
      (c : BinaryRpcChannel) (op : Operation) (d : BinaryRpcChannel)
      → step parses c op ≡ some d
      → Kept c (brought op) d
      → Moved c op
  Kept-Moved c op d e k = Stepped-Moved c op (record { after = d; run = e; kept = k })

  step-Moved :
      (c : BinaryRpcChannel) (o : Operation)
      → Once c
      → c.next_sequence_id + 1 < size_mod
      → length c.read_buf.buffer + brought o ≤ max_size
      → Moved c o
  unfolding destruct
  step-Moved c (calls context meta body results) o room small =
      Kept-Moved c _ _ refl (call_method-Kept c context meta body results o room)
  step-Moved c (registers context) o room small =
      Kept-Moved c _ _ refl (register_request-Kept c context o room)
  step-Moved c (throws seq) o room small =
      let d = forget-Once c seq o in
      record {
        after = forget c seq;
        run = refl;
        once = d;
        same = λ s h. told-forget_other c seq s;
        fewer = λ s h. told-forget_le c seq s;
        halted = λ e. e;
        refuses = λ e. d.fresh;
        older = omega arith;
        newer = omega arith;
        storage = omega arith;
      }
  step-Moved c (writes failed results) o room small =
      Kept-Moved c _ _ refl (on_write-Kept c failed results o)
  step-Moved c (cleans reason) o room small = Kept-Moved c _ _ refl (cleanup-Kept c reason o)
  step-Moved c stops o room small = Kept-Moved c _ _ refl (stop_channel-Kept c o)
  step-Moved c destructs o room small =
      Kept-Moved c _ _ refl (receiving-Kept c _ 0 false (shut-Kept c destructed o))
  step-Moved c (reads results) o room small =
      Stepped-Moved c (reads results) (on_read-Stepped parses c results o small)
  step-Moved c (receives r) o room small =
      Stepped-Moved c (receives r) (receive_round-Stepped parses c r o small)

  -- Where a run of operations ends.
  pub record Ended (c : BinaryRpcChannel) (os : List Operation) : Type 0 where
    pub after : BinaryRpcChannel
    pub run : operations parses c os ≡ some after
    pub once : Once after
    pub same : (s : ℕ) → s < c.next_sequence_id → is_given_up s os ≡ false → told s after ≡ told s c
    pub fewer : (s : ℕ) → s < c.next_sequence_id → told s after ≤ told s c
    pub refuses : c.running ≡ false → (s : ℕ) → c.next_sequence_id ≤ s → told s after ≡ 0

  -- After any sequence of operations that are done one after the other, where those of several
  -- threads mix at the mutex of the map and a coroutine that is resumed goes on later: the
  -- decoding has not run out of fuel; no request has been completed twice, or has been completed
  -- and is on the map; a request that was on the map at the start is still or has been completed
  -- once, unless its own call has thrown; and if the channel had stopped at the start, no
  -- request that was made since has been put on the map. At the start no request has been
  -- completed twice or been completed while it is on the map, the next sequence ids are unused,
  -- and the read buffer is valid; the ids do not wrap, and the bytes that arrive are below the
  -- largest vector size.
  pub operations-Ended :
      (os : List Operation) (c : BinaryRpcChannel)
      → Once c
      → c.next_sequence_id + length os < size_mod
      → length c.read_buf.buffer + brought_by os ≤ max_size
      → Ended c os
  operations-Ended [] c o room small = record {
    after = c;
    run = refl;
    once = o;
    same = λ s h g. refl;
    fewer = λ s h. omega arith;
    refuses = λ e. o.fresh;
  }
  operations-Ended (op ∷ os) c o room small =
      let s = step-Moved c op o (omega arith) (omega arith) in
      let e =
        operations-Ended os s.after s.once (omega (arith, s.newer, room))
          (omega (arith, s.storage, small)) in
      record {
        after = e.after;
        run = ap (λ r. and_then r (λ d. operations parses d os)) s.run ∙ e.run;
        once = e.once;
        same = λ i h g.
            e.same i (omega (arith, s.older)) (ground (arith, g)) ∙ s.same i h (ground (arith, g));
        fewer = λ i h. omega (arith, e.fewer i (omega (arith, s.older)), s.fewer i h);
        refuses = λ down i h. elim (Bool-cases (ltb i s.after.next_sequence_id)) [
          | inl l ↦ omega (arith, e.fewer i (ground (arith, l)), s.refuses down i h)
          | inr l ↦ e.refuses (s.halted down) i (ground (arith, l))
        ];
      }
