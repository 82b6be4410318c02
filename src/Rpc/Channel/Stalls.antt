-- ===== src/Rpc/Channel/Stalls.antt =====
-- src/tudou/rpc/binary/BinaryRpcChannel.cpp: a channel on the event loop that has flushed once
-- writes nothing more by itself.
pub mod Steps
mod Events
mod Calls
use tudou.Prelude.{
  append_assoc, add_size, ℕ, zero, suc, ◌≡◌, refl, ap, sym, ◌∙◌, subst, Bool, true, false, List, [],
  ◌∷◌, ◌++◌, Option, none, some, arith, if◌then◌else◌, Bool-cases, inl, inr, number_eq, take, drop,
  take-append-drop, append-nil,
}
use tudou.Tcp.Buffer.{Buffer}
use tudou.Reactor.Channel.{Channel, is_writing, disable_writing, disable_all}
use tudou.Rpc.Codec.{DecodeResult, success, empty, half_pack, error, decode}
use tudou.Rpc.Channel.Write.{
  decode_error, read_failed, ResponseContext, Reason, BinaryRpcChannel, on_channel, shut,
  cleanup_pending_requests, WriteResult, wrote, interrupted, would_block, refused, Written, drained,
  write_bytes, after_request, write_request_nonblocking, on_write, after_flush, is_nil,
}
use tudou.Rpc.Channel.Calls.{
  CallState, encode_request, call_method, send_request, thrown, waiting, forget, write_blocking,
  send_for_thread, registered, ReadResult, read_socket, answer, turn, serve_responses, on_read,
}
use tudou.Rpc.Channel.Once.Operations.{and_then}
use tudou.Rpc.Channel.Stalls.Steps.{
  LoopStep, calls, reads, writes, written_by_thread, direct_bytes, wants_write, loop_step,
  loop_steps, all_direct_bytes,
}
use tudou.Rpc.Channel.Stalls.Events.{Quiet, Quietly}
use tudou.Rpc.Channel.Stalls.Calls.{loop_steps-Quietly}

is_nil→[] : (bytes : List ℕ) → is_nil bytes ≡ true → bytes ≡ []
is_nil→[] [] e = refl
is_nil→[] (b ∷ bytes) e = cc e

write_bytes-drained :
    (bytes : List ℕ) (results : List WriteResult)
    → (write_bytes bytes results).end ≡ drained
    → (write_bytes bytes results).sent ≡ bytes
unfolding write_bytes
write_bytes-drained [] results e = refl
write_bytes-drained (b ∷ bytes) [] e = cc e
write_bytes-drained (b ∷ bytes) (wrote n ∷ results) e =
    ap (λ rest. take n (b ∷ bytes) ++ rest) (write_bytes-drained (drop n (b ∷ bytes)) results e)
    ∙ take-append-drop n (b ∷ bytes)
write_bytes-drained (b ∷ bytes) (interrupted ∷ results) e =
    write_bytes-drained (b ∷ bytes) results e
write_bytes-drained (b ∷ bytes) (would_block ∷ results) e = cc e
write_bytes-drained (b ∷ bytes) (refused ∷ results) e = cc e

module _ (parses : ℕ → List ℕ → Bool) where
  off : (o : Option Channel) → wants_write (on_channel disable_writing o) ≡ false
  unfolding disable_writing
  off none = refl
  off (some ch) = refl

  flushed-Quiet :
      (c : BinaryRpcChannel) (results : List WriteResult)
      → c.connected ≡ false
      → (write_bytes c.write_buffer results).end ≡ drained
      → Quiet parses (c.wire ++ c.write_buffer) (on_write c false results)
  unfolding on_write
  flushed-Quiet c results e f = elim (Bool-cases (is_nil c.write_buffer)) [
    | inl nothing ↦
        subst (Quiet parses (c.wire ++ c.write_buffer)) (ap choose (sym nothing)) (record {
          unconnected = e;
          unasked = off c.channel;
          unsent = sym (
              ap (λ bytes. c.wire ++ bytes) (is_nil→[] c.write_buffer nothing) ∙ append-nil c.wire);
        })
    | inr more ↦
        subst (Quiet parses (c.wire ++ c.write_buffer))
          (ap (λ end. after_flush c (record w { end = end })) (sym f) ∙ ap choose (sym more))
          (record {
            unconnected = e;
            unasked = off c.channel;
            unsent = ap (λ bytes. c.wire ++ bytes) (write_bytes-drained c.write_buffer results f);
          })
  ]
    where
      w : Written
      w = write_bytes c.write_buffer results

      choose : Bool → BinaryRpcChannel
      choose t =
          if t then record c { channel = on_channel disable_writing c.channel } else after_flush c w

  -- A channel on the event loop that is not marked as connected, as its constructor leaves it,
  -- writes what it has buffered at a write event. If the kernel takes it all, no request that a
  -- coroutine makes later is ever written, in whichever order calls, read events and write
  -- events follow: nothing more goes out than what calls from outside a coroutine write to the
  -- socket themselves.
  pub loop_steps_stall :
      (c : BinaryRpcChannel) (results : List WriteResult) (steps : List LoopStep)
      (d : BinaryRpcChannel)
      → c.connected ≡ false
      → (write_bytes c.write_buffer results).end ≡ drained
      → loop_steps parses (on_write c false results) steps ≡ some d
      → d.wire
        ≡ (c.wire ++ c.write_buffer) ++ all_direct_bytes parses (on_write c false results) steps
  loop_steps_stall c results steps d e f ran =
      (loop_steps-Quietly parses (c.wire ++ c.write_buffer) (on_write c false results) steps
        (flushed-Quiet c results e f) d ran).unsent
