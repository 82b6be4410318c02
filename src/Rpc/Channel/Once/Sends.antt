-- ===== src/Rpc/Channel/Once/Sends.antt =====
-- src/tudou/rpc/binary/BinaryRpcChannel.cpp: writes leave the requests as they are, but for errors.
use tudou.Prelude.{
  ◌≤◌, count_key, count_key-erase, count_key-insert, ℕ, ◌+◌, ◌<◌, ◌≡◌, refl, ap, ap₂, ◌∙◌, ◌⊎◌, inl,
  inr, Bool, true, false, List, ◌++◌, Option, none, some, arith, if◌then◌else◌, ◌==◌, Bool-cases,
  insert, erase, number_eq, length, add_size, size_mod,
}
use tudou.Tcp.Buffer.{Buffer}
use tudou.Reactor.Channel.{Channel, disable_writing}
use tudou.Rpc.Channel.Write.{
  on_channel, ResponseContext, BinaryRpcChannel, WriteResult, Written, WriteEnd, drained, blocked,
  broken, write_bytes, write_request_nonblocking, is_nil, after_flush, on_write, shut, Reason,
  connect_failed, write_failed,
}
use tudou.Rpc.Channel.Calls.{
  CallState, encode_request, write_blocking, send_request, registered, call_method,
  register_request, forget,
}
use tudou.Rpc.Channel.Once.Keeps.{told, Once, Kept, shut-Kept, idle-Kept, Kept_then}

-- All that the invariant speaks of is as before.
record Same (c c' : BinaryRpcChannel) : Type 0 where
  pending : c'.pending_requests ≡ c.pending_requests
  completed : c'.completed ≡ c.completed
  ids : c'.next_sequence_id ≡ c.next_sequence_id
  runs : c'.running ≡ c.running
  buffer : c'.read_buf ≡ c.read_buf

write_request-Same :
    (c : BinaryRpcChannel) (bytes : List ℕ) (results : List WriteResult)
    → Same c (write_request_nonblocking c bytes results).0
unfolding write_request_nonblocking
write_request-Same c bytes results = record {
  pending = ground arith;
  completed = ground arith;
  ids = ground arith;
  runs = ground arith;
  buffer = ground arith;
}

tables-Same :
    (c : BinaryRpcChannel) (write_buffer wire : List ℕ) (channel : Option Channel)
    → Same c (record c { write_buffer = write_buffer; wire = wire; channel = channel })
tables-Same c write_buffer wire channel = record {
  pending = refl;
  completed = refl;
  ids = refl;
  runs = refl;
  buffer = refl;
}

itself : (c : BinaryRpcChannel) → Same c c
itself c = record { pending = refl; completed = refl; ids = refl; runs = refl; buffer = refl }

-- The request stays on the map, or it is taken off again under an exception.
send_request-Same :
    (c : BinaryRpcChannel) (seq : ℕ) (coroutine : Option ℕ) (bytes : Option (List ℕ))
    (results : List WriteResult)
    → Same c (send_request c seq coroutine bytes results).0
      ⊎ Same (forget c seq) (send_request c seq coroutine bytes results).0
send_request-Same c seq coroutine none results = inr (itself (forget c seq))
send_request-Same c seq (some coroutine) (some bytes) results =
    inl (write_request-Same c bytes results)
send_request-Same c seq none (some bytes) results =
    elim (Bool-cases (write_blocking bytes results).1) [
      | inl threw ↦ inr (rw threw same)
      | inr sent ↦ inl (rw sent same)
    ]
  where
    same :
        {d : BinaryRpcChannel}
        → Same d (record d { wire = d.wire ++ (write_blocking bytes results).0 })
    same = record { pending = refl; completed = refl; ids = refl; runs = refl; buffer = refl }

numbered : BinaryRpcChannel → BinaryRpcChannel
numbered c = record c { next_sequence_id = add_size c.next_sequence_id 1 }

next_id : (n : ℕ) → n + 1 < size_mod → add_size n 1 ≡ n + 1
next_id n h = omega arith

numbered-Kept :
    (c : BinaryRpcChannel) → Once c → c.next_sequence_id + 1 < size_mod → Kept c 0 (numbered c)
unfolding numbered
numbered-Kept c o room = record {
  once = record {
    at_most = o.at_most;
    fresh = λ s h. o.fresh s (omega (arith, next_id c.next_sequence_id room));
    valid = o.valid;
  };
  same = λ s h. refl;
  halted = λ e. e;
  refuses = λ e. o.fresh;
  older = omega (arith, next_id c.next_sequence_id room);
  newer = omega (arith, next_id c.next_sequence_id room);
  storage = omega arith;
}

Same-Kept : (c d e : BinaryRpcChannel) → Same d e → Kept c 0 d → Kept c 0 e
Same-Kept c d e s k = record {
  once = record {
    at_most = λ i. omega (arith, same_told i, k.once.at_most i);
    fresh = λ i h. same_told i ∙ k.once.fresh i (omega (arith, s.ids));
    valid = rw s.buffer k.once.valid;
  };
  same = λ i h. same_told i ∙ k.same i h;
  halted = λ h. s.runs ∙ k.halted h;
  refuses = λ h i l. same_told i ∙ k.refuses h i l;
  older = omega (arith, s.ids, k.older);
  newer = omega (arith, s.ids, k.newer);
  storage = omega (arith, ap (λ (b : Buffer). length b.buffer) s.buffer, k.storage);
}
  where
    same_told : (i : ℕ) → told i e ≡ told i d
    same_told i = ap₂ ◌+◌ (ap (count_key i) s.pending) (ap (count_key i) s.completed)

module _ (c : BinaryRpcChannel) (context : ResponseContext) (o : Once c) (up : c.running ≡ true)
    (room : c.next_sequence_id + 1 < size_mod) where
  seq : ℕ
  seq = c.next_sequence_id

  unused : count_key seq c.pending_requests ≡ 0
  unfolding seq
  unused = omega (arith, o.fresh c.next_sequence_id (omega arith))

  registered-Kept : Kept c 0 (registered (numbered c) seq context)
  unfolding numbered seq
  registered-Kept = record {
    once = record {
      at_most = λ s. ground (arith, new s, o.at_most s, o.fresh s);
      fresh = λ s h. ground (arith, new s, next_id seq room, o.fresh s);
      valid = o.valid;
    };
    same = λ s h. ground (arith, new s);
    halted = λ e. e;
    refuses = λ e. cc (e, up);
    older = omega (arith, next_id seq room);
    newer = omega (arith, next_id seq room);
    storage = omega arith;
  }
    where
      new :
          (s : ℕ)
          → count_key s (insert seq context c.pending_requests)
            ≡ (if seq == s then 1 else count_key s c.pending_requests)
      new s = count_key-insert seq s context c.pending_requests unused

  forget-Kept : Kept c 0 (forget (registered (numbered c) seq context) seq)
  unfolding numbered seq
  forget-Kept = record {
    once = record {
      at_most = λ s. ground (arith, gone s, o.at_most s);
      fresh = λ s h. ground (arith, gone s, next_id seq room, o.fresh s);
      valid = o.valid;
    };
    same = λ s h. ground (arith, gone s);
    halted = λ e. e;
    refuses = λ e. cc (e, up);
    older = omega (arith, next_id seq room);
    newer = omega (arith, next_id seq room);
    storage = omega arith;
  }
    where
      gone :
          (s : ℕ)
          → count_key s (erase seq (insert seq context c.pending_requests))
            ≡ (if seq == s then 0 else count_key s c.pending_requests)
      gone s =
          count_key-erase seq s (insert seq context c.pending_requests)
          ∙ ground (arith, count_key-insert seq s context c.pending_requests unused)

Kept_if :
    (c : BinaryRpcChannel) (t : Bool) (x y : BinaryRpcChannel × CallState)
    → (t ≡ true → Kept c 0 x.0)
    → (t ≡ false → Kept c 0 y.0)
    → Kept c 0 (if t then x else y).0
Kept_if c true x y f g = f refl
Kept_if c false x y f g = g refl

pub register_request-Kept :
    (c : BinaryRpcChannel) (context : ResponseContext)
    → Once c
    → c.next_sequence_id + 1 < size_mod
    → Kept c 0 (register_request c context)
unfolding register_request numbered seq
register_request-Kept c context o room = chosen c.running refl
  where
    chosen :
        (t : Bool)
        → c.running ≡ t
        → Kept c 0 (if t then registered (numbered c) c.next_sequence_id context else numbered c)
    chosen true up = registered-Kept c context o up room
    chosen false down = numbered-Kept c o room

told-forget :
    (c : BinaryRpcChannel) (seq s : ℕ)
    → told s (forget c seq) ≡ (if seq == s then count_key s c.completed else told s c)
told-forget c seq s = ground (arith, count_key-erase seq s c.pending_requests)

pub forget-Once : (c : BinaryRpcChannel) (seq : ℕ) → Once c → Once (forget c seq)
forget-Once c seq o = record {
  at_most = λ s. ground (arith, told-forget c seq s, o.at_most s);
  fresh = λ s h. ground (arith, told-forget c seq s, o.fresh s h);
  valid = o.valid;
}

-- A request that is not the one given up is told as often as before.
pub told-forget_other :
    (c : BinaryRpcChannel) (seq s : ℕ) → (seq == s) ≡ false → told s (forget c seq) ≡ told s c
told-forget_other c seq s e = told-forget c seq s ∙ rw e refl

pub told-forget_le : (c : BinaryRpcChannel) (seq s : ℕ) → told s (forget c seq) ≤ told s c
told-forget_le c seq s = ground (arith, told-forget c seq s)

pub call_method-Kept :
    (c : BinaryRpcChannel) (context : ResponseContext) (meta body : Option (List ℕ))
    (results : List WriteResult)
    → Once c
    → c.next_sequence_id + 1 < size_mod
    → Kept c 0 (call_method c context meta body results).0
unfolding call_method numbered seq
call_method-Kept c context meta body results o room =
    Kept_if c c.running _ _ sent (λ down. numbered-Kept c o room)
  where
    sent :
        c.running ≡ true
        → Kept c 0
            (send_request
              (registered (numbered c) c.next_sequence_id context)
              c.next_sequence_id
              context.coroutine
              (encode_request meta body c.next_sequence_id)
              results).0
    sent up =
        elim (send_request-Same (registered (numbered c) c.next_sequence_id context)
          c.next_sequence_id context.coroutine (encode_request meta body c.next_sequence_id)
          results) [
            | inl kept ↦ Same-Kept c _ _ kept (registered-Kept c context o up room)
            | inr gone ↦ Same-Kept c _ _ gone (forget-Kept c context o up room)
          ]

shut_after :
    (c d : BinaryRpcChannel) (reason : Reason) → Same c d → Once c → Kept c 0 (shut d reason)
shut_after c d reason s o =
    let k = Same-Kept c c d s (idle-Kept c o) in
    Kept_then c d (shut d reason) 0 0 0 k s.ids (shut-Kept d reason k.once) (omega arith)

after_flush-Kept : (c : BinaryRpcChannel) (w : Written) → Once c → Kept c 0 (after_flush c w)
after_flush-Kept c w o = flushed w.end
  where
    flushed : (e : WriteEnd) → Kept c 0 (after_flush c (record w { end = e }))
    flushed drained = Same-Kept c c _ (tables-Same c _ _ _) (idle-Kept c o)
    flushed blocked = Same-Kept c c _ (tables-Same c _ _ _) (idle-Kept c o)
    flushed broken = shut_after c _ write_failed (tables-Same c _ _ _) o

pub on_write-Kept :
    (c : BinaryRpcChannel) (socket_error : Bool) (results : List WriteResult)
    → Once c
    → Kept c 0 (on_write c socket_error results)
unfolding on_write
on_write-Kept c true results o = shut-Kept c connect_failed o
on_write-Kept c false results o = chosen (is_nil c.write_buffer)
  where
    chosen :
        (t : Bool)
        → Kept c 0 (
            if t
            then record c { channel = on_channel disable_writing c.channel }
            else after_flush c (write_bytes c.write_buffer results))
    chosen true = Same-Kept c c _ (tables-Same c _ _ _) (idle-Kept c o)
    chosen false = after_flush-Kept c (write_bytes c.write_buffer results) o
