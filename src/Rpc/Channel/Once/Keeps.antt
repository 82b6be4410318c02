-- ===== src/Rpc/Channel/Once/Keeps.antt =====
-- src/tudou/rpc/binary/BinaryRpcChannel.cpp: what an operation keeps of a channel.
use tudou.Prelude.{
  count_key, count_key-append, ℕ, ◌+◌, ◌≤◌, ◌<◌, ◌≡◌, refl, ap, ◌∙◌, Bool, true, false, List, [],
  ◌∷◌, map, arith, if◌then◌else◌, ltb, ◌==◌, Bool-cases, inl, inr, number_eq, length, take,
}
use tudou.Tcp.Buffer.{Buffer, readable_bytes, readable_start_ptr, advance_read_index}
use tudou.Tcp.Buffer.Contents.{IsValid}
use tudou.Tcp.Buffer.Read.{buffer-advance_read_index}
use tudou.Rpc.Protocol.{RpcHeader, rpc_magic, rpc_header_size}
use tudou.Rpc.Codec.{
  DecodeResult, empty, half_pack, error, decode, take_payload, take_frame, parse_header,
}
use tudou.Rpc.Channel.Write.{
  Reason, ResponseContext, BinaryRpcChannel, fail_request, cleanup_pending_requests, shut,
  stop_channel,
}

count_key-map :
    (k : ℕ) (reason : Reason) (m : List (ℕ × ResponseContext))
    → count_key k (map (fail_request reason) m) ≡ count_key k m
unfolding count_key
count_key-map k reason [] = refl
count_key-map k reason ((j, v) ∷ m) =
    ap (λ n. (if j == k then 1 else 0) + n) (count_key-map k reason m)

-- How often a sequence id waits or has been completed.
abbrev pub told : ℕ → BinaryRpcChannel → ℕ
told s c = count_key s c.pending_requests + count_key s c.completed

pub record Once (c : BinaryRpcChannel) : Type 0 where
  pub at_most : (s : ℕ) → told s c ≤ 1
  pub fresh : (s : ℕ) → c.next_sequence_id ≤ s → told s c ≡ 0
  pub valid : IsValid c.read_buf

-- What a step that brings `more` bytes keeps: ids in use stay as they are, and a channel that has
-- stopped takes no new one on its map.
pub record Kept (c : BinaryRpcChannel) (more : ℕ) (c' : BinaryRpcChannel) : Type 0 where
  pub once : Once c'
  pub same : (s : ℕ) → s < c.next_sequence_id → told s c' ≡ told s c
  pub halted : c.running ≡ false → c'.running ≡ false
  pub refuses : c.running ≡ false → (s : ℕ) → c.next_sequence_id ≤ s → told s c' ≡ 0
  pub older : c.next_sequence_id ≤ c'.next_sequence_id
  pub newer : c'.next_sequence_id ≤ c.next_sequence_id + 1
  pub storage : length c'.read_buf.buffer ≤ length c.read_buf.buffer + more

told-cleanup :
    (s : ℕ) (c : BinaryRpcChannel) (reason : Reason)
    → told s (cleanup_pending_requests c reason) ≡ told s c
unfolding cleanup_pending_requests count_key
told-cleanup s c reason = omega (
  arith,
  count_key-append s c.completed (map (fail_request reason) c.pending_requests),
  count_key-map s reason c.pending_requests,
)

pub cleanup-Kept :
    (c : BinaryRpcChannel) (reason : Reason) → Once c → Kept c 0 (cleanup_pending_requests c reason)
unfolding cleanup_pending_requests
cleanup-Kept c reason o = record {
  once = record {
    at_most = λ s. omega (arith, told-cleanup s c reason, o.at_most s);
    fresh = λ s h. told-cleanup s c reason ∙ o.fresh s h;
    valid = o.valid;
  };
  same = λ s h. told-cleanup s c reason;
  halted = λ e. e;
  refuses = λ e s h. told-cleanup s c reason ∙ o.fresh s h;
  older = omega arith;
  newer = omega arith;
  storage = omega arith;
}

pub shut-Kept : (c : BinaryRpcChannel) (reason : Reason) → Once c → Kept c 0 (shut c reason)
unfolding shut cleanup_pending_requests
shut-Kept c reason o =
    let k = cleanup-Kept c reason o in
    record {
      once = record { at_most = k.once.at_most; fresh = k.once.fresh; valid = k.once.valid };
      same = k.same;
      halted = λ e. refl;
      refuses = k.refuses;
      older = k.older;
      newer = k.newer;
      storage = k.storage;
    }

pub stop_channel-Kept : (c : BinaryRpcChannel) → Once c → Kept c 0 (stop_channel c)
stop_channel-Kept c o = record {
  once = record { at_most = o.at_most; fresh = o.fresh; valid = o.valid };
  same = λ s h. refl;
  halted = λ e. refl;
  refuses = λ e. o.fresh;
  older = omega arith;
  newer = omega arith;
  storage = omega arith;
}

buffer-take_payload : (b : Buffer) (n : ℕ) → (take_payload b n).1.buffer ≡ b.buffer
unfolding take_payload
buffer-take_payload b n = elim (Bool-cases (ltb 0 n)) [
  | inl e ↦ rw e (buffer-advance_read_index b n)
  | inr e ↦ rw e refl
]

buffer-if :
    (t : Bool) (x y : DecodeResult × Buffer) (bytes : List ℕ)
    → x.1.buffer ≡ bytes
    → y.1.buffer ≡ bytes
    → (if t then x else y).1.buffer ≡ bytes
buffer-if true x y bytes e f = e
buffer-if false x y bytes e f = f

pub buffer-decode : (b : Buffer) → (decode b).1.buffer ≡ b.buffer
unfolding decode take_frame
buffer-decode b =
    buffer-if (ltb (readable_bytes b) rpc_header_size) (empty, b) _ b.buffer refl
      (buffer-if (h.magic == rpc_magic) _ (error, b) b.buffer
        (buffer-if (ltb (readable_bytes b) (rpc_header_size + h.meta_len + h.body_len))
          (half_pack, b) (take_frame b h) b.buffer refl taken)
        refl)
  where
    h : RpcHeader
    h = parse_header (take rpc_header_size (readable_start_ptr b))

    taken : (take_frame b h).1.buffer ≡ b.buffer
    taken =
        buffer-take_payload (take_payload (advance_read_index b rpc_header_size) h.meta_len).1
          h.body_len
        ∙ buffer-take_payload (advance_read_index b rpc_header_size) h.meta_len
        ∙ buffer-advance_read_index b rpc_header_size

pub idle-Kept : (c : BinaryRpcChannel) → Once c → Kept c 0 c
idle-Kept c o = record {
  once = o;
  same = λ s h. refl;
  halted = λ e. e;
  refuses = λ e. o.fresh;
  older = omega arith;
  newer = omega arith;
  storage = omega arith;
}

pub buffered-Kept :
    (c : BinaryRpcChannel) (b : Buffer)
    → Once c
    → IsValid b
    → (more : ℕ) → length b.buffer ≤ length c.read_buf.buffer + more
    → Kept c more (record c { read_buf = b })
buffered-Kept c b o v more h = record {
  once = record { at_most = o.at_most; fresh = o.fresh; valid = v };
  same = λ s h. refl;
  halted = λ e. e;
  refuses = λ e. o.fresh;
  older = omega arith;
  newer = omega arith;
  storage = h;
}

pub receiving-Kept :
    (c d : BinaryRpcChannel) (more : ℕ) (receiving : Bool)
    → Kept c more d
    → Kept c more (record d { receiving = receiving })
receiving-Kept c d more receiving k = record {
  once = record { at_most = k.once.at_most; fresh = k.once.fresh; valid = k.once.valid };
  same = k.same;
  halted = k.halted;
  refuses = k.refuses;
  older = k.older;
  newer = k.newer;
  storage = k.storage;
}

pub Kept_then :
    (c d e : BinaryRpcChannel) (n m t : ℕ)
    → Kept c n d
    → d.next_sequence_id ≡ c.next_sequence_id
    → Kept d m e
    → n + m ≤ t
    → Kept c t e
Kept_then c d e n m t k same_ids l sum = record {
  once = l.once;
  same = λ s h. l.same s (omega (arith, same_ids)) ∙ k.same s h;
  halted = λ e. l.halted (k.halted e);
  refuses = λ e s h. l.refuses (k.halted e) s (omega (arith, same_ids, h));
  older = omega (arith, l.older, same_ids);
  newer = omega (arith, l.newer, same_ids);
  storage = omega (arith, l.storage, k.storage);
}
