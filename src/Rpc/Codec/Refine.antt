-- ===== src/Rpc/Codec/Refine.antt =====
-- src/tudou/rpc/binary/BinaryRpcCodec.cpp: encode and decode on a buffer do on its readable bytes
-- what `frame` and `split_frame` say.
use tudou.Prelude.{
  ℕ, ◌+◌, ◌-◌, ◌≤◌, ◌≡◌, refl, ap, ◌∙◌, inl, inr, List, [], ◌∷◌, ◌++◌, arith, length, take, drop,
  ltb, ◌==◌, Bool-cases, length-drop, drop-drop, append_assoc,
}
use tudou.Tcp.Buffer.{Buffer, write_to_buffer, readable_bytes, advance_read_index}
use tudou.Tcp.Buffer.Contents.{IsValid, contents, max_size, length-contents}
use tudou.Tcp.Buffer.Read.{take-readable, advance_read_index_drops}
use tudou.Tcp.Buffer.Write.{write_to_buffer_appends, length-write_to_buffer_le}
use tudou.Rpc.Protocol.{RpcMessageType, RpcHeader, rpc_magic, rpc_header_size, header_bytes}
use tudou.Rpc.Codec.{
  DecodeResult, success, encode, decode, parse_header, take_payload, take_frame, write_unless_empty,
  header_of,
}
use tudou.Rpc.Codec.Frame.{frame, split_frame, length-header_bytes}

abbrev readable : Buffer → ℕ
readable b = length (contents b)

readable_bytes-eq : {b : Buffer} → IsValid b → readable_bytes b ≡ readable b
readable_bytes-eq v = omega (arith, length-contents v)

-- A payload of at most the readable bytes is taken off their front.
record TakesPayload (b : Buffer) (n : ℕ) : Type 0 where
  text : (take_payload b n).0 ≡ take n (contents b)
  rest : contents (take_payload b n).1 ≡ drop n (contents b)
  valid : IsValid (take_payload b n).1

take_payload-TakesPayload : {b : Buffer} (n : ℕ) → IsValid b → n ≤ readable b → TakesPayload b n
unfolding take_payload
take_payload-TakesPayload {b} n v h = elim (Bool-cases (ltb 0 n)) [
  | inl some_bytes ↦
      let (valid, dropped) = advance_read_index_drops n v in
      record {
        text = rw some_bytes (take-readable n v (omega (arith, length-contents v)));
        rest = rw some_bytes dropped;
        valid = rw some_bytes valid;
      }
  | inr none_left ↦
      let e : n ≡ 0 = ground arith in
      record { text = rw none_left (rw e); rest = rw none_left (rw e); valid = rw none_left v }
]

-- What `decode` does to the buffer, against `split_frame` on its readable bytes.
record Splits (b : Buffer) (out : DecodeResult × Buffer) (spec : DecodeResult × List ℕ)
    : Type 0 where
  result : out.0 ≡ spec.0
  rest : contents out.1 ≡ spec.1
  valid : IsValid out.1

take_frame-Splits :
    {b : Buffer} (h : RpcHeader)
    → IsValid b
    → rpc_header_size + h.meta_len + h.body_len ≤ readable b
    → Splits b (take_frame b h) (
      success h
          (take h.meta_len (drop rpc_header_size (contents b)))
          (take h.body_len (drop (rpc_header_size + h.meta_len) (contents b))),
      drop (rpc_header_size + h.meta_len + h.body_len) (contents b),
    )
unfolding take_frame
take_frame-Splits {b} h v enough =
    let meta = take_payload-TakesPayload h.meta_len valid (omega (arith, behind_header)) in
    let body =
      take_payload-TakesPayload h.body_len meta.valid (room behind_meta (ap length meta.rest)) in
    record {
      result =
          λ i. success h (meta_text meta.text i) (body_text _ behind_meta body.text meta.rest i);
      rest =
          body.rest
          ∙ ap (drop h.body_len) (meta.rest ∙ ap (drop h.meta_len) dropped)
          ∙ ap (drop h.body_len) (drop-drop h.meta_len rpc_header_size (contents b))
          ∙ drop-drop h.body_len (rpc_header_size + h.meta_len) (contents b);
      valid = body.valid;
    }
  where
    behind : Buffer
    behind = advance_read_index b rpc_header_size

    behind_meta : Buffer
    behind_meta = (take_payload behind h.meta_len).1

    valid : IsValid behind
    valid = (advance_read_index_drops rpc_header_size v).0

    dropped : contents behind ≡ drop rpc_header_size (contents b)
    dropped = (advance_read_index_drops rpc_header_size v).1

    behind_header : readable behind ≡ readable b - rpc_header_size
    behind_header = ap length dropped ∙ length-drop rpc_header_size (contents b)

    room :
        (b' : Buffer)
        → readable b' ≡ length (drop h.meta_len (contents behind))
        → h.body_len ≤ readable b'
    room b' e = omega (arith, e, length-drop h.meta_len (contents behind), behind_header)

    meta_text :
        {text : List ℕ}
        → text ≡ take h.meta_len (contents behind)
        → text ≡ take h.meta_len (drop rpc_header_size (contents b))
    meta_text e = e ∙ ap (take h.meta_len) dropped

    body_text :
        (text : List ℕ) (b' : Buffer)
        → text ≡ take h.body_len (contents b')
        → contents b' ≡ drop h.meta_len (contents behind)
        → text ≡ take h.body_len (drop (rpc_header_size + h.meta_len) (contents b))
    body_text text b' e rest =
        e
        ∙ ap (take h.body_len) (rest ∙ ap (drop h.meta_len) dropped)
        ∙ ap (take h.body_len) (drop-drop h.meta_len rpc_header_size (contents b))

decode-Splits : {b : Buffer} → IsValid b → Splits b (decode b) (split_frame (contents b))
unfolding decode split_frame
decode-Splits {b} v = elim (Bool-cases (ltb (readable b) rpc_header_size)) [
  | inl short ↦ rw (readable_bytes-eq v, short) (record { result = refl; rest = refl; valid = v })
  | inr long ↦
      rw (readable_bytes-eq v, take-readable rpc_header_size v (holds (ground arith)), long)
        (elim (Bool-cases (h.magic == rpc_magic)) [
          | inl ours ↦
              rw ours
                (elim (Bool-cases (ltb (readable b) (rpc_header_size + h.meta_len + h.body_len))) [
                  | inl half ↦ rw half (record { result = refl; rest = refl; valid = v })
                  | inr whole ↦ rw whole (take_frame-Splits h v (ground arith))
                ])
          | inr foreign ↦ rw foreign (record { result = refl; rest = refl; valid = v })
        ])
]
  where
    h : RpcHeader
    h = parse_header (take rpc_header_size (contents b))

    holds : rpc_header_size ≤ readable b → rpc_header_size ≤ b.write_index - b.read_index
    holds h = omega (arith, length-contents v)

-- `decode` on a valid buffer gives the result that `split_frame` gives on the readable bytes, and
-- leaves the bytes that it leaves; so it takes a whole frame or nothing at all.
pub decode-split_frame :
    {b : Buffer}
    → IsValid b
    → ((decode b).0 ≡ (split_frame (contents b)).0)
      × (contents (decode b).1 ≡ (split_frame (contents b)).1)
      × IsValid (decode b).1
decode-split_frame {b} v = let s = decode-Splits v in (s.result, s.rest, s.valid)

write_unless_empty-eq :
    (b : Buffer) (bytes : List ℕ) → write_unless_empty b bytes ≡ write_to_buffer b bytes
unfolding write_to_buffer
write_unless_empty-eq b [] = refl
write_unless_empty-eq b (x ∷ bytes) = refl

record Appends (b : Buffer) (bytes : List ℕ) (after : Buffer) : Type 0 where
  valid : IsValid after
  same : contents after ≡ contents b ++ bytes
  storage : length after.buffer ≤ length b.buffer + length bytes

write-Appends :
    {b : Buffer} (bytes : List ℕ)
    → IsValid b
    → length b.buffer + length bytes ≤ max_size
    → Appends b bytes (write_to_buffer b bytes)
write-Appends bytes v small =
    let (valid, same) = write_to_buffer_appends bytes v (omega arith) in
    record { valid = valid; same = same; storage = length-write_to_buffer_le bytes v (omega arith) }

-- On a valid buffer, and within the largest vector size, `encode` appends exactly one frame and
-- keeps what was readable before.
pub encode_appends :
    {b : Buffer} (type : RpcMessageType) (sequence_id : ℕ) (meta_bytes body_bytes : List ℕ)
    → IsValid b
    → length b.buffer + (rpc_header_size + length meta_bytes + length body_bytes) ≤ max_size
    → let after = encode b type sequence_id meta_bytes body_bytes in
      let h = header_of type sequence_id meta_bytes body_bytes in
      IsValid after × (contents after ≡ contents b ++ frame h meta_bytes body_bytes)
unfolding encode
encode_appends {b} type sequence_id meta_bytes body_bytes v small =
    let a = write-Appends (header_bytes h) v (omega (arith, length-header_bytes h)) in
    let a1 = write-Appends meta_bytes a.valid (omega (arith, a.storage, length-header_bytes h)) in
    let a2 =
      write-Appends body_bytes a1.valid
        (omega (arith, a.storage, a1.storage, length-header_bytes h)) in
    rw
      (
        write_unless_empty-eq (write_to_buffer b (header_bytes h)) meta_bytes,
        write_unless_empty-eq _ body_bytes,
      )
      (
        a2.valid,
        a2.same
            ∙ ap (λ c. c ++ body_bytes) (a1.same ∙ ap (λ c. c ++ meta_bytes) a.same)
            ∙ ap (λ c. c ++ body_bytes) (append_assoc (contents b) (header_bytes h) meta_bytes)
            ∙ append_assoc (contents b) (header_bytes h ++ meta_bytes) body_bytes
            ∙ ap (◌++◌ (contents b)) (append_assoc (header_bytes h) meta_bytes body_bytes),
      )
  where
    h : RpcHeader
    h = header_of type sequence_id meta_bytes body_bytes
