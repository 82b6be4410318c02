-- ===== src/Rpc/Codec/RoundTrip.antt =====
-- src/tudou/rpc/binary/BinaryRpcCodec.cpp: what encode writes, decode reads.
use tudou.Prelude.{
  ℕ, ◌+◌, ◌^◌, ◌≤◌, ◌<◌, ◌≡◌, refl, ap, ◌∙◌, sym, List, [], ◌++◌, arith, length, append-nil,
}
use tudou.Tcp.Buffer.{Buffer}
use tudou.Tcp.Buffer.Contents.{IsValid, contents, max_size}
use tudou.Rpc.Protocol.{
  RpcMessageType, request, response, heartbeat, RpcHeader, rpc_header_size, type_code,
}
use tudou.Rpc.Codec.{success, encode, decode, header_of}
use tudou.Rpc.Codec.Frame.{InRange, frame, split_frame, split_frame-frame}
use tudou.Rpc.Codec.Refine.{decode-split_frame, encode_appends}

type_code-lt : (t : RpcMessageType) → type_code t < 2 ^ 8
type_code-lt request = omega arith
type_code-lt response = omega arith
type_code-lt heartbeat = omega arith

-- A message whose sequence id and payloads fit their fields.
pub record Fits (sequence_id : ℕ) (meta_bytes body_bytes : List ℕ) : Type 0 where
  pub sequence_id_64 : sequence_id < 2 ^ 64
  pub meta_32 : length meta_bytes < 2 ^ 32
  pub body_32 : length body_bytes < 2 ^ 32

pub header_of-InRange :
    (type : RpcMessageType) (sequence_id : ℕ) (meta_bytes body_bytes : List ℕ)
    → Fits sequence_id meta_bytes body_bytes
    → InRange (header_of type sequence_id meta_bytes body_bytes)
header_of-InRange type sequence_id meta_bytes body_bytes f = record {
  magic_16 = omega arith;
  version_8 = omega arith;
  type_8 = type_code-lt type;
  sequence_id_64 = f.sequence_id_64;
  meta_len_32 = omega arith;
  body_len_32 = omega arith;
}

pub split_frame-header_of :
    (type : RpcMessageType) (sequence_id : ℕ) (meta_bytes body_bytes rest : List ℕ)
    → Fits sequence_id meta_bytes body_bytes
    → let h = header_of type sequence_id meta_bytes body_bytes in
      split_frame (frame h meta_bytes body_bytes ++ rest) ≡ (success h meta_bytes body_bytes, rest)
split_frame-header_of type sequence_id meta_bytes body_bytes rest f =
    split_frame-frame (header_of type sequence_id meta_bytes body_bytes) meta_bytes body_bytes rest
      (header_of-InRange type sequence_id meta_bytes body_bytes f) refl (omega arith) (omega arith)

-- What `encode` writes to an empty valid buffer, `decode` reads back: the header with the type, the
-- sequence id and the two lengths, and both payloads; the buffer is empty and valid again. The
-- sequence id is below 2^64, each payload is shorter than 2^32 bytes, and the storage stays below
-- the largest vector size.
pub decode-encode :
    {b : Buffer} (type : RpcMessageType) (sequence_id : ℕ) (meta_bytes body_bytes : List ℕ)
    → IsValid b
    → contents b ≡ []
    → Fits sequence_id meta_bytes body_bytes
    → length b.buffer + (rpc_header_size + length meta_bytes + length body_bytes) ≤ max_size
    → let (result, after) = decode (encode b type sequence_id meta_bytes body_bytes) in
      (result ≡ success (header_of type sequence_id meta_bytes body_bytes) meta_bytes body_bytes)
      × (contents after ≡ [])
      × IsValid after
decode-encode {b} type sequence_id meta_bytes body_bytes v none_left f small =
    let (valid, appended) = encode_appends type sequence_id meta_bytes body_bytes v small in
    let (result, rest, valid') = decode-split_frame valid in
    let whole =
      appended
      ∙ ap (λ c. c ++ frame h meta_bytes body_bytes) none_left
      ∙ sym (append-nil (frame h meta_bytes body_bytes)) in
    let split =
      ap split_frame whole ∙ split_frame-header_of type sequence_id meta_bytes body_bytes [] f in
    (result ∙ ap (λ p. p.0) split, rest ∙ ap (λ p. p.1) split, valid')
  where
    h : RpcHeader
    h = header_of type sequence_id meta_bytes body_bytes
