-- ===== src/Rpc/Codec.antt =====
-- src/tudou/rpc/binary/BinaryRpcCodec.h and BinaryRpcCodec.cpp: frames in a `Buffer`.
pub mod Frame
pub mod Refine
pub mod RoundTrip
pub mod Cut
mod Tests
use tudou.Prelude.{
  ℕ, ◌+◌, ◌%◌, ◌^◌, List, [], ◌∷◌, ltb, ◌==◌, if◌then◌else◌, length, take, drop, add_size,
}
use tudou.Tcp.Buffer.{
  Buffer, write_to_buffer, readable_bytes, readable_start_ptr, advance_read_index,
}
use tudou.Rpc.Protocol.{
  RpcMessageType, RpcHeader, rpc_magic, rpc_version, rpc_header_size, type_code, header_bytes,
  from_be,
}

-- `static_cast<uint32_t>(size)`
abbrev pub to_uint32 : ℕ → ℕ
to_uint32 n = n % 2 ^ 32

abbrev pub header_of : RpcMessageType → ℕ → List ℕ → List ℕ → RpcHeader
header_of type sequence_id meta_bytes body_bytes = record {
  magic = rpc_magic;
  version = rpc_version;
  type = type_code type;
  sequence_id = sequence_id;
  meta_len = to_uint32 (length meta_bytes);
  body_len = to_uint32 (length body_bytes);
}

-- A write of no bytes is skipped by `write_to_buffer` itself as well.
abbrev pub write_unless_empty : Buffer → List ℕ → Buffer
write_unless_empty b [] = b
write_unless_empty b (x ∷ bytes) = write_to_buffer b (x ∷ bytes)

unfoldable pub encode : Buffer → RpcMessageType → ℕ → List ℕ → List ℕ → Buffer
encode b type sequence_id meta_bytes body_bytes =
    let header = header_bytes (header_of type sequence_id meta_bytes body_bytes) in
    write_unless_empty (write_unless_empty (write_to_buffer b header) meta_bytes) body_bytes

-- `DecodeResult`, with what `Success` leaves in the output parameters.
pub data DecodeResult : Type 0 where
  success : RpcHeader → List ℕ → List ℕ → DecodeResult
  empty half_pack error : DecodeResult

-- The field of `len` bytes at `offset` in host byte order.
abbrev pub field : List ℕ → ℕ → ℕ → ℕ
field header offset len = from_be (take len (drop offset header))

unfoldable pub parse_header : List ℕ → RpcHeader
unfolding from_be
parse_header header = record {
  magic = field header 0 2;
  version = field header 2 1;
  type = field header 3 1;
  sequence_id = field header 4 8;
  meta_len = field header 12 4;
  body_len = field header 16 4;
}

-- One of the two payloads: its bytes, and the buffer that is left.
unfoldable pub take_payload : Buffer → ℕ → List ℕ × Buffer
take_payload b len =
    if ltb 0 len then (take len (readable_start_ptr b), advance_read_index b len) else ([], b)

unfoldable pub take_frame : Buffer → RpcHeader → DecodeResult × Buffer
take_frame b h =
    let (meta_bytes, behind_meta) =
      take_payload (advance_read_index b rpc_header_size) h.meta_len in
    let (body_bytes, behind_body) = take_payload behind_meta h.body_len in
    (success h meta_bytes body_bytes, behind_body)

-- The sum of two `uint32_t` and 20 cannot wrap a `size_t`.
unfoldable pub decode : Buffer → DecodeResult × Buffer
decode b =
    let h = parse_header (take rpc_header_size (readable_start_ptr b)) in
    let total = rpc_header_size + h.meta_len + h.body_len in
    if ltb (readable_bytes b) rpc_header_size
    then (empty, b)
    else if h.magic == rpc_magic
    then if ltb (readable_bytes b) total then (half_pack, b) else take_frame b h
    else (error, b)
