-- ===== src/Rpc/Codec/Tests.antt =====
-- Rpc/Codec at concrete inputs.
use tudou.Prelude.{◌≡◌, refl, [], ◌∷◌, arith}
use tudou.Tcp.Buffer.{Buffer}
use tudou.Tcp.Buffer.Contents.{IsValid, contents}
use tudou.Tcp.Buffer.Tests.{half_used, half_used-IsValid}
use tudou.Rpc.Protocol.{RpcHeader, request, header_bytes, to_be}
use tudou.Rpc.Codec.{success, encode, decode, header_of}
use tudou.Rpc.Codec.Frame.{InRange, split_frame}
use tudou.Rpc.Codec.Refine.{decode-split_frame}
use tudou.Rpc.Codec.RoundTrip.{decode-encode, header_of-InRange}

abbrev ping : RpcHeader
ping = header_of request 7 (1 ∷ 2 ∷ []) (3 ∷ [])

ping-InRange : InRange ping
ping-InRange = header_of-InRange request 7 (1 ∷ 2 ∷ []) (3 ∷ []) (omega arith)

header_on_the_wire :
    header_bytes ping
    ≡ 0x54 ∷ 0x44 ∷ 1 ∷ 0 ∷ 0 ∷ 0 ∷ 0 ∷ 0 ∷ 0 ∷ 0 ∷ 0 ∷ 7 ∷ 0 ∷ 0 ∷ 0 ∷ 2 ∷ 0 ∷ 0 ∷ 0 ∷ 1 ∷ []
unfolding header_bytes to_be
header_on_the_wire = refl

decode-split_frame_example :
    ((decode half_used).0 ≡ (split_frame (3 ∷ 4 ∷ [])).0)
    × (contents (decode half_used).1 ≡ (split_frame (3 ∷ 4 ∷ [])).1)
    × IsValid (decode half_used).1
decode-split_frame_example = decode-split_frame half_used-IsValid

abbrev blank : Buffer
blank = record { buffer = 0 ∷ 0 ∷ 0 ∷ 0 ∷ 0 ∷ 0 ∷ 0 ∷ 0 ∷ []; read_index = 8; write_index = 8 }

decode-encode_example :
    let (result, after) = decode (encode blank request 7 (1 ∷ 2 ∷ []) (3 ∷ [])) in
    (result ≡ success ping (1 ∷ 2 ∷ []) (3 ∷ [])) × (contents after ≡ []) × IsValid after
decode-encode_example =
    decode-encode request 7 (1 ∷ 2 ∷ []) (3 ∷ []) (omega arith) refl (omega arith) (omega arith)
