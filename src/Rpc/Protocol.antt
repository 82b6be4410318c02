-- ===== src/Rpc/Protocol.antt =====
-- src/tudou/rpc/binary/Protocol.h: the frame header and its 20 bytes on the wire.
use tudou.Prelude.{ℕ, zero, suc, ◌+◌, ◌*◌, ◌/◌, ◌%◌, ◌^◌, ◌<◌, ◌≡◌, List, [], ◌∷◌, ◌++◌, arith}

pub data RpcMessageType : Type 0 where
  request response heartbeat : RpcMessageType

-- `static_cast<uint8_t>(type)`
abbrev pub type_code : RpcMessageType → ℕ
type_code request = 0
type_code response = 1
type_code heartbeat = 2

abbrev pub rpc_magic : ℕ
rpc_magic = 0x5444

abbrev pub rpc_version : ℕ
rpc_version = 1

-- The fields in host byte order.
pub record RpcHeader : Type 0 where
  pub magic : ℕ
  pub version : ℕ
  pub type : ℕ
  pub sequence_id : ℕ
  pub meta_len : ℕ
  pub body_len : ℕ

abbrev pub rpc_header_size : ℕ
rpc_header_size = 20

-- `htons`, `htonl` and `htobe64`: the `k` bytes of a number, highest first.
unfoldable pub to_be : ℕ → ℕ → List ℕ
to_be zero n = []
to_be (suc k) n = (n / 256 ^ k % 256) ∷ to_be k n

-- `ntohs`, `ntohl` and `be64toh`.
unfoldable pub from_be_onto : ℕ → List ℕ → ℕ
from_be_onto acc [] = acc
from_be_onto acc (byte ∷ bytes) = from_be_onto (acc * 256 + byte) bytes

unfoldable pub from_be : List ℕ → ℕ
unfolding from_be_onto
from_be bytes = from_be_onto 0 bytes

-- The packed struct, its fields in network byte order.
unfoldable pub header_bytes : RpcHeader → List ℕ
header_bytes h =
    to_be 2 h.magic
    ++ (h.version ∷ h.type ∷ to_be 8 h.sequence_id ++ (to_be 4 h.meta_len ++ to_be 4 h.body_len))

pub from_be-to_be_2 : (n : ℕ) → n < 2 ^ 16 → from_be (to_be 2 n) ≡ n
unfolding from_be to_be
from_be-to_be_2 n h = omega arith

pub from_be-to_be_4 : (n : ℕ) → n < 2 ^ 32 → from_be (to_be 4 n) ≡ n
unfolding from_be to_be
from_be-to_be_4 n h = omega arith

pub from_be-to_be_8 : (n : ℕ) → n < 2 ^ 64 → from_be (to_be 8 n) ≡ n
unfolding from_be to_be
from_be-to_be_8 n h = omega arith

pub from_be-byte : (n : ℕ) → from_be (n ∷ []) ≡ n
unfolding from_be
from_be-byte n = omega arith
