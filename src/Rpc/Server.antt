-- ===== src/Rpc/Server.antt =====
-- src/tudou/rpc/binary/BinaryRpcServer.cpp: the bytes of each connection, cut into requests.
-- A connection is a number. `conn->receive()` has returned the bytes that `on_message` is given.
-- A send that finds the connection broken closes it, and TcpServer then calls `on_close` before
-- the send returns; which sends do is a parameter, and so is the parser of RpcMeta.
pub mod Stream
pub mod Loop
pub mod Chunks
pub mod Dangling
mod Tests
use tudou.Prelude.{
  ℕ, zero, suc, Bool, true, false, List, [], ◌∷◌, ◌++◌, Option, none, some, if◌then◌else◌, length,
  Text, lookup, insert, erase, number_eq,
}
use tudou.Tcp.Buffer.{Buffer, new_buffer, initial_size, write_to_buffer, read_all}
use tudou.Rpc.Protocol.{RpcHeader, response}
use tudou.Rpc.Codec.{success, empty, half_pack, error, encode, decode}
use tudou.Rpc.Router.{Router, dispatch, DispatchOutcome, thrown, called_back, pending}

pub data Effect : Type 0 where
  send : ℕ → List ℕ → Effect
  force_close : ℕ → Effect

pub record Server : Type 0 where
  pub router : Router
  pub connection_buffers : List (ℕ × List ℕ)

-- What the loop of `on_message` changes beside its buffer.
pub record Turn : Type 0 where
  pub connection_buffers : List (ℕ × List ℕ)
  pub effects : List Effect

-- How the loop ends: with `hasCorruptFrame`, the buffer and the changes; `stuck` is no value of
-- the source, it says that the fuel ran out.
pub data LoopEnd : Type 0 where
  ended : Bool → Buffer → Turn → LoopEnd
  stuck : LoopEnd

-- `dangling`: the reference `cache` is used after `on_close` has erased its entry.
pub data MessageOutcome : Type 0 where
  handled : Server → List Effect → MessageOutcome
  dangling : MessageOutcome
  out_of_fuel : MessageOutcome

-- The bytes of one response.
abbrev pub response_bytes : ℕ → List ℕ → List ℕ
response_bytes sequence_id raw =
    (read_all (encode (new_buffer initial_size) response sequence_id [] raw)).0

unfoldable pub on_close : List (ℕ × List ℕ) → ℕ → List (ℕ × List ℕ)
on_close buffers conn = erase conn buffers

-- What follows the loop. `force_close` runs `on_close` as well.
abbrev pub finish : Router → ℕ → LoopEnd → MessageOutcome
finish router conn stuck = out_of_fuel
finish router conn (ended true buf t) =
    handled
      (record {
        router = router;
        connection_buffers = erase conn (on_close t.connection_buffers conn);
      })
      (t.effects ++ force_close conn ∷ [])
finish router conn (ended false buf t) = elim (lookup conn t.connection_buffers) [
  | none ↦ dangling
  | some old ↦
      handled
        (record {
          router = router;
          connection_buffers = insert conn (read_all buf).0 t.connection_buffers;
        })
        t.effects
]

-- `connectionBuffers_[conn]`, which makes an empty entry where there is none.
abbrev pub cached : ℕ → List (ℕ × List ℕ) → List ℕ
cached conn buffers = elim (lookup conn buffers) [ none ↦ [] | some bytes ↦ bytes ]

module _ (parse_meta : List ℕ → Option (Text × Text)) (breaks : List Effect → Bool) where
  -- The callback that `dispatch` is given.
  unfoldable pub respond : ℕ → ℕ → List ℕ → Turn → Turn
  respond conn sequence_id raw t = record {
    connection_buffers =
        if breaks t.effects then on_close t.connection_buffers conn else t.connection_buffers;
    effects = t.effects ++ send conn (response_bytes sequence_id raw) ∷ [];
  }

  -- An exception of `dispatch` is caught and logged.
  abbrev pub serve : ℕ → ℕ → DispatchOutcome → Turn → Turn
  serve conn sequence_id (thrown message) t = t
  serve conn sequence_id (called_back raw) t = respond conn sequence_id raw t
  serve conn sequence_id pending t = t

  unfoldable pub loop : Router → ℕ → ℕ → Buffer → Turn → LoopEnd
  loop router conn zero buf t = stuck
  loop router conn (suc fuel) buf t =
      let (result, rest) = decode buf in
      elim result [
        | success h meta_bytes body_bytes ↦ elim (parse_meta meta_bytes) [
          | none ↦ ended true rest t
          | some (service_name, method_name) ↦
              loop router conn fuel rest
                (serve conn h.sequence_id (dispatch router service_name method_name body_bytes) t)
        ]
        | empty ↦ ended false rest t
        | half_pack ↦ ended false rest t
        | error ↦ ended true rest t
      ]

  -- Each request takes a byte at least, so that the rounds do not run out.
  unfoldable pub on_message : Server → ℕ → List ℕ → MessageOutcome
  on_message s conn [] = handled s []
  on_message s conn (x ∷ bytes) =
      let cache = cached conn s.connection_buffers ++ x ∷ bytes in
      finish s.router conn (
        loop s.router conn (suc (length cache)) (write_to_buffer (new_buffer initial_size) cache)
          (record { connection_buffers = insert conn cache s.connection_buffers; effects = [] }))
