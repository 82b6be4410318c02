-- ===== src/Rpc/JsonClient.antt =====
-- src/tudou/rpc/json/JsonRpcClient.cpp: a call over a blocking socket.
-- The JSON library is a parameter, and the results of the kernel's write and read are lists; where
-- one ends, the call waits. That the socket could be connected is taken as
-- given, and that the texts are UTF-8, so that dump does not throw.
pub mod Wire
pub mod Laws
pub mod Answer
pub mod Remote
mod Tests
use tudou.Prelude.{
  ℕ, zero, suc, ◌+◌, ◌%◌, ◌^◌, Bool, true, false, not, List, [], ◌∷◌, ◌++◌, Option, none, some,
  if◌then◌else◌, ◌==◌, Text, text, take, drop,
}
use tudou.Rpc.Lines.{line_end, split_line}
use tudou.Rpc.JsonRouter.{JsonLibrary}

-- What the client uses of the JSON library besides: a number of 64 bits, and `get<uint64_t>`, which
-- throws at other values.
pub record JsonNumbers (j : JsonLibrary) : Type 0 where
  pub number : ℕ → j.Json
  pub get_uint64 : j.Json → Option ℕ

pub record JsonRpcClient : Type 0 where
  pub next_sequence_id : ℕ

pub data SocketWrite : Type 0 where
  writes : ℕ → SocketWrite
  write_interrupted write_fails : SocketWrite

-- `reads []` is the end of the stream.
pub data SocketRead : Type 0 where
  reads : List ℕ → SocketRead
  read_interrupted read_fails : SocketRead

-- The exceptions of `call`, by their texts; `type_error` is one of the JSON library.
pub data CallError : Type 0 where
  send_failed connection_closed parse_failed not_an_object id_mismatch type_error : CallError
  server_error : Text → CallError
  missing_result : CallError

pub data CallOutcome (Json : Type 0) : Type 0 where
  returns : Json → CallOutcome Json
  throws : CallError → CallOutcome Json
  waits : CallOutcome Json

pub data SendEnd : Type 0 where
  all_sent broken_off sends_on : SendEnd

pub data ReceiveEnd : Type 0 where
  line : Text → ReceiveEnd
  closed receives_on : ReceiveEnd

-- The bytes that the kernel takes, and how the loop ends.
unfoldable pub send_request : List SocketWrite → Text → Text × SendEnd
send_request results [] = ([], all_sent)
send_request [] (b ∷ bytes) = ([], sends_on)
send_request (write_interrupted ∷ results) (b ∷ bytes) = send_request results (b ∷ bytes)
send_request (write_fails ∷ results) (b ∷ bytes) = ([], broken_off)
send_request (writes zero ∷ results) (b ∷ bytes) = ([], broken_off)
send_request (writes (suc n) ∷ results) (b ∷ bytes) =
    let (taken, ended) = send_request results (drop n bytes) in
    (take (suc n) (b ∷ bytes) ++ taken, ended)

-- What is behind the line is dropped.
unfoldable pub receive_line : List SocketRead → Text → ReceiveEnd
receive_line [] buf = receives_on
receive_line (read_interrupted ∷ results) buf = receive_line results buf
receive_line (read_fails ∷ results) buf = closed
receive_line (reads [] ∷ results) buf = closed
receive_line (reads (x ∷ bytes) ∷ results) buf =
    let further = receive_line results (buf ++ x ∷ bytes) in
    elim (split_line (buf ++ x ∷ bytes)) [ none ↦ further | some (l, rest) ↦ line l ]

module _ (j : JsonLibrary) (n : JsonNumbers j) where
  abbrev pub params_field : j.Json → List (Text × j.Json)
  params_field params = if j.is_null params then [] else (text "params", params) ∷ []

  abbrev pub request_of : ℕ → Text → j.Json → j.Json
  request_of seq method params = j.object (
      (text "jsonrpc", j.string (text "2.0"))
      ∷ (text "method", j.string method)
      ∷ (params_field params ++ (text "id", n.number seq) ∷ []))

  abbrev pub request_line : ℕ → Text → j.Json → Text
  request_line seq method params = j.dump (request_of seq method params) ++ line_end ∷ []

  abbrev pub message_of : Option j.Json → CallError
  message_of none = server_error (text "Unknown error")
  message_of (some message) = elim (j.as_string message) [
    | none ↦ type_error
    | some s ↦ server_error s
  ]

  abbrev pub result_of : Option j.Json → CallOutcome j.Json
  result_of none = throws missing_result
  result_of (some v) = returns v

  abbrev pub error_checked : j.Json → Option j.Json → CallOutcome j.Json
  error_checked response none = result_of (j.field response (text "result"))
  error_checked response (some err) =
      if j.is_null err
      then result_of (j.field response (text "result"))
      else throws (message_of (j.field err (text "message")))

  abbrev pub same_id : ℕ → j.Json → Option ℕ → CallOutcome j.Json
  same_id seq response none = throws type_error
  same_id seq response (some id) =
      if id == seq
      then error_checked response (j.field response (text "error"))
      else throws id_mismatch

  abbrev pub id_checked : ℕ → j.Json → Option j.Json → CallOutcome j.Json
  id_checked seq response none = error_checked response (j.field response (text "error"))
  id_checked seq response (some id) =
      if j.is_null id
      then error_checked response (j.field response (text "error"))
      else same_id seq response (n.get_uint64 id)

  abbrev pub read_response : ℕ → Option j.Json → CallOutcome j.Json
  read_response seq none = throws parse_failed
  read_response seq (some response) =
      if j.is_object response
      then id_checked seq response (j.field response (text "id"))
      else throws not_an_object

  abbrev pub after_receive : ℕ → ReceiveEnd → CallOutcome j.Json
  after_receive seq (line l) = read_response seq (j.parse l)
  after_receive seq closed = throws connection_closed
  after_receive seq receives_on = waits

  abbrev pub after_send : ℕ → List SocketRead → SendEnd → CallOutcome j.Json
  after_send seq results all_sent = after_receive seq (receive_line results [])
  after_send seq results broken_off = throws send_failed
  after_send seq results sends_on = waits

  -- The client, the bytes that it sends, and how the call ends.
  unfoldable pub call :
      JsonRpcClient
      → Text
      → j.Json
      → List SocketWrite
      → List SocketRead
      → JsonRpcClient × Text × CallOutcome j.Json
  call c method params to_write to_read =
      let seq = c.next_sequence_id in
      let (sent, ended) = send_request to_write (request_line seq method params) in
      (record { next_sequence_id = (seq + 1) % 2 ^ 64 }, sent, after_send seq to_read ended)
