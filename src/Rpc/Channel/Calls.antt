-- ===== src/Rpc/Channel/Calls.antt =====
-- src/tudou/rpc/binary/BinaryRpcChannel.cpp: calls, and the responses that answer them.
use tudou.Prelude.{
  ℕ, zero, suc, ◌&&◌, Bool, true, false, List, [], ◌∷◌, ◌++◌, Option, none, some, if◌then◌else◌,
  take, drop, lookup, insert, erase, number_eq, add_size,
}
use tudou.Tcp.Buffer.{Buffer, new_buffer, initial_size, write_to_buffer, read_all, readable_bytes}
use tudou.Rpc.Protocol.{request}
use tudou.Rpc.Codec.{DecodeResult, success, empty, half_pack, error, encode, decode}
use tudou.Rpc.Channel.Write.{
  closed_prematurely, read_failed, decode_error, destructed, parse_failed, Outcome, answered,
  failed, ResponseContext, BinaryRpcChannel, cleanup_pending_requests, shut, WriteResult, wrote,
  interrupted, would_block, refused, write_request_nonblocking,
}

-- Where CallMethod stands: it threw, or waits for its response.
pub data CallState : Type 0 where
  thrown waiting : CallState

-- `none` where the metadata or the request cannot be serialized.
unfoldable pub encode_request : Option (List ℕ) → Option (List ℕ) → ℕ → Option (List ℕ)
encode_request none body seq = none
encode_request (some meta) none seq = none
encode_request (some meta) (some body) seq =
    some (read_all (encode (new_buffer initial_size) request seq meta body)).0

-- The `write` loop of a caller that blocks: the bytes that went out, and whether it threw.
unfoldable pub write_blocking : List ℕ → List WriteResult → List ℕ × Bool
write_blocking [] results = ([], false)
write_blocking (b ∷ bytes) [] = ([], true)
write_blocking (b ∷ bytes) (wrote zero ∷ results) = ([], true)
write_blocking (b ∷ bytes) (wrote (suc n) ∷ results) =
    let (sent, threw) = write_blocking (drop n bytes) results in
    (take (suc n) (b ∷ bytes) ++ sent, threw)
write_blocking (b ∷ bytes) (interrupted ∷ results) = write_blocking (b ∷ bytes) results
write_blocking (b ∷ bytes) (would_block ∷ results) = ([], true)
write_blocking (b ∷ bytes) (refused ∷ results) = ([], true)

abbrev pub forget : BinaryRpcChannel → ℕ → BinaryRpcChannel
forget c seq = record c { pending_requests = erase seq c.pending_requests }

-- What a coroutine does with its bytes: an exception of the write passes on, with the request left
-- in the map.
abbrev pub send_for_coroutine :
    BinaryRpcChannel → List ℕ → List WriteResult → BinaryRpcChannel × CallState
send_for_coroutine c bytes results =
    let (c', threw) = write_request_nonblocking c bytes results in
    (c', if threw then thrown else waiting)

abbrev pub send_for_thread :
    BinaryRpcChannel → ℕ → List ℕ → List WriteResult → BinaryRpcChannel × CallState
send_for_thread c seq bytes results =
    let (sent, threw) = write_blocking bytes results in
    let c' = record c { wire = c.wire ++ sent } in
    if threw then (forget c' seq, thrown) else (c', waiting)

abbrev pub send_request :
    BinaryRpcChannel
    → ℕ
    → Option ℕ
    → Option (List ℕ)
    → List WriteResult
    → BinaryRpcChannel × CallState
send_request c seq coroutine none results = (forget c seq, thrown)
send_request c seq (some coroutine) (some bytes) results = send_for_coroutine c bytes results
send_request c seq none (some bytes) results = send_for_thread c seq bytes results

abbrev pub registered : BinaryRpcChannel → ℕ → ResponseContext → BinaryRpcChannel
registered c seq context = record c { pending_requests = insert seq context c.pending_requests }

-- CallMethod up to the end of its first block, which puts the request on the map.
unfoldable pub register_request : BinaryRpcChannel → ResponseContext → BinaryRpcChannel
register_request c context =
    let seq = c.next_sequence_id in
    let numbered = record c { next_sequence_id = add_size seq 1 } in
    if c.running then registered numbered seq context else numbered

-- CallMethod up to the point where it waits, when nothing else is done in between.
unfoldable pub call_method :
    BinaryRpcChannel
    → ResponseContext
    → Option (List ℕ)
    → Option (List ℕ)
    → List WriteResult
    → BinaryRpcChannel × CallState
call_method c context meta body results =
    let seq = c.next_sequence_id in
    let numbered = record c { next_sequence_id = add_size seq 1 } in
    if c.running
    then send_request (registered numbered seq context) seq context.coroutine
        (encode_request meta body seq) results
    else (numbered, thrown)

-- `signal` is EINTR, `again` EAGAIN, and `reset` any other error.
pub data ReadResult : Type 0 where
  received : List ℕ → ReadResult
  signal again reset end_of_file : ReadResult

module _ (parses : ℕ → List ℕ → Bool) where
  abbrev pub outcome_of : ResponseContext → List ℕ → Outcome
  outcome_of context body =
      if parses context.response body then answered body else failed parse_failed

  -- The request that the frame answers is taken off the map; a frame for none is passed over.
  unfoldable pub answer : BinaryRpcChannel → ℕ → List ℕ → BinaryRpcChannel
  answer c seq body = elim (lookup seq c.pending_requests) [
    | none ↦ c
    | some context ↦ record c {
      pending_requests = erase seq c.pending_requests;
      completed = c.completed ++ (seq, outcome_of context body) ∷ [];
    }
  ]

  -- What a round of the loop does, by `running_` and the result of decode.
  abbrev pub turn :
      BinaryRpcChannel
      → (BinaryRpcChannel → Option BinaryRpcChannel)
      → Buffer
      → Bool
      → DecodeResult
      → Option BinaryRpcChannel
  turn c continue rest false result = some c
  turn c continue rest true (success h meta_bytes body_bytes) =
      continue (answer (record c { read_buf = rest }) h.sequence_id body_bytes)
  turn c continue rest true empty = some (record c { read_buf = rest })
  turn c continue rest true half_pack = some (record c { read_buf = rest })
  turn c continue rest true error = some (shut (record c { read_buf = rest }) decode_error)

  -- The loop of decode; `none` says that the fuel ran out.
  unfoldable pub serve_responses : ℕ → BinaryRpcChannel → Option BinaryRpcChannel
  serve_responses zero c = none
  serve_responses (suc fuel) c =
      let (result, rest) = decode c.read_buf in turn c (serve_responses fuel) rest c.running result

  -- A frame takes a byte at least, so that the rounds do not run out.
  abbrev pub serve_buffered : BinaryRpcChannel → Option BinaryRpcChannel
  serve_buffered c = serve_responses (suc (readable_bytes c.read_buf)) c

  -- The loop of `read` of on_read: what is buffered, and whether the connection is over.
  unfoldable pub read_socket : Buffer → List ReadResult → Buffer × Bool
  read_socket b [] = (b, false)
  read_socket b (received bytes ∷ results) = read_socket (write_to_buffer b bytes) results
  read_socket b (signal ∷ results) = read_socket b results
  read_socket b (again ∷ results) = (b, false)
  read_socket b (reset ∷ results) = (b, true)
  read_socket b (end_of_file ∷ results) = (b, true)

  unfoldable pub on_read : BinaryRpcChannel → List ReadResult → Option BinaryRpcChannel
  on_read c results =
      let (buf, over) = read_socket c.read_buf results in
      let c' = record c { read_buf = buf } in
      if c.running then if over then some (shut c' read_failed) else serve_buffered c' else some c

  -- One round of the loop of the receiving thread: one result of `read` and what it brings.
  abbrev pub receive_turn : BinaryRpcChannel → Bool → ReadResult → Option BinaryRpcChannel
  receive_turn c false r = some (record c { receiving = false })
  receive_turn c true (received bytes) =
      serve_buffered (record c { read_buf = write_to_buffer c.read_buf bytes })
  receive_turn c true signal = some c
  receive_turn c true again = some c
  receive_turn c true reset =
      some (record (cleanup_pending_requests c closed_prematurely) { receiving = false })
  receive_turn c true end_of_file =
      some (record (cleanup_pending_requests c closed_prematurely) { receiving = false })

  unfoldable pub receive_round : BinaryRpcChannel → ReadResult → Option BinaryRpcChannel
  receive_round c r = receive_turn c (c.running && c.receiving) r

-- The destructor, with the thread joined.
unfoldable pub destruct : BinaryRpcChannel → BinaryRpcChannel
destruct c = record (shut c destructed) { receiving = false }
