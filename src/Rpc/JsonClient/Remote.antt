-- ===== src/Rpc/JsonClient/Remote.antt =====
-- src/tudou/rpc/json: a call of JsonRpcClient that JsonRpcServer and JsonRpcRouter answer.
use tudou.Prelude.{
  ℕ, ◌≡◌, refl, ap, ◌∙◌, subst, ◌<◌, ◌^◌, Bool, false, List, [], ◌∷◌, ◌++◌, append_assoc, some,
  Text, text_key, lookup,
}
use tudou.Rpc.Server.{Effect}
use tudou.Rpc.Lines.{line_end, split_line, buffered, on_lines}
use tudou.Rpc.JsonRouter.{JsonLibrary, JsonRpcRouter, dispatch, dispatch_single}
use tudou.Rpc.JsonClient.{
  JsonNumbers, JsonRpcClient, SocketWrite, SocketRead, all_sent, send_request, request_of,
  request_line, read_response, after_send, after_receive, call,
}
use tudou.Rpc.JsonClient.Wire.{split_line-line, delivered, receive_line_lem, send_request_lem}
use tudou.Rpc.JsonClient.Laws.{JsonLaws, answer_bytes}
use tudou.Rpc.JsonClient.Answer.{
  local_call, response_to, dispatch_request, read_response_lem, on_lines_request,
}

module _ (j : JsonLibrary) (n : JsonNumbers j) where
  -- A call of the JSON client that the server answers returns what the handler of the method
  -- returns for the parameters, and throws the error of the response where the handler throws or
  -- there is none, or the parameters have no structure: however the kernel cuts and interrupts the
  -- writes, which send all, and the reads, which bring the bytes that the server sends back, maybe
  -- others behind them. The JSON library keeps its laws and reads back the request and the
  -- response, the sequence id is below 2^64, the server holds no bytes of the connection, and no
  -- send finds it broken.
  pub call_answers :
      (c : JsonRpcClient) (method : Text) (params : j.Json) (to_write : List SocketWrite)
      (to_read : List SocketRead) (r : JsonRpcRouter j) (breaks : List Effect → Bool) (conn : ℕ)
      (buffers : List (ℕ × List ℕ)) (more : Text)
      → JsonLaws j n
      → c.next_sequence_id < 2 ^ 64
      → let request = request_of j n c.next_sequence_id method params in
        j.parse (j.dump request) ≡ some request
        → j.parse (j.dump (dispatch_single j r request)) ≡ some (dispatch_single j r request)
        → ((es : List Effect) → breaks es ≡ false)
        → buffered conn buffers ≡ []
        → (send_request to_write (request_line j n c.next_sequence_id method params)).1 ≡ all_sent
        → delivered to_read
          ≡ answer_bytes conn (
              on_lines
                (dispatch j r)
                breaks
                buffers
                conn
                (call j n c method params to_write to_read).1)
            ++ more
        → (call j n c method params to_write to_read).2 ≡ local_call j n r method params
  unfolding call split_line
  call_answers c method params to_write to_read r breaks conn buffers more laws bound sent answered
        steady fresh all brought =
      ap (after_send j n c.next_sequence_id to_read) all
      ∙ ap (after_receive j n c.next_sequence_id) (
          receive_line_lem to_read [] (j.dump response) more refl (
            ap split_line (
              brought
              ∙ ap
                  (λ bytes.
                    answer_bytes conn (on_lines (dispatch j r) breaks buffers conn bytes) ++ more)
                  (send_request_lem to_write _ all)
              ∙ ap (λ bytes. bytes ++ more)
                  (on_lines_request j n laws r c.next_sequence_id bound conn breaks steady buffers
                    method params fresh sent)
              ∙ append_assoc (j.dump response) (line_end ∷ []) more)
            ∙ split_line-line (j.dump response) more (laws.dump_is_line response)))
      ∙ ap (read_response j n c.next_sequence_id) read_back
      ∙ read_response_lem j n laws r c.next_sequence_id bound (lookup method r.methods) params
    where
      response : j.Json
      response = response_to j n laws r c.next_sequence_id bound (lookup method r.methods) params

      read_back : j.parse (j.dump response) ≡ some response
      read_back =
          subst (λ v. j.parse (j.dump v) ≡ some v)
            (dispatch_request j n laws r c.next_sequence_id bound method params) answered
