-- ===== src/Rpc/JsonClient/Answer.antt =====
-- src/tudou/rpc/json: the response to a request of JsonRpcClient, and what the client makes of it.
use tudou.Prelude.{
  ℕ, ◌≡◌, refl, ap, ◌∙◌, ◌<◌, ◌^◌, Bool, false, List, [], ◌∷◌, ◌++◌, Option, none, some,
  if◌then◌else◌, ==_refl, Text, text, text_eq, text_key, lookup, insert, Bool-cases, inl, inr,
}
use tudou.Rpc.Server.{Effect}
use tudou.Rpc.Lines.{line_end, is_empty, buffered, on_lines}
use tudou.Rpc.JsonRouter.{
  JsonLibrary, Handled, returned, json_exception, invalid_argument, exception, unknown_exception,
  RpcHandler, JsonRpcRouter, is_string, make_error_response, make_response, params_of, dispatch,
  dispatch_single, dispatch_root, run_method, run_handler, respond,
}
use tudou.Rpc.JsonClient.{
  JsonNumbers, CallOutcome, returns, throws, server_error, request_of, request_line, read_response,
}
use tudou.Rpc.JsonClient.Wire.{}
use tudou.Rpc.JsonClient.Laws.{JsonLaws, answer_bytes, on_lines_answers}

module _ (j : JsonLibrary) (n : JsonNumbers j) where
  -- The handler of a method, called on the spot.
  abbrev pub local_result : Handled j.Json → CallOutcome j.Json
  local_result (returned v) = returns v
  local_result (json_exception what) = throws (server_error (text "Invalid params: " ++ what))
  local_result (invalid_argument what) = throws (server_error (text "Invalid params: " ++ what))
  local_result (exception what) = throws (server_error (text "Internal error: " ++ what))
  local_result unknown_exception = throws (server_error (text "Internal error: Unknown exception"))

  abbrev pub local_handler : RpcHandler j → Option j.Json → CallOutcome j.Json
  local_handler handler none =
      throws (server_error (text "Invalid params (must be structured object or array)"))
  local_handler handler (some params) = local_result (handler params)

  -- The parameters as the handler sees them: null where they were null.
  abbrev pub seen_params : j.Json → Option j.Json
  seen_params params = if j.is_null params then some j.null else params_of j (some params)

  abbrev pub local_found : Option (RpcHandler j) → j.Json → CallOutcome j.Json
  local_found none params = throws (server_error (text "Method not found"))
  local_found (some handler) params = local_handler handler (seen_params params)

  abbrev pub local_call : JsonRpcRouter j → Text → j.Json → CallOutcome j.Json
  local_call r method params = local_found (lookup method r.methods) params

  module _ (laws : JsonLaws j n) where
    number-is_string : (k : ℕ) → is_string j (n.number k) ≡ false
    number-is_string k = rw (is_string, laws.number_not_string k) refl

    read-error :
        (seq code : ℕ) (message : Text)
        → seq < 2 ^ 64
        → read_response j n seq (some (make_error_response j (n.number seq) code message))
          ≡ throws (server_error message)
    unfolding lookup insert text_eq
    read-error seq code message b = simp (
      laws.field-object,
      laws.object_is_object,
      laws.object_not_null,
      laws.number_not_null,
      laws.get_uint64-number seq b,
      laws.as_string-string,
      ==_refl seq,
    )

    read-result :
        (seq : ℕ) (v : j.Json)
        → seq < 2 ^ 64
        → read_response j n seq (some (make_response j (n.number seq) v)) ≡ returns v
    unfolding lookup insert text_eq
    read-result seq v b = simp (
      laws.field-object,
      laws.object_is_object,
      laws.number_not_null,
      laws.get_uint64-number seq b,
      ==_refl seq,
    )

    module _ (r : JsonRpcRouter j) (seq : ℕ) (bound : seq < 2 ^ 64) where
      -- The response to a request of the client.
      abbrev pub response_to : Option (RpcHandler j) → j.Json → j.Json
      response_to none params = make_error_response j (n.number seq) 32601 (text "Method not found")
      response_to (some handler) params =
          run_handler j (n.number seq) false handler (seen_params params)

      seen-params :
          (method : Text) (params : j.Json)
          → params_of j (j.field (request_of j n seq method params) (text "params"))
            ≡ seen_params params
      unfolding lookup insert text_eq
      seen-params method params = elim (Bool-cases (j.is_null params)) [
        | inl e ↦ simp (e, laws.field-object)
        | inr e ↦ simp (e, laws.field-object)
      ]

      is_request :
          (method : Text) (params : j.Json)
          → dispatch_single j r (request_of j n seq method params)
            ≡ run_method j r (request_of j n seq method params) (n.number seq) false (some method)
      unfolding dispatch_single lookup insert text_eq
      is_request method params = elim (Bool-cases (j.is_null params)) [
        | inl e ↦ simp (
          e, laws.field-object, laws.object_is_object, laws.as_string-string, number-is_string,
          laws.is_number-number,
        )
        | inr e ↦ simp (
          e, laws.field-object, laws.object_is_object, laws.as_string-string, number-is_string,
          laws.is_number-number,
        )
      ]

      pub dispatch_request :
          (method : Text) (params : j.Json)
          → dispatch_single j r (request_of j n seq method params)
            ≡ response_to (lookup method r.methods) params
      dispatch_request method params = is_request method params ∙ found (lookup method r.methods)
        where
          found :
              (o : Option (RpcHandler j))
              → (elim o as (λ _. j.Json) [
                | none ↦ make_error_response j (n.number seq) 32601 (text "Method not found")
                | some handler ↦
                    run_handler j
                      (n.number seq)
                      false
                      handler
                      (params_of j (j.field (request_of j n seq method params) (text "params")))
              ])
                ≡ response_to o params
          found none = refl
          found (some handler) =
              ap (run_handler j (n.number seq) false handler) (seen-params method params)

      not_null :
          (o : Option (RpcHandler j)) (params : j.Json) → j.is_null (response_to o params) ≡ false
      not_null none params = laws.object_not_null _ _
      not_null (some handler) params = ran (seen_params params)
        where
          handled_not_null :
              (h : Handled j.Json) → j.is_null (respond j (n.number seq) false h) ≡ false
          handled_not_null (returned v) = laws.object_not_null _ _
          handled_not_null (json_exception what) = laws.object_not_null _ _
          handled_not_null (invalid_argument what) = laws.object_not_null _ _
          handled_not_null (exception what) = laws.object_not_null _ _
          handled_not_null unknown_exception = laws.object_not_null _ _

          ran :
              (p : Option j.Json) → j.is_null (run_handler j (n.number seq) false handler p) ≡ false
          ran none = laws.object_not_null _ _
          ran (some p) = handled_not_null (handler p)

      pub read_response_lem :
          (o : Option (RpcHandler j)) (params : j.Json)
          → read_response j n seq (some (response_to o params)) ≡ local_found o params
      read_response_lem none params = read-error seq 32601 (text "Method not found") bound
      read_response_lem (some handler) params = ran (seen_params params)
        where
          read-handled :
              (h : Handled j.Json)
              → read_response j n seq (some (respond j (n.number seq) false h)) ≡ local_result h
          read-handled (returned v) = read-result seq v bound
          read-handled (json_exception what) = read-error seq _ _ bound
          read-handled (invalid_argument what) = read-error seq _ _ bound
          read-handled (exception what) = read-error seq _ _ bound
          read-handled unknown_exception = read-error seq _ _ bound

          ran :
              (p : Option j.Json)
              → read_response j n seq (some (run_handler j (n.number seq) false handler p))
                ≡ local_handler handler p
          ran none = read-error seq _ _ bound
          ran (some p) = read-handled (handler p)

      dispatch_line :
          (method : Text) (params : j.Json) (l : Text)
          → is_empty l ≡ false
          → j.parse l ≡ some (request_of j n seq method params)
          → dispatch j r l ≡ j.dump (response_to (lookup method r.methods) params)
      unfolding dispatch
      dispatch_line method params [] filled parsed = cc
      dispatch_line method params (b ∷ bytes) filled parsed =
          rw (dispatch, parsed)
            (rw (dispatch_root, laws.object_not_array _ _)
              (rw (dispatch_request method params)
                (rw (not_null (lookup method r.methods) params) refl)))

      module _ (conn : ℕ) (breaks : List Effect → Bool)
          (steady : (es : List Effect) → breaks es ≡ false) where
        pub on_lines_request :
            (buffers : List (ℕ × List ℕ)) (method : Text) (params : j.Json)
            → buffered conn buffers ≡ []
            → j.parse (j.dump (request_of j n seq method params))
              ≡ some (request_of j n seq method params)
            → answer_bytes conn
                (on_lines (dispatch j r) breaks buffers conn (request_line j n seq method params))
              ≡ j.dump (response_to (lookup method r.methods) params) ++ line_end ∷ []
        on_lines_request buffers method params fresh parsed =
            on_lines_answers (dispatch j r) breaks conn buffers _ _ steady fresh
              (laws.dump_not_empty _) (laws.dump_is_line _)
              (dispatch_line method params _ (laws.dump_not_empty _) parsed) (laws.dump_not_empty _)
