-- ===== src/Rpc/JsonRouter/Batch.antt =====
-- src/tudou/rpc/json/JsonRpcRouter.cpp: which responses a batch has.
use tudou.Prelude.{
  ℕ, Bool, true, false, ◌≡◌, refl, sym, ap, ◌∙◌, subst, List, [], ◌∷◌, Option, none, some,
  if◌then◌else◌, Text, text, lookup, text_key, by_both,
}
use tudou.Rpc.JsonRouter.{
  JsonLibrary, Handled, returned, json_exception, invalid_argument, exception, unknown_exception,
  RpcHandler, JsonRpcRouter, make_error_response, make_response, respond, run_handler, run_method,
  dispatch_identified, dispatch_object, dispatch_single, batch_response, dump_batch, dispatch,
  params_of, method_name, is_version, is_id, dispatch_root,
}

module _ (j : JsonLibrary) where
  -- The id that a response has to have: null where the request has none, or none that is valid.
  abbrev pub id_of : Option j.Json → j.Json
  id_of none = j.null
  id_of (some id) = if is_id j id then id else j.null

  -- A response with an id: an error or a result.
  pub data IsAnswer (id : j.Json) : j.Json → Type 0 where
    errs : (code : ℕ) (message : Text) → IsAnswer id (make_error_response j id code message)
    succeeds : (result : j.Json) → IsAnswer id (make_response j id result)

  respond-IsAnswer :
      (id : j.Json) (handled : Handled j.Json) → IsAnswer id (respond j id false handled)
  respond-IsAnswer id (returned result) = succeeds result
  respond-IsAnswer id (json_exception what) = errs _ _
  respond-IsAnswer id (invalid_argument what) = errs _ _
  respond-IsAnswer id (exception what) = errs _ _
  respond-IsAnswer id unknown_exception = errs _ _

  run_handler-IsAnswer :
      (id : j.Json) (handler : RpcHandler j) (params : Option j.Json)
      → IsAnswer id (run_handler j id false handler params)
  run_handler-IsAnswer id handler none = errs _ _
  run_handler-IsAnswer id handler (some params) = respond-IsAnswer id (handler params)

  module _ (r : JsonRpcRouter j) where
    run_method-IsAnswer :
        (req id : j.Json) (name : Option Text) → IsAnswer id (run_method j r req id false name)
    run_method-IsAnswer req id none = errs _ _
    run_method-IsAnswer req id (some name) = found (lookup name r.methods)
      where
        found :
            (o : Option (RpcHandler j))
            → IsAnswer id (elim o as (λ _. j.Json) [
              | none ↦ make_error_response j id 32601 (text "Method not found")
              | some handler ↦
                  run_handler j id false handler (params_of j (j.field req (text "params")))
            ])
        found none = errs _ _
        found (some handler) = run_handler-IsAnswer id handler _

    dispatch_identified-IsAnswer :
        (req id : j.Json) → IsAnswer id (dispatch_identified j r req id false)
    dispatch_identified-IsAnswer req id =
        by_both (IsAnswer id) (is_version j (j.field req (text "jsonrpc")))
          (run_method-IsAnswer req id (method_name j (j.field req (text "method")))) (errs _ _)

    dispatch_object-IsAnswer :
        (req id : j.Json) → IsAnswer (id_of (some id)) (dispatch_object j r req (some id))
    dispatch_object-IsAnswer req id = either (is_id j id)
      where
        either :
            (b : Bool)
            → IsAnswer (if b then id else j.null) (
                if b
                then dispatch_identified j r req id false
                else make_error_response j j.null 32600
                    (text "Invalid Request (id must be string, number or null)"))
        either true = dispatch_identified-IsAnswer req id
        either false = errs _ _

    -- An object that has an id, of whatever kind.
    abbrev pub HasId : j.Json → Type 0
    HasId req = (j.is_object req ≡ true) × ((id : j.Json) × (j.field req (text "id") ≡ some id))

    dispatch_single-IsAnswer :
        (req : j.Json)
        → HasId req
        → IsAnswer (id_of (j.field req (text "id"))) (dispatch_single j r req)
    unfolding dispatch_single
    dispatch_single-IsAnswer req (is, (id, e)) =
        subst
          (λ b. IsAnswer (id_of (j.field req (text "id"))) (
            if b
            then dispatch_object j r req (j.field req (text "id"))
            else make_error_response j j.null 32600 (text "Invalid Request (not an object)")))
          (sym is)
          (subst (λ o. IsAnswer (id_of o) (dispatch_object j r req o)) (sym e)
            (dispatch_object-IsAnswer req id))

    abbrev pub AllHaveId : List j.Json → Type 0
    AllHaveId [] = Unit
    AllHaveId (req ∷ reqs) = HasId req × AllHaveId reqs

    -- One response for each request, in their order.
    pub data Answers : List j.Json → List j.Json → Type 0 where
      no_more : Answers [] []
      answered :
          (req : j.Json) (reqs : List j.Json) (response : j.Json) (responses : List j.Json)
          → IsAnswer (id_of (j.field req (text "id"))) response
          → Answers reqs responses
          → Answers (req ∷ reqs) (response ∷ responses)

    module _
        (object_is_not_null : (fields : List (Text × j.Json))
          → j.is_null (j.object fields) ≡ false) where
      not_null : (id v : j.Json) → IsAnswer id v → j.is_null v ≡ false
      not_null id v (errs code message) = object_is_not_null _
      not_null id v (succeeds result) = object_is_not_null _

      batch_response-Answers :
          (reqs : List j.Json) → AllHaveId reqs → Answers reqs (batch_response j r reqs)
      unfolding batch_response
      batch_response-Answers [] all = no_more
      batch_response-Answers (req ∷ reqs) (has, all) =
          let is = dispatch_single-IsAnswer req has in
          subst
            (λ b. Answers (req ∷ reqs) (
              if b
              then batch_response j r reqs
              else dispatch_single j r req ∷ batch_response j r reqs))
            (sym (not_null _ _ is))
            (answered req reqs (dispatch_single j r req) (batch_response j r reqs) is
              (batch_response-Answers reqs all))

      -- A text that is an array of requests, at least one, each an object with an id: the response
      -- is an array that has one error or result for each request, in their order, with its id, or
      -- null if that is no string, number or null. An object of the JSON library is not null.
      pub dispatch-Answers :
          (b : ℕ) (bytes : Text) (root req : j.Json) (reqs : List j.Json)
          → j.parse (b ∷ bytes) ≡ some root
          → j.elements root ≡ some (req ∷ reqs)
          → AllHaveId (req ∷ reqs)
          → (responses : List j.Json) × Answers (req ∷ reqs) responses
            × (dispatch j r (b ∷ bytes) ≡ j.dump (j.array responses))
      unfolding dispatch
      dispatch-Answers b bytes root req reqs parsed is_array all =
          let answers = batch_response-Answers (req ∷ reqs) all in
          (
            batch_response j r (req ∷ reqs),
            answers,
            ap
                  (λ (o : Option j.Json). elim o as (λ _. Text) [
                    | none ↦ j.dump (make_error_response j j.null 32700 (text "Parse error"))
                    | some root ↦ dispatch_root j r root (j.elements root)
                  ])
                  parsed
                ∙ ap (dispatch_root j r root) is_array
                ∙ dumped _ _ _ answers,
          )
        where
          dumped :
              (req : j.Json) (reqs responses : List j.Json)
              → Answers (req ∷ reqs) responses
              → dump_batch j responses ≡ j.dump (j.array responses)
          dumped req reqs _ (answered _ _ _ _ is rest) = refl
