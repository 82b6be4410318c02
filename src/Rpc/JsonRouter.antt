-- ===== src/Rpc/JsonRouter.antt =====
-- src/tudou/rpc/json/JsonRpcRouter.cpp: the methods of JSON-RPC 2.0, and the response to a text.
-- The JSON library is third-party code and a parameter. Its `dump` throws on a string that is not
-- UTF-8; here it gives a text for every value, so that such responses are left out.
pub mod Batch
mod Tests
use tudou.Prelude.{
  ℕ, Bool, true, false, ◌||◌, List, [], ◌∷◌, ◌++◌, Option, none, some, if◌then◌else◌, Text, text,
  text_eq, lookup, insert, text_key,
}

pub record JsonLibrary : Type 1 where
  pub Json : Type 0
  pub parse : Text → Option Json
  pub dump : Json → Text
  -- The elements of an array; what `contains` and `[]` find; the text of a string.
  pub elements : Json → Option (List Json)
  pub field : Json → Text → Option Json
  pub as_string : Json → Option Text
  pub is_object : Json → Bool
  pub is_number : Json → Bool
  pub is_null : Json → Bool
  pub null : Json
  pub string : Text → Json
  -- A number below zero, by its absolute value.
  pub negative : ℕ → Json
  pub array : List Json → Json
  -- What assignments to fields make.
  pub object : List (Text × Json) → Json

-- What a handler gives: a result, an exception of the JSON library, std::invalid_argument, any
-- other std::exception, or something else.
pub data Handled (Json : Type 0) : Type 0 where
  returned : Json → Handled Json
  json_exception invalid_argument exception : Text → Handled Json
  unknown_exception : Handled Json

module _ (j : JsonLibrary) where
  abbrev pub RpcHandler : Type 0
  RpcHandler = j.Json → Handled j.Json

  pub record JsonRpcRouter : Type 0 where
    pub methods : List (Text × RpcHandler)

  unfoldable pub register_method : JsonRpcRouter → Text → RpcHandler → JsonRpcRouter
  register_method r name handler = record { methods = insert name handler r.methods }

  abbrev pub make_error_response : j.Json → ℕ → Text → j.Json
  make_error_response id code message =
      let err =
        j.object ((text "code", j.negative code) ∷ (text "message", j.string message) ∷ []) in
      j.object (
        (text "jsonrpc", j.string (text "2.0"))
        ∷ (text "error", err)
        ∷ (text "id", if j.is_null id then j.null else id)
        ∷ [])

  abbrev pub make_response : j.Json → j.Json → j.Json
  make_response id result =
      j.object
        ((text "jsonrpc", j.string (text "2.0")) ∷ (text "result", result) ∷ (text "id", id) ∷ [])

  abbrev pub is_string : j.Json → Bool
  is_string v = elim (j.as_string v) [ none ↦ false | some s ↦ true ]

  abbrev pub is_array : j.Json → Bool
  is_array v = elim (j.elements v) [ none ↦ false | some vs ↦ true ]

  abbrev pub is_version : Option j.Json → Bool
  is_version none = false
  is_version (some v) = elim (j.as_string v) [ none ↦ false | some s ↦ text_eq s (text "2.0") ]

  abbrev pub method_name : Option j.Json → Option Text
  method_name none = none
  method_name (some v) = j.as_string v

  -- The parameters, unless they are neither an object nor an array nor null.
  abbrev pub params_of : Option j.Json → Option j.Json
  params_of none = some j.null
  params_of (some v) = if j.is_object v || (is_array v || j.is_null v) then some v else none

  -- The response behind the handler: a notification has none.
  abbrev pub respond : j.Json → Bool → Handled j.Json → j.Json
  respond id is_notification (returned result) =
      if is_notification then j.null else make_response id result
  respond id is_notification (json_exception what) =
      make_error_response id 32602 (text "Invalid params: " ++ what)
  respond id is_notification (invalid_argument what) =
      make_error_response id 32602 (text "Invalid params: " ++ what)
  respond id is_notification (exception what) =
      make_error_response id 32603 (text "Internal error: " ++ what)
  respond id is_notification unknown_exception =
      make_error_response id 32603 (text "Internal error: Unknown exception")

  abbrev pub run_handler : j.Json → Bool → RpcHandler → Option j.Json → j.Json
  run_handler id is_notification handler none =
      make_error_response id 32602 (text "Invalid params (must be structured object or array)")
  run_handler id is_notification handler (some params) = respond id is_notification (handler params)

  abbrev pub run_method : JsonRpcRouter → j.Json → j.Json → Bool → Option Text → j.Json
  run_method r req id is_notification none =
      make_error_response id 32600 (text "Invalid Request (missing or invalid method name)")
  run_method r req id is_notification (some name) = elim (lookup name r.methods) [
    | none ↦ make_error_response id 32601 (text "Method not found")
    | some handler ↦
        run_handler id is_notification handler (params_of (j.field req (text "params")))
  ]

  abbrev pub dispatch_identified : JsonRpcRouter → j.Json → j.Json → Bool → j.Json
  dispatch_identified r req id is_notification =
      if is_version (j.field req (text "jsonrpc"))
      then run_method r req id is_notification (method_name (j.field req (text "method")))
      else make_error_response id 32600
          (text "Invalid Request (missing or invalid jsonrpc version)")

  abbrev pub is_id : j.Json → Bool
  is_id id = is_string id || (j.is_number id || j.is_null id)

  abbrev pub dispatch_object : JsonRpcRouter → j.Json → Option j.Json → j.Json
  dispatch_object r req none = dispatch_identified r req j.null true
  dispatch_object r req (some id) =
      if is_id id
      then dispatch_identified r req id false
      else make_error_response j.null 32600
          (text "Invalid Request (id must be string, number or null)")

  unfoldable pub dispatch_single : JsonRpcRouter → j.Json → j.Json
  dispatch_single r req =
      if j.is_object req
      then dispatch_object r req (j.field req (text "id"))
      else make_error_response j.null 32600 (text "Invalid Request (not an object)")

  -- The loop over a batch.
  unfoldable pub batch_response : JsonRpcRouter → List j.Json → List j.Json
  batch_response r [] = []
  batch_response r (req ∷ reqs) =
      let response = dispatch_single r req in
      if j.is_null response then batch_response r reqs else response ∷ batch_response r reqs

  abbrev pub dump_batch : List j.Json → Text
  dump_batch [] = []
  dump_batch (v ∷ vs) = j.dump (j.array (v ∷ vs))

  abbrev pub dispatch_array : JsonRpcRouter → List j.Json → Text
  dispatch_array r [] =
      j.dump (make_error_response j.null 32600 (text "Invalid Request (empty batch)"))
  dispatch_array r (req ∷ reqs) = dump_batch (batch_response r (req ∷ reqs))

  abbrev pub dispatch_root : JsonRpcRouter → j.Json → Option (List j.Json) → Text
  dispatch_root r root (some reqs) = dispatch_array r reqs
  dispatch_root r root none =
      let response = dispatch_single r root in if j.is_null response then [] else j.dump response

  unfoldable pub dispatch : JsonRpcRouter → Text → Text
  dispatch r [] = j.dump (make_error_response j.null 32600 (text "Invalid Request (empty body)"))
  dispatch r (b ∷ bytes) = elim (j.parse (b ∷ bytes)) [
    | none ↦ j.dump (make_error_response j.null 32700 (text "Parse error"))
    | some root ↦ dispatch_root r root (j.elements root)
  ]
