-- ===== src/Rpc/UnifiedServer.antt =====
-- src/tudou/rpc/UnifiedRpcServer.cpp: a service that is called by both protocols.
-- A message of protobuf is the bytes that it serializes to. Its conversion from and to JSON is a
-- parameter, as are the texts of exceptions, and the response with which a closure is run that
-- CallMethod has not run before it returns: the handler waits for it.
pub mod Tracks
mod Tests
use tudou.Prelude.{
  ℕ, zero, suc, ◌-◌, ◌/◌, List, [], ◌∷◌, ◌++◌, Option, none, some, if◌then◌else◌, Text, text,
}
use tudou.Rpc.Router.{
  Router, Service, CallOutcome, runs_done, throws, returns_early, register_service,
}
use tudou.Rpc.JsonRouter.{
  JsonLibrary, JsonRpcRouter, RpcHandler, Handled, returned, json_exception, invalid_argument,
  exception, register_method,
}

-- A value, or the text of a status that is not ok.
pub data Status (A : Type 0) : Type 0 where
  ok : A → Status A
  not_ok : Text → Status A

pub record Protobuf (j : JsonLibrary) : Type 0 where
  pub json_to_message : Service → Text → Text → Status (List ℕ)
  pub message_to_json : Service → Text → Option (List ℕ) → Status Text
  pub response_later : Service → Text → List ℕ → Option (List ℕ)
  -- The exception that a service throws with a text, and that of a text that is no JSON.
  pub raised : Text → Handled j.Json
  pub parse_error : Text → Text

-- The threads of the two servers; `-1` and below are zero.
abbrev pub binary_threads : ℕ → ℕ
binary_threads num_threads = num_threads / 2

abbrev pub json_threads : ℕ → ℕ
json_threads num_threads = num_threads - binary_threads num_threads

module _ (j : JsonLibrary) (pb : Protobuf j) where
  pub record UnifiedRpcServer : Type 0 where
    pub binary_router : Router
    pub json_router : JsonRpcRouter j

  abbrev pub json_text : j.Json → Text
  json_text params = if j.is_null params then text "{}" else j.dump params

  abbrev pub parsed : Text → Option j.Json → Handled j.Json
  parsed bytes none = json_exception (pb.parse_error bytes)
  parsed bytes (some v) = returned v

  abbrev pub printed : Status Text → Handled j.Json
  printed (ok bytes) = parsed bytes (j.parse bytes)
  printed (not_ok status) =
      exception (text "UnifiedRpcServer: Failed to print Protobuf response to JSON: " ++ status)

  abbrev pub respond_json : Service → Text → Option (List ℕ) → Handled j.Json
  respond_json service method response = printed (pb.message_to_json service method response)

  abbrev pub finish_call : Service → Text → List ℕ → CallOutcome → Handled j.Json
  finish_call service method raw (runs_done response) = respond_json service method response
  finish_call service method raw (throws what) = pb.raised what
  finish_call service method raw returns_early =
      respond_json service method (pb.response_later service method raw)

  abbrev pub call_json : Service → Text → Status (List ℕ) → Handled j.Json
  call_json service method (ok raw) =
      finish_call service method raw (service.call_method method raw)
  call_json service method (not_ok status) =
      invalid_argument
        (text "UnifiedRpcServer: Failed to parse JSON to Protobuf request: " ++ status)

  -- The handler of a method.
  unfoldable pub bridge : Service → Text → RpcHandler j
  bridge service method params =
      call_json service method (pb.json_to_message service method (json_text params))

  abbrev pub full_method_name : Service → Text → Text
  full_method_name service method = service.full_name ++ (text "." ++ method)

  unfoldable pub bridge_methods : Service → List Text → JsonRpcRouter j → JsonRpcRouter j
  bridge_methods service [] r = r
  bridge_methods service (method ∷ methods) r =
      bridge_methods service methods
        (register_method j r (full_method_name service method) (bridge service method))

  -- `none` is the null pointer.
  unfoldable pub register_unified : UnifiedRpcServer → Option Service → UnifiedRpcServer
  register_unified s none = s
  register_unified s (some service) = record {
    binary_router = register_service s.binary_router (some service);
    json_router = bridge_methods service service.method_names s.json_router;
  }
