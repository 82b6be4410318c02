-- ===== src/Rpc/UnifiedServer/Tests.antt =====
-- Rpc/UnifiedServer at a service that gives its request back.
use tudou.Prelude.{
  true, false, ◌≡◌, refl, [], ◌∷◌, none, some, Text, text, text_eq, lookup, text_key,
}
use tudou.Rpc.Router.{Service, runs_done, called_back, dispatch}
use tudou.Rpc.JsonRouter.{JsonLibrary, returned, exception}
use tudou.Rpc.UnifiedServer.{Protobuf, ok, not_ok, UnifiedRpcServer, bridge, register_unified}
use tudou.Rpc.UnifiedServer.Tracks.{both_tracks}

abbrev texts : JsonLibrary
texts = record {
  Json = Text;
  parse = λ bytes. some bytes;
  dump = λ v. v;
  elements = λ v. none;
  field = λ v key. none;
  as_string = λ v. some v;
  is_object = λ v. true;
  is_number = λ v. false;
  is_null = λ v. text_eq v (text "null");
  null = text "null";
  string = λ s. s;
  negative = λ n. text "-";
  array = λ vs. text "[]";
  object = λ fields. text "{}";
}

abbrev plain : Protobuf texts
plain = record {
  json_to_message = λ service method bytes. ok bytes;
  message_to_json = λ service method response. elim response [
    | none ↦ not_ok (text "no message")
    | some raw ↦ ok raw
  ];
  response_later = λ service method raw. none;
  raised = λ what. exception what;
  parse_error = λ bytes. text "parse error";
}

abbrev repeats : Service
repeats = record {
  full_name = text "Echo";
  method_names = text "say" ∷ text "shout" ∷ [];
  parses_request = λ method raw. true;
  call_method = λ method raw. runs_done (some raw);
}

abbrev nothing : UnifiedRpcServer texts plain
nothing = record { binary_router = []; json_router = record { methods = [] } }

both_tracks_example :
    let registered = register_unified texts plain nothing (some repeats) in
    (dispatch registered.binary_router (text "Echo") (text "shout") (text "hi")
      ≡ called_back (text "hi"))
    × (lookup (text "Echo.shout") registered.json_router.methods
        ≡ some (bridge texts plain repeats (text "shout")))
    × (bridge texts plain repeats (text "shout") (text "hi") ≡ returned (text "hi"))
unfolding text_eq
both_tracks_example =
    both_tracks texts plain nothing repeats (text "shout") (text "hi") (text "hi") refl refl refl
