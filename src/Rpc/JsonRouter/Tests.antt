-- ===== src/Rpc/JsonRouter/Tests.antt =====
-- Rpc/JsonRouter at a library whose values are texts, and a batch of two requests.
use tudou.Prelude.{
  true, false, ◌≡◌, refl, List, [], ◌∷◌, Option, none, some, if◌then◌else◌, Text, text, text_eq,
}
use tudou.Rpc.JsonRouter.{JsonLibrary, JsonRpcRouter, returned, dispatch}
use tudou.Rpc.JsonRouter.Batch.{Answers, dispatch-Answers}

abbrev small_field : Text → Text → Option Text
small_field v key =
    if text_eq key (text "id")
    then some v
    else if text_eq key (text "jsonrpc")
    then some (text "2.0")
    else if text_eq key (text "method")
    then some (text "add")
    else none

abbrev small_json : JsonLibrary
small_json = record {
  Json = Text;
  parse = λ bytes. some bytes;
  dump = λ v. v;
  elements = λ v. if text_eq v (text "[]") then some (text "1" ∷ text "2" ∷ []) else none;
  field = small_field;
  as_string = λ v. some v;
  is_object = λ v. true;
  is_number = λ v. false;
  is_null = λ v. text_eq v (text "null");
  null = text "null";
  string = λ s. s;
  negative = λ n. text "-";
  array = λ vs. text "[]";
  object = λ fields. text "{}";
}

abbrev adding : JsonRpcRouter small_json
adding = record { methods = (text "add", λ params. returned (text "3")) ∷ [] }

dispatch-Answers_example :
    (responses : List Text) × Answers small_json adding (text "1" ∷ text "2" ∷ []) responses
    × (dispatch small_json adding (text "[]") ≡ text "[]")
unfolding text_eq
dispatch-Answers_example =
    dispatch-Answers small_json adding (λ fields. refl) b'[' (text "]") (text "[]") (text "1")
      (text "2" ∷ []) refl refl ((refl, (text "1", refl)), ((refl, (text "2", refl)), tt))
