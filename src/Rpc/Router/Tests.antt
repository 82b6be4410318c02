-- ===== src/Rpc/Router/Tests.antt =====
-- Rpc/Router at concrete inputs.
use tudou.Prelude.{◌≡◌, refl, true, some, [], ◌∷◌, text, text_eq, lookup, insert}
use tudou.Rpc.Router.{Router, Service, runs_done, called_back, thrown, register_service, dispatch}

-- A service that answers with the bytes of its request.
abbrev echo : Service
echo = record {
  full_name = text "Echo";
  method_names = text "echo" ∷ [];
  parses_request = λ method raw. true;
  call_method = λ method raw. runs_done (some raw);
}

abbrev pub echo_router : Router
echo_router = register_service [] (some echo)

echo_answers : dispatch echo_router (text "Echo") (text "echo") (3 ∷ []) ≡ called_back (3 ∷ [])
unfolding dispatch register_service lookup insert text_eq
echo_answers = refl

unknown_method :
    dispatch echo_router (text "Echo") (text "ping") []
    ≡ thrown (text "Method not found: Echo.ping")
unfolding dispatch register_service lookup insert text_eq
unknown_method = refl
