-- ===== src/Rpc/Router.antt =====
-- src/tudou/rpc/binary/BinaryRpcRouter.cpp: services by name, and their methods by name.
-- Protobuf is a parameter: a `Service` is what the router asks of google::protobuf::Service.
pub mod Laws
pub mod Tests
use tudou.Prelude.{
  ℕ, Bool, List, [], ◌∷◌, ◌++◌, Option, none, some, if◌then◌else◌, Text, text, lookup, insert,
  text_key,
}

-- What `CallMethod` does: it runs the closure, whose response serializes or not, it throws, or it
-- returns and has not run the closure yet.
pub data CallOutcome : Type 0 where
  runs_done : Option (List ℕ) → CallOutcome
  throws : Text → CallOutcome
  returns_early : CallOutcome

-- A method descriptor is the method's name.
pub record Service : Type 0 where
  pub full_name : Text
  pub method_names : List Text
  pub parses_request : Text → List ℕ → Bool
  pub call_method : Text → List ℕ → CallOutcome

pub record ServiceInfo : Type 0 where
  pub service : Service
  pub methods : List (Text × Text)

abbrev pub Router : Type 0
Router = List (Text × ServiceInfo)

abbrev pub methods_of : List Text → List (Text × Text) → List (Text × Text)
methods_of [] methods = methods
methods_of (name ∷ names) methods = methods_of names (insert name name methods)

-- `none` is the null pointer.
unfoldable pub register_service : Router → Option Service → Router
register_service services none = services
register_service services (some service) =
    insert service.full_name
      (record { service = service; methods = methods_of service.method_names [] }) services

-- `thrown` carries the message; `called_back` the argument of the callback.
pub data DispatchOutcome : Type 0 where
  thrown : Text → DispatchOutcome
  called_back : List ℕ → DispatchOutcome
  pending : DispatchOutcome

-- `BinaryRpcClosure::Run`: a response that does not serialize is answered by an empty one.
abbrev pub run_closure : Option (List ℕ) → List ℕ
run_closure none = []
run_closure (some raw) = raw

abbrev pub call_outcome : CallOutcome → DispatchOutcome
call_outcome (runs_done response) = called_back (run_closure response)
call_outcome (throws message) = thrown message
call_outcome returns_early = pending

abbrev pub call_service : Service → Text → Text → Text → List ℕ → DispatchOutcome
call_service service method service_name method_name raw =
    if service.parses_request method raw
    then call_outcome (service.call_method method raw)
    else thrown
        (text "Invalid request payload for method: " ++ (service_name ++ (text "." ++ method_name)))

-- Step 2: the method, behind the service that step 1 has found.
abbrev pub with_method : ServiceInfo → Option Text → Text → Text → List ℕ → DispatchOutcome
with_method info none service_name method_name raw =
    thrown (text "Method not found: " ++ (service_name ++ (text "." ++ method_name)))
with_method info (some method) service_name method_name raw =
    call_service info.service method service_name method_name raw

abbrev pub with_service : Option ServiceInfo → Text → Text → List ℕ → DispatchOutcome
with_service none service_name method_name raw = thrown (text "Service not found: " ++ service_name)
with_service (some info) service_name method_name raw =
    with_method info (lookup method_name info.methods) service_name method_name raw

unfoldable pub dispatch : Router → Text → Text → List ℕ → DispatchOutcome
dispatch services service_name method_name raw =
    with_service (lookup service_name services) service_name method_name raw
