-- ===== src/Rpc/Router/Laws.antt =====
-- src/tudou/rpc/binary/BinaryRpcRouter.cpp: which call a registered service answers.
use tudou.Prelude.{
  ℕ, Bool, true, false, ◌||◌, ◌≡◌, refl, ap, ◌∙◌, List, [], ◌∷◌, ◌++◌, none, some, arith,
  if◌then◌else◌, Text, text, text_eq, text_eq_iff, lookup, insert, lookup-insert, text_key,
}
use tudou.Rpc.Router.{
  Router, Service, ServiceInfo, methods_of, register_service, dispatch, DispatchOutcome, thrown,
  call_service, with_method, with_service,
}

abbrev pub has_method : List Text → Text → Bool
has_method [] name = false
has_method (n ∷ names) name = text_eq n name || has_method names name

-- What a call under its name answers, whatever else is registered.
abbrev pub answer : Service → Text → Text → List ℕ → DispatchOutcome
answer service service_name name raw =
    if has_method service.method_names name
    then call_service service name service_name name raw
    else thrown (text "Method not found: " ++ (service_name ++ (text "." ++ name)))

lookup-methods_of :
    (names : List Text) (methods : List (Text × Text)) (name : Text)
    → lookup name (methods_of names methods)
      ≡ (if has_method names name then some name else lookup name methods)
lookup-methods_of [] methods name = refl
lookup-methods_of (n ∷ names) methods name =
    lookup-methods_of names (insert n n methods) name
    ∙ ground (arith, lookup-insert n name n methods, text_eq_iff n name)

with_method-answer :
    (service : Service) (service_name name : Text) (raw : List ℕ) (found : Bool)
    → with_method
        (record { service = service; methods = methods_of service.method_names [] })
        (if found then some name else none)
        service_name
        name
        raw
      ≡ (if found
          then call_service service name service_name name raw
          else thrown (text "Method not found: " ++ (service_name ++ (text "." ++ name))))
with_method-answer service service_name name raw true = refl
with_method-answer service service_name name raw false = refl

-- After a service is registered, a dispatch under its name runs the method of that name if the
-- service has it and throws if not; a dispatch under any other name is as before.
pub dispatch-register_service :
    (services : Router) (service : Service) (service_name method_name : Text) (raw : List ℕ)
    → dispatch (register_service services (some service)) service_name method_name raw ≡ (
        if text_eq service.full_name service_name
        then answer service service_name method_name raw
        else dispatch services service_name method_name raw)
unfolding dispatch register_service lookup
dispatch-register_service services service service_name method_name raw =
    ap (λ o. with_service o service_name method_name raw)
      (lookup-insert service.full_name service_name info services)
    ∙ split (text_eq service.full_name service_name)
  where
    info : ServiceInfo
    info = record { service = service; methods = methods_of service.method_names [] }

    split :
        (same : Bool)
        → with_service
            (if same then some info else lookup service_name services)
            service_name
            method_name
            raw
          ≡ (if same
              then answer service service_name method_name raw
              else with_service (lookup service_name services) service_name method_name raw)
    split true =
        ap (λ o. with_method info o service_name method_name raw)
          (lookup-methods_of service.method_names [] method_name)
        ∙ with_method-answer service service_name method_name raw
            (has_method service.method_names method_name)
    split false = refl
