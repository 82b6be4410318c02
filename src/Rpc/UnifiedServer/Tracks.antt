-- ===== src/Rpc/UnifiedServer/Tracks.antt =====
-- src/tudou/rpc/UnifiedRpcServer.cpp: both protocols call the same method of a service.
use tudou.Prelude.{
  ℕ, ◌≡◌, refl, ap, ◌∙◌, Bool, true, false, ◌||◌, List, [], ◌∷◌, ◌++◌, Option, some, if◌then◌else◌,
  Text, text, text_eq, text_key, text_eq_iff, lookup, lookup-insert, ==_refl,
}
use tudou.Rpc.Router.{Service, dispatch, call_outcome}
use tudou.Rpc.Router.Laws.{has_method, answer, dispatch-register_service}
use tudou.Rpc.JsonRouter.{JsonLibrary, JsonRpcRouter, RpcHandler, register_method}
use tudou.Rpc.UnifiedServer.{
  Protobuf, ok, UnifiedRpcServer, json_text, finish_call, call_json, bridge, full_method_name,
  bridge_methods, register_unified,
}

same_prefix : (p a b : Text) → text_eq (p ++ a) (p ++ b) ≡ text_eq a b
unfolding text_eq
same_prefix [] a b = refl
same_prefix (x ∷ p) a b = rw (==_refl x) (same_prefix p a b)

module _ (j : JsonLibrary) (pb : Protobuf j) where
  lookup-bridge_methods :
      (service : Service) (methods : List Text) (r : JsonRpcRouter j) (method : Text)
      → lookup
          (full_method_name j pb service method)
          (bridge_methods j pb service methods r).methods
        ≡ (if has_method methods method
            then some (bridge j pb service method)
            else lookup (full_method_name j pb service method) r.methods)
  unfolding bridge_methods register_method
  lookup-bridge_methods service [] r method = refl
  lookup-bridge_methods service (m ∷ methods) r method =
      lookup-bridge_methods service methods
        (register_method j r (full_method_name j pb service m) (bridge j pb service m)) method
      ∙ ap (λ o. if has_method methods method then some (bridge j pb service method) else o)
          (lookup-insert (full_method_name j pb service m) (full_method_name j pb service method)
              (bridge j pb service m) r.methods
            ∙ ap
                (λ b.
                  if b
                  then some (bridge j pb service m)
                  else lookup (full_method_name j pb service method) r.methods)
                (same_prefix service.full_name (text "." ++ m) (text "." ++ method)
                  ∙ same_prefix (text ".") m method))
      ∙ merged (lookup (full_method_name j pb service method) r.methods) (has_method methods method)
          (text_eq m method)
          (λ e. ap (λ k. some (bridge j pb service k)) ((text_eq_iff m method).0 e))
    where
      merged :
          {x y : Option (RpcHandler j)} (z : Option (RpcHandler j)) (had same : Bool)
          → (same ≡ true → y ≡ x)
          → (if had then x else if same then y else z) ≡ (if same || had then x else z)
      merged z true true e = refl
      merged z true false e = refl
      merged z false true e = e refl
      merged z false false e = refl

  -- Behind the registration of a service, a request for a method of it runs the method with the same
  -- message by either protocol: the binary router gives its outcome, and the JSON router has the
  -- handler, under the name of service and method, which gives the result of that outcome. The
  -- conversion makes the message of the parameters, and protobuf parses it.
  pub both_tracks :
      (s : UnifiedRpcServer j pb) (service : Service) (method : Text) (params : j.Json)
      (raw : List ℕ)
      → has_method service.method_names method ≡ true
      → pb.json_to_message service method (json_text j pb params) ≡ ok raw
      → service.parses_request method raw ≡ true
      → let registered = register_unified j pb s (some service) in
        let outcome = service.call_method method raw in
        (dispatch registered.binary_router service.full_name method raw ≡ call_outcome outcome)
        × (lookup (full_method_name j pb service method) registered.json_router.methods
            ≡ some (bridge j pb service method))
        × (bridge j pb service method params ≡ finish_call j pb service method raw outcome)
  unfolding register_unified bridge
  both_tracks s service method params raw has converted parses = (
    dispatch-register_service s.binary_router service service.full_name method raw
        ∙ ap
            (λ b.
              if b
              then answer service service.full_name method raw
              else dispatch s.binary_router service.full_name method raw)
            ((text_eq_iff service.full_name service.full_name).1 refl)
        ∙ rw has (rw parses refl),
    lookup-bridge_methods service service.method_names s.json_router method ∙ rw has refl,
    ap (call_json j pb service method) converted,
  )
