-- ===== src/Http/Router/Refine.antt =====
-- src/tudou/http/HttpRouter.cpp: dispatch against the registrations, however they were mixed.
use tudou.Prelude.{
  ◌≡◌, ◌⊎◌, refl, ap, ◌∙◌, sym, inl, inr, Bool, true, false, ◌&&◌, ◌||◌, List, [], ◌∷◌, ◌++◌,
  Option, none, some, if◌then◌else◌, Bool-cases, Text, text_eq, text_eq_iff, starts_with, lookup,
  lookup-insert, text_key, pair_key,
}
use tudou.Http.Message.{HttpRequest, HttpResponse}
use tudou.Http.Router.{
  Handler, DispatchResult, not_found, method_not_allowed, PrefixRoute, HttpRouter, new_router, has,
  insert_method, methods_at, add_route, add_prefix_route, find_allowed_methods, find_prefix_handler,
  set_not_found_handler, set_method_not_allowed_handler, write_method_not_allowed_response,
  write_not_found_response, call, dispatch, dispatch_from, without_exact, without_route,
}

pub data Registration : Type 0 where
  route : Text → Text → Handler → Registration
  prefix_route : Text → Handler → Registration

-- The router after some registrations, the last one first.
abbrev pub build : List Registration → HttpRouter
build [] = new_router
build (route method path handler ∷ rs) = add_route (build rs) method path handler
build (prefix_route prefix handler ∷ rs) = add_prefix_route (build rs) prefix handler

-- The handler that was registered last for a method and a path.
abbrev pub last_route : Text → Text → List Registration → Option Handler
last_route method path [] = none
last_route method path (route m p handler ∷ rs) =
    if text_eq m method && text_eq p path then some handler else last_route method path rs
last_route method path (prefix_route prefix handler ∷ rs) = last_route method path rs

abbrev pub is_routed : Text → List Registration → Bool
is_routed path [] = false
is_routed path (route m p handler ∷ rs) = text_eq p path || is_routed path rs
is_routed path (prefix_route prefix handler ∷ rs) = is_routed path rs

abbrev pub else_if : {A : Type 0} → Bool → A → Option A → Option A
else_if b x (some y) = some y
else_if b x none = if b then some x else none

-- The handler of the first prefix that was registered and that the path has.
abbrev pub first_prefix : Text → List Registration → Option Handler
first_prefix path [] = none
first_prefix path (route m p handler ∷ rs) = first_prefix path rs
first_prefix path (prefix_route prefix handler ∷ rs) =
    else_if (starts_with path prefix) handler (first_prefix path rs)

exact_of :
    (method path : Text) (rs : List Registration)
    → lookup (method, path) (build rs).exact_routes ≡ last_route method path rs
unfolding lookup add_route add_prefix_route
exact_of method path [] = refl
exact_of method path (route m p handler ∷ rs) =
    lookup-insert (m, p) (method, path) handler (build rs).exact_routes
    ∙ ap (λ o. if text_eq m method && text_eq p path then some handler else o)
        (exact_of method path rs)
exact_of method path (prefix_route prefix handler ∷ rs) = exact_of method path rs

prefix_snoc :
    (routes : List PrefixRoute) (path prefix : Text) (handler : Handler)
    → find_prefix_handler (routes ++ record { prefix = prefix; handler = handler } ∷ []) path
      ≡ else_if (starts_with path prefix) handler (find_prefix_handler routes path)
prefix_snoc [] path prefix handler = refl
prefix_snoc (r ∷ routes) path prefix handler = elim (Bool-cases (starts_with path r.prefix)) [
  | inl e ↦ rw e refl
  | inr e ↦ rw e (prefix_snoc routes path prefix handler)
]

prefix_of :
    (path : Text) (rs : List Registration)
    → find_prefix_handler (build rs).prefix_routes path ≡ first_prefix path rs
unfolding add_route add_prefix_route
prefix_of path [] = refl
prefix_of path (route m p handler ∷ rs) = prefix_of path rs
prefix_of path (prefix_route prefix handler ∷ rs) =
    prefix_snoc (build rs).prefix_routes path prefix handler
    ∙ ap (else_if (starts_with path prefix) handler) (prefix_of path rs)

-- The index of a path: its methods, if it is routed at all.
pub allowed_of :
    (path : Text) (rs : List Registration)
    → find_allowed_methods (build rs) path ≡ (
        if is_routed path rs
        then some (methods_at path (build rs).allowed_methods_by_path)
        else none)
unfolding lookup add_route add_prefix_route
allowed_of path [] = refl
allowed_of path (prefix_route prefix handler ∷ rs) = allowed_of path rs
allowed_of path (route m p handler ∷ rs) = elim (Bool-cases (text_eq p path)) [
  | inl e ↦ rw (find_allowed_methods, methods_at, lookup-insert p path listed idx, e) refl
  | inr e ↦
      rw (find_allowed_methods, methods_at, lookup-insert p path listed idx, e) (allowed_of path rs)
]
  where
    idx : List (Text × List Text)
    idx = (build rs).allowed_methods_by_path

    listed : List Text
    listed = insert_method m (methods_at p idx)

abbrev pub is_some_handler : {A : Type 0} → Option A → Bool
is_some_handler none = false
is_some_handler (some x) = true

has-insert_method :
    (x m : Text) (methods : List Text)
    → has x (insert_method m methods) ≡ (text_eq m x || has x methods)
has-insert_method x m methods = elim (Bool-cases (has m methods)) [
  | inl e ↦ rw (insert_method, e) (absorb e (Bool-cases (text_eq m x)))
  | inr e ↦ rw (insert_method, e) refl
]
  where
    absorb :
        has m methods ≡ true
        → (text_eq m x ≡ true) ⊎ (text_eq m x ≡ false)
        → has x methods ≡ (text_eq m x || has x methods)
    absorb found (inl same) =
        rw same (ap (λ t. has t methods) (sym ((text_eq_iff m x).0 same)) ∙ found)
    absorb found (inr other) = rw other refl

-- The index lists a method for a path exactly if a handler is registered for both.
pub methods_at_iff :
    (method path : Text) (rs : List Registration)
    → has method (methods_at path (build rs).allowed_methods_by_path)
      ≡ is_some_handler (last_route method path rs)
unfolding lookup add_route add_prefix_route
methods_at_iff method path [] = refl
methods_at_iff method path (prefix_route prefix handler ∷ rs) = methods_at_iff method path rs
methods_at_iff method path (route m p handler ∷ rs) = elim (Bool-cases (text_eq p path)) [
  | inl e ↦
      rw (methods_at, lookup-insert p path listed idx, e)
        (has-insert_method method m (methods_at p idx)
          ∙ ap (λ b. text_eq m method || b)
              (ap (λ t. has method (methods_at t idx)) ((text_eq_iff p path).0 e)
                ∙ methods_at_iff method path rs)
          ∙ either (text_eq m method) (last_route method path rs))
  | inr e ↦
      rw (methods_at, lookup-insert p path listed idx, e)
        (methods_at_iff method path rs ∙ neither (text_eq m method) (last_route method path rs))
]
  where
    idx : List (Text × List Text)
    idx = (build rs).allowed_methods_by_path

    listed : List Text
    listed = insert_method m (methods_at p idx)

    either :
        (b : Bool) (o : Option Handler)
        → (b || is_some_handler o) ≡ is_some_handler (if b && true then some handler else o)
    either true o = refl
    either false o = refl

    neither :
        (b : Bool) (o : Option Handler)
        → is_some_handler o ≡ is_some_handler (if b && false then some handler else o)
    neither true o = refl
    neither false o = refl

-- What a router with these registrations does with a request.
abbrev pub expected :
    List Registration
    → HttpRouter
    → HttpRequest
    → HttpResponse
    → Option (DispatchResult × HttpResponse)
expected rs r req resp = elim (last_route req.method req.path rs) [
  | some handler ↦ call handler req resp
  | none ↦
      if is_routed req.path rs
      then some (
        method_not_allowed,
        write_method_not_allowed_response r req (methods_at req.path r.allowed_methods_by_path)
            resp,
      )
      else elim (first_prefix req.path rs) [
        | some handler ↦ call handler req resp
        | none ↦ some (not_found, write_not_found_response r req resp)
      ]
]

-- However routes and prefixes were registered, a request goes to the handler that was registered
-- last for its method and path; if its path is routed for other methods only, it is answered by
-- 405; otherwise it goes to the first registered prefix of its path, or is answered by 404.
pub dispatch_lem :
    (rs : List Registration) (on_404 on_405 : Handler) (req : HttpRequest) (resp : HttpResponse)
    → let r = set_method_not_allowed_handler (set_not_found_handler (build rs) on_404) on_405 in
      dispatch r req resp ≡ expected rs r req resp
unfolding dispatch
dispatch_lem rs on_404 on_405 req resp =
    ap (λ o. dispatch_from r o req resp) (exact_of req.method req.path rs)
    ∙ from_exact (last_route req.method req.path rs)
  where
    r : HttpRouter
    r = set_method_not_allowed_handler (set_not_found_handler (build rs) on_404) on_405

    methods : List Text
    methods = methods_at req.path r.allowed_methods_by_path

    from_prefix :
        (o : Option Handler)
        → without_route r o req resp ≡ elim o [
          | some handler ↦ call handler req resp
          | none ↦ some (not_found, write_not_found_response r req resp)
        ]
    from_prefix none = refl
    from_prefix (some handler) = refl

    from_allowed :
        (b : Bool)
        → without_exact r (if b then some methods else none) req resp ≡ (
            if b
            then some (method_not_allowed, write_method_not_allowed_response r req methods resp)
            else elim (first_prefix req.path rs) [
              | some handler ↦ call handler req resp
              | none ↦ some (not_found, write_not_found_response r req resp)
            ])
    from_allowed true = refl
    from_allowed false =
        ap (λ o. without_route r o req resp) (prefix_of req.path rs)
        ∙ from_prefix (first_prefix req.path rs)

    from_exact :
        (o : Option Handler)
        → dispatch_from r o req resp ≡ elim o [
          | some handler ↦ call handler req resp
          | none ↦
              if is_routed req.path rs
              then some (method_not_allowed, write_method_not_allowed_response r req methods resp)
              else elim (first_prefix req.path rs) [
                | some handler ↦ call handler req resp
                | none ↦ some (not_found, write_not_found_response r req resp)
              ]
        ]
    from_exact (some handler) = refl
    from_exact none =
        ap (λ o. without_exact r o req resp) (allowed_of req.path rs)
        ∙ from_allowed (is_routed req.path rs)
