-- ===== src/StaticFiles/Confined.antt =====
-- examples/StaticFileHttpServer/StaticFileHttpServer.cpp: which files a request can reach.
use mathlib.Core.Path.{fun_ext}
use tudou.Prelude.{
  ℕ, Bool, true, false, ◌≡◌, refl, sym, ap, ap₂, ◌∙◌, subst, [], ◌∷◌, ◌++◌, append_assoc, Option,
  none, some, by_both, Bool-cases, inl, inr, if◌then◌else◌, ◌==◌, ==_iff, Text, text, text_eq,
  arith,
}
use tudou.Http.Message.{HttpRequest, HttpResponse, set_body}
use tudou.Http.Router.{dispatch, new_router, add_prefix_route}
use tudou.StaticFiles.{
  FileSystem, FileMeta, DateFormat, starts_with_dot, has_dots, or_root, rooted, ends_with_slash,
  is_directory, resolve_in_base, resolve_path, opened, package_file_response, head_response,
  on_http_request, new_static_router, set_not_found, is_allowed_method, set_method_not_allowed,
  set_head_ok, guess_content_type,
}

-- A path below a directory, with no two dots in a row behind it.
pub record Below (base_dir path : Text) : Type 0 where
  pub rest : Text
  pub is_path : path ≡ base_dir ++ (b'/' ∷ rest)
  pub no_dots : has_dots rest ≡ false

has_dots-append :
    (xs ys : Text)
    → has_dots xs ≡ false
    → has_dots ys ≡ false
    → starts_with_dot ys ≡ false
    → has_dots (xs ++ ys) ≡ false
has_dots-append [] ys h k s = k
has_dots-append (x ∷ []) ys h k s = ground arith
has_dots-append (x ∷ y ∷ xs) ys h k s = ground (arith, has_dots-append (y ∷ xs) ys)

module _ (base_dir : Text) where
  rooted-Below : (path : Text) → has_dots path ≡ false → Below base_dir (base_dir ++ rooted path)
  rooted-Below [] h = record { rest = []; is_path = refl; no_dots = refl }
  rooted-Below (b ∷ bytes) h = elim (Bool-cases (b == b'/')) [
    | inl e ↦ record {
      rest = bytes;
      is_path =
          ap (λ (t : Bool). base_dir ++ (if t then b ∷ bytes else b'/' ∷ b ∷ bytes)) e
          ∙ ap (λ c. base_dir ++ (c ∷ bytes)) ((==_iff b b'/').0 e);
      no_dots = ground arith;
    }
    | inr e ↦ record {
      rest = b ∷ bytes;
      is_path = ap (λ (t : Bool). base_dir ++ (if t then b ∷ bytes else b'/' ∷ b ∷ bytes)) e;
      no_dots = h;
    }
  ]

  Below-append :
      {path : Text} (suffix : Text)
      → Below base_dir path
      → has_dots suffix ≡ false
      → starts_with_dot suffix ≡ false
      → Below base_dir (path ++ suffix)
  Below-append suffix below h s = record {
    rest = below.rest ++ suffix;
    is_path =
        ap (λ p. p ++ suffix) below.is_path ∙ append_assoc base_dir (b'/' ∷ below.rest) suffix;
    no_dots = has_dots-append below.rest suffix below.no_dots h s;
  }

  module _ (fs : FileSystem) where
    resolve_in_base-Below :
        (path : Text)
        → Below base_dir (base_dir ++ path)
        → Below base_dir (resolve_in_base fs base_dir path)
    resolve_in_base-Below path below =
        by_both (Below base_dir) (ends_with_slash (base_dir ++ path))
          (Below-append (text "index.html") below refl refl)
          (by_both (Below base_dir) (is_directory (fs.stat (base_dir ++ path)))
            (Below-append (text "/index.html") below refl refl)
            (by_both (Below base_dir) (text_eq path (text "/"))
              (record { rest = text "index.html"; is_path = refl; no_dots = refl }) below))

    pub resolve_path-Below : (url_path : Text) → Below base_dir (resolve_path fs base_dir url_path)
    unfolding resolve_path
    resolve_path-Below url_path = elim (Bool-cases (has_dots (or_root url_path))) [
      | inl e ↦
          subst (λ b. Below base_dir (chosen b)) (sym e)
            (record { rest = text "__forbidden__"; is_path = refl; no_dots = refl })
      | inr e ↦
          subst (λ b. Below base_dir (chosen b)) (sym e)
            (resolve_in_base-Below (rooted (or_root url_path)) (rooted-Below (or_root url_path) e))
    ]
      where
        chosen : Bool → Text
        chosen b =
            if b
            then base_dir ++ text "/__forbidden__"
            else resolve_in_base fs base_dir (rooted (or_root url_path))

  -- Two file systems that agree on the files below the directory.
  module _ (fs gs : FileSystem)
      (agree : (path : Text)
        → Below base_dir path
        → (fs.stat path ≡ gs.stat path) × (fs.open_file path ≡ gs.open_file path)) where
    same_resolve_path :
        (url_path : Text) → resolve_path fs base_dir url_path ≡ resolve_path gs base_dir url_path
    unfolding resolve_path
    same_resolve_path url_path = elim (Bool-cases (has_dots (or_root url_path))) [
      | inl e ↦ chosen true e
      | inr e ↦ chosen false e
    ]
      where
        path : Text
        path = rooted (or_root url_path)

        chosen :
            (b : Bool)
            → has_dots (or_root url_path) ≡ b
            → (if has_dots (or_root url_path)
                then base_dir ++ text "/__forbidden__"
                else resolve_in_base fs base_dir path)
              ≡ (if has_dots (or_root url_path)
                  then base_dir ++ text "/__forbidden__"
                  else resolve_in_base gs base_dir path)
        chosen true e =
            ap
              (λ (t : Bool).
                if t then base_dir ++ text "/__forbidden__" else resolve_in_base fs base_dir path)
              e
            ∙ sym (
                ap
                  (λ (t : Bool).
                    if t
                    then base_dir ++ text "/__forbidden__"
                    else resolve_in_base gs base_dir path)
                  e)
        chosen false e =
            ap
              (λ (t : Bool).
                if t then base_dir ++ text "/__forbidden__" else resolve_in_base fs base_dir path)
              e
            ∙ ap
                (λ o.
                  if ends_with_slash (base_dir ++ path)
                  then (base_dir ++ path) ++ text "index.html"
                  else if is_directory o
                  then (base_dir ++ path) ++ text "/index.html"
                  else if text_eq path (text "/")
                  then base_dir ++ text "/index.html"
                  else base_dir ++ path)
                (agree (base_dir ++ path) (rooted-Below (or_root url_path) e)).0
            ∙ sym (
                ap
                  (λ (t : Bool).
                    if t
                    then base_dir ++ text "/__forbidden__"
                    else resolve_in_base gs base_dir path)
                  e)

    same_package :
        (path : Text) (resp : HttpResponse)
        → Below base_dir path
        → package_file_response fs base_dir path resp ≡ package_file_response gs base_dir path resp
    unfolding package_file_response
    same_package path resp below =
        ap₂
          (λ (s : Option FileMeta) (o : Option ℕ). elim s as (λ _. HttpResponse) [
            | none ↦ set_not_found resp
            | some file ↦ opened fs base_dir resp path file o
          ])
          (agree path below).0 (agree path below).1

    same_head :
        (format : DateFormat) (path : Text) (resp : HttpResponse)
        → Below base_dir path
        → head_response fs base_dir format path resp ≡ head_response gs base_dir format path resp
    unfolding head_response
    same_head format path resp below =
        ap
          (λ (s : Option FileMeta). elim s as (λ _. HttpResponse) [
            | none ↦ set_body (set_not_found resp) []
            | some file ↦ set_head_ok format resp (guess_content_type path) file.mtime file.size
          ])
          (agree path below).0

    same_response :
        (format : DateFormat) (req : HttpRequest) (resp : HttpResponse)
        → on_http_request fs base_dir format req resp ≡ on_http_request gs base_dir format req resp
    unfolding on_http_request
    same_response format req resp =
        let path = resolve_path fs base_dir req.path in
        let below = resolve_path-Below fs req.path in
        ap₂ by_method (same_head format path resp below) (same_package path resp below)
        ∙ ap
            (λ p.
              by_method (head_response gs base_dir format p resp)
                (package_file_response gs base_dir p resp))
            (same_resolve_path req.path)
      where
        by_method : HttpResponse → HttpResponse → HttpResponse
        by_method head get =
            if is_allowed_method req.method
            then if text_eq req.method (text "HEAD") then head else get
            else set_method_not_allowed resp

    -- A request to the router of the server has the same answer in two file systems that agree on
    -- the paths below the directory with no two dots in a row behind it: no other file is looked at
    -- or opened, whatever the path of the request.
    pub dispatch_confined :
        (format : DateFormat) (req : HttpRequest) (resp : HttpResponse)
        → dispatch (new_static_router fs base_dir format) req resp
          ≡ dispatch (new_static_router gs base_dir format) req resp
    unfolding new_static_router
    dispatch_confined format req resp =
        ap (λ handler. dispatch (add_prefix_route new_router (text "/") (some handler)) req resp)
          (fun_ext λ q. fun_ext λ r. same_response format q r)
