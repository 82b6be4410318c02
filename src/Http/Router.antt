-- ===== src/Http/Router.antt =====
-- src/tudou/http/HttpRouter.cpp: the routes, and which handler takes a request.
pub mod Refine
pub mod Allow
mod Tests
use tudou.Prelude.{
  Bool, true, false, not, ◌&&◌, ◌||◌, List, [], ◌∷◌, ◌++◌, Option, none, some, if◌then◌else◌, Text,
  text, text_eq, starts_with, lookup, insert, text_key, pair_key, ltb, ◌==◌,
}
use tudou.Http.Message.{HttpRequest, HttpResponse, plain_text, set_header}

-- `std::function`: an empty one cannot be called.
-- A handler that throws is left out, but for an empty one.
abbrev pub Handler : Type 0
Handler = Option (HttpRequest → HttpResponse → HttpResponse)

pub data DispatchResult : Type 0 where
  matched not_found method_not_allowed : DispatchResult

pub record PrefixRoute : Type 0 where
  pub prefix : Text
  pub handler : Handler

pub record HttpRouter : Type 0 where
  pub exact_routes : List ((Text × Text) × Handler)
  pub allowed_methods_by_path : List (Text × List Text)
  pub prefix_routes : List PrefixRoute
  pub not_found_handler : Handler
  pub method_not_allowed_handler : Handler

abbrev pub new_router : HttpRouter
new_router = record {
  exact_routes = [];
  allowed_methods_by_path = [];
  prefix_routes = [];
  not_found_handler = none;
  method_not_allowed_handler = none;
}

abbrev pub has : Text → List Text → Bool
has m [] = false
has m (x ∷ xs) = text_eq x m || has m xs

-- `unordered_set::insert`
abbrev pub insert_method : Text → List Text → List Text
insert_method m methods = if has m methods then methods else m ∷ methods

-- `allowedMethodsByPath_[path]`, which makes an empty entry where there is none.
abbrev pub methods_at : Text → List (Text × List Text) → List Text
methods_at path index = elim (lookup path index) [ none ↦ [] | some methods ↦ methods ]

unfoldable pub add_route : HttpRouter → Text → Text → Handler → HttpRouter
add_route r method path handler = record r {
  exact_routes = insert (method, path) handler r.exact_routes;
  allowed_methods_by_path =
      insert path (insert_method method (methods_at path r.allowed_methods_by_path))
        r.allowed_methods_by_path;
}

abbrev pub add_get_route : HttpRouter → Text → Handler → HttpRouter
add_get_route r path handler = add_route r (text "GET") path handler

abbrev pub add_post_route : HttpRouter → Text → Handler → HttpRouter
add_post_route r path handler = add_route r (text "POST") path handler

abbrev pub add_head_route : HttpRouter → Text → Handler → HttpRouter
add_head_route r path handler = add_route r (text "HEAD") path handler

unfoldable pub add_prefix_route : HttpRouter → Text → Handler → HttpRouter
add_prefix_route r prefix handler = record r {
  prefix_routes = r.prefix_routes ++ record { prefix = prefix; handler = handler } ∷ [];
}

abbrev pub set_not_found_handler : HttpRouter → Handler → HttpRouter
set_not_found_handler r handler = record r { not_found_handler = handler }

abbrev pub set_method_not_allowed_handler : HttpRouter → Handler → HttpRouter
set_method_not_allowed_handler r handler = record r { method_not_allowed_handler = handler }

abbrev pub find_exact_handler : HttpRouter → HttpRequest → Option Handler
find_exact_handler r req = lookup (req.method, req.path) r.exact_routes

abbrev pub find_allowed_methods : HttpRouter → Text → Option (List Text)
find_allowed_methods r path = lookup path r.allowed_methods_by_path

abbrev pub find_prefix_handler : List PrefixRoute → Text → Option Handler
find_prefix_handler [] path = none
find_prefix_handler (route ∷ routes) path =
    if starts_with path route.prefix then some route.handler else find_prefix_handler routes path

-- `operator<` of strings
unfoldable pub text_lt : Text → Text → Bool
text_lt s [] = false
text_lt [] (y ∷ ys) = true
text_lt (x ∷ xs) (y ∷ ys) = ltb x y || ((x == y) && text_lt xs ys)

-- `std::sort`
unfoldable pub insert_sorted : Text → List Text → List Text
insert_sorted m [] = m ∷ []
insert_sorted m (x ∷ xs) = if text_lt x m then x ∷ insert_sorted m xs else m ∷ x ∷ xs

unfoldable pub sort : List Text → List Text
sort [] = []
sort (m ∷ methods) = insert_sorted m (sort methods)

abbrev pub join_tail : List Text → Text
join_tail [] = []
join_tail (m ∷ methods) = text ", " ++ (m ++ join_tail methods)

abbrev pub join : List Text → Text
join [] = []
join (m ∷ methods) = m ++ join_tail methods

unfoldable pub format_allow_header : List Text → Text
format_allow_header methods = join (sort methods)

abbrev pub unless_empty : Text → HttpResponse → HttpResponse
unless_empty [] resp = resp
unless_empty (c ∷ cs) resp = set_header resp (text "Allow") (c ∷ cs)

unfoldable pub write_method_not_allowed_response :
    HttpRouter → HttpRequest → List Text → HttpResponse → HttpResponse
write_method_not_allowed_response r req methods resp = elim r.method_not_allowed_handler [
  | none ↦
      unless_empty (format_allow_header methods)
        (plain_text 405 (text "Method Not Allowed") (text "Method Not Allowed"))
  | some handler ↦ handler req resp
]

unfoldable pub write_not_found_response : HttpRouter → HttpRequest → HttpResponse → HttpResponse
write_not_found_response r req resp = elim r.not_found_handler [
  | none ↦ plain_text 404 (text "Not Found") (text "Not Found")
  | some handler ↦ handler req resp
]

-- The call of a handler; `none` is the exception of an empty one.
abbrev pub call : Handler → HttpRequest → HttpResponse → Option (DispatchResult × HttpResponse)
call none req resp = none
call (some handler) req resp = some (matched, handler req resp)

abbrev pub without_route :
    HttpRouter
    → Option Handler
    → HttpRequest
    → HttpResponse
    → Option (DispatchResult × HttpResponse)
without_route r (some handler) req resp = call handler req resp
without_route r none req resp = some (not_found, write_not_found_response r req resp)

abbrev pub without_exact :
    HttpRouter
    → Option (List Text)
    → HttpRequest
    → HttpResponse
    → Option (DispatchResult × HttpResponse)
without_exact r (some methods) req resp =
    some (method_not_allowed, write_method_not_allowed_response r req methods resp)
without_exact r none req resp =
    without_route r (find_prefix_handler r.prefix_routes req.path) req resp

abbrev pub dispatch_from :
    HttpRouter
    → Option Handler
    → HttpRequest
    → HttpResponse
    → Option (DispatchResult × HttpResponse)
dispatch_from r (some handler) req resp = call handler req resp
dispatch_from r none req resp = without_exact r (find_allowed_methods r req.path) req resp

unfoldable pub dispatch :
    HttpRouter → HttpRequest → HttpResponse → Option (DispatchResult × HttpResponse)
dispatch r req resp = dispatch_from r (find_exact_handler r req) req resp
