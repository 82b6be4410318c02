-- ===== src/Http/Router/Tests.antt =====
-- Http/Router and Http/Message at concrete inputs.
use tudou.Prelude.{
  ◌≡◌, refl, List, [], ◌∷◌, none, some, Text, text, lookup, insert, text_eq, starts_with, text_key,
}
use tudou.Http.Message.{HttpRequest, new_request, new_response, plain_text, set_header}
use tudou.Http.Router.{
  Handler, matched, method_not_allowed, dispatch, sort, add_route, add_prefix_route,
  write_method_not_allowed_response, format_allow_header, insert_sorted, text_lt,
}
use tudou.Http.Router.Refine.{Registration, route, prefix_route, build, dispatch_lem}

abbrev says : Text → Handler
says body = some (λ req resp. plain_text 200 (text "OK") body)

-- The last one first.
abbrev site : List Registration
site =
    route (text "POST") (text "/user") (says (text "posted"))
    ∷ prefix_route (text "/") (says (text "file"))
    ∷ route (text "GET") (text "/user") (says (text "user"))
    ∷ []

abbrev asking : Text → Text → HttpRequest
asking method path = record new_request { method = method; path = path }

method_before_prefix :
    dispatch (build site) (asking (text "PUT") (text "/user")) new_response
    ≡ some (
      method_not_allowed,
      set_header
          (plain_text 405 (text "Method Not Allowed") (text "Method Not Allowed"))
          (text "Allow")
          (text "GET, POST"),
    )
unfolding dispatch lookup insert text_eq add_route add_prefix_route
    write_method_not_allowed_response format_allow_header sort insert_sorted text_lt
method_before_prefix = refl

dispatch_lem_example :
    dispatch (build site) (asking (text "GET") (text "/a.css")) new_response
    ≡ some (matched, plain_text 200 (text "OK") (text "file"))
unfolding starts_with text_eq add_route add_prefix_route
dispatch_lem_example =
    dispatch_lem site none none (asking (text "GET") (text "/a.css")) new_response
