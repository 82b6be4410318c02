-- ===== src/StaticFiles.antt =====
-- examples/StaticFileHttpServer/StaticFileHttpServer.cpp: files below a directory, served by HttpServer.
-- The file system and the dates of the C library are parameters.
pub mod Confined
mod Tests
use tudou.Prelude.{
  ℕ, Bool, true, false, ◌&&◌, ◌||◌, List, [], ◌∷◌, ◌++◌, Option, none, some, if◌then◌else◌, ◌==◌,
  Text, text, text_eq,
}
use tudou.Http.Message.{HttpRequest, HttpResponse, set_header, set_body, set_file_body, to_string}
use tudou.Http.Router.{HttpRouter, new_router, add_prefix_route}

pub record FileMeta : Type 0 where
  pub mtime : ℕ
  pub size : ℕ
  pub is_dir : Bool

-- What stat and open give for the C string of a text, if they do not fail.
pub record FileSystem : Type 0 where
  pub stat : Text → Option FileMeta
  pub open_file : Text → Option ℕ

-- gmtime_r and put_time; empty where gmtime_r fails.
abbrev pub DateFormat : Type 0
DateFormat = ℕ → Text

abbrev pub is_allowed_method : Text → Bool
is_allowed_method method = text_eq method (text "GET") || text_eq method (text "HEAD")

-- What is behind the last dot, if there is one.
abbrev pub after_last_dot : Text → Option Text
after_last_dot [] = none
after_last_dot (b ∷ bytes) = elim (after_last_dot bytes) [
  | none ↦ if b == b'.' then some bytes else none
  | some ext ↦ some ext
]

abbrev pub content_type_of : Text → Text
content_type_of ext =
    if text_eq ext (text "html") || text_eq ext (text "htm")
    then text "text/html; charset=utf-8"
    else if text_eq ext (text "css")
    then text "text/css; charset=utf-8"
    else if text_eq ext (text "js")
    then text "text/javascript; charset=utf-8"
    else if text_eq ext (text "txt")
    then text "text/plain; charset=utf-8"
    else if text_eq ext (text "json")
    then text "application/json; charset=utf-8"
    else if text_eq ext (text "webmanifest")
    then text "application/manifest+json"
    else if text_eq ext (text "png")
    then text "image/png"
    else if text_eq ext (text "jpg") || text_eq ext (text "jpeg")
    then text "image/jpeg"
    else if text_eq ext (text "gif")
    then text "image/gif"
    else if text_eq ext (text "svg")
    then text "image/svg+xml"
    else if text_eq ext (text "ico")
    then text "image/x-icon"
    else if text_eq ext (text "webp")
    then text "image/webp"
    else if text_eq ext (text "mp4")
    then text "video/mp4"
    else if text_eq ext (text "mp3")
    then text "audio/mpeg"
    else text "application/octet-stream"

unfoldable pub guess_content_type : Text → Text
guess_content_type filepath = elim (after_last_dot filepath) [
  | none ↦ text "application/octet-stream"
  | some ext ↦ content_type_of ext
]

abbrev pub with_status : HttpResponse → ℕ → Text → HttpResponse
with_status r code message = record r {
  http_version = text "HTTP/1.1";
  status_code = code;
  status_message = message;
}

abbrev pub set_method_not_allowed : HttpResponse → HttpResponse
set_method_not_allowed r =
    let typed =
      set_header (with_status r 405 (text "Method Not Allowed")) (text "Content-Type")
        (text "text/plain; charset=utf-8") in
    let allowed = set_header typed (text "Allow") (text "GET, HEAD") in
    record (set_body allowed (text "Method Not Allowed")) { close_connection = true }

abbrev pub set_not_found : HttpResponse → HttpResponse
set_not_found r =
    let typed =
      set_header (with_status r 404 (text "Not Found")) (text "Content-Type")
        (text "text/plain; charset=utf-8") in
    record (set_body typed (text "Not Found")) { close_connection = true }

abbrev pub with_last_modified : HttpResponse → Text → HttpResponse
with_last_modified r [] = r
with_last_modified r (b ∷ bytes) = set_header r (text "Last-Modified") (b ∷ bytes)

abbrev pub sized_ok : HttpResponse → Text → ℕ → HttpResponse
sized_ok r content_type size =
    set_header (set_header (with_status r 200 (text "OK")) (text "Content-Type") content_type)
      (text "Content-Length") (to_string size)

abbrev pub set_head_ok : DateFormat → HttpResponse → Text → ℕ → ℕ → HttpResponse
set_head_ok format r content_type mtime size =
    let dated = with_last_modified (sized_ok r content_type size) (format mtime) in
    record (set_body (set_header dated (text "Connection") (text "Keep-Alive")) []) {
      close_connection = false;
    }

abbrev pub set_file_ok : HttpResponse → Text → ℕ → ℕ → HttpResponse
set_file_ok r content_type fd size =
    let kept = set_header (sized_ok r content_type size) (text "Connection") (text "Keep-Alive") in
    record (set_file_body kept (some (fd, true)) size 0) { close_connection = false }

-- `find("..")`
abbrev pub starts_with_dot : Text → Bool
starts_with_dot [] = false
starts_with_dot (b ∷ bytes) = b == b'.'

abbrev pub has_dots : Text → Bool
has_dots [] = false
has_dots (b ∷ bytes) = ((b == b'.') && starts_with_dot bytes) || has_dots bytes

abbrev pub or_root : Text → Text
or_root [] = text "/"
or_root (b ∷ bytes) = b ∷ bytes

abbrev pub rooted : Text → Text
rooted [] = text "/"
rooted (b ∷ bytes) = if b == b'/' then b ∷ bytes else b'/' ∷ b ∷ bytes

-- Whether the last byte is a slash.
abbrev pub ends_with_slash : Text → Bool
ends_with_slash [] = false
ends_with_slash (b ∷ []) = b == b'/'
ends_with_slash (b ∷ c ∷ bytes) = ends_with_slash (c ∷ bytes)

abbrev pub is_directory : Option FileMeta → Bool
is_directory none = false
is_directory (some file) = file.is_dir

module _ (fs : FileSystem) (base_dir : Text) where
  abbrev pub resolve_in_base : Text → Text
  resolve_in_base path =
      let real_path = base_dir ++ path in
      if ends_with_slash real_path
      then real_path ++ text "index.html"
      else if is_directory (fs.stat real_path)
      then real_path ++ text "/index.html"
      else if text_eq path (text "/")
      then base_dir ++ text "/index.html"
      else real_path

  unfoldable pub resolve_path : Text → Text
  resolve_path url_path =
      let path = or_root url_path in
      if has_dots path then base_dir ++ text "/__forbidden__" else resolve_in_base (rooted path)

  abbrev pub opened : HttpResponse → Text → FileMeta → Option ℕ → HttpResponse
  opened resp real_path file none = set_not_found resp
  opened resp real_path file (some fd) =
      set_file_ok resp (guess_content_type real_path) fd file.size

  unfoldable pub package_file_response : Text → HttpResponse → HttpResponse
  package_file_response real_path resp = elim (fs.stat real_path) [
    | none ↦ set_not_found resp
    | some file ↦ opened resp real_path file (fs.open_file real_path)
  ]

  unfoldable pub head_response : DateFormat → Text → HttpResponse → HttpResponse
  head_response format real_path resp = elim (fs.stat real_path) [
    | none ↦ set_body (set_not_found resp) []
    | some file ↦ set_head_ok format resp (guess_content_type real_path) file.mtime file.size
  ]

  unfoldable pub on_http_request : DateFormat → HttpRequest → HttpResponse → HttpResponse
  on_http_request format req resp =
      let real_path = resolve_path req.path in
      if is_allowed_method req.method
      then if text_eq req.method (text "HEAD")
        then head_response format real_path resp
        else package_file_response real_path resp
      else set_method_not_allowed resp

  -- The router of its HttpServer, as the constructor leaves it.
  unfoldable pub new_static_router : DateFormat → HttpRouter
  new_static_router format = add_prefix_route new_router (text "/") (some (on_http_request format))
