-- ===== src/Http/Message.antt =====
-- src/tudou/http/HttpRequest.cpp and HttpResponse.cpp: requests and responses as plain data.
-- The order in which an unordered map gives its headers is a parameter.
pub mod Decimal
use tudou.Prelude.{
  ℕ, zero, suc, ◌+◌, ◌/◌, ◌%◌, Bool, true, false, not, ◌&&◌, List, [], ◌∷◌, ◌++◌, Option, none,
  some, length, if◌then◌else◌, Text, text, ltb, lookup, insert, text_key,
}

pub record HttpRequest : Type 0 where
  pub method : Text
  pub url : Text
  pub path : Text
  pub query : Text
  pub version : Text
  pub headers : List (Text × Text)
  pub body : Text

abbrev pub new_request : HttpRequest
new_request = record {
  method = [];
  url = [];
  path = [];
  query = [];
  version = [];
  headers = [];
  body = [];
}

unfoldable pub add_header : HttpRequest → Text → Text → HttpRequest
add_header r field value = record r { headers = insert field value r.headers }

unfoldable pub get_header : HttpRequest → Text → Text
get_header r field = elim (lookup field r.headers) [ none ↦ [] | some value ↦ value ]

unfoldable pub append_body : HttpRequest → Text → HttpRequest
append_body r data_bytes = record r { body = r.body ++ data_bytes }

-- A file is an fd, which is valid or not.
pub record FileBody : Type 0 where
  pub file : Option (ℕ × Bool)
  pub size : ℕ
  pub offset : ℕ

abbrev pub no_file : FileBody
no_file = record { file = none; size = 0; offset = 0 }

pub record HttpResponse : Type 0 where
  pub http_version : Text
  pub status_code : ℕ
  pub status_message : Text
  pub headers : List (Text × Text)
  pub body : Text
  pub file_body : FileBody
  pub is_file : Bool
  pub close_connection : Bool

abbrev pub new_response : HttpResponse
new_response = record {
  http_version = text "HTTP/1.1";
  status_code = 200;
  status_message = text "OK";
  headers = [];
  body = [];
  file_body = no_file;
  is_file = false;
  close_connection = false;
}

unfoldable pub set_header : HttpResponse → Text → Text → HttpResponse
set_header r field value = record r { headers = insert field value r.headers }

abbrev pub has_header : HttpResponse → Text → Bool
has_header r field = elim (lookup field r.headers) [ none ↦ false | some _ ↦ true ]

unfoldable pub set_body : HttpResponse → Text → HttpResponse
set_body r body = record r { body = body; is_file = false; file_body = no_file }

unfoldable pub set_file_body : HttpResponse → Option (ℕ × Bool) → ℕ → ℕ → HttpResponse
set_file_body r file size offset = record r {
  body = [];
  file_body = record { file = file; size = size; offset = offset };
  is_file = true;
}

abbrev pub is_valid_file : Option (ℕ × Bool) → Bool
is_valid_file none = false
is_valid_file (some (fd, valid)) = valid

abbrev pub has_file_body : HttpResponse → Bool
has_file_body r = r.is_file && is_valid_file r.file_body.file

-- `std::to_string`: a number is shorter than itself plus one.
abbrev pub digits : ℕ → ℕ → Text
digits zero n = []
digits (suc fuel) n =
    let rest = digits fuel (n / 10) in (if ltb n 10 then [] else rest) ++ (48 + n % 10) ∷ []

unfoldable pub to_string : ℕ → Text
to_string n = digits (suc n) n

unfoldable pub plain_text : ℕ → Text → Text → HttpResponse
plain_text status_code status_message body =
    let r =
      set_body (record new_response { status_code = status_code; status_message = status_message })
        body in
    let typed = set_header r (text "Content-Type") (text "text/plain") in
    let sized = set_header typed (text "Content-Length") (to_string (length body)) in
    record sized { close_connection = true }

abbrev pub crlf : Text
crlf = 13 ∷ 10 ∷ []

abbrev pub status_line : HttpResponse → Text
status_line r = r.http_version ++ (32 ∷ to_string r.status_code ++ (32 ∷ r.status_message ++ crlf))

abbrev pub header_lines : List (Text × Text) → Text
header_lines [] = []
header_lines ((field, value) ∷ headers) =
    field ++ (text ": " ++ (value ++ (crlf ++ header_lines headers)))

abbrev pub close_line : HttpResponse → Text
close_line r =
    if r.close_connection && not (has_header r (text "Connection"))
    then text "Connection: close" ++ crlf
    else []

unfoldable pub package_to_string : (List (Text × Text) → List (Text × Text)) → HttpResponse → Text
package_to_string order r =
    status_line r
    ++ (header_lines (order r.headers)
        ++ (close_line r ++ (if has_file_body r then crlf else crlf ++ r.body)))
