-- ===== src/Http/Context/Messages.antt =====
-- src/tudou/http/HttpContext.cpp: a message as the callbacks of the parser bring it.
use tudou.Prelude.{ℕ, ◌≡◌, false, List, [], ◌∷◌, ◌++◌, some, Text}
use tudou.Http.Message.{HttpRequest, new_request, add_header}
use tudou.Http.Context.{
  ParserEvent, message_begin, url, header_field, header_value, body, message_complete, is_empty,
  split_query, version_of,
}

-- Bytes in pieces: the first one, and the others.
pub record Pieces : Type 0 where
  pub first : Text
  pub others : List Text

abbrev pub concat : List Text → Text
concat [] = []
concat (piece ∷ pieces) = piece ++ concat pieces

abbrev pub whole : Pieces → Text
whole p = p.first ++ concat p.others

-- A message as the parser sees it; a header has a name and a value, in pieces each, and the name
-- has a byte.
pub record Message : Type 0 where
  pub method : Text
  pub target : Pieces
  pub headers : List (Pieces × Pieces)
  pub contents : List Text
  pub major : ℕ
  pub minor : ℕ

abbrev pub events_of : (Text → ParserEvent) → List Text → List ParserEvent
events_of f [] = []
events_of f (piece ∷ pieces) = f piece ∷ events_of f pieces

abbrev pub pieces_of : (Text → ParserEvent) → Pieces → List ParserEvent
pieces_of f p = f p.first ∷ events_of f p.others

abbrev pub header_events : List (Pieces × Pieces) → List ParserEvent
header_events [] = []
header_events ((name, value) ∷ headers) =
    pieces_of header_field name ++ (pieces_of header_value value ++ header_events headers)

-- The callbacks for a message.
abbrev pub callbacks : Message → List ParserEvent
callbacks m =
    message_begin ∷ pieces_of (λ bytes. url bytes (some m.method)) m.target
    ++ (header_events m.headers
        ++ (events_of body m.contents ++ message_complete m.major m.minor ∷ []))

abbrev pub add_headers : HttpRequest → List (Pieces × Pieces) → HttpRequest
add_headers r [] = r
add_headers r ((name, value) ∷ headers) =
    add_headers (add_header r (whole name) (whole value)) headers

-- The request that the message is.
abbrev pub request_of : Message → HttpRequest
request_of m =
    let r = add_headers (record new_request { method = m.method }) m.headers in
    record r {
      url = whole m.target;
      path = (split_query (whole m.target)).0;
      query = (split_query (whole m.target)).1;
      version = version_of m.major m.minor;
      body = concat m.contents;
    }

abbrev pub Named : List (Pieces × Pieces) → Type 0
Named [] = Unit
Named ((name, value) ∷ headers) = (is_empty (whole name) ≡ false) × Named headers
