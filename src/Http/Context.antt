-- ===== src/Http/Context.antt =====
-- src/tudou/http/HttpContext.h and HttpContext.cpp: a request put together from the parser's callbacks.
-- llhttp is third-party code: `Parser` is its state and `execute` one call of llhttp_execute, with
-- the callbacks it makes, its error and the offset of llhttp_get_error_pos, if there is one.
pub mod Messages
pub mod Pieces
mod Tests
use tudou.Prelude.{
  ℕ, Bool, true, false, List, [], ◌∷◌, ◌++◌, Option, none, some, if◌then◌else◌, ◌==◌, Text, text,
  length,
}
use tudou.Http.Message.{HttpRequest, new_request, add_header, append_body, to_string}

-- What the callbacks read of the parser is beside the bytes: the name of the method, the version.
pub data ParserEvent : Type 0 where
  message_begin : ParserEvent
  url : Text → Option Text → ParserEvent
  header_field header_value body : Text → ParserEvent
  message_complete : ℕ → ℕ → ParserEvent

pub data ParseResult : Type 0 where
  rejected need_more_data complete : ParseResult

pub record HttpContext : Type 0 where
  pub request : HttpRequest
  pub is_complete : Bool
  pub current_url : Text
  pub current_header_field : Text
  pub current_header_value : Text
  pub last_was_value : Bool

abbrev pub new_context : HttpContext
new_context = record {
  request = new_request;
  is_complete = false;
  current_url = [];
  current_header_field = [];
  current_header_value = [];
  last_was_value = false;
}

unfoldable pub reset_message_state : HttpContext → HttpContext
reset_message_state c = new_context

abbrev pub is_empty : Text → Bool
is_empty [] = true
is_empty (b ∷ bytes) = false

abbrev pub without_pending : HttpContext → HttpContext
without_pending c = record c {
  current_header_field = [];
  current_header_value = [];
  last_was_value = false;
}

unfoldable pub flush_pending_header : HttpContext → HttpContext
flush_pending_header c =
    if c.last_was_value
    then without_pending (
        if is_empty c.current_header_field then c else record c {
          request = add_header c.request c.current_header_field c.current_header_value;
        })
    else c

abbrev pub with_method : HttpRequest → Option Text → HttpRequest
with_method r none = r
with_method r (some method) = record r { method = method }

unfoldable pub on_url : HttpContext → Text → Option Text → HttpContext
on_url c bytes method = record c {
  current_url = c.current_url ++ bytes;
  request = with_method c.request method;
}

unfoldable pub on_header_field : HttpContext → Text → HttpContext
on_header_field c bytes =
    let d = flush_pending_header c in
    record d { current_header_field = d.current_header_field ++ bytes }

unfoldable pub on_header_value : HttpContext → Text → HttpContext
on_header_value c bytes = record c {
  current_header_value = c.current_header_value ++ bytes;
  last_was_value = true;
}

unfoldable pub on_body : HttpContext → Text → HttpContext
on_body c bytes = record c { request = append_body c.request bytes }

-- What stands before the first question mark and what behind it.
abbrev pub split_query : Text → Text × Text
split_query [] = ([], [])
split_query (b ∷ bytes) =
    let (path, query) = split_query bytes in if b == b'?' then ([], bytes) else (b ∷ path, query)

abbrev pub version_of : ℕ → ℕ → Text
version_of major minor = text "HTTP/" ++ (to_string major ++ (text "." ++ to_string minor))

unfoldable pub on_message_complete : HttpContext → ℕ → ℕ → HttpContext
on_message_complete c major minor =
    let d = flush_pending_header c in
    let (path, query) = split_query d.current_url in
    record d {
      request = record d.request {
        url = d.current_url;
        path = path;
        query = query;
        version = version_of major minor;
      };
      is_complete = true;
    }

unfoldable pub on_event : HttpContext → ParserEvent → HttpContext
on_event c message_begin = reset_message_state c
on_event c (url bytes method) = on_url c bytes method
on_event c (header_field bytes) = on_header_field c bytes
on_event c (header_value bytes) = on_header_value c bytes
on_event c (body bytes) = on_body c bytes
on_event c (message_complete major minor) = on_message_complete c major minor

abbrev pub on_events : HttpContext → List ParserEvent → HttpContext
on_events c [] = c
on_events c (e ∷ es) = on_events (on_event c e) es

-- HPE_OK, HPE_PAUSED and HPE_PAUSED_UPGRADE, and any other error.
pub data ParserError : Type 0 where
  ok paused failed : ParserError

pub record Executed (Parser : Type 0) : Type 0 where
  pub parser : Parser
  pub events : List ParserEvent
  pub err : ParserError
  pub error_pos : Option ℕ

-- A rejected message has consumed nothing.
abbrev pub consumed_of : ParserError → Option ℕ → ℕ → ℕ
consumed_of ok pos len = len
consumed_of paused none len = len
consumed_of paused (some pos) len = pos
consumed_of failed pos len = 0

abbrev pub result_of : ParserError → Bool → ParseResult
result_of ok is_complete = if is_complete then complete else need_more_data
result_of paused is_complete = if is_complete then complete else need_more_data
result_of failed is_complete = rejected

module _ {Parser : Type 0} (execute : Parser → Text → Executed Parser) where
  -- The parser, the context, the result and the bytes consumed.
  unfoldable pub parse : Parser → HttpContext → Text → Parser × HttpContext × ParseResult × ℕ
  parse p c bytes =
      let x = execute p bytes in
      let c' = on_events c x.events in
      (x.parser, c', result_of x.err c'.is_complete, consumed_of x.err x.error_pos (length bytes))

-- llhttp_reset and llhttp_resume are `restart`.
unfoldable pub reset :
    {Parser : Type 0} → (Parser → Parser) → Parser → HttpContext → Parser × HttpContext
reset restart p c = (restart p, reset_message_state c)
