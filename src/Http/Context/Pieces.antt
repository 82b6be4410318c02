-- ===== src/Http/Context/Pieces.antt =====
-- src/tudou/http/HttpContext.cpp: however the parser cuts a message, the request is the same.
use tudou.Prelude.{
  ◌≡◌, refl, ap, ap₂, sym, ◌∙◌, Bool, true, false, List, [], ◌∷◌, ◌++◌, append_assoc, append-nil,
  some, if◌then◌else◌, Text,
}
use tudou.Http.Message.{HttpRequest, new_request, add_header, append_body}
use tudou.Http.Context.{
  ParserEvent, url, header_field, header_value, body, message_complete, HttpContext, new_context,
  reset_message_state, is_empty, flush_pending_header, without_pending, on_url, on_header_field,
  on_header_value, on_body, on_message_complete, split_query, version_of, on_event, on_events,
}
use tudou.Http.Context.Messages.{
  Pieces, concat, whole, Message, events_of, pieces_of, header_events, callbacks, add_headers,
  request_of, Named,
}

on_events-append :
    (c : HttpContext) (xs ys : List ParserEvent)
    → on_events c (xs ++ ys) ≡ on_events (on_events c xs) ys
on_events-append c [] ys = refl
on_events-append c (x ∷ xs) ys = on_events-append (on_event c x) xs ys

-- A context in the middle of a message.
abbrev at : HttpRequest → Text → Text → Text → Bool → HttpContext
at r target name value was_value = record {
  request = r;
  is_complete = false;
  current_url = target;
  current_header_field = name;
  current_header_value = value;
  last_was_value = was_value;
}

on_urls :
    (r : HttpRequest) (method target : Text) (pieces : List Text)
    → on_events
        (at (record r { method = method }) target [] [] false)
        (events_of (λ bytes. url bytes (some method)) pieces)
      ≡ at (record r { method = method }) (target ++ concat pieces) [] [] false
unfolding on_event on_url
on_urls r method target [] =
    ap (λ u. at (record r { method = method }) u [] [] false) (sym (append-nil target))
on_urls r method target (piece ∷ pieces) =
    on_urls r method (target ++ piece) pieces
    ∙ ap (λ u. at (record r { method = method }) u [] [] false)
        (append_assoc target piece (concat pieces))

on_names :
    (r : HttpRequest) (target name : Text) (pieces : List Text)
    → on_events (at r target name [] false) (events_of header_field pieces)
      ≡ at r target (name ++ concat pieces) [] false
unfolding on_event on_header_field flush_pending_header
on_names r target name [] = ap (λ n. at r target n [] false) (sym (append-nil name))
on_names r target name (piece ∷ pieces) =
    on_names r target (name ++ piece) pieces
    ∙ ap (λ n. at r target n [] false) (append_assoc name piece (concat pieces))

on_values :
    (r : HttpRequest) (target name value : Text) (pieces : List Text)
    → on_events (at r target name value true) (events_of header_value pieces)
      ≡ at r target name (value ++ concat pieces) true
unfolding on_event on_header_value
on_values r target name value [] = ap (λ v. at r target name v true) (sym (append-nil value))
on_values r target name value (piece ∷ pieces) =
    on_values r target name (value ++ piece) pieces
    ∙ ap (λ v. at r target name v true) (append_assoc value piece (concat pieces))

-- A header from its first piece on, behind a context whose pending header gives `r`.
on_header :
    (c : HttpContext) (r : HttpRequest) (target : Text) (name value : Pieces)
    → flush_pending_header c ≡ at r target [] [] false
    → on_events c (pieces_of header_field name ++ pieces_of header_value value)
      ≡ at r target (whole name) (whole value) true
unfolding on_event on_header_field on_header_value
on_header c r target name value e =
    on_events-append c (pieces_of header_field name) (pieces_of header_value value)
    ∙ ap
        (λ d.
          on_events
            (on_events (record d { current_header_field = d.current_header_field ++ name.first })
              (events_of header_field name.others))
            (pieces_of header_value value))
        e
    ∙ ap (λ d. on_events d (pieces_of header_value value))
        (on_names r target name.first name.others)
    ∙ on_values r target (whole name) value.first value.others

flush_named :
    (r : HttpRequest) (target name value : Text)
    → is_empty name ≡ false
    → flush_pending_header (at r target name value true)
      ≡ at (add_header r name value) target [] [] false
unfolding flush_pending_header
flush_named r target name value e =
    ap
      (λ t. without_pending (
        if t
        then at r target name value true
        else at (add_header r name value) target name value true))
      e

on_headers :
    (c : HttpContext) (r : HttpRequest) (target : Text) (headers : List (Pieces × Pieces))
    → Named headers
    → flush_pending_header c ≡ at r target [] [] false
    → flush_pending_header (on_events c (header_events headers))
      ≡ at (add_headers r headers) target [] [] false
on_headers c r target [] n e = e
on_headers c r target ((name, value) ∷ headers) n e =
    ap flush_pending_header (
      ap (on_events c) (
        sym (
          append_assoc (pieces_of header_field name) (pieces_of header_value value)
            (header_events headers)))
      ∙ on_events-append c (pieces_of header_field name ++ pieces_of header_value value)
          (header_events headers)
      ∙ ap (λ d. on_events d (header_events headers)) (on_header c r target name value e))
    ∙ on_headers (at r target (whole name) (whole value) true)
        (add_header r (whole name) (whole value)) target headers n.1
        (flush_named r target (whole name) (whole value) n.0)

with_body : HttpContext → Text → HttpContext
with_body c bytes = record c { request = record c.request { body = bytes } }

on_bodies :
    (c : HttpContext) (pieces : List Text)
    → on_events c (events_of body pieces) ≡ with_body c (c.request.body ++ concat pieces)
unfolding on_event on_body append_body with_body
on_bodies c [] = ap (with_body c) (sym (append-nil c.request.body))
on_bodies c (piece ∷ pieces) =
    on_bodies (with_body c (c.request.body ++ piece)) pieces
    ∙ ap (with_body c) (append_assoc c.request.body piece (concat pieces))

-- A body that comes before the last header is put in.
flush-with_body :
    (c : HttpContext) (bytes : Text)
    → flush_pending_header (with_body c bytes) ≡ with_body (flush_pending_header c) bytes
unfolding flush_pending_header with_body add_header
flush-with_body c bytes = chosen c.last_was_value (is_empty c.current_header_field)
  where
    named : HttpContext → HttpContext
    named d = record d {
      request = add_header d.request d.current_header_field d.current_header_value;
    }

    chosen :
        (t u : Bool)
        → (if t
            then without_pending (if u then with_body c bytes else named (with_body c bytes))
            else with_body c bytes)
          ≡ with_body (if t then without_pending (if u then c else named c) else c) bytes
    chosen true true = refl
    chosen true false = refl
    chosen false u = refl

flush-body : (c : HttpContext) → (flush_pending_header c).request.body ≡ c.request.body
unfolding flush_pending_header add_header
flush-body c = chosen c.last_was_value (is_empty c.current_header_field)
  where
    chosen :
        (t u : Bool)
        → (if t
            then without_pending (
                if u then c else record c {
                  request = add_header c.request c.current_header_field c.current_header_value;
                })
            else c).request.body
          ≡ c.request.body
    chosen true true = refl
    chosen true false = refl
    chosen false u = refl

body-add_headers :
    (r : HttpRequest) (headers : List (Pieces × Pieces)) → (add_headers r headers).body ≡ r.body
unfolding add_header
body-add_headers r [] = refl
body-add_headers r ((name, value) ∷ headers) =
    body-add_headers (add_header r (whole name) (whole value)) headers

module _ (m : Message) (n : Named m.headers) where
  requested : HttpRequest
  requested = record new_request { method = m.method }

  target : Text
  target = whole m.target

  -- The contexts behind the target, the headers and the body.
  with_target : HttpContext
  with_target = at requested target [] [] false

  with_headers : HttpContext
  with_headers = on_events with_target (header_events m.headers)

  headers_flushed :
      flush_pending_header with_headers ≡ at (add_headers requested m.headers) target [] [] false
  unfolding with_headers with_target flush_pending_header
  headers_flushed = on_headers with_target requested target m.headers n refl

  no_body : with_headers.request.body ≡ []
  unfolding requested
  no_body =
      sym (flush-body with_headers)
      ∙ ap (λ (c : HttpContext). c.request.body) headers_flushed
      ∙ body-add_headers requested m.headers

  completed : HttpContext → HttpContext
  completed d = record d {
    request = record d.request {
      url = d.current_url;
      path = (split_query d.current_url).0;
      query = (split_query d.current_url).1;
      version = version_of m.major m.minor;
    };
    is_complete = true;
  }

  last_event :
      on_message_complete
        (with_body with_headers (with_headers.request.body ++ concat m.contents))
        m.major
        m.minor
      ≡ record new_context { request = request_of m; is_complete = true; current_url = target }
  unfolding on_message_complete completed with_body target requested
  last_event = ap completed (
      flush-with_body with_headers (with_headers.request.body ++ concat m.contents)
      ∙ ap₂ with_body headers_flushed (ap (λ b. b ++ concat m.contents) no_body))

  -- Whatever was parsed before, and however the parser cuts the target, the names and values of the
  -- headers and the body into callbacks: when the message is complete, the request is the one that
  -- the message is, its headers put in one after the other, its target split at the first question
  -- mark. Each header has a name.
  pub on_events-callbacks :
      (c : HttpContext)
      → on_events c (callbacks m) ≡ record new_context {
        request = request_of m;
        is_complete = true;
        current_url = whole m.target;
      }
  unfolding on_event reset_message_state on_url target with_headers with_target requested
  on_events-callbacks c =
      on_events-append new_context (pieces_of (λ bytes. url bytes (some m.method)) m.target) _
      ∙ ap
          (λ d. on_events d (
            header_events m.headers
            ++ (events_of body m.contents ++ message_complete m.major m.minor ∷ [])))
          (on_urls new_request m.method m.target.first m.target.others)
      ∙ on_events-append with_target (header_events m.headers) _
      ∙ on_events-append with_headers (events_of body m.contents)
          (message_complete m.major m.minor ∷ [])
      ∙ ap (λ d. on_message_complete d m.major m.minor) (on_bodies with_headers m.contents)
      ∙ last_event
