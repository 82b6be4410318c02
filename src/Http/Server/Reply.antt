-- ===== src/Http/Server/Reply.antt =====
-- src/tudou/http/HttpServer.cpp: what a response does to a connection without TLS.
use tudou.Prelude.{
  Bool, true, false, not, ◌&&◌, ◌≡◌, refl, sym, ap, ap₂, ◌∙◌, List, [], ◌∷◌, ◌++◌, append_assoc,
  if◌then◌else◌, Text,
}
use tudou.Http.Message.{HttpResponse, has_file_body, package_to_string}
use tudou.Http.TlsMode.{none as no_tls}
use tudou.Http.Server.{
  World, Effect, send, send_file_with_header, force_close, HttpServer, Exchange, perform,
  is_ssl_enabled, send_http_response, send_plain_response, send_by_mode, with_content_length,
}

and_true : (a : Bool) → (a && true) ≡ a
and_true true = refl
and_true false = refl

and_assoc : (a b c : Bool) → ((a && b) && c) ≡ (a && (b && c))
and_assoc true b c = refl
and_assoc false b c = refl

abbrev sized : HttpResponse → HttpResponse
sized response = with_content_length response

module _ (w : World) where
  abbrev head : HttpResponse → Text
  head response = package_to_string w.order (sized response)

  abbrev finished : HttpResponse → Exchange w × Bool → Exchange w
  finished response (y, sent) =
      if sent && (sized response).close_connection then perform w y force_close else y

  -- What answers a request: the response, and the end of the connection if the response says so.
  abbrev pub reply : HttpResponse → List Effect
  reply response =
      (if has_file_body (sized response)
        then send_file_with_header (head response) (sized response).file_body
        else send (head response))
      ∷ (if (sized response).close_connection then force_close ∷ [] else [])

  -- Whether the connection is found open behind more effects.
  abbrev pub stays_open : List Effect → List Effect → Bool
  stays_open done [] = true
  stays_open done (e ∷ es) = not (w.closes (done ++ e ∷ [])) && stays_open (done ++ e ∷ []) es

  abbrev pub performs : Exchange w → List Effect → Exchange w
  performs x es = record x {
    is_known = x.is_known && stays_open x.effects es;
    effects = x.effects ++ es;
  }

  perform_one : (x : Exchange w) (e : Effect) → perform w x e ≡ performs x (e ∷ [])
  perform_one x e =
      ap (λ (k : Bool). record x { is_known = x.is_known && k; effects = x.effects ++ e ∷ [] })
        (sym (and_true (not (w.closes (x.effects ++ e ∷ [])))))

  perform_two :
      (x : Exchange w) (e f : Effect) → perform w (perform w x e) f ≡ performs x (e ∷ f ∷ [])
  perform_two x e f =
      let k = not (w.closes (x.effects ++ e ∷ [])) in
      let l = not (w.closes ((x.effects ++ e ∷ []) ++ f ∷ [])) in
      ap₂ (λ (k : Bool) (es : List Effect). record x { is_known = k; effects = es })
        (and_assoc x.is_known k l ∙ ap (λ b. x.is_known && (k && b)) (sym (and_true l)))
        (append_assoc x.effects (e ∷ []) (f ∷ []))

  send_plain-performs :
      (x : Exchange w) (resp : HttpResponse) (head : Text)
      → send_plain_response w x resp head
        ≡ perform w x
            (if has_file_body resp then send_file_with_header head resp.file_body else send head)
  unfolding send_plain_response
  send_plain-performs x resp head = either (has_file_body resp)
    where
      either :
          (b : Bool)
          → (if b
              then perform w x (send_file_with_header head resp.file_body)
              else perform w x (send head))
            ≡ perform w x (if b then send_file_with_header head resp.file_body else send head)
      either true = refl
      either false = refl

  close-performs :
      (x : Exchange w) (e : Effect) (close : Bool)
      → (if close then perform w (perform w x e) force_close else perform w x e)
        ≡ performs x (e ∷ (if close then force_close ∷ [] else []))
  close-performs x e true = perform_two x e force_close
  close-performs x e false = perform_one x e

  pub send-reply :
      (s : HttpServer w) (x : Exchange w) (response : HttpResponse)
      → x.state.tls_mode ≡ no_tls
      → is_ssl_enabled w s ≡ false
      → send_http_response w s x response ≡ performs x (reply response)
  unfolding send_http_response send_by_mode
  send-reply s x response e f =
      ap (finished response) (
        ap (λ mode. send_by_mode w mode s x (sized response) (head response)) e
        ∙ ap
            (λ (b : Bool).
              if b
              then (x, false)
              else (send_plain_response w x (sized response) (head response), true))
            f)
      ∙ ap (λ y. finished response (y, true))
          (send_plain-performs x (sized response) (head response))
      ∙ close-performs x _ (sized response).close_connection
