-- ===== src/Http/Server/Pipeline.antt =====
-- src/tudou/http/HttpServer.cpp: requests that arrive one behind the other.
use tudou.Prelude.{
  ℕ, zero, suc, ◌≤◌, Bool, true, false, not, ◌&&◌, ◌≡◌, refl, sym, ap, ◌∙◌, List, [], ◌∷◌, ◌++◌,
  Option, none, some, lookup, number_eq, length, drop, drop-append, length-append, if◌then◌else◌,
  Text, arith,
}
use tudou.Http.Message.{HttpResponse}
use tudou.Http.Context.{
  HttpContext, new_context, Executed, paused, result_of, consumed_of, on_events, parse, complete,
  reset,
}
use tudou.Http.Context.Pieces.{on_events-callbacks}
use tudou.Http.Context.Messages.{Message, Named, callbacks, request_of, whole}
use tudou.Http.TlsMode.{none as no_tls}
use tudou.Http.Tls.{TlsConnection}
use tudou.Http.Server.{
  World, Effect, ConnectionState, HttpServer, Exchange, is_ssl_enabled, send_http_response,
  restarted,
}
use tudou.Http.Server.Reply.{reply, stays_open, performs, send-reply}
use tudou.Http.Server.Events.{
  Ending, returned, threw, after_parse, serve, build_http_response, reply_complete_request,
  with_http, handle, payload_of, decrypt, undecrypted, serve_payload, on_message, settle,
}

-- What the server relies on of llhttp: which bytes are which message. A parser that has been reset
-- gives the callbacks for it and pauses behind it.
pub record Speaks (w : World) : Type 1 where
  pub Fresh : w.Parser → Type 0
  pub Encodes : Text → Message → Type 0
  pub fresh_restart : (p : w.Parser) → Fresh (w.restart p)
  pub executes :
      (p : w.Parser) (bytes rest : Text) (m : Message)
      → Fresh p
      → Encodes bytes m
      → (q : w.Parser) × (w.execute p (bytes ++ rest) ≡ record {
        parser = q;
        events = callbacks m;
        err = paused;
        error_pos = some (length bytes);
      })

-- A request, its bytes, of which there is a first, and the response of the router.
pub record Request : Type 0 where
  pub first : ℕ
  pub others : Text
  pub message : Message
  pub response : HttpResponse

abbrev pub bytes_of : Request → Text
bytes_of r = r.first ∷ r.others

abbrev pub payload : List Request → Text
payload [] = []
payload (r ∷ rs) = bytes_of r ++ payload rs

module _ (w : World) where
  -- The replies in the order of the requests, up to one behind which the connection is closed.
  abbrev pub replies : List Effect → List Request → List Effect
  replies done [] = done
  replies done (r ∷ rs) =
      if stays_open w done (reply w r.response)
      then replies (done ++ reply w r.response) rs
      else done ++ reply w r.response

  module _ (laws : Speaks w) (s : HttpServer w) where
    -- The requests are messages, whose headers have names, and the router answers them.
    abbrev pub Answered : List Request → Type 0
    Answered [] = Unit
    Answered (r ∷ rs) =
        (laws.Encodes (bytes_of r) r.message
          × Named r.message.headers
          × (build_http_response w s (request_of r.message) ≡ some r.response))
        × Answered rs

    completed : Message → HttpContext
    completed m = record new_context {
      request = request_of m;
      is_complete = true;
      current_url = whole m.target;
    }

    -- The parser behind the message, and what parse gives.
    parse_message :
        (p : w.Parser) (c : HttpContext) (bytes rest : Text) (m : Message)
        → laws.Fresh p
        → laws.Encodes bytes m
        → Named m.headers
        → (q : w.Parser) × (parse w.execute p c (bytes ++ rest)
            ≡ (q, completed m, complete, length bytes))
    unfolding parse completed
    parse_message p c bytes rest m fresh encodes named =
        let (q, e) = laws.executes p bytes rest m fresh encodes in
        (
          q,
          ap
                (λ (ex : Executed w.Parser).
                  let d = on_events c ex.events in
                  (
                    ex.parser,
                    d,
                    result_of ex.err d.is_complete,
                    consumed_of ex.err ex.error_pos (length (bytes ++ rest)),
                  ))
                e
              ∙ ap (λ (d : HttpContext). (q, d, result_of paused d.is_complete, length bytes))
                  (on_events-callbacks m named c),
        )

    -- The exchange behind the reply to a request.
    answered : Exchange w → w.Parser → Request → Exchange w
    answered x q r =
        restarted w (performs w (with_http w x q (completed r.message)) (reply w r.response))

    reply_complete_request_lem :
        (x : Exchange w) (q : w.Parser) (r : Request)
        → x.state.tls_mode ≡ no_tls
        → is_ssl_enabled w s ≡ false
        → build_http_response w s (request_of r.message) ≡ some r.response
        → reply_complete_request w s (with_http w x q (completed r.message)) ≡ some (answered x q r)
    unfolding reply_complete_request answered completed
    reply_complete_request_lem x q r e f b =
        ap
          (λ (o : Option HttpResponse). elim o as (λ _. Option (Exchange w)) [
            | none ↦ none
            | some response ↦ some (
                restarted w
                  (send_http_response w s (with_http w x q (completed r.message)) response))
          ])
          b
        ∙ ap (λ y. some (restarted w y))
            (send-reply w s (with_http w x q (completed r.message)) r.response e f)

    serve_request :
        (fuel : ℕ) (x : Exchange w) (r : Request) (rest : Text)
        → laws.Fresh x.state.parser
        → x.state.tls_mode ≡ no_tls
        → is_ssl_enabled w s ≡ false
        → laws.Encodes (bytes_of r) r.message
        → Named r.message.headers
        → build_http_response w s (request_of r.message) ≡ some r.response
        → (q : w.Parser) × (serve w (suc fuel) s x (bytes_of r ++ rest) ≡ (
            if (answered x q r).is_known
            then serve w fuel s (answered x q r) rest
            else (answered x q r, returned)))
    unfolding serve
    serve_request fuel x r rest fresh e f encodes named b =
        let (q, parsed) =
          parse_message x.state.parser x.state.http_context (bytes_of r) rest r.message fresh
            encodes named in
        (
          q,
          ap (after_parse w s (serve w fuel s) x (bytes_of r ++ rest)) parsed
              ∙ ap
                  (λ o. elim o as (λ _. Exchange w × Ending) [
                    | none ↦ (with_http w x q (completed r.message), threw)
                    | some z ↦
                        if z.is_known
                        then serve w fuel s z (drop (length (bytes_of r)) (bytes_of r ++ rest))
                        else (z, returned)
                  ])
                  (reply_complete_request_lem x q r e f b)
              ∙ ap
                  (λ bytes.
                    if (answered x q r).is_known
                    then serve w fuel s (answered x q r) bytes
                    else (answered x q r, returned))
                  (drop-append (bytes_of r) rest),
        )

    abbrev seen : Exchange w × Ending → List Effect × Ending
    seen (x, ending) = (x.effects, ending)

    answered-Fresh :
        (x : Exchange w) (q : w.Parser) (r : Request) → laws.Fresh (answered x q r).state.parser
    unfolding answered reset
    answered-Fresh x q r = laws.fresh_restart q

    answered-is_known :
        (x : Exchange w) (q : w.Parser) (r : Request)
        → x.is_known ≡ true
        → (answered x q r).is_known ≡ stays_open w x.effects (reply w r.response)
    unfolding answered reset
    answered-is_known x q r k = ap (λ b. b && stays_open w x.effects (reply w r.response)) k

    answered-effects :
        (x : Exchange w) (q : w.Parser) (r : Request)
        → (answered x q r).effects ≡ x.effects ++ reply w r.response
    unfolding answered reset
    answered-effects x q r = refl

    answered-tls_mode :
        (x : Exchange w) (q : w.Parser) (r : Request)
        → (answered x q r).state.tls_mode ≡ x.state.tls_mode
    unfolding answered reset
    answered-tls_mode x q r = refl

    serve-replies :
        (fuel : ℕ) (x : Exchange w) (rs : List Request)
        → length (payload rs) ≤ fuel
        → laws.Fresh x.state.parser
        → x.state.tls_mode ≡ no_tls
        → is_ssl_enabled w s ≡ false
        → x.is_known ≡ true
        → Answered rs
        → seen (serve w fuel s x (payload rs)) ≡ (replies x.effects rs, returned)
    unfolding serve
    serve-replies fuel x [] h fresh e f k a = refl
    serve-replies zero x (r ∷ rs) h fresh e f k a = absurd (omega arith)
    serve-replies (suc fuel) x (r ∷ rs) h fresh e f k a =
        let (q, turn) = serve_request fuel x r (payload rs) fresh e f a.0.0 a.0.1 a.0.2 in
        ap seen turn
        ∙ goes_on q (answered x q r).is_known refl (λ known.
          serve-replies fuel (answered x q r) rs shorter (answered-Fresh x q r)
            (answered-tls_mode x q r ∙ e) f known a.1)
      where
        shorter : length (payload rs) ≤ fuel
        shorter = omega (arith, h, length-append r.others (payload rs))

        goes_on :
            (q : w.Parser) (b : Bool)
            → (answered x q r).is_known ≡ b
            → ((answered x q r).is_known ≡ true
                → seen (serve w fuel s (answered x q r) (payload rs))
                  ≡ (replies (answered x q r).effects rs, returned))
            → seen (
                if b
                then serve w fuel s (answered x q r) (payload rs)
                else (answered x q r, returned))
              ≡ (replies x.effects (r ∷ rs), returned)
        goes_on q true known rest =
            rest known
            ∙ ap (λ es. (replies es rs, returned)) (answered-effects x q r)
            ∙ ap
                (λ (b : Bool). (
                  if b
                      then replies (x.effects ++ reply w r.response) rs
                      else x.effects ++ reply w r.response,
                  returned,
                ))
                (sym known ∙ answered-is_known x q r k)
        goes_on q false closed rest =
            ap (λ es. (es, returned)) (answered-effects x q r)
            ∙ ap
                (λ (b : Bool). (
                  if b
                      then replies (x.effects ++ reply w r.response) rs
                      else x.effects ++ reply w r.response,
                  returned,
                ))
                (sym closed ∙ answered-is_known x q r k)

    handle-replies :
        (state : ConnectionState w) (rs : List Request)
        → laws.Fresh state.parser
        → state.tls_mode ≡ no_tls
        → state.tls_connection ≡ none
        → is_ssl_enabled w s ≡ false
        → Answered rs
        → seen (handle w s state (payload rs)) ≡ (replies [] rs, returned)
    unfolding handle payload_of
    handle-replies state rs fresh e t f a =
        ap
          (λ (o : Option (TlsConnection w.openssl)).
            let (x, p) = elim o as (λ _. Exchange w × Option Text) [
              | none ↦ undecrypted w s start (payload rs)
              | some tls ↦
                  if not state.is_ktls_offloaded
                  then decrypt w start tls (payload rs)
                  else undecrypted w s start (payload rs)
            ] in
            seen (serve_payload w s x p))
          t
        ∙ ap
            (λ (b : Bool).
              let (x, p) =
                if◌then◌else◌ {A = Exchange w × Option Text} (b && not state.is_ktls_offloaded)
                  (start, none) (start, some (payload rs)) in
              seen (serve_payload w s x p))
            f
        ∙ serve-replies (length (payload rs)) start rs (omega arith) fresh e f refl a
      where
        start : Exchange w
        start = record { state = state; is_known = true; effects = [] }

    -- What a handler did, and how it ended.
    abbrev pub done : HttpServer w × List Effect × Ending → List Effect × Ending
    done (after, effects, ending) = (effects, ending)

    -- Requests that arrive in one message, one behind the other, on a connection without TLS of a
    -- server without TLS, whose parser is fresh: the handler does what answers each of them, in
    -- their order, up to one behind which the connection is found closed, and returns. They are
    -- messages that llhttp takes and to which the router has a response.
    pub on_message-replies :
        (conn : ℕ) (state : ConnectionState w) (rs : List Request)
        → lookup conn s.connection_states ≡ some state
        → laws.Fresh state.parser
        → state.tls_mode ≡ no_tls
        → state.tls_connection ≡ none
        → is_ssl_enabled w s ≡ false
        → Answered rs
        → done (on_message w s conn (payload rs)) ≡ (replies [] rs, returned)
    unfolding on_message
    on_message-replies conn state [] l fresh e t f a = refl
    on_message-replies conn state (r ∷ rs) l fresh e t f a =
        ap
          (λ (o : Option (ConnectionState w)).
            done (elim o as (λ _. HttpServer w × List Effect × Ending) [
              | none ↦ (s, [], returned)
              | some found ↦
                  let (x, ending) = handle w s found (payload (r ∷ rs)) in
                  (settle w s conn x, x.effects, ending)
            ]))
          l
        ∙ handle-replies state (r ∷ rs) fresh e t f a
