-- ===== src/Http/Server/Events.antt =====
-- src/tudou/http/HttpServer.cpp: on_connect, on_message and on_close.
use tudou.Prelude.{
  ℕ, zero, suc, Bool, true, false, not, ◌&&◌, List, [], ◌∷◌, Option, none, some, if◌then◌else◌,
  ◌==◌, Text, drop, insert, erase, lookup, length, number_eq,
}
use tudou.Http.Message.{HttpRequest, HttpResponse, new_response}
use tudou.Http.Router.{dispatch}
use tudou.Http.Context.{HttpContext, ParseResult, rejected, need_more_data, complete, parse}
use tudou.Http.TlsMode.{TlsMode, none as no_tls, memory_bio, kernel_tls}
use tudou.Http.Tls.{
  TlsConnection, ReadResult, ready, need_more_data as need_more_ciphertext, error, read_plaintext,
  enable_ktls_offload, is_established,
}
use tudou.Http.Server.{
  Effect, send, World, ConnectionState, HttpServer, Exchange, perform, with_tls, is_ssl_enabled,
  create_connection_state, send_http_response, restarted, bad_request,
}

-- How the handling of a message ends: by a return, or by the exception of an empty handler. The
-- last one is that of a loop out of fuel.
pub data Ending : Type 0 where
  returned threw unfinished : Ending

abbrev pub is_kernel_tls : TlsMode → Bool
is_kernel_tls kernel_tls = true
is_kernel_tls memory_bio = false
is_kernel_tls no_tls = false

module _ (w : World) where
  unfoldable pub offload : Exchange w → TlsConnection w.openssl → Exchange w
  offload x tls =
      let (t, succeeded) = enable_ktls_offload w.openssl tls in
      if is_kernel_tls x.state.tls_mode && is_established w.openssl tls.state
      then if succeeded
        then record x {
          state = record x.state { tls_connection = some t; is_ktls_offloaded = true };
        }
        else record x { state = record x.state { tls_connection = some t; tls_mode = memory_bio } }
      else x

  abbrev pub send_outbound : Exchange w → Text → Exchange w
  send_outbound x [] = x
  send_outbound x (b ∷ bytes) = perform w x (send (b ∷ bytes))

  -- The payload to parse; without one the handler returns.
  abbrev pub after_read :
      Exchange w → TlsConnection w.openssl → ReadResult → Text → Exchange w × Option Text
  after_read x tls error plaintext = (x, none)
  after_read x tls ready plaintext = (offload x tls, some plaintext)
  after_read x tls need_more_ciphertext plaintext =
      let y = offload x tls in (y, if y.state.is_ktls_offloaded then some plaintext else none)

  unfoldable pub decrypt : Exchange w → TlsConnection w.openssl → Text → Exchange w × Option Text
  decrypt x tls received =
      let r = read_plaintext w.openssl tls received in
      after_read (send_outbound (with_tls w x r.tls) r.outbound) r.tls r.result r.plaintext

  abbrev pub undecrypted : HttpServer w → Exchange w → Text → Exchange w × Option Text
  undecrypted s x received =
      if is_ssl_enabled w s && not x.state.is_ktls_offloaded then (x, none) else (x, some received)

  unfoldable pub payload_of : HttpServer w → Exchange w → Text → Exchange w × Option Text
  payload_of s x received = elim x.state.tls_connection [
    | none ↦ undecrypted s x received
    | some tls ↦
        if not x.state.is_ktls_offloaded then decrypt x tls received else undecrypted s x received
  ]

  abbrev pub with_http : Exchange w → w.Parser → HttpContext → Exchange w
  with_http x parser http_context = record x {
    state = record x.state { parser = parser; http_context = http_context };
  }

  -- The response of the router, unless its handler throws.
  unfoldable pub build_http_response : HttpServer w → HttpRequest → Option HttpResponse
  build_http_response s req = elim (dispatch s.router req new_response) [
    | none ↦ none
    | some (result, response) ↦ some response
  ]

  unfoldable pub reply_complete_request : HttpServer w → Exchange w → Option (Exchange w)
  reply_complete_request s x = elim (build_http_response s x.state.http_context.request) [
    | none ↦ none
    | some response ↦ some (restarted w (send_http_response w s x response))
  ]

  -- One turn of the loop, behind the call of parse. Behind a closed connection the loop ends.
  abbrev pub after_parse :
      HttpServer w
      → (Exchange w → Text → Exchange w × Ending)
      → Exchange w
      → Text
      → w.Parser × HttpContext × ParseResult × ℕ
      → Exchange w × Ending
  after_parse s continue x payload (parser, http_context, result, consumed) =
      let y = with_http x parser http_context in
      elim result [
        | rejected ↦ (restarted w (send_http_response w s y bad_request), returned)
        | need_more_data ↦
            if consumed == 0 then (y, returned) else continue y (drop consumed payload)
        | complete ↦ elim (reply_complete_request s y) [
          | none ↦ (y, threw)
          | some z ↦ if z.is_known then continue z (drop consumed payload) else (z, returned)
        ]
      ]

  -- The loop over the payload.
  unfoldable pub serve : ℕ → HttpServer w → Exchange w → Text → Exchange w × Ending
  serve fuel s x [] = (x, returned)
  serve zero s x (b ∷ payload) = (x, unfinished)
  serve (suc fuel) s x (b ∷ payload) =
      after_parse s (serve fuel s) x (b ∷ payload)
        (parse w.execute x.state.parser x.state.http_context (b ∷ payload))

  -- Every turn but the last takes a byte at least.
  abbrev pub serve_payload : HttpServer w → Exchange w → Option Text → Exchange w × Ending
  serve_payload s x none = (x, returned)
  serve_payload s x (some payload) = serve (length payload) s x payload

  unfoldable pub handle : HttpServer w → ConnectionState w → Text → Exchange w × Ending
  handle s state received =
      let (x, payload) =
        payload_of s (record { state = state; is_known = true; effects = [] }) received in
      serve_payload s x payload

  -- The table behind an event of a connection.
  abbrev pub settle : HttpServer w → ℕ → Exchange w → HttpServer w
  settle s conn x = record s {
    connection_states =
        if x.is_known
        then insert conn x.state s.connection_states
        else erase conn s.connection_states;
  }

  -- What the connection received; what is done to it, and how the handling ends.
  unfoldable pub on_message : HttpServer w → ℕ → Text → HttpServer w × List Effect × Ending
  on_message s conn [] = (s, [], returned)
  on_message s conn (b ∷ received) = elim (lookup conn s.connection_states) [
    | none ↦ (s, [], returned)
    | some state ↦
        let (x, ending) = handle s state (b ∷ received) in (settle s conn x, x.effects, ending)
  ]

  unfoldable pub on_connect : HttpServer w → ℕ → Option (w.openssl.Ssl × Bool) → HttpServer w
  on_connect s conn handle = record s {
    connection_states = insert conn (create_connection_state w s handle) s.connection_states;
  }

  unfoldable pub on_close : HttpServer w → ℕ → HttpServer w
  on_close s conn = record s { connection_states = erase conn s.connection_states }
