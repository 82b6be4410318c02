-- ===== src/Http/Server/Secrecy.antt =====
-- src/tudou/http/HttpServer.cpp: what the handling of a message sends, with TLS.
use tudou.Prelude.{
  ℕ, zero, suc, Bool, true, false, not, ◌&&◌, ◌≡◌, sym, subst, [], ◌∷◌, Option, none, some, by_both,
  length, drop, if◌then◌else◌, ◌==◌, Text, number_eq,
}
use tudou.Http.Message.{HttpResponse, package_to_string}
use tudou.Http.Context.{HttpContext, ParseResult, rejected, need_more_data, complete, parse}
use tudou.Http.TlsMode.{TlsMode, none as no_tls, memory_bio, kernel_tls}
use tudou.Http.Tls.{
  TlsConnection, ReadResult, ready, need_more_data as need_more_ciphertext, error, read_plaintext,
  is_established, enable_ktls_offload,
}
use tudou.Http.Tls.Drained.{IsDrained, read_plaintext-IsDrained}
use tudou.Http.Server.{
  World, send, force_close, ConnectionState, HttpServer, Exchange, with_tls, is_ssl_enabled,
  send_by_mode, send_plain_response, send_http_response, with_content_length, restarted,
  bad_request,
}
use tudou.Http.Server.Events.{
  Ending, returned, threw, after_parse, serve, build_http_response, reply_complete_request,
  with_http, offload, is_kernel_tls, send_outbound, after_read, decrypt, undecrypted, payload_of,
  handle, serve_payload,
}
use tudou.Http.Server.Ciphertext.{
  IsUserMode, IsUserSpace, IsSecret, secret, LeavesSecret, leaves, left, perform-IsSecret,
  with_tls-IsSecret, with_http-IsSecret, restarted-IsSecret, send_memory_bio_response-LeavesSecret,
}

module _ (w : World) where
  module _ (s : HttpServer w) (enabled : is_ssl_enabled w s ≡ true) where
    send_by_mode-LeavesSecret :
        (mode : TlsMode) (x : Exchange w) (resp : HttpResponse) (head : Text)
        → IsUserMode w mode
        → IsSecret w x
        → LeavesSecret w (send_by_mode w mode s x resp head)
    unfolding send_by_mode
    send_by_mode-LeavesSecret no_tls x resp head user h =
        subst
          (λ (b : Bool).
            LeavesSecret w (if b then (x, false) else (send_plain_response w x resp head, true)))
          (sym enabled) (leaves h)
    send_by_mode-LeavesSecret memory_bio x resp head user h =
        send_memory_bio_response-LeavesSecret w x resp head h
    send_by_mode-LeavesSecret kernel_tls x resp head user h = absurd user

    user_mode : (x : Exchange w) → IsSecret w x → IsUserMode w x.state.tls_mode
    user_mode x (secret user all) = user.1

    user_space : (x : Exchange w) → IsSecret w x → x.state.is_ktls_offloaded ≡ false
    user_space x (secret user all) = user.0

    send_http_response-IsSecret :
        (x : Exchange w) (resp : HttpResponse)
        → IsSecret w x
        → IsSecret w (send_http_response w s x resp)
    unfolding send_http_response
    send_http_response-IsSecret x resp h =
        let sized = with_content_length resp in
        let head = package_to_string w.order sized in
        let sent =
          left w _ (send_by_mode-LeavesSecret x.state.tls_mode x sized head (user_mode x h) h) in
        by_both (IsSecret w)
          ((send_by_mode w x.state.tls_mode s x sized head).1 && sized.close_connection)
          (perform-IsSecret w _ force_close sent tt) sent

    offload-IsSecret :
        (x : Exchange w) (tls : TlsConnection w.openssl)
        → IsSecret w x
        → IsSecret w (offload w x tls)
    unfolding offload
    offload-IsSecret x tls h = by_mode x.state.tls_mode (user_mode x h)
      where
        by_mode :
            (mode : TlsMode)
            → IsUserMode w mode
            → IsSecret w (
                if is_kernel_tls mode && is_established w.openssl tls.state
                then if (enable_ktls_offload w.openssl tls).1
                  then record x {
                    state = record x.state {
                      tls_connection = some (enable_ktls_offload w.openssl tls).0;
                      is_ktls_offloaded = true;
                    };
                  }
                  else record x {
                    state = record x.state {
                      tls_connection = some (enable_ktls_offload w.openssl tls).0;
                      tls_mode = memory_bio;
                    };
                  }
                else x)
        by_mode no_tls user = h
        by_mode memory_bio user = h
        by_mode kernel_tls user = absurd user

    after_read-LeavesSecret :
        (x : Exchange w) (tls : TlsConnection w.openssl) (result : ReadResult) (plaintext : Text)
        → IsSecret w x
        → LeavesSecret w (after_read w x tls result plaintext)
    after_read-LeavesSecret x tls error plaintext h = leaves h
    after_read-LeavesSecret x tls ready plaintext h = leaves (offload-IsSecret x tls h)
    after_read-LeavesSecret x tls need_more_ciphertext plaintext h =
        leaves (offload-IsSecret x tls h)

    send_outbound-IsSecret :
        (x : Exchange w) (bytes : Text)
        → IsSecret w x
        → IsDrained w.openssl bytes
        → IsSecret w (send_outbound w x bytes)
    send_outbound-IsSecret x [] h d = h
    send_outbound-IsSecret x (b ∷ bytes) h d = perform-IsSecret w x (send (b ∷ bytes)) h d

    decrypt-LeavesSecret :
        (x : Exchange w) (tls : TlsConnection w.openssl) (received : Text)
        → IsSecret w x
        → LeavesSecret w (decrypt w x tls received)
    unfolding decrypt
    decrypt-LeavesSecret x tls received h =
        let r = read_plaintext w.openssl tls received in
        after_read-LeavesSecret (send_outbound w (with_tls w x r.tls) r.outbound) r.tls r.result
          r.plaintext
          (send_outbound-IsSecret (with_tls w x r.tls) r.outbound (with_tls-IsSecret w x r.tls h)
            (read_plaintext-IsDrained w.openssl tls received))

    payload_of-LeavesSecret :
        (x : Exchange w) (received : Text)
        → IsSecret w x
        → LeavesSecret w (payload_of w s x received)
    unfolding payload_of
    payload_of-LeavesSecret x received h = by_session x.state.tls_connection
      where
        plain : LeavesSecret w (undecrypted w s x received)
        plain = by_both (LeavesSecret w) _ (leaves h) (leaves h)

        by_session :
            (session : Option (TlsConnection w.openssl))
            → LeavesSecret w (elim session as (λ _. Exchange w × Option Text) [
              | none ↦ undecrypted w s x received
              | some tls ↦
                  if not x.state.is_ktls_offloaded
                  then decrypt w x tls received
                  else undecrypted w s x received
            ])
        by_session none = plain
        by_session (some tls) =
            by_both (LeavesSecret w) (not x.state.is_ktls_offloaded)
              (decrypt-LeavesSecret x tls received h) plain

    after_parse-LeavesSecret :
        (continue : Exchange w → Text → Exchange w × Ending)
        → ((y : Exchange w) (rest : Text) → IsSecret w y → LeavesSecret w (continue y rest))
        → (x : Exchange w) (payload : Text) (p : w.Parser) (c : HttpContext) (result : ParseResult)
          (consumed : ℕ)
        → IsSecret w x
        → LeavesSecret w (after_parse w s continue x payload (p, c, result, consumed))
    unfolding reply_complete_request
    after_parse-LeavesSecret continue goes_on x payload p c rejected consumed h = leaves (
        restarted-IsSecret w _
          (send_http_response-IsSecret _ bad_request (with_http-IsSecret w x p c h)))
    after_parse-LeavesSecret continue goes_on x payload p c need_more_data consumed h =
        by_both (LeavesSecret w) (consumed == 0) (leaves (with_http-IsSecret w x p c h))
          (goes_on _ _ (with_http-IsSecret w x p c h))
    after_parse-LeavesSecret continue goes_on x payload p c complete consumed h =
        replied (build_http_response w s c.request)
      where
        y : Exchange w
        y = with_http w x p c

        replied :
            (o : Option HttpResponse)
            → LeavesSecret w
                (elim (elim o as (λ _. Option (Exchange w)) [
                  | none ↦ none
                  | some response ↦ some (restarted w (send_http_response w s y response))
                ])
                  as (λ _. Exchange w × Ending) [
                    | none ↦ (y, threw)
                    | some z ↦
                        if z.is_known then continue z (drop consumed payload) else (z, returned)
                  ])
        replied none = leaves (with_http-IsSecret w x p c h)
        replied (some response) =
            let z =
              restarted-IsSecret w (send_http_response w s y response)
                (send_http_response-IsSecret y response (with_http-IsSecret w x p c h)) in
            by_both (LeavesSecret w) (restarted w (send_http_response w s y response)).is_known
              (goes_on (restarted w (send_http_response w s y response)) (drop consumed payload) z)
              (leaves z)

    serve-LeavesSecret :
        (fuel : ℕ) (x : Exchange w) (payload : Text)
        → IsSecret w x
        → LeavesSecret w (serve w fuel s x payload)
    unfolding serve
    serve-LeavesSecret fuel x [] h = leaves h
    serve-LeavesSecret zero x (b ∷ payload) h = leaves h
    serve-LeavesSecret (suc fuel) x (b ∷ payload) h =
        let (p, c, result, consumed) =
          parse w.execute x.state.parser x.state.http_context (b ∷ payload) in
        after_parse-LeavesSecret (serve w fuel s) (serve-LeavesSecret fuel) x (b ∷ payload) p c
          result consumed h

    -- From the start of the handling.
    pub handle-LeavesSecret :
        (state : ConnectionState w) (received : Text)
        → IsUserSpace w state
        → LeavesSecret w (handle w s state received)
    unfolding handle
    handle-LeavesSecret state received user =
        let start : Exchange w = record { state = state; is_known = true; effects = [] } in
        let read = payload_of-LeavesSecret start received (secret user tt) in
        served (payload_of w s start received).0 (left w _ read) (payload_of w s start received).1
      where
        served :
            (x : Exchange w)
            → IsSecret w x
            → (o : Option Text) → LeavesSecret w (serve_payload w s x o)
        served x h none = leaves h
        served x h (some payload) = serve-LeavesSecret (length payload) x payload h
