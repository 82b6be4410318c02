-- ===== src/Http/Server/Payload.antt =====
-- src/tudou/http/HttpServer.cpp: the stage of on_message before the loop leaves the parser as it is.
use tudou.Prelude.{
  Bool, true, false, ◌≡◌, refl, ◌∙◌, [], ◌∷◌, Option, none, some, by_both, number_eq, if◌then◌else◌,
  not, ◌&&◌, Text,
}
use tudou.Http.Context.{}
use tudou.Http.TlsMode.{memory_bio}
use tudou.Http.Tls.{
  TlsConnection, ReadResult, ready, need_more_data as need_more_ciphertext, error, read_plaintext,
  enable_ktls_offload, is_established,
}
use tudou.Http.Server.{World, HttpServer, Exchange, with_tls}
use tudou.Http.Server.Events.{
  offload, is_kernel_tls, after_read, send_outbound, payload_of, decrypt, undecrypted,
}

module _ (w : World) where
  parser-offload :
      (x : Exchange w) (tls : TlsConnection w.openssl)
      → (offload w x tls).state.parser ≡ x.state.parser
  unfolding offload
  parser-offload x tls =
      kept (is_kernel_tls x.state.tls_mode && is_established w.openssl tls.state)
        (enable_ktls_offload w.openssl tls).1
    where
      kept :
          (a b : Bool)
          → (if a
              then if b
                then record x {
                  state = record x.state {
                    tls_connection = some (enable_ktls_offload w.openssl tls).0;
                    is_ktls_offloaded = true;
                  };
                }
                else record x {
                  state = record x.state {
                    tls_connection = some (enable_ktls_offload w.openssl tls).0;
                    tls_mode = memory_bio;
                  };
                }
              else x).state.parser
            ≡ x.state.parser
      kept true true = refl
      kept true false = refl
      kept false b = refl

  parser-after_read :
      (x : Exchange w) (tls : TlsConnection w.openssl) (result : ReadResult) (plaintext : Text)
      → (after_read w x tls result plaintext).0.state.parser ≡ x.state.parser
  parser-after_read x tls error plaintext = refl
  parser-after_read x tls ready plaintext = parser-offload x tls
  parser-after_read x tls need_more_ciphertext plaintext = parser-offload x tls

  parser-send_outbound :
      (x : Exchange w) (bytes : Text) → (send_outbound w x bytes).state.parser ≡ x.state.parser
  parser-send_outbound x [] = refl
  parser-send_outbound x (b ∷ bytes) = refl

  pub parser-payload_of :
      (s : HttpServer w) (x : Exchange w) (received : Text)
      → (payload_of w s x received).0.state.parser ≡ x.state.parser
  unfolding payload_of decrypt
  parser-payload_of s x received = by_session x.state.tls_connection
    where
      Kept : Exchange w × Option Text → Type 0
      Kept y = y.0.state.parser ≡ x.state.parser

      plain : Kept (undecrypted w s x received)
      plain = by_both Kept _ refl refl

      encrypted : (tls : TlsConnection w.openssl) → Kept (decrypt w x tls received)
      encrypted tls =
          let r = read_plaintext w.openssl tls received in
          parser-after_read (send_outbound w (with_tls w x r.tls) r.outbound) r.tls r.result
            r.plaintext
          ∙ parser-send_outbound (with_tls w x r.tls) r.outbound

      by_session :
          (o : Option (TlsConnection w.openssl))
          → Kept (elim o as (λ _. Exchange w × Option Text) [
            | none ↦ undecrypted w s x received
            | some tls ↦
                if not x.state.is_ktls_offloaded
                then decrypt w x tls received
                else undecrypted w s x received
          ])
      by_session none = plain
      by_session (some tls) = by_both Kept _ (encrypted tls) plain
