-- ===== src/Http/Server/Ciphertext.antt =====
-- src/tudou/http/HttpServer.cpp: a server with TLS sends nothing but what OpenSSL encrypted.
use tudou.Prelude.{
  ℕ, zero, suc, ◌+◌, ◌-◌, min, Bool, true, false, ◌≡◌, List, [], ◌∷◌, ◌++◌, Option, none, some,
  by_both, length, ◌==◌, Text, number_eq,
}
use tudou.Http.Message.{HttpResponse, FileBody, has_file_body}
use tudou.Http.Context.{HttpContext, reset}
use tudou.Http.TlsMode.{TlsMode, none as no_tls, memory_bio, kernel_tls}
use tudou.Http.Tls.{TlsConnection, write_plaintext, is_empty}
use tudou.Http.Tls.Drained.{IsDrained, write-IsDrained}
use tudou.Http.Server.{
  World, Effect, send, send_file_with_header, force_close, ConnectionState, Exchange, perform,
  with_tls, send_encrypted, send_memory_bio_plaintext, send_chunks, send_file_body,
  send_memory_bio_file_response, send_memory_bio_response, restarted, tls_file_chunk_size,
}
use tudou.Http.Server.Events.{with_http}

module _ (w : World) where
  abbrev pub IsCiphertext : Effect → Type 0
  IsCiphertext (send bytes) = IsDrained w.openssl bytes
  IsCiphertext (send_file_with_header head file_body) = ⊥
  IsCiphertext force_close = Unit

  abbrev pub AllCiphertext : List Effect → Type 0
  AllCiphertext [] = Unit
  AllCiphertext (e ∷ es) = IsCiphertext e × AllCiphertext es

  abbrev pub IsUserMode : TlsMode → Type 0
  IsUserMode no_tls = Unit
  IsUserMode memory_bio = Unit
  IsUserMode kernel_tls = ⊥

  -- A connection that is not encrypted by the kernel.
  abbrev pub IsUserSpace : ConnectionState w → Type 0
  IsUserSpace state = (state.is_ktls_offloaded ≡ false) × IsUserMode state.tls_mode

  pub data IsSecret (x : Exchange w) : Type 0 where
    secret : IsUserSpace x.state → AllCiphertext x.effects → IsSecret x

  append-AllCiphertext :
      (es : List Effect) (e : Effect)
      → AllCiphertext es
      → IsCiphertext e
      → AllCiphertext (es ++ e ∷ [])
  append-AllCiphertext [] e all is = (is, tt)
  append-AllCiphertext (d ∷ es) e all is = (all.0, append-AllCiphertext es e all.1 is)

  pub perform-IsSecret :
      (x : Exchange w) (e : Effect) → IsSecret x → IsCiphertext e → IsSecret (perform w x e)
  perform-IsSecret x e (secret user all) is = secret user (append-AllCiphertext x.effects e all is)

  -- Another session, parser or context changes nothing here.
  pub with_tls-IsSecret :
      (x : Exchange w) (tls : TlsConnection w.openssl) → IsSecret x → IsSecret (with_tls w x tls)
  with_tls-IsSecret x tls (secret user all) = secret user all

  pub with_http-IsSecret :
      (x : Exchange w) (p : w.Parser) (c : HttpContext) → IsSecret x → IsSecret (with_http w x p c)
  with_http-IsSecret x p c (secret user all) = secret user all

  pub restarted-IsSecret : (x : Exchange w) → IsSecret x → IsSecret (restarted w x)
  unfolding reset
  restarted-IsSecret x (secret user all) = secret user all

  send_encrypted-IsSecret :
      (x : Exchange w) (tls : TlsConnection w.openssl) (succeeded : Bool) (bytes : Text)
      → IsSecret x
      → IsDrained w.openssl bytes
      → IsSecret (send_encrypted w x tls succeeded bytes).0
  send_encrypted-IsSecret x tls succeeded [] h d = with_tls-IsSecret x tls h
  send_encrypted-IsSecret x tls true (b ∷ bytes) h d =
      perform-IsSecret (with_tls w x tls) (send (b ∷ bytes)) (with_tls-IsSecret x tls h) d
  send_encrypted-IsSecret x tls false (b ∷ bytes) h d = with_tls-IsSecret x tls h

  -- The exchange that a step leaves, with whatever else it gives.
  pub data LeavesSecret {A : Type 0} (r : Exchange w × A) : Type 0 where
    leaves : IsSecret r.0 → LeavesSecret r

  pub left : {A : Type 0} (r : Exchange w × A) → LeavesSecret r → IsSecret r.0
  left r (leaves h) = h

  send_memory_bio_plaintext-LeavesSecret :
      (x : Exchange w) (plaintext : Text)
      → IsSecret x
      → LeavesSecret (send_memory_bio_plaintext w x plaintext)
  unfolding send_memory_bio_plaintext
  send_memory_bio_plaintext-LeavesSecret x plaintext h = by_session x.state.tls_connection
    where
      by_session :
          (session : Option (TlsConnection w.openssl))
          → LeavesSecret (elim session as (λ _. Exchange w × Bool) [
            | none ↦ (x, false)
            | some tls ↦
                let e = write_plaintext w.openssl tls plaintext in
                send_encrypted w x e.tls e.succeeded e.ciphertext
          ])
      by_session none = leaves h
      by_session (some tls) = leaves (
          send_encrypted-IsSecret x _ (write_plaintext w.openssl tls plaintext).succeeded _ h
            (write-IsDrained w.openssl tls plaintext))

  send_chunks-LeavesSecret :
      (fuel : ℕ) (x : Exchange w) (fd offset remaining : ℕ)
      → IsSecret x
      → LeavesSecret (send_chunks w fuel x fd offset remaining)
  unfolding send_chunks
  send_chunks-LeavesSecret zero x fd offset remaining h = leaves h
  send_chunks-LeavesSecret (suc fuel) x fd offset remaining h =
      let chunk = w.pread fd (min tls_file_chunk_size remaining) offset in
      let sent = send_memory_bio_plaintext-LeavesSecret x chunk h in
      by_both LeavesSecret (remaining == 0) (leaves h) (
        by_both LeavesSecret (is_empty chunk) (leaves h) (
          by_both LeavesSecret (send_memory_bio_plaintext w x chunk).1
            (send_chunks-LeavesSecret fuel (send_memory_bio_plaintext w x chunk).0 fd
              (offset + length chunk) (remaining - length chunk) (left _ sent))
            sent))

  send_file_body-LeavesSecret :
      (x : Exchange w) (file_body : FileBody)
      → IsSecret x
      → LeavesSecret (send_file_body w x file_body)
  send_file_body-LeavesSecret x file_body h = by_file file_body.file
    where
      by_file :
          (file : Option (ℕ × Bool))
          → LeavesSecret (elim file as (λ _. Exchange w × Bool) [
            | none ↦ (x, false)
            | some (fd, valid) ↦ send_chunks w file_body.size x fd file_body.offset file_body.size
          ])
      by_file none = leaves h
      by_file (some (fd, valid)) =
          send_chunks-LeavesSecret file_body.size x fd file_body.offset file_body.size h

  pub send_memory_bio_response-LeavesSecret :
      (x : Exchange w) (resp : HttpResponse) (head : Text)
      → IsSecret x
      → LeavesSecret (send_memory_bio_response w x resp head)
  unfolding send_memory_bio_response send_memory_bio_file_response
  send_memory_bio_response-LeavesSecret x resp head h =
      let sent = send_memory_bio_plaintext-LeavesSecret x head h in
      by_both LeavesSecret (has_file_body resp)
        (by_both LeavesSecret (send_memory_bio_plaintext w x head).1
          (send_file_body-LeavesSecret (send_memory_bio_plaintext w x head).0 resp.file_body
            (left _ sent))
          sent)
        sent
