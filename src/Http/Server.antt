-- ===== src/Http/Server.antt =====
-- src/tudou/http/HttpServer.h and HttpServer.cpp: the state of a connection and the responses.
pub mod Events
pub mod Payload
pub mod Ends
pub mod Reply
pub mod Chunks
pub mod Pipeline
pub mod Ciphertext
pub mod Secrecy
pub mod Secret
mod Tests
use tudou.Prelude.{
  ℕ, zero, suc, ◌+◌, ◌-◌, min, Bool, true, false, not, ◌&&◌, List, [], ◌∷◌, ◌++◌, Option, none,
  some, length, if◌then◌else◌, ◌==◌, Text, text,
}
use tudou.Http.Message.{
  HttpResponse, FileBody, has_header, set_header, has_file_body, to_string, package_to_string,
  plain_text,
}
use tudou.Http.Router.{HttpRouter, new_router}
use tudou.Http.Context.{HttpContext, new_context, Executed, reset}
use tudou.Http.TlsMode.{TlsMode, none as no_tls, memory_bio, kernel_tls}
use tudou.Http.Tls.{Openssl, TlsConnection, new_tls, write_plaintext, is_empty}

-- What is done to the TcpConnection of a handler.
pub data Effect : Type 0 where
  send : Text → Effect
  send_file_with_header : Text → FileBody → Effect
  force_close : Effect

-- The code that is not of the server: OpenSSL, llhttp (as in Http/Context), the order of an
-- unordered map, the bytes of a pread (none if it fails), and the connection below, which after a
-- sequence of effects is found closed or not.
pub record World : Type 1 where
  pub openssl : Openssl
  pub Parser : Type 0
  pub new_parser : Parser
  pub execute : Parser → Text → Executed Parser
  pub restart : Parser → Parser
  pub order : List (Text × Text) → List (Text × Text)
  pub pread : ℕ → ℕ → ℕ → Text
  pub closes : List Effect → Bool

-- Whether the context was initialized, and whether it is restricted to TLS 1.2.
pub record TlsConfig : Type 0 where
  pub is_initialized : Bool
  pub only_tls12 : Bool

abbrev pub tls_file_chunk_size : ℕ
tls_file_chunk_size = 16384

unfoldable pub with_content_length : HttpResponse → HttpResponse
with_content_length resp =
    if has_header resp (text "Content-Length")
    then resp
    else set_header resp (text "Content-Length")
        (to_string (if has_file_body resp then resp.file_body.size else length resp.body))

module _ (w : World) where
  pub record ConnectionState : Type 0 where
    pub parser : w.Parser
    pub http_context : HttpContext
    pub tls_mode : TlsMode
    pub tls_connection : Option (TlsConnection w.openssl)
    pub is_ktls_offloaded : Bool

  pub record HttpServer : Type 0 where
    pub connection_states : List (ℕ × ConnectionState)
    pub router : HttpRouter
    pub tls_mode : TlsMode
    pub tls_config : Option TlsConfig

  abbrev pub new_server : HttpServer
  new_server = record {
    connection_states = [];
    router = new_router;
    tls_mode = memory_bio;
    tls_config = none;
  }

  -- An event of one connection while it is handled: its state, which the handler holds also when it
  -- is no longer in the table, whether it is in the table, and what was done so far.
  pub record Exchange : Type 0 where
    pub state : ConnectionState
    pub is_known : Bool
    pub effects : List Effect

  -- A connection that closes takes its state out of the table by on_close.
  abbrev pub perform : Exchange → Effect → Exchange
  perform x e =
      let effects = x.effects ++ e ∷ [] in
      record x { is_known = x.is_known && not (w.closes effects); effects = effects }

  abbrev pub with_tls : Exchange → TlsConnection w.openssl → Exchange
  with_tls x tls = record x { state = record x.state { tls_connection = some tls } }

  abbrev pub is_ssl_enabled : HttpServer → Bool
  is_ssl_enabled s = elim s.tls_config [ none ↦ false | some config ↦ config.is_initialized ]

  abbrev pub restrict_to_tls12 : Option TlsConfig → Option TlsConfig
  restrict_to_tls12 none = none
  restrict_to_tls12 (some config) = some (record config { only_tls12 = true })

  -- The answer of TlsProbe.
  unfoldable pub set_tls_mode : Bool → HttpServer → TlsMode → HttpServer × Bool
  set_tls_mode is_supported s memory_bio = (record s { tls_mode = memory_bio }, true)
  set_tls_mode is_supported s kernel_tls =
      if is_supported
      then (record s { tls_mode = kernel_tls; tls_config = restrict_to_tls12 s.tls_config }, true)
      else (s, false)
  set_tls_mode is_supported s no_tls = (s, false)

  abbrev pub initialized : TlsMode → TlsConfig
  initialized kernel_tls = record { is_initialized = true; only_tls12 = true }
  initialized memory_bio = record { is_initialized = true; only_tls12 = false }
  initialized no_tls = record { is_initialized = true; only_tls12 = false }

  -- Whether the certificate and the key could be loaded.
  unfoldable pub enable_ssl : Bool → HttpServer → HttpServer × Bool
  enable_ssl loads s =
      if loads
      then (record s { tls_config = some (initialized s.tls_mode) }, true)
      else (record s { tls_config = none }, false)

  abbrev pub fresh_state : ConnectionState
  fresh_state = record {
    parser = w.new_parser;
    http_context = new_context;
    tls_mode = no_tls;
    tls_connection = none;
    is_ktls_offloaded = false;
  }

  -- The handle that create_ssl gives, and whether TlsConnection can make its BIOs.
  unfoldable pub create_connection_state :
      HttpServer → Option (w.openssl.Ssl × Bool) → ConnectionState
  create_connection_state s handle = elim s.tls_config [
    | none ↦ fresh_state
    | some config ↦ elim handle [
      | none ↦ fresh_state
      | some (ssl, made) ↦ record fresh_state {
        tls_mode = s.tls_mode;
        tls_connection = some (new_tls w.openssl ssl made);
      }
    ]
  ]

  unfoldable pub send_plain_response : Exchange → HttpResponse → Text → Exchange
  send_plain_response x resp head =
      if has_file_body resp
      then perform x (send_file_with_header head resp.file_body)
      else perform x (send head)

  abbrev pub send_encrypted : Exchange → TlsConnection w.openssl → Bool → Text → Exchange × Bool
  send_encrypted x tls succeeded [] = (with_tls x tls, succeeded)
  send_encrypted x tls succeeded (b ∷ bytes) =
      if succeeded
      then (perform (with_tls x tls) (send (b ∷ bytes)), true)
      else (with_tls x tls, false)

  -- A reference to a session that is not there would be undefined.
  unfoldable pub send_memory_bio_plaintext : Exchange → Text → Exchange × Bool
  send_memory_bio_plaintext x plaintext = elim x.state.tls_connection [
    | none ↦ (x, false)
    | some tls ↦
        let e = write_plaintext w.openssl tls plaintext in
        send_encrypted x e.tls e.succeeded e.ciphertext
  ]

  -- The loop over the file: every turn reads a byte at least.
  unfoldable pub send_chunks : ℕ → Exchange → ℕ → ℕ → ℕ → Exchange × Bool
  send_chunks zero x fd offset remaining = (x, remaining == 0)
  send_chunks (suc fuel) x fd offset remaining =
      let chunk = w.pread fd (min tls_file_chunk_size remaining) offset in
      let sent = send_memory_bio_plaintext x chunk in
      let rest = send_chunks fuel sent.0 fd (offset + length chunk) (remaining - length chunk) in
      if remaining == 0
      then (x, true)
      else if is_empty chunk
      then (x, false)
      else if sent.1
      then rest
      else sent

  abbrev pub send_file_body : Exchange → FileBody → Exchange × Bool
  send_file_body x file_body = elim file_body.file [
    | none ↦ (x, false)
    | some (fd, valid) ↦ send_chunks file_body.size x fd file_body.offset file_body.size
  ]

  unfoldable pub send_memory_bio_file_response : Exchange → HttpResponse → Text → Exchange × Bool
  send_memory_bio_file_response x resp head =
      let sent = send_memory_bio_plaintext x head in
      let rest = send_file_body sent.0 resp.file_body in if sent.1 then rest else sent

  unfoldable pub send_memory_bio_response : Exchange → HttpResponse → Text → Exchange × Bool
  send_memory_bio_response x resp head =
      if has_file_body resp
      then send_memory_bio_file_response x resp head
      else send_memory_bio_plaintext x head

  -- The three ways to send, and whether the response was sent.
  unfoldable pub send_by_mode :
      TlsMode → HttpServer → Exchange → HttpResponse → Text → Exchange × Bool
  send_by_mode no_tls s x resp head =
      if is_ssl_enabled s then (x, false) else (send_plain_response x resp head, true)
  send_by_mode memory_bio s x resp head = send_memory_bio_response x resp head
  send_by_mode kernel_tls s x resp head =
      if x.state.is_ktls_offloaded then (send_plain_response x resp head, true) else (x, false)

  unfoldable pub send_http_response : HttpServer → Exchange → HttpResponse → Exchange
  send_http_response s x resp =
      let sized = with_content_length resp in
      let sent = send_by_mode x.state.tls_mode s x sized (package_to_string w.order sized) in
      if sent.1 && sized.close_connection then perform sent.0 force_close else sent.0

  -- The reset of the HTTP context of a connection.
  abbrev pub restarted : Exchange → Exchange
  restarted x =
      let (parser, http_context) = reset w.restart x.state.parser x.state.http_context in
      record x { state = record x.state { parser = parser; http_context = http_context } }

abbrev pub bad_request : HttpResponse
bad_request = plain_text 400 (text "Bad Request") (text "Bad Request")
