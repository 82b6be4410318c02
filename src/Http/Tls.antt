-- ===== src/Http/Tls.antt =====
-- src/tudou/http/TlsConnection.h and TlsConnection.cpp: the TLS session of one connection.
-- OpenSSL is third-party code and a parameter, with the two memory BIOs inside the handle.
pub mod Fallback
pub mod Drained
use tudou.Prelude.{
  ℕ, Bool, true, false, List, [], ◌∷◌, ◌++◌, Option, none, some, if◌then◌else◌, Text,
}

pub data TlsState : Type 0 where
  handshaking established error : TlsState

pub data ReadResult : Type 0 where
  ready need_more_data error : ReadResult

-- SSL_do_handshake: done, SSL_ERROR_WANT_READ or SSL_ERROR_WANT_WRITE, any other error.
pub data HandshakeResult : Type 0 where
  done wants broken : HandshakeResult

-- SSL_write likewise.
pub data WriteResult : Type 0 where
  written want_write broken : WriteResult

-- The results of SSL_read, until one gives no bytes: they end by SSL_ERROR_WANT_READ or
-- SSL_ERROR_ZERO_RETURN, or by an error.
pub record Reads : Type 0 where
  pub texts : List Text
  pub clean : Bool

pub record Openssl : Type 1 where
  pub Ssl : Type 0
  -- BIO_write to the read BIO: whether it wrote.
  pub bio_write : Ssl → Text → Ssl × Bool
  pub do_handshake : Ssl → Ssl × HandshakeResult
  pub read : Ssl → Ssl × Reads
  pub write : Ssl → Text → Ssl × WriteResult
  -- BIO_read of all that is pending in the write BIO.
  pub bio_read : Ssl → Ssl × Text
  -- setsockopt and BIO_new_socket: whether both succeeded.
  pub socket_bio : Ssl → Bool
  -- SSL_set_bio with a socket BIO, and the write that follows; BIO_get_ktls_send.
  pub set_socket_bio : Ssl → Ssl
  pub ktls_send : Ssl → Bool

abbrev pub is_empty : Text → Bool
is_empty [] = true
is_empty (b ∷ bytes) = false

abbrev pub joined : List Text → Text
joined [] = []
joined (t ∷ ts) = t ++ joined ts

module _ (o : Openssl) where
  -- A handle is there; `has_bios` says that `rbio_` and `wbio_` are set.
  pub record TlsConnection : Type 0 where
    pub ssl : o.Ssl
    pub has_bios : Bool
    pub state : TlsState

  -- The constructor, for a handle; `made` says whether both BIOs could be made.
  abbrev pub new_tls : o.Ssl → Bool → TlsConnection
  new_tls ssl made = record {
    ssl = ssl;
    has_bios = made;
    state = if made then handshaking else error;
  }

  abbrev pub in_state : TlsConnection → o.Ssl → TlsState → TlsConnection
  in_state c ssl state = record c { ssl = ssl; state = state }

  abbrev pub is_error : TlsState → Bool
  is_error error = true
  is_error handshaking = false
  is_error established = false

  abbrev pub is_established : TlsState → Bool
  is_established established = true
  is_established handshaking = false
  is_established error = false

  unfoldable pub ensure_tls_session : TlsConnection → Bool
  ensure_tls_session c = if c.has_bios then if is_error c.state then false else true else false

  unfoldable pub drain_ciphertext : TlsConnection → TlsConnection × Text
  drain_ciphertext c =
      let (ssl, bytes) = o.bio_read c.ssl in
      if c.has_bios then (record c { ssl = ssl }, bytes) else (c, [])

  -- The plaintext and the ciphertext to send are the output parameters of read_plaintext.
  pub record Received : Type 0 where
    pub tls : TlsConnection
    pub result : ReadResult
    pub plaintext : Text
    pub outbound : Text

  abbrev pub received_nothing : TlsConnection → ReadResult → Text → Received
  received_nothing c result outbound = record {
    tls = c;
    result = result;
    plaintext = [];
    outbound = outbound;
  }

  -- The loop of SSL_read and what follows.
  abbrev pub after_reads : TlsConnection → Text → o.Ssl → Reads → Received
  after_reads c outbound ssl r =
      if r.clean
      then record {
        tls = record c { ssl = ssl };
        result = if is_empty (joined r.texts) then need_more_data else ready;
        plaintext = joined r.texts;
        outbound = outbound;
      }
      else record {
        tls = in_state c ssl error;
        result = error;
        plaintext = joined r.texts;
        outbound = outbound;
      }

  abbrev pub after_handshake : TlsConnection → Received
  after_handshake c =
      let (d, outbound) = drain_ciphertext c in
      let (ssl, r) = o.read d.ssl in
      elim c.state [
        | handshaking ↦ received_nothing d need_more_data outbound
        | established ↦ after_reads d outbound ssl r
        | error ↦ received_nothing d error outbound
      ]

  -- SSL_do_handshake, if the session is still in the handshake.
  abbrev pub shake : TlsConnection → Received
  shake c =
      let (ssl, result) = o.do_handshake c.ssl in
      elim c.state [
        | handshaking ↦ elim result [
          | done ↦ after_handshake (in_state c ssl established)
          | wants ↦ after_handshake (in_state c ssl handshaking)
          | broken ↦ received_nothing (in_state c ssl error) error []
        ]
        | established ↦ after_handshake c
        | error ↦ after_handshake c
      ]

  unfoldable pub read_plaintext : TlsConnection → Text → Received
  read_plaintext c ciphertext =
      let (ssl, wrote) = o.bio_write c.ssl ciphertext in
      if ensure_tls_session c
      then if is_empty ciphertext
        then shake c
        else if wrote
        then shake (record c { ssl = ssl })
        else received_nothing (in_state c ssl error) error []
      else received_nothing c error []

  pub record Encrypted : Type 0 where
    pub tls : TlsConnection
    pub succeeded : Bool
    pub ciphertext : Text

  abbrev pub not_encrypted : TlsConnection → Bool → Encrypted
  not_encrypted c succeeded = record { tls = c; succeeded = succeeded; ciphertext = [] }

  abbrev pub after_write : TlsConnection → WriteResult → Encrypted
  after_write c written =
      let (d, bytes) = drain_ciphertext c in
      record { tls = d; succeeded = if is_empty bytes then false else true; ciphertext = bytes }
  after_write c want_write = not_encrypted c true
  after_write c broken = not_encrypted (record c { state = error }) false

  unfoldable pub write_plaintext : TlsConnection → Text → Encrypted
  write_plaintext c plaintext =
      let (ssl, result) = o.write c.ssl plaintext in
      if is_empty plaintext
      then not_encrypted c true
      else if ensure_tls_session c
      then if is_established c.state
        then after_write (record c { ssl = ssl }) result
        else not_encrypted c false
      else not_encrypted c false

  unfoldable pub enable_ktls_offload : TlsConnection → TlsConnection × Bool
  enable_ktls_offload c =
      let ssl = o.set_socket_bio c.ssl in
      if o.socket_bio c.ssl
      then (record c { ssl = ssl; has_bios = false }, o.ktls_send ssl)
      else (c, false)
