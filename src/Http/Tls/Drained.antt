-- ===== src/Http/Tls/Drained.antt =====
-- src/tudou/http/TlsConnection.cpp: what a session gives to send comes out of its write BIO.
use tudou.Prelude.{◌≡◌, refl, true, false, by_both, [], ◌∷◌, Text}
use tudou.Http.Tls.{
  Openssl, TlsConnection, TlsState, handshaking, established, error, Received, Encrypted, Reads,
  HandshakeResult, done, wants, broken, ReadResult, need_more_data, received_nothing, WriteResult,
  written, want_write, in_state, read_plaintext, write_plaintext, after_write, after_reads,
  after_handshake, shake, drain_ciphertext, is_empty, is_established, ensure_tls_session,
  not_encrypted,
}

module _ (o : Openssl) where
  -- Nothing, or what a BIO_read of the write BIO gave.
  abbrev pub IsDrained : Text → Type 0
  IsDrained [] = Unit
  IsDrained (b ∷ bytes) = (ssl : o.Ssl) × ((o.bio_read ssl).1 ≡ b ∷ bytes)

  read-IsDrained : (ssl : o.Ssl) (bytes : Text) → (o.bio_read ssl).1 ≡ bytes → IsDrained bytes
  read-IsDrained ssl [] e = tt
  read-IsDrained ssl (b ∷ bytes) e = (ssl, e)

  drain-IsDrained : (c : TlsConnection o) → IsDrained (drain_ciphertext o c).1
  unfolding drain_ciphertext
  drain-IsDrained c =
      by_both (λ (d : TlsConnection o × Text). IsDrained d.1) c.has_bios
        (read-IsDrained c.ssl _ refl) tt

  after_write-IsDrained :
      (c : TlsConnection o) (result : WriteResult) → IsDrained (after_write o c result).ciphertext
  after_write-IsDrained c written = drain-IsDrained c
  after_write-IsDrained c want_write = tt
  after_write-IsDrained c WriteResult.broken = tt

  Given : Encrypted o → Type 0
  Given e = IsDrained e.ciphertext

  given : (e : Encrypted o) → IsDrained e.ciphertext → Given e
  unfolding Given
  given e h = h

  write-Given : (c : TlsConnection o) (plaintext : Text) → Given (write_plaintext o c plaintext)
  unfolding write_plaintext
  write-Given c plaintext = by_both Given (is_empty plaintext) (given (not_encrypted o c true) tt) (
      by_both Given (ensure_tls_session o c)
        (by_both Given (is_established o c.state)
          (given _ (
            after_write-IsDrained (record c { ssl = (o.write c.ssl plaintext).0 })
              (o.write c.ssl plaintext).1))
          (given (not_encrypted o c false) tt))
        (given (not_encrypted o c false) tt))

  pub write-IsDrained :
      (c : TlsConnection o) (plaintext : Text)
      → IsDrained (write_plaintext o c plaintext).ciphertext
  unfolding Given
  write-IsDrained c plaintext = write-Given c plaintext

  Gives : Received o → Type 0
  Gives r = IsDrained r.outbound

  gives : (r : Received o) → IsDrained r.outbound → Gives r
  unfolding Gives
  gives r h = h

  after_reads-Gives :
      (c : TlsConnection o) (outbound : Text) (ssl : o.Ssl) (r : Reads)
      → IsDrained outbound
      → Gives (after_reads o c outbound ssl r)
  after_reads-Gives c outbound ssl r h = by_both Gives r.clean (gives _ h) (gives _ h)

  after_handshake-Gives : (c : TlsConnection o) → Gives (after_handshake o c)
  unfolding Gives
  after_handshake-Gives c = in_any c.state
    where
      d : TlsConnection o × Text
      d = drain_ciphertext o c

      in_any :
          (state : TlsState)
          → IsDrained
              (elim state as (λ _. Received o) [
                | handshaking ↦ received_nothing o d.0 need_more_data d.1
                | established ↦ after_reads o d.0 d.1 (o.read d.0.ssl).0 (o.read d.0.ssl).1
                | error ↦ received_nothing o d.0 ReadResult.error d.1
              ]).outbound
      in_any handshaking = drain-IsDrained c
      in_any established = after_reads-Gives d.0 d.1 _ (o.read d.0.ssl).1 (drain-IsDrained c)
      in_any error = drain-IsDrained c

  shake-Gives : (c : TlsConnection o) → Gives (shake o c)
  unfolding Gives
  shake-Gives c = in_any c.state
    where
      shaken :
          (ssl : o.Ssl) (result : HandshakeResult)
          → Gives (elim result as (λ _. Received o) [
            | done ↦ after_handshake o (in_state o c ssl established)
            | wants ↦ after_handshake o (in_state o c ssl handshaking)
            | broken ↦ received_nothing o (in_state o c ssl error) ReadResult.error []
          ])
      shaken ssl HandshakeResult.done = after_handshake-Gives (in_state o c ssl established)
      shaken ssl HandshakeResult.wants = after_handshake-Gives (in_state o c ssl handshaking)
      shaken ssl HandshakeResult.broken = tt

      in_any :
          (state : TlsState)
          → Gives (elim state as (λ _. Received o) [
            | handshaking ↦ elim (o.do_handshake c.ssl).1 as (λ _. Received o) [
              | done ↦ after_handshake o (in_state o c (o.do_handshake c.ssl).0 established)
              | wants ↦ after_handshake o (in_state o c (o.do_handshake c.ssl).0 handshaking)
              | broken ↦
                  received_nothing o
                    (in_state o c (o.do_handshake c.ssl).0 error)
                    ReadResult.error
                    []
            ]
            | established ↦ after_handshake o c
            | error ↦ after_handshake o c
          ])
      in_any handshaking = shaken (o.do_handshake c.ssl).0 (o.do_handshake c.ssl).1
      in_any established = after_handshake-Gives c
      in_any error = after_handshake-Gives c

  read_plaintext-Gives :
      (c : TlsConnection o) (ciphertext : Text) → Gives (read_plaintext o c ciphertext)
  unfolding read_plaintext
  read_plaintext-Gives c ciphertext =
      by_both Gives (ensure_tls_session o c)
        (by_both Gives (is_empty ciphertext) (shake-Gives c) (
          by_both Gives (o.bio_write c.ssl ciphertext).1
            (shake-Gives (record c { ssl = (o.bio_write c.ssl ciphertext).0 }))
            (gives
              (received_nothing o (in_state o c (o.bio_write c.ssl ciphertext).0 error)
                ReadResult.error [])
              tt)))
        (gives (received_nothing o c ReadResult.error []) tt)

  pub read_plaintext-IsDrained :
      (c : TlsConnection o) (ciphertext : Text) → IsDrained (read_plaintext o c ciphertext).outbound
  unfolding Gives
  read_plaintext-IsDrained c ciphertext = read_plaintext-Gives c ciphertext
