-- ===== src/Http/Tls/Fallback.antt =====
-- src/tudou/http/TlsConnection.cpp: what an offload to the kernel leaves of the session.
use tudou.Prelude.{Bool, true, false, ◌≡◌, refl, ap, [], Text, if◌then◌else◌}
use tudou.Http.Tls.{
  Openssl, TlsConnection, error, ensure_tls_session, read_plaintext, write_plaintext,
  enable_ktls_offload, received_nothing, not_encrypted, is_empty, shake, in_state, is_error,
}

module _ (o : Openssl) where
  read-without-bios :
      (c : TlsConnection o) (ciphertext : Text)
      → c.has_bios ≡ false
      → read_plaintext o c ciphertext ≡ received_nothing o c error []
  unfolding read_plaintext ensure_tls_session
  read-without-bios c ciphertext e =
      ap
        (λ (b : Bool).
          if (if b then if is_error o c.state then false else true else false)
          then (if is_empty ciphertext
              then shake o c
              else if (o.bio_write c.ssl ciphertext).1
              then shake o (record c { ssl = (o.bio_write c.ssl ciphertext).0 })
              else received_nothing o (in_state o c (o.bio_write c.ssl ciphertext).0 error) error
                  [])
          else received_nothing o c error [])
        e

  write-without-bios :
      (c : TlsConnection o) (plaintext : Text)
      → c.has_bios ≡ false
      → is_empty plaintext ≡ false
      → write_plaintext o c plaintext ≡ not_encrypted o c false
  unfolding write_plaintext ensure_tls_session
  write-without-bios c plaintext e f = rw f (rw e refl)

  -- After an offload that got as far as the BIO of the socket, every read fails and gives nothing,
  -- every write of some bytes fails and gives nothing, and neither changes the session, so that
  -- it stays so; also where the offload failed and the caller goes on with memory BIOs.
  pub enable_ktls_offload_ends :
      (c : TlsConnection o) (ciphertext plaintext : Text)
      → o.socket_bio c.ssl ≡ true
      → is_empty plaintext ≡ false
      → let t = (enable_ktls_offload o c).0 in
        (read_plaintext o t ciphertext ≡ received_nothing o t error [])
        × (write_plaintext o t plaintext ≡ not_encrypted o t false)
  unfolding enable_ktls_offload
  enable_ktls_offload_ends c ciphertext plaintext b f =
      (read-without-bios _ ciphertext without, write-without-bios _ plaintext without f)
    where
      without : (enable_ktls_offload o c).0.has_bios ≡ false
      without = rw b refl
