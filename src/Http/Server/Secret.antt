-- ===== src/Http/Server/Secret.antt =====
-- src/tudou/http/HttpServer.cpp: with TLS, all that its handlers ever send is ciphertext.
use tudou.Prelude.{
  ℕ, Bool, true, ◌≡◌, refl, sym, subst, ◌==◌, List, [], ◌∷◌, ◌++◌, Option, none, some, by_both,
  Text, lookup, insert, erase, number_eq,
}
use tudou.Http.TlsMode.{memory_bio}
use tudou.Http.Tls.{new_tls}
use tudou.Http.Server.{
  World, Effect, ConnectionState, HttpServer, TlsConfig, Exchange, is_ssl_enabled,
  create_connection_state, fresh_state,
}
use tudou.Http.Server.Events.{Ending, returned, handle, on_message, on_connect, on_close, settle}
use tudou.Http.Server.Ciphertext.{AllCiphertext, IsUserSpace, IsUserMode, left, IsSecret, secret}
use tudou.Http.Server.Secrecy.{handle-LeavesSecret}

module _ (w : World) where
  -- What happens to a server, by connection.
  pub data Event : Type 0 where
    connects : ℕ → Option (w.openssl.Ssl × Bool) → Event
    receives : ℕ → Text → Event
    closed : ℕ → Event

  abbrev pub after_event : HttpServer w → Event → HttpServer w × List Effect
  after_event s (connects conn handle) = (on_connect w s conn handle, [])
  after_event s (receives conn bytes) =
      let (t, effects, ending) = on_message w s conn bytes in (t, effects)
  after_event s (closed conn) = (on_close w s conn, [])

  -- All that is done to the connections.
  abbrev pub effects_of : HttpServer w → List Event → List Effect
  effects_of s [] = []
  effects_of s (e ∷ es) = let (t, effects) = after_event s e in effects ++ effects_of t es

  abbrev pub AllUserSpace : List (ℕ × ConnectionState w) → Type 0
  AllUserSpace [] = Unit
  AllUserSpace ((conn, state) ∷ states) = IsUserSpace w state × AllUserSpace states

  insert-AllUserSpace :
      (conn : ℕ) (state : ConnectionState w) (m : List (ℕ × ConnectionState w))
      → IsUserSpace w state
      → AllUserSpace m
      → AllUserSpace (insert conn state m)
  unfolding insert
  insert-AllUserSpace conn state [] u all = (u, all)
  insert-AllUserSpace conn state ((k, v) ∷ m) u all =
      by_both AllUserSpace (k == conn) (u, all.1) (all.0, insert-AllUserSpace conn state m u all.1)

  erase-AllUserSpace :
      (conn : ℕ) (m : List (ℕ × ConnectionState w)) → AllUserSpace m → AllUserSpace (erase conn m)
  unfolding erase
  erase-AllUserSpace conn [] all = all
  erase-AllUserSpace conn ((k, v) ∷ m) all =
      by_both AllUserSpace (k == conn) (erase-AllUserSpace conn m all.1)
        (all.0, erase-AllUserSpace conn m all.1)

  abbrev IsUserSpaceIn : Option (ConnectionState w) → Type 0
  IsUserSpaceIn none = Unit
  IsUserSpaceIn (some state) = IsUserSpace w state

  lookup-AllUserSpace :
      (conn : ℕ) (m : List (ℕ × ConnectionState w)) → AllUserSpace m → IsUserSpaceIn (lookup conn m)
  unfolding lookup
  lookup-AllUserSpace conn [] all = tt
  lookup-AllUserSpace conn ((k, v) ∷ m) all =
      by_both IsUserSpaceIn (k == conn) all.0 (lookup-AllUserSpace conn m all.1)

  -- A server with TLS, in the mode of memory BIOs, and its connections.
  data IsSecretServer (s : HttpServer w) : Type 0 where
    secret_server :
        is_ssl_enabled w s ≡ true
        → s.tls_mode ≡ memory_bio
        → AllUserSpace s.connection_states
        → IsSecretServer s

  data IsSecretEvent (r : HttpServer w × List Effect) : Type 0 where
    secret_event : IsSecretServer r.0 → AllCiphertext w r.1 → IsSecretEvent r

  on_connect-IsSecretServer :
      (s : HttpServer w) (conn : ℕ) (handle : Option (w.openssl.Ssl × Bool))
      → IsSecretServer s
      → IsSecretServer (on_connect w s conn handle)
  unfolding on_connect create_connection_state
  on_connect-IsSecretServer s conn handle (secret_server enabled mode all) =
      secret_server enabled mode (
        insert-AllUserSpace conn (create_connection_state w s handle) s.connection_states
          (fresh s.tls_config handle) all)
    where
      fresh :
          (config : Option TlsConfig) (handle : Option (w.openssl.Ssl × Bool))
          → IsUserSpace w (elim config as (λ _. ConnectionState w) [
            | none ↦ fresh_state w
            | some c ↦ elim handle as (λ _. ConnectionState w) [
              | none ↦ fresh_state w
              | some (ssl, made) ↦ record (fresh_state w) {
                tls_mode = s.tls_mode;
                tls_connection = some (new_tls w.openssl ssl made);
              }
            ]
          ])
      fresh none handle = (refl, tt)
      fresh (some c) none = (refl, tt)
      fresh (some c) (some (ssl, made)) = (refl, subst (IsUserMode w) (sym mode) tt)

  settle-IsSecretEvent :
      (s : HttpServer w) (conn : ℕ) (x : Exchange w)
      → IsSecretServer s
      → IsSecret w x
      → IsSecretEvent (settle w s conn x, x.effects)
  settle-IsSecretEvent s conn x (secret_server enabled mode all) (secret user is) =
      secret_event
        (secret_server enabled mode (
          by_both AllUserSpace x.is_known
            (insert-AllUserSpace conn x.state s.connection_states user all)
            (erase-AllUserSpace conn s.connection_states all)))
        is

  on_message-IsSecretEvent :
      (s : HttpServer w) (conn : ℕ) (bytes : Text)
      → IsSecretServer s
      → IsSecretEvent (after_event s (receives conn bytes))
  unfolding on_message
  on_message-IsSecretEvent s conn [] h = secret_event h tt
  on_message-IsSecretEvent s conn (b ∷ bytes) (secret_server enabled mode all) =
      found (lookup conn s.connection_states) (lookup-AllUserSpace conn s.connection_states all)
    where
      found :
          (o : Option (ConnectionState w))
          → IsUserSpaceIn o
          → IsSecretEvent (
              let (t, effects, ending) = elim o as (λ _. HttpServer w × List Effect × Ending) [
                | none ↦ (s, [], returned)
                | some state ↦
                    let (x, ending) = handle w s state (b ∷ bytes) in
                    (settle w s conn x, x.effects, ending)
              ] in
              (t, effects))
      found none u = secret_event (secret_server enabled mode all) tt
      found (some state) u =
          settle-IsSecretEvent s conn (handle w s state (b ∷ bytes)).0
            (secret_server enabled mode all)
            (left w _ (handle-LeavesSecret w s enabled state (b ∷ bytes) u))

  after_event-IsSecretEvent :
      (s : HttpServer w) (e : Event) → IsSecretServer s → IsSecretEvent (after_event s e)
  unfolding on_close
  after_event-IsSecretEvent s (connects conn handle) h =
      secret_event (on_connect-IsSecretServer s conn handle h) tt
  after_event-IsSecretEvent s (receives conn bytes) h = on_message-IsSecretEvent s conn bytes h
  after_event-IsSecretEvent s (closed conn) (secret_server enabled mode all) =
      secret_event (secret_server enabled mode (erase-AllUserSpace conn s.connection_states all)) tt

  append-AllCiphertext_all :
      (ds es : List Effect) → AllCiphertext w ds → AllCiphertext w es → AllCiphertext w (ds ++ es)
  append-AllCiphertext_all [] es all bll = bll
  append-AllCiphertext_all (d ∷ ds) es all bll = (all.0, append-AllCiphertext_all ds es all.1 bll)

  effects_of-secret :
      (s : HttpServer w) (es : List Event) → IsSecretServer s → AllCiphertext w (effects_of s es)
  effects_of-secret s [] h = tt
  effects_of-secret s (e ∷ es) h = elim (after_event-IsSecretEvent s e h) [
    | secret_event h' is ↦
        append-AllCiphertext_all (after_event s e).1 (effects_of (after_event s e).0 es) is
          (effects_of-secret (after_event s e).0 es h')
  ]

  -- Whatever connections come, whatever they receive and whenever they close: all bytes that the
  -- handlers of a server send to its connections are such that OpenSSL has put into a write BIO, and no file
  -- is sent as it is. The server has TLS, in the mode of memory BIOs, and had no connection before.
  pub effects_of-AllCiphertext :
      (s : HttpServer w) (es : List Event)
      → is_ssl_enabled w s ≡ true
      → s.tls_mode ≡ memory_bio
      → s.connection_states ≡ []
      → AllCiphertext w (effects_of s es)
  effects_of-AllCiphertext s es enabled mode none_yet =
      effects_of-secret s es (secret_server enabled mode (subst AllUserSpace (sym none_yet) tt))
