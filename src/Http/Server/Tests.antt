-- ===== src/Http/Server/Tests.antt =====
-- Http/Server and Http/Tls at a small OpenSSL and a parser of one message.
use tudou.Prelude.{
  ℕ, suc, Bool, true, false, ◌&&◌, ◌≡◌, refl, ap, List, [], ◌∷◌, ◌++◌, none, some, Text, text,
  starts_with, text_eq, insert, insert, lookup, number_eq, length,
}
use tudou.Http.Message.{HttpRequest, HttpResponse, new_response, set_body, add_header}
use tudou.Http.Router.{new_router, add_get_route, add_route, dispatch}
use tudou.Http.Context.{HttpContext, Executed, ok, paused, on_events}
use tudou.Http.Context.Pieces.{on_events-callbacks}
use tudou.Http.Context.Messages.{Message, callbacks}
use tudou.Http.Tls.{
  Openssl, HandshakeResult, WriteResult, new_tls, read_plaintext, write_plaintext,
  enable_ktls_offload, received_nothing, not_encrypted, ReadResult,
}
use tudou.Http.Tls.Fallback.{enable_ktls_offload_ends}
use tudou.Http.Server.{World, HttpServer, new_server, fresh_state}
use tudou.Http.Server.Events.{returned, on_message, build_http_response}
use tudou.Http.Server.Ends.{PausesAtEnds, IsSettled, on_message_ends}
use tudou.Http.Server.Pipeline.{Speaks, Request, replies, done, on_message-replies}
use tudou.Http.Server.Ciphertext.{AllCiphertext}
use tudou.Http.Server.Secret.{Event, connects, receives, effects_of, effects_of-AllCiphertext}

abbrev get_bytes : Text
get_bytes = text "G;"

abbrev get_message : Message
get_message = record {
  method = text "GET";
  target = record { first = text "/a"; others = [] };
  headers =
      (record { first = text "Host"; others = [] }, record { first = text "h"; others = [] }) ∷ [];
  contents = [];
  major = 1;
  minor = 1;
}

-- The handle is what is in the write BIO.
abbrev small_openssl : Openssl
small_openssl = record {
  Ssl = Text;
  bio_write = λ ssl bytes. (ssl, true);
  do_handshake = λ ssl. (ssl, HandshakeResult.done);
  read = λ ssl. (ssl, record { texts = get_bytes ∷ []; clean = true });
  write = λ ssl bytes. (text "*" ++ bytes, WriteResult.written);
  bio_read = λ ssl. ([], ssl);
  socket_bio = λ ssl. true;
  set_socket_bio = λ ssl. ssl;
  ktls_send = λ ssl. false;
}

-- A parser that has been reset is `true`.
abbrev executed_small : Bool → Bool → Executed Bool
executed_small p true = record {
  parser = false;
  events = callbacks get_message;
  err = paused;
  error_pos = some 2;
}
executed_small p false = record { parser = p; events = []; err = ok; error_pos = none }

abbrev execute_small : Bool → Text → Executed Bool
execute_small p bytes = executed_small p (p && starts_with bytes get_bytes)

abbrev small_world : World
small_world = record {
  openssl = small_openssl;
  Parser = Bool;
  new_parser = true;
  execute = execute_small;
  restart = λ p. true;
  order = λ headers. headers;
  pread = λ fd size offset. [];
  closes = λ effects. false;
}

abbrev say_hi : HttpRequest → HttpResponse → HttpResponse
say_hi req resp = set_body resp (text "hi")

abbrev plain_server : HttpServer small_world
plain_server = record (new_server small_world) {
  connection_states = (7, fresh_state small_world) ∷ [];
  router = add_get_route new_router (text "/a") (some say_hi);
}

small_ready :
    (p b : Bool) → p ≡ true → (executed_small p b).err ≡ ok → (executed_small p b).parser ≡ true
small_ready p true h e = absurd (cc e)
small_ready p false h e = h

small_pause :
    (p b : Bool) (c : HttpContext)
    → (executed_small p b).err ≡ paused
    → ((n : ℕ) × ((executed_small p b).error_pos ≡ some (suc n)))
      × ((on_events c (executed_small p b).events).is_complete ≡ true)
small_pause p true c e = (
  (1, refl),
  ap (λ (d : HttpContext). d.is_complete) (on_events-callbacks get_message (refl, tt) c),
)
small_pause p false c e = absurd (cc e)

abbrev small_pauses : PausesAtEnds small_world
small_pauses = record {
  Ready = λ p. p ≡ true;
  ready_restart = λ p. refl;
  ready_ok = λ p bytes h e. small_ready p (p && starts_with bytes get_bytes) h e;
  pauses = λ p bytes c h e. small_pause p (p && starts_with bytes get_bytes) c e;
}

data IsGet : Text → Message → Type 0 where
  is_get : IsGet get_bytes get_message

small_executes :
    (p : Bool) (bytes rest : Text) (m : Message)
    → p ≡ true
    → IsGet bytes m
    → (q : Bool) × (execute_small p (bytes ++ rest) ≡ record {
      parser = q;
      events = callbacks m;
      err = paused;
      error_pos = some (length bytes);
    })
unfolding starts_with
small_executes p bytes rest m h is_get =
    (false, ap (λ (p : Bool). executed_small p (p && starts_with (get_bytes ++ rest) get_bytes)) h)

abbrev small_speaks : Speaks small_world
small_speaks = record {
  Fresh = λ p. p ≡ true;
  Encodes = IsGet;
  fresh_restart = λ p. refl;
  executes = small_executes;
}

abbrev get_request : Request
get_request = record {
  first = b'G';
  others = text ";";
  message = get_message;
  response = set_body new_response (text "hi");
}

on_message_ends_example :
    IsSettled small_world small_pauses 7 (on_message small_world plain_server 7 (text "G;G;?"))
unfolding lookup
on_message_ends_example =
    on_message_ends small_world small_pauses plain_server 7 (text "G;G;?") (fresh_state small_world)
      refl refl

on_message-replies_example :
    done small_world small_speaks plain_server (on_message small_world plain_server 7 (text "G;G;"))
    ≡ (replies small_world [] (get_request ∷ get_request ∷ []), returned)
unfolding lookup add_route text_eq build_http_response dispatch insert add_header
on_message-replies_example =
    on_message-replies small_world small_speaks plain_server 7 (fresh_state small_world)
      (get_request ∷ get_request ∷ []) refl refl refl refl refl
      ((is_get, (refl, tt), refl), ((is_get, (refl, tt), refl), tt))

abbrev tls_server : HttpServer small_world
tls_server = record plain_server {
  connection_states = [];
  tls_config = some (record { is_initialized = true; only_tls12 = false });
}

abbrev some_events : List (Event small_world)
some_events = connects 7 (some ([], true)) ∷ receives 7 (text "x") ∷ []

effects_of-AllCiphertext_example :
    AllCiphertext small_world (effects_of small_world tls_server some_events)
effects_of-AllCiphertext_example =
    effects_of-AllCiphertext small_world tls_server some_events refl refl refl

enable_ktls_offload_ends_example :
    let t = (enable_ktls_offload small_openssl (new_tls small_openssl [] true)).0 in
    (read_plaintext small_openssl t (text "x")
      ≡ received_nothing small_openssl t ReadResult.error [])
    × (write_plaintext small_openssl t (text "y") ≡ not_encrypted small_openssl t false)
enable_ktls_offload_ends_example =
    enable_ktls_offload_ends small_openssl (new_tls small_openssl [] true) (text "x") (text "y")
      refl refl
