-- ===== src/Rpc/Server/Tests.antt =====
-- Rpc/Server at concrete inputs.
use tudou.Prelude.{
  ℕ, true, false, ◌≡◌, refl, ap, inr, List, [], ◌∷◌, ◌++◌, Option, some, Text, text, arith, lookup,
  insert, text_eq,
}
use tudou.Rpc.Protocol.{request, from_be}
use tudou.Rpc.Codec.{header_of, half_pack, parse_header}
use tudou.Rpc.Codec.Frame.{split_frame}
use tudou.Rpc.Router.{dispatch, register_service}
use tudou.Rpc.Router.Tests.{echo_router}
use tudou.Rpc.Server.{Server, on_message, dangling}
use tudou.Rpc.Server.Stream.{Serves, waits}
use tudou.Rpc.Server.Chunks.{
  on_message-Serves, on_message_in_two, after_stream, keeps, then_message,
}
use tudou.Rpc.Server.Dangling.{on_message_dangles}

-- Every request is for the service that echoes.
abbrev to_echo : List ℕ → Option (Text × Text)
to_echo bytes = some (text "Echo", text "echo")

abbrev server : Server
server = record { router = echo_router; connection_buffers = [] }

-- All but the last two bytes of a request with the metadata 1, 2 and the body 3.
abbrev front : List ℕ
front = 0x54 ∷ 0x44 ∷ 1 ∷ 0 ∷ 0 ∷ 0 ∷ 0 ∷ 0 ∷ 0 ∷ 0 ∷ 0 ∷ 7 ∷ 0 ∷ 0 ∷ 0 ∷ 2 ∷ 0 ∷ 0 ∷ 0 ∷ 1 ∷ 1 ∷ []

abbrev front_tail : List ℕ
front_tail = 0x44 ∷ 1 ∷ 0 ∷ 0 ∷ 0 ∷ 0 ∷ 0 ∷ 0 ∷ 0 ∷ 0 ∷ 7 ∷ 0 ∷ 0 ∷ 0 ∷ 2 ∷ 0 ∷ 0 ∷ 0 ∷ 1 ∷ 1 ∷ []

front_half : split_frame front ≡ (half_pack, front)
unfolding split_frame parse_header from_be
front_half = refl

front_waits : Serves to_echo echo_router 5 front false front []
front_waits = waits (inr front_half) refl refl

on_message-Serves_example :
    on_message to_echo (λ es. false) server 5 (0x54 ∷ front_tail)
    ≡ after_stream server 5 false front []
unfolding lookup
on_message-Serves_example =
    on_message-Serves to_echo (λ es. false) (λ es. refl) server 5 0x54 front_tail (omega arith)
      front_waits

-- The rest of the first request, and the start of a second one.
on_message_in_two_example :
    on_message to_echo (λ es. false) server 5 (front ++ 2 ∷ 3 ∷ 0x54 ∷ [])
    ≡ then_message
        (on_message to_echo (λ es. false) server 5 front)
        (λ s. on_message to_echo (λ es. false) s 5 (2 ∷ 3 ∷ 0x54 ∷ []))
unfolding lookup insert
on_message_in_two_example =
    on_message_in_two to_echo (λ es. false) (λ es. refl) server 5 front (2 ∷ 3 ∷ 0x54 ∷ [])
      (omega arith) (ap (keeps 5) on_message-Serves_example)

-- One whole request on a connection that breaks under the response.
on_message_dangles_example :
    on_message to_echo (λ es. true) server 5 (0x54 ∷ front_tail ++ 2 ∷ 3 ∷ []) ≡ dangling
unfolding lookup split_frame parse_header from_be dispatch register_service insert text_eq
on_message_dangles_example =
    on_message_dangles to_echo (λ es. true) server 5 0x54 (front_tail ++ 2 ∷ 3 ∷ [])
      (header_of request 7 (1 ∷ 2 ∷ []) (3 ∷ [])) (1 ∷ 2 ∷ []) (3 ∷ []) (text "Echo") (text "echo")
      (3 ∷ []) (omega arith) refl refl refl refl
