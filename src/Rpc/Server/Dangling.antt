-- ===== src/Rpc/Server/Dangling.antt =====
-- src/tudou/rpc/binary/BinaryRpcServer.cpp: on_message when a response finds the connection broken.
use tudou.Prelude.{
  ℕ, zero, suc, ◌+◌, ◌≤◌, ◌<◌, Bool, true, false, ◌≡◌, refl, ap, ◌∙◌, List, [], ◌∷◌, ◌++◌, Option,
  some, Text, arith, length, length-append, insert, lookup_erased, number_eq,
}
use tudou.Tcp.Buffer.{Buffer, new_buffer, initial_size, write_to_buffer}
use tudou.Tcp.Buffer.Contents.{IsValid, contents, max_size}
use tudou.Rpc.Protocol.{RpcHeader}
use tudou.Rpc.Codec.{success, decode}
use tudou.Rpc.Codec.Frame.{split_frame}
use tudou.Rpc.Codec.Refine.{decode-split_frame}
use tudou.Rpc.Router.{Router, dispatch, called_back}
use tudou.Rpc.Server.{
  Server, Effect, Turn, ended, dangling, loop, finish, cached, on_message, respond, on_close,
}
use tudou.Rpc.Server.Chunks.{fresh_buffer}

module _ (parse_meta : List ℕ → Option (Text × Text)) (breaks : List Effect → Bool) where
  loop_waits :
      (router : Router) (conn fuel : ℕ) {buf : Buffer} (t : Turn)
      → 0 < fuel
      → IsValid buf
      → contents buf ≡ []
      → loop parse_meta breaks router conn fuel buf t ≡ ended false (decode buf).1 t
  unfolding loop split_frame
  loop_waits router conn zero t h valid none_left = absurd (omega arith)
  loop_waits router conn (suc fuel) t h valid none_left =
      rw (loop, (decode-split_frame valid).0 ∙ ap (λ q. (split_frame q).0) none_left) refl

  -- Where the bytes of a message end with one request, whose response finds the connection broken,
  -- `on_message` writes to the cache entry that `on_close` has erased.
  pub on_message_dangles :
      (s : Server) (conn x : ℕ) (bytes : List ℕ) (h : RpcHeader) (meta_bytes body_bytes : List ℕ)
      (service_name method_name : Text) (raw : List ℕ)
      → length (cached conn s.connection_buffers ++ x ∷ bytes) + 8 ≤ max_size
      → split_frame (cached conn s.connection_buffers ++ x ∷ bytes)
        ≡ (success h meta_bytes body_bytes, [])
      → parse_meta meta_bytes ≡ some (service_name, method_name)
      → dispatch s.router service_name method_name body_bytes ≡ called_back raw
      → breaks [] ≡ true
      → on_message parse_meta breaks s conn (x ∷ bytes) ≡ dangling
  unfolding on_message loop respond on_close
  on_message_dangles s conn x bytes h meta_bytes body_bytes service method raw small whole named
        called broken =
      let cache = cached conn s.connection_buffers ++ x ∷ bytes in
      let (valid, same) = fresh_buffer cache small in
      let d = decode-split_frame valid in
      let gone : contents (decode (write_to_buffer (new_buffer initial_size) cache)).1 ≡ [] =
        d.1 ∙ ap (λ q. (split_frame q).1) same ∙ ap (λ o. o.1) whole in
      rw
        (
          loop,
          d.0 ∙ ap (λ q. (split_frame q).0) same ∙ ap (λ o. o.0) whole,
          named,
          called,
          broken,
          loop_waits s.router conn (length cache) _
              (omega (arith, length-append (cached conn s.connection_buffers) (x ∷ bytes))) d.2
              gone,
          finish,
          lookup_erased conn (insert conn cache s.connection_buffers),
        )
        refl
