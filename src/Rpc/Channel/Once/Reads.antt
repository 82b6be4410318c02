-- ===== src/Rpc/Channel/Once/Reads.antt =====
-- src/tudou/rpc/binary/BinaryRpcChannel.cpp: the operations that read and decode.
use tudou.Prelude.{
  ℕ, ◌+◌, ◌≤◌, ◌≡◌, refl, Bool, true, false, ◌&&◌, if◌then◌else◌, List, [], ◌∷◌, Option, some,
  arith, length,
}
use tudou.Tcp.Buffer.{Buffer, write_to_buffer}
use tudou.Tcp.Buffer.Contents.{IsValid, max_size, length-contents}
use tudou.Tcp.Buffer.Write.{write_to_buffer_appends, length-write_to_buffer_le}
use tudou.Rpc.Channel.Write.{
  BinaryRpcChannel, shut, closed_prematurely, read_failed, cleanup_pending_requests,
}
use tudou.Rpc.Channel.Calls.{
  ReadResult, received, signal, again, reset, end_of_file, read_socket, on_read, receive_turn,
  receive_round, serve_buffered,
}
use tudou.Rpc.Channel.Once.Responses.{serve_responses-Served}
use tudou.Rpc.Channel.Once.Keeps.{
  Once, Kept, shut-Kept, idle-Kept, buffered-Kept, Kept_then, receiving-Kept, cleanup-Kept,
}
use tudou.Rpc.Channel.Once.Sends.{}
use tudou.Rpc.Channel.Once.Operations.{bytes_of, bytes_read}

module _ (parses : ℕ → List ℕ → Bool) where
  -- What an operation that decodes gives.
  pub record Stepped (c : BinaryRpcChannel) (more : ℕ) (r : Option BinaryRpcChannel) : Type 0 where
    pub after : BinaryRpcChannel
    pub run : r ≡ some after
    pub kept : Kept c more after

  serve_buffered-Stepped : (c : BinaryRpcChannel) → Once c → Stepped c 0 (serve_buffered parses c)
  serve_buffered-Stepped c o =
      let s = serve_responses-Served parses _ c o (omega (arith, length-contents o.valid)) in
      record { after = s.after; run = s.run; kept = s.kept }

  record Grows (b : Buffer) (more : ℕ) (b' : Buffer) : Type 0 where
    valid : IsValid b'
    storage : length b'.buffer ≤ length b.buffer + more

  write-Grows :
      (b : Buffer) (bytes : List ℕ)
      → IsValid b
      → length b.buffer + length bytes ≤ max_size
      → Grows b (length bytes) (write_to_buffer b bytes)
  write-Grows b bytes v small = record {
    valid = (write_to_buffer_appends bytes v (omega arith)).0;
    storage = length-write_to_buffer_le bytes v (omega arith);
  }

  read_socket-Grows :
      (b : Buffer) (results : List ReadResult)
      → IsValid b
      → length b.buffer + bytes_read results ≤ max_size
      → Grows b (bytes_read results) (read_socket parses b results).0
  unfolding read_socket
  read_socket-Grows b [] v small = record { valid = v; storage = omega arith }
  read_socket-Grows b (received bytes ∷ results) v small =
      let w = write-Grows b bytes v (omega arith) in
      let r =
        read_socket-Grows (write_to_buffer b bytes) results w.valid (omega (arith, w.storage)) in
      record { valid = r.valid; storage = omega (arith, r.storage, w.storage) }
  read_socket-Grows b (signal ∷ results) v small =
      let r = read_socket-Grows b results v (omega arith) in
      record { valid = r.valid; storage = omega (arith, r.storage) }
  read_socket-Grows b (again ∷ results) v small = record { valid = v; storage = omega arith }
  read_socket-Grows b (reset ∷ results) v small = record { valid = v; storage = omega arith }
  read_socket-Grows b (end_of_file ∷ results) v small = record { valid = v; storage = omega arith }

  Stepped-if :
      (c : BinaryRpcChannel) (more : ℕ) (t : Bool) (x y : Option BinaryRpcChannel)
      → (t ≡ true → Stepped c more x)
      → Stepped c more y
      → Stepped c more (if t then x else y)
  Stepped-if c more true x y f g = f refl
  Stepped-if c more false x y f g = g

  Stepped-some :
      (c : BinaryRpcChannel) (more : ℕ) (d : BinaryRpcChannel)
      → Kept c more d
      → Stepped c more (some d)
  Stepped-some c more d k = record { after = d; run = refl; kept = k }

  still : (c : BinaryRpcChannel) (more : ℕ) → Once c → Kept c more c
  still c more o = Kept_then c c c 0 0 more (idle-Kept c o) refl (idle-Kept c o) (omega arith)

  -- What is done once the bytes are in the buffer.
  buffered-Stepped :
      (c : BinaryRpcChannel) (b : Buffer) (more : ℕ)
      → Once c
      → Grows c.read_buf more b
      → Stepped c more (serve_buffered parses (record c { read_buf = b }))
  buffered-Stepped c b more o g =
      let k = buffered-Kept c b o g.valid more g.storage in
      let s = serve_buffered-Stepped (record c { read_buf = b }) k.once in
      record {
        after = s.after;
        run = s.run;
        kept = Kept_then c _ s.after more 0 more k refl s.kept (omega arith);
      }

  pub on_read-Stepped :
      (c : BinaryRpcChannel) (results : List ReadResult)
      → Once c
      → length c.read_buf.buffer + bytes_read results ≤ max_size
      → Stepped c (bytes_read results) (on_read parses c results)
  unfolding on_read
  on_read-Stepped c results o small =
      Stepped-if c n c.running _ _
        (λ up.
          Stepped-if c n over _ _
            (λ e. Stepped-some c n _ (
              Kept_then c d (shut d read_failed) n 0 n k refl (shut-Kept d read_failed k.once)
                (omega arith)))
            (buffered-Stepped c buf n o g))
        (Stepped-some c n c (still c n o))
    where
      n : ℕ
      n = bytes_read results

      buf : Buffer
      buf = (read_socket parses c.read_buf results).0

      over : Bool
      over = (read_socket parses c.read_buf results).1

      d : BinaryRpcChannel
      d = record c { read_buf = buf }

      g : Grows c.read_buf n buf
      g = read_socket-Grows c.read_buf results o.valid small

      k : Kept c n d
      k = buffered-Kept c buf o g.valid n g.storage

  pub receive_round-Stepped :
      (c : BinaryRpcChannel) (r : ReadResult)
      → Once c
      → length c.read_buf.buffer + bytes_of r ≤ max_size
      → Stepped c (bytes_of r) (receive_round parses c r)
  unfolding receive_round
  receive_round-Stepped c r o small = taken (c.running && c.receiving) r small
    where
      over : Kept c 0 (record (cleanup_pending_requests c closed_prematurely) { receiving = false })
      over = receiving-Kept c _ 0 false (cleanup-Kept c closed_prematurely o)

      taken :
          (t : Bool) (r : ReadResult)
          → length c.read_buf.buffer + bytes_of r ≤ max_size
          → Stepped c (bytes_of r) (receive_turn parses c t r)
      taken false r h =
          Stepped-some c (bytes_of r) _
            (receiving-Kept c c (bytes_of r) false (still c (bytes_of r) o))
      taken true (received bytes) h =
          buffered-Stepped c (write_to_buffer c.read_buf bytes) (length bytes) o
            (write-Grows c.read_buf bytes o.valid h)
      taken true signal h = Stepped-some c 0 c (still c 0 o)
      taken true again h = Stepped-some c 0 c (still c 0 o)
      taken true reset h = Stepped-some c 0 _ over
      taken true end_of_file h = Stepped-some c 0 _ over
