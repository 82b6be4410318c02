-- ===== src/Http/Server/Chunks.antt =====
-- src/tudou/http/HttpServer.cpp: the loop over a file has fuel enough.
use tudou.Prelude.{
  ℕ, zero, suc, ◌+◌, ◌-◌, ◌≤◌, min, Bool, true, false, ◌≡◌, refl, sym, ap, subst, [], ◌∷◌, length,
  if◌then◌else◌, ◌==◌, Text, arith,
}
use tudou.Http.Tls.{is_empty}
use tudou.Http.Server.{World, Exchange, send_memory_bio_plaintext, send_chunks, tls_file_chunk_size}

module _ (w : World) where
  -- A turn for what pread gave, with the rest of the loop.
  abbrev turn :
      Exchange w → ℕ → Text → (Exchange w × Bool) → (Exchange w × Bool) → Exchange w × Bool
  turn x remaining chunk sent rest =
      if remaining == 0
      then (x, true)
      else if is_empty chunk
      then (x, false)
      else if sent.1
      then rest
      else sent

  turn_same :
      (x : Exchange w) (remaining : ℕ) (chunk : Text) (sent rest other : Exchange w × Bool)
      → ((1 ≤ length chunk) → rest ≡ other)
      → turn x remaining chunk sent rest ≡ turn x remaining chunk sent other
  turn_same x remaining [] sent rest other h = refl
  turn_same x remaining (b ∷ bytes) sent rest other h =
      ap (turn x remaining (b ∷ bytes) sent) (h (omega arith))

  -- What pread gives, what is sent of it, and the loop behind it.
  abbrev chunk_of : ℕ → ℕ → ℕ → Text
  chunk_of fd offset remaining = w.pread fd (min tls_file_chunk_size remaining) offset

  abbrev sent_of : Exchange w → ℕ → ℕ → ℕ → Exchange w × Bool
  sent_of x fd offset remaining = send_memory_bio_plaintext w x (chunk_of fd offset remaining)

  abbrev rest_of : ℕ → Exchange w → ℕ → ℕ → ℕ → Exchange w × Bool
  rest_of n x fd offset remaining =
      let len = length (chunk_of fd offset remaining) in
      send_chunks w n (sent_of x fd offset remaining).0 fd (offset + len) (remaining - len)

  none_left :
      (x : Exchange w) (remaining : ℕ) (chunk : Text) (sent rest : Exchange w × Bool)
      → remaining ≡ 0
      → (x, remaining == 0) ≡ turn x remaining chunk sent rest
  none_left x remaining chunk sent rest e =
      subst (λ n. (x, n == 0) ≡ turn x n chunk sent rest) (sym e) refl

  -- With as much fuel as bytes remain, or more, the loop does the same: it ends by itself.
  pub send_chunks_enough :
      (m n : ℕ) (x : Exchange w) (fd offset remaining : ℕ)
      → remaining ≤ m
      → remaining ≤ n
      → send_chunks w m x fd offset remaining ≡ send_chunks w n x fd offset remaining
  unfolding send_chunks
  send_chunks_enough zero zero x fd offset remaining h k = refl
  send_chunks_enough zero (suc n) x fd offset remaining h k =
      none_left x remaining (chunk_of fd offset remaining) (sent_of x fd offset remaining)
        (rest_of n x fd offset remaining) (omega arith)
  send_chunks_enough (suc m) zero x fd offset remaining h k = sym (
      none_left x remaining (chunk_of fd offset remaining) (sent_of x fd offset remaining)
        (rest_of m x fd offset remaining) (omega arith))
  send_chunks_enough (suc m) (suc n) x fd offset remaining h k =
      turn_same x remaining (chunk_of fd offset remaining) (sent_of x fd offset remaining)
        (rest_of m x fd offset remaining) (rest_of n x fd offset remaining)
        (λ some_bytes.
          let len = length (chunk_of fd offset remaining) in
          send_chunks_enough m n (sent_of x fd offset remaining).0 fd (offset + len)
            (remaining - len) (omega (arith, h, some_bytes)) (omega (arith, k, some_bytes)))
