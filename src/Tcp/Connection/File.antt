-- ===== src/Tcp/Connection/File.antt =====
-- src/tudou/tcp/TcpConnection.cpp: send_pending_file_in_loop, a part of a file after the other.
use tudou.Prelude.{
  ℕ, ◌+◌, ◌-◌, ◌≤◌, ◌<◌, ◌≡◌, ◌⊎◌, refl, ap, ap₂, subst, ◌∙◌, sym, inl, inr, Bool, true, false,
  List, [], ◌++◌, append_assoc, append-nil, Option, none, some, arith, Bool-cases, take, drop,
  take-add, drop-drop, ◌==◌, sub_size,
}
use tudou.Tcp.Buffer.{WriteOutcome, write_error, wrote}
use tudou.Tcp.Buffer.Contents.{contents, max_size}
use tudou.Tcp.Connection.{
  TcpConnection, PendingFileSend, failed, closed, handle_callback, close_unless, close_connection,
  fail, is_retry, has_pending_file, after_sendfile, send_pending, send_pending_file_in_loop,
}
use tudou.Tcp.Connection.Outgoing.{is_fatal}

module _ (content : ℕ → List ℕ) where
  abbrev pub file_rest : Option PendingFileSend → List ℕ
  file_rest none = []
  file_rest (some f) = take f.remaining (drop f.offset (content f.file))

  -- What the kernel has taken, what waits in the buffer and what of the file is still to be sent.
  abbrev pub outgoing : TcpConnection → List ℕ
  outgoing c = c.wire ++ (contents c.write_buffer ++ file_rest c.pending_file)

  -- `c'` has sent more of what `c` had to send, with the write event on while some is left; or, if
  -- it may fail, it is closed. Either way nothing is lost or repeated.
  record Moved (failing : Bool) (c c' : TcpConnection) : Type 0 where
    same : outgoing c' ≡ outgoing c
    open_or : (c'.is_closed ≡ c.is_closed) ⊎ ((failing ≡ true) × (c'.is_closed ≡ true))
    armed : c'.is_closed ≡ false → has_pending_file c' ≡ true → c'.is_writing ≡ true

  Moved-close_unless :
      {failing : Bool} {c : TcpConnection} (d : TcpConnection) (b : Bool)
      → failing ≡ true
      → d.is_closed ≡ b
      → outgoing d ≡ outgoing c
      → Moved failing c (close_unless b d)
  Moved-close_unless d true m e same = record {
    same = same;
    open_or = inr (m, e);
    armed = λ f. absurd (ground (arith, e, f));
  }
  Moved-close_unless {failing} {c} d false m e same = go d.has_close
    where
      go :
          (set : Bool)
          → Moved failing c (
              handle_callback set closed
                (record d { is_closed = true; is_reading = false; is_writing = false }))
      go true = record {
        same = same;
        open_or = inr (m, refl);
        armed = λ f. absurd (ground (arith, f));
      }
      go false = record {
        same = same;
        open_or = inr (m, refl);
        armed = λ f. absurd (ground (arith, f));
      }

  Moved-fail : {failing : Bool} (c : TcpConnection) → failing ≡ true → Moved failing c (fail c)
  unfolding fail close_connection
  Moved-fail {failing} c m = go c.has_error
    where
      go : (set : Bool) → Moved failing c (close_connection (handle_callback set failed c))
      go true = Moved-close_unless (handle_callback true failed c) c.is_closed m refl refl
      go false = Moved-close_unless c c.is_closed m refl refl

  -- `sendfile` has moved some bytes, and no more than it was asked for.
  abbrev pub MovesSome : PendingFileSend → WriteOutcome → Type 0
  MovesSome f o = (n : ℕ) → o ≡ wrote n → (0 < n) × (n ≤ f.remaining)

  Moved-after_sendfile :
      (sendfile : ℕ → ℕ → ℕ → WriteOutcome) (c : TcpConnection) (f : PendingFileSend)
      (o : WriteOutcome)
      → c.pending_file ≡ some f
      → contents c.write_buffer ≡ []
      → f.remaining ≤ max_size
      → MovesSome f o
      → Moved (is_fatal o) c (after_sendfile content sendfile c f o)
  unfolding after_sendfile
  Moved-after_sendfile sendfile c f (write_error errno) waits nothing small moves =
      elim (Bool-cases (is_retry errno)) [
        | inl again ↦
            rw (after_sendfile, again)
              (record { same = refl; open_or = inl refl; armed = λ f h. refl })
        | inr broken ↦ rw (after_sendfile, broken) (Moved-fail c refl)
      ]
  Moved-after_sendfile sendfile c f (wrote n) waits nothing small moves =
      let (some_moved, enough) = moves n refl in
      let positive : n == 0 ≡ false = ground arith in
      let left : sub_size f.remaining n ≡ f.remaining - n = omega arith in
      elim (Bool-cases (f.remaining - n == 0)) [
        | inl all ↦
            rw (after_sendfile, positive, left, all)
              (record {
                same =
                    append_assoc c.wire (take n rest) _
                    ∙ ap (λ b. c.wire ++ (take n rest ++ (b ++ []))) nothing
                    ∙ ap (λ b. c.wire ++ b) (append-nil (take n rest))
                    ∙ ap (λ k. c.wire ++ take k rest) (equal (ground (arith, all)) enough)
                    ∙ whole;
                open_or = inl refl;
                armed = λ f h. absurd (ground (arith, h));
              })
        | inr part ↦
            rw (after_sendfile, positive, left, part)
              (record {
                same =
                    append_assoc c.wire (take n rest) _
                    ∙ ap
                        (λ b.
                          c.wire
                          ++ (take n rest
                              ++ (b
                                  ++ take (f.remaining - n)
                                      (drop (f.offset + n) (content f.file)))))
                        nothing
                    ∙ ap (λ b. c.wire ++ (take n rest ++ take (f.remaining - n) b))
                        (sym (drop-drop n f.offset (content f.file)))
                    ∙ ap (λ b. c.wire ++ b) (sym (take-add n (f.remaining - n) rest))
                    ∙ ap (λ k. c.wire ++ take k rest) (together enough)
                    ∙ whole;
                open_or = inl refl;
                armed = λ f h. refl;
              })
      ]
    where
      rest : List ℕ
      rest = drop f.offset (content f.file)

      equal : f.remaining - n ≡ 0 → n ≤ f.remaining → n ≡ f.remaining
      equal e h = omega (arith, e, h)

      together : n ≤ f.remaining → n + (f.remaining - n) ≡ f.remaining
      together h = omega (arith, h)

      whole : c.wire ++ take f.remaining rest ≡ outgoing c
      whole = sym (ap₂ (λ b o. c.wire ++ (b ++ file_rest o)) nothing waits)

  -- With an empty buffer, a round of `sendfile` that moves some bytes neither loses nor repeats any
  -- byte of the file, and the write event is on while the file is not done. The connection fails
  -- only on an error of the kernel that is not to be retried.
  send_pending_file_in_loop-Moved :
      (sendfile : ℕ → ℕ → ℕ → WriteOutcome) (c : TcpConnection) (f : PendingFileSend)
      → c.pending_file ≡ some f
      → contents c.write_buffer ≡ []
      → f.remaining ≤ max_size
      → MovesSome f (sendfile f.file f.offset f.remaining)
      → Moved
          (is_fatal (sendfile f.file f.offset f.remaining))
          c
          (send_pending_file_in_loop content sendfile c)
  unfolding send_pending_file_in_loop
  send_pending_file_in_loop-Moved sendfile c f waits nothing small moves =
      subst
        (λ o.
          Moved (is_fatal (sendfile f.file f.offset f.remaining)) c
            (send_pending content sendfile o c))
        (sym waits)
        (Moved-after_sendfile sendfile c f (sendfile f.file f.offset f.remaining) waits nothing
          small moves)
