-- ===== src/Tcp/Connection/Outgoing.antt =====
-- src/tudou/tcp/TcpConnection.cpp: the bytes that are sent, in order.
use tudou.Prelude.{
  ℕ, ◌+◌, ◌≤◌, ◌<◌, ◌≡◌, ◌⊎◌, refl, ap, ◌∙◌, sym, inl, inr, Bool, true, false, not, List, [], ◌++◌,
  append_assoc, append-nil, arith, if◌then◌else◌, Bool-cases, length, take, drop, take-append-drop,
  drop_all, ltb, length-drop,
}
use tudou.Tcp.Buffer.{Buffer, WriteOutcome, write_error, wrote}
use tudou.Tcp.Buffer.Contents.{IsValid, contents, max_size}
use tudou.Tcp.Buffer.Write.{write_to_buffer_appends}
use tudou.Tcp.Connection.{
  TcpConnection, Callback, write_complete, failed, closed, high_water, handle_callback,
  handle_write_complete, close_connection, fail, is_retry, cross, close_unless, crosses, queued,
  queue,
}

-- What the kernel has taken and what waits in the buffer.
abbrev pub stream : TcpConnection → List ℕ
stream c = c.wire ++ contents c.write_buffer

abbrev pub is_fatal : WriteOutcome → Bool
is_fatal (write_error errno) = not (is_retry errno)
is_fatal (wrote n) = false

-- `c'` is `c` with `msg` sent or waiting, and with the write event on while bytes wait; or, if it
-- may fail, it is closed, and nothing of `msg` was added.
pub record Sent (failing : Bool) (c : TcpConnection) (msg : List ℕ) (c' : TcpConnection)
    : Type 0 where
  pub valid : IsValid c'.write_buffer
  pub sent :
      ((stream c' ≡ stream c ++ msg) × (c'.is_closed ≡ c.is_closed))
      ⊎ ((failing ≡ true) × (c'.is_closed ≡ true) × (stream c' ≡ stream c))
  pub armed : c'.is_closed ≡ false → 0 < length (contents c'.write_buffer) → c'.is_writing ≡ true

-- Callbacks leave the streams alone.
pub Sent-handle_callback :
    {failing : Bool} {c : TcpConnection} {msg : List ℕ} (set : Bool) (callback : Callback)
    (c' : TcpConnection)
    → Sent failing c msg c'
    → Sent failing c msg (handle_callback set callback c')
Sent-handle_callback true callback c' s = record { valid = s.valid; sent = s.sent; armed = s.armed }
Sent-handle_callback false callback c' s = s

-- A connection that closes keeps what it had.
Sent-close_unless :
    {failing : Bool} {c : TcpConnection} (d : TcpConnection) (msg : List ℕ) (b : Bool)
    → failing ≡ true
    → d.is_closed ≡ b
    → IsValid d.write_buffer
    → stream d ≡ stream c
    → Sent failing c msg (close_unless b d)
Sent-close_unless d msg true m e v same = record {
  valid = v;
  sent = inr (m, e, same);
  armed = λ f. absurd (ground (arith, e, f));
}
Sent-close_unless d msg false m e v same =
    Sent-handle_callback d.has_close closed
      (record d { is_closed = true; is_reading = false; is_writing = false })
      (record { valid = v; sent = inr (m, refl, same); armed = λ f. absurd (ground (arith, f)) })

pub Sent-fail :
    {failing : Bool} {c : TcpConnection} (d : TcpConnection) (msg : List ℕ)
    → failing ≡ true
    → IsValid d.write_buffer
    → stream d ≡ stream c
    → Sent failing c msg (fail d)
unfolding fail close_connection
Sent-fail {failing} {c} d msg m v same = go d.has_error
  where
    go : (set : Bool) → Sent failing c msg (close_connection (handle_callback set failed d))
    go true = Sent-close_unless (handle_callback true failed d) msg d.is_closed m refl v same
    go false = Sent-close_unless d msg d.is_closed m refl v same

contents-queued :
    {b : Buffer} (msg : List ℕ) (n : ℕ)
    → IsValid b
    → b.write_index + length msg ≤ max_size
    → IsValid (queued b msg n) × (contents (queued b msg n) ≡ contents b ++ drop n msg)
contents-queued {b} msg n v small = elim (Bool-cases (ltb n (length msg))) [
  | inl more ↦
      rw (queued, more)
        (write_to_buffer_appends (drop n msg) v (omega (arith, length-drop n msg, small)))
  | inr done ↦
      rw (queued, done)
        (
          v,
          sym (
              ap (λ r. contents b ++ r) (drop_all n msg (ground (arith, done)))
              ∙ append-nil (contents b)),
        )
]

-- `queue` appends what is left of the message.
pub Sent-queue :
    {failing : Bool} {c : TcpConnection} (d : TcpConnection) (old_len n : ℕ) (msg : List ℕ)
    → IsValid d.write_buffer
    → d.write_buffer.write_index + length msg ≤ max_size
    → stream d ++ drop n msg ≡ stream c ++ msg
    → d.is_closed ≡ c.is_closed
    → Sent failing c msg (queue d old_len msg n)
unfolding queue cross
Sent-queue d old_len n msg v small e shut =
    let (valid, same) = contents-queued msg n v small in
    let next : TcpConnection = record d {
      write_buffer = queued d.write_buffer msg n;
      is_writing = true;
    } in
    Sent-handle_callback (crosses old_len next) high_water next (record {
      valid = valid;
      sent = inl (
        ap (λ b. d.wire ++ b) same
            ∙ sym (append_assoc d.wire (contents d.write_buffer) (drop n msg))
            ∙ e,
        shut,
      );
      armed = λ f h. refl;
    })

-- The kernel has taken `n` bytes of `offered`, and `rest` is behind them.
pub taken :
    (w offered : List ℕ) (n : ℕ) {rest : List ℕ}
    → rest ≡ drop n offered
    → (w ++ take n offered) ++ rest ≡ w ++ offered
taken w offered n e =
    append_assoc w (take n offered) _
    ∙ ap (λ r. w ++ (take n offered ++ r)) e
    ∙ ap (◌++◌ w) (take-append-drop n offered)

pub Sent-done :
    {failing : Bool} {c : TcpConnection} (d : TcpConnection) (msg : List ℕ)
    → IsValid d.write_buffer
    → contents d.write_buffer ≡ []
    → stream d ≡ stream c ++ msg
    → d.is_closed ≡ c.is_closed
    → Sent failing c msg (handle_write_complete d)
Sent-done d msg v nothing e shut =
    Sent-handle_callback d.has_write_complete write_complete d (record {
      valid = v;
      sent = inl (e, shut);
      armed = λ f h. absurd (omega (arith, h, ap length nothing));
    })

pub choose :
    {failing : Bool} {c : TcpConnection} {msg : List ℕ} (b : Bool) (x y : TcpConnection)
    → (b ≡ true → Sent failing c msg x)
    → (b ≡ false → Sent failing c msg y)
    → Sent failing c msg (if b then x else y)
choose true x y f g = f refl
choose false x y f g = g refl
