-- ===== src/Tcp/Connection/Close.antt =====
-- src/tudou/tcp/TcpConnection.cpp: the close callback runs once, whatever happens and in whatever
-- order.
use tudou.Prelude.{
  ℕ, suc, ◌+◌, ◌-◌, ◌≡◌, refl, ap, ◌∙◌, sym, Bool, true, false, not, ◌&&◌, List, [], ◌∷◌, ◌++◌,
  Option, none, some, arith, if◌then◌else◌, length, take, ltb, leb, ◌==◌, sub_size,
}
use tudou.Tcp.Buffer.{
  Buffer, readable_bytes, readable_start_ptr, advance_read_index, write_to_buffer, ReadOutcome,
  read_error, received, WriteOutcome, write_error, wrote, read_from_fd, write_to_fd,
}
use tudou.Tcp.Connection.{
  TcpConnection, PendingFileSend, Callback, message, closed, failed, write_complete, high_water,
  handle_callback, handle_write_complete, close_unless, close_connection, fail, is_retry,
  has_pending_file, crosses, cross, queued, queue, to_wire, send_directly, send_gathered, send_now,
  send_in_loop, force_close_in_loop, on_close, on_error, receive, after_read, on_read,
  after_sendfile, send_pending, send_pending_file_in_loop, flush_file, after_write, on_write,
  accepts_file, send_file_in_loop, send_file_with_header_in_loop,
}

abbrev pub closes : List Callback → ℕ
closes [] = 0
closes (message ∷ cs) = closes cs
closes (closed ∷ cs) = suc (closes cs)
closes (failed ∷ cs) = closes cs
closes (write_complete ∷ cs) = closes cs
closes (high_water ∷ cs) = closes cs

-- The client, if it has set the callback, has been told of the close once if the connection is
-- closed, and not at all if it is open.
pub record Once (c : TcpConnection) : Type 0 where
  pub told : closes c.calls ≡ (if c.is_closed && c.has_close then 1 else 0)

closes-snoc :
    (cs : List Callback) (x : Callback) → closes (cs ++ x ∷ []) ≡ closes (x ∷ []) + closes cs
closes-snoc [] x = sym (omega arith)
closes-snoc (message ∷ cs) x = closes-snoc cs x
closes-snoc (closed ∷ cs) x = omega (arith, closes-snoc cs x)
closes-snoc (failed ∷ cs) x = closes-snoc cs x
closes-snoc (write_complete ∷ cs) x = closes-snoc cs x
closes-snoc (high_water ∷ cs) x = closes-snoc cs x

silent : {m : ℕ} (n : ℕ) → m ≡ 0 → m + n ≡ n
silent n e = omega (arith, e)

Once-handle_callback :
    (set : Bool) (x : Callback) (c : TcpConnection)
    → closes (x ∷ []) ≡ 0
    → Once c
    → Once (handle_callback set x c)
Once-handle_callback true x c other o = record {
  told = closes-snoc c.calls x ∙ silent (closes c.calls) other ∙ o.told;
}
Once-handle_callback false x c other o = o

Once-close_connection : (c : TcpConnection) → Once c → Once (close_connection c)
unfolding close_connection
Once-close_connection c o = go c.is_closed refl
  where
    one : closes c.calls ≡ 0 → 1 + closes c.calls ≡ 1
    one n = omega (arith, n)

    telling :
        (set : Bool)
        → c.has_close ≡ set
        → closes c.calls ≡ 0
        → Once (
            handle_callback set closed
              (record c { is_closed = true; is_reading = false; is_writing = false }))
    telling true e n = record {
      told = closes-snoc c.calls closed ∙ one n ∙ ap (λ b. if b then 1 else 0) (sym e);
    }
    telling false e n = record { told = n ∙ ap (λ b. if b then 1 else 0) (sym e) }

    go : (b : Bool) → c.is_closed ≡ b → Once (close_unless b c)
    go true e = o
    go false e = telling c.has_close refl (o.told ∙ ap (λ b. if b && c.has_close then 1 else 0) e)

Once-fail : (c : TcpConnection) → Once c → Once (fail c)
unfolding fail
Once-fail c o =
    Once-close_connection (handle_callback c.has_error failed c)
      (Once-handle_callback c.has_error failed c refl o)

Once-if : (b : Bool) (x y : TcpConnection) → Once x → Once y → Once (if b then x else y)
Once-if true x y o p = o
Once-if false x y o p = p

Once-write_complete : (c : TcpConnection) → Once c → Once (handle_write_complete c)
Once-write_complete c o = Once-handle_callback c.has_write_complete write_complete c refl o

Once-cross : (n : ℕ) (c : TcpConnection) → Once c → Once (cross n c)
unfolding cross
Once-cross n c o = Once-handle_callback (crosses n c) high_water c refl o

Once-queue : (c : TcpConnection) (n : ℕ) (msg : List ℕ) (k : ℕ) → Once c → Once (queue c n msg k)
unfolding queue
Once-queue c n msg k o =
    Once-cross n (record c { write_buffer = queued c.write_buffer msg k; is_writing = true })
      (record { told = o.told })

Once-send_directly :
    (c : TcpConnection) (msg : List ℕ) (w : WriteOutcome) → Once c → Once (send_directly c msg w)
unfolding send_directly
Once-send_directly c msg (write_error errno) o =
    Once-if (is_retry errno) _ _ (Once-queue c 0 msg 0 o) (Once-fail c o)
Once-send_directly c msg (wrote n) o =
    Once-if (n == length msg) _ _
      (Once-write_complete (to_wire (take n msg) c) (record { told = o.told }))
      (Once-queue (to_wire (take n msg) c) 0 msg n (record { told = o.told }))

Once-send_gathered :
    (c : TcpConnection) (n : ℕ) (old msg : List ℕ) (w : WriteOutcome)
    → Once c
    → Once (send_gathered c n old msg w)
unfolding send_gathered
Once-send_gathered c n old msg (write_error errno) o =
    Once-if (is_retry errno) _ _ (Once-queue c n msg 0 o) (Once-fail c o)
Once-send_gathered c n old msg (wrote k) o =
    Once-if (leb n k) _ _
      (Once-if (k - n == length msg) _ _
        (Once-write_complete (record (through n) { is_writing = false }) (record { told = o.told }))
        (Once-queue (through n) n msg (k - n) (record { told = o.told })))
      (Once-queue (through k) n msg 0 (record { told = o.told }))
  where
    through : ℕ → TcpConnection
    through m = record (to_wire (take k (old ++ msg)) c) {
      write_buffer = advance_read_index c.write_buffer m;
    }

Once-send_in_loop :
    (write : List ℕ → WriteOutcome) (c : TcpConnection) (msg : List ℕ)
    → Once c
    → Once (send_in_loop write c msg)
unfolding send_in_loop
Once-send_in_loop write c msg o = Once-if c.is_closed _ _ o (
    Once-if (has_pending_file c) _ _ (Once-fail c o) (
      now (readable_bytes c.write_buffer)
        (take (readable_bytes c.write_buffer) (readable_start_ptr c.write_buffer))))
  where
    now : (n : ℕ) (old : List ℕ) → Once (send_now write c n old msg)
    now n old =
        Once-if ((n == 0) && not c.is_writing) _ _ (Once-send_directly c msg (write msg) o) (
          Once-if (ltb 0 n) _ _ (Once-send_gathered c n old msg (write (old ++ msg)) o)
            (Once-queue c n msg 0 o))

Once-after_read : (c : TcpConnection) (r : ReadOutcome) → Once c → Once (after_read c r)
Once-after_read c (read_error errno) o = Once-if (is_retry errno) _ _ o (Once-fail c o)
Once-after_read c (received []) o = Once-close_connection c o
Once-after_read c (received (x ∷ bytes)) o = Once-handle_callback true message c refl o

module _ (content : ℕ → List ℕ) (sendfile : ℕ → ℕ → ℕ → WriteOutcome) where
  Once-after_sendfile :
      (c : TcpConnection) (f : PendingFileSend) (w : WriteOutcome)
      → Once c
      → Once (after_sendfile content sendfile c f w)
  unfolding after_sendfile
  Once-after_sendfile c f (write_error errno) o =
      Once-if (is_retry errno) _ _ (record { told = o.told }) (Once-fail c o)
  Once-after_sendfile c f (wrote n) o =
      Once-if (n == 0) _ _ (record { told = o.told })
        (Once-if (sub_size f.remaining n == 0) _ _ (record { told = o.told })
          (record { told = o.told }))

  Once-send_pending :
      (p : Option PendingFileSend) (c : TcpConnection)
      → Once c
      → Once (send_pending content sendfile p c)
  Once-send_pending none c o = o
  Once-send_pending (some f) c o = Once-after_sendfile c f _ o

  Once-flush_file : (c : TcpConnection) → Once c → Once (flush_file content sendfile c)
  unfolding flush_file send_pending_file_in_loop
  Once-flush_file c o =
      let sent = Once-send_pending c.pending_file c o in
      Once-if (has_pending_file (send_pending content sendfile c.pending_file c)) _ _ sent (
        Once-write_complete
          (record (send_pending content sendfile c.pending_file c) { is_writing = false })
          (record { told = sent.told }))

  Once-after_write :
      (c : TcpConnection) (old : List ℕ) (w : WriteOutcome) (b : Buffer)
      → Once c
      → Once (after_write content sendfile c old (w, b))
  unfolding after_write
  Once-after_write c old (write_error errno) b o = Once-if (is_retry errno) _ _ o (Once-fail c o)
  Once-after_write c old (wrote n) b o =
      Once-if (ltb 0 (readable_bytes b)) _ _ (record { told = o.told })
        (Once-flush_file (record c { write_buffer = b; wire = c.wire ++ take n old })
          (record { told = o.told }))

  -- What may happen to a connection.
  pub data Operation : Type 0 where
    sends : (List ℕ → WriteOutcome) → List ℕ → Operation
    sends_file : Option (ℕ × Bool) → ℕ → ℕ → Operation
    sends_file_behind : (List ℕ → WriteOutcome) → List ℕ → Option (ℕ × Bool) → ℕ → ℕ → Operation
    receives reads_close reads_error forces_close : Operation
    reads : (ℕ → ReadOutcome) → Operation
    writes : (List ℕ → WriteOutcome) → Operation

  module _ (is_regular_file : ℕ → Bool) where
    abbrev pub operate : TcpConnection → Operation → TcpConnection
    operate c (sends write msg) = send_in_loop write c msg
    operate c (sends_file file size offset) =
        send_file_in_loop content sendfile is_regular_file c file size offset
    operate c (sends_file_behind write header file size offset) =
        send_file_with_header_in_loop content sendfile is_regular_file write c header file size
          offset
    operate c receives = (receive c).1
    operate c reads_close = on_close c
    operate c reads_error = on_error c
    operate c forces_close = force_close_in_loop c
    operate c (reads readv) = on_read readv c
    operate c (writes write) = on_write content sendfile write c

    abbrev pub operations : TcpConnection → List Operation → TcpConnection
    operations c [] = c
    operations c (op ∷ ops) = operations (operate c op) ops

    Once-accepted :
        (c : TcpConnection) (fd : Option ℕ) (d : ℕ → TcpConnection)
        → Once c
        → ((n : ℕ) → Once (d n))
        → Once (elim fd [ none ↦ fail c | some n ↦ d n ])
    Once-accepted c none d o p = Once-fail c o
    Once-accepted c (some n) d o p = p n

    Once-operate : (c : TcpConnection) (op : Operation) → Once c → Once (operate c op)
    unfolding send_file_in_loop send_file_with_header_in_loop send_pending_file_in_loop receive
        on_close on_error force_close_in_loop on_read on_write
    Once-operate c (sends write msg) o = Once-send_in_loop write c msg o
    Once-operate c (sends_file file size offset) o = Once-if c.is_closed _ _ o (
        Once-if (size == 0) _ _ o (
          Once-accepted c (accepts_file content sendfile is_regular_file c file) _ o (λ fd.
            let waits : TcpConnection = record c {
              pending_file = some (record { file = fd; offset = offset; remaining = size });
            } in
            let waiting : Once waits = record { told = o.told } in
            let sent = Once-send_pending waits.pending_file waits waiting in
            Once-if (ltb 0 (readable_bytes c.write_buffer)) _ _ (record { told = o.told })
              (Once-if c.is_writing _ _ waiting (
                Once-if (has_pending_file (send_pending content sendfile waits.pending_file waits))
                  _ _ sent (Once-write_complete _ sent))))))
    Once-operate c (sends_file_behind write header file size offset) o = Once-if c.is_closed _ _ o (
        Once-if (size == 0) _ _ (Once-send_in_loop write c header o) (
          Once-accepted c (accepts_file content sendfile is_regular_file c file) _ o (λ fd.
            Once-cross (readable_bytes c.write_buffer)
              (record c {
                write_buffer = write_to_buffer c.write_buffer header;
                pending_file = some (record { file = fd; offset = offset; remaining = size });
                is_writing = true;
              })
              (record { told = o.told }))))
    Once-operate c receives o = record { told = o.told }
    Once-operate c reads_close o = Once-close_connection c o
    Once-operate c reads_error o = Once-fail c o
    Once-operate c forces_close o = Once-close_connection c o
    Once-operate c (reads readv) o =
        Once-after_read (record c { read_buffer = (read_from_fd readv c.read_buffer).1 })
          (read_from_fd readv c.read_buffer).0 (record { told = o.told })
    Once-operate c (writes write) o =
        Once-if (ltb 0 (readable_bytes c.write_buffer)) _ _
          (Once-after_write c _ (write_to_fd write c.write_buffer).0
            (write_to_fd write c.write_buffer).1 o)
          (Once-flush_file c o)

    -- Whatever happens to a connection and in whatever order, the close callback that the client has
    -- set has run once if the connection is closed, and not at all while it is open. It held at the
    -- start.
    pub operations-Once :
        (ops : List Operation) {c : TcpConnection} → Once c → Once (operations c ops)
    operations-Once [] o = o
    operations-Once (op ∷ ops) {c} o = operations-Once ops (Once-operate c op o)
