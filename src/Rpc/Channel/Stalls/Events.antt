-- ===== src/Rpc/Channel/Stalls/Events.antt =====
-- src/tudou/rpc/binary/BinaryRpcChannel.cpp: what puts no bytes of the write buffer on the socket.
use tudou.Prelude.{
  ℕ, zero, suc, ◌≡◌, refl, ap, sym, ◌∙◌, subst, Bool, true, false, List, [], ◌++◌, Option, none,
  some, arith, if◌then◌else◌, number_eq, append-nil,
}
use tudou.Tcp.Buffer.{Buffer}
use tudou.Reactor.Channel.{Channel, disable_all}
use tudou.Rpc.Codec.{DecodeResult, success, empty, half_pack, error, decode}
use tudou.Rpc.Channel.Write.{
  decode_error, read_failed, ResponseContext, Reason, BinaryRpcChannel, on_channel, shut,
  cleanup_pending_requests, WriteResult, write_bytes, after_request, write_request_nonblocking,
  is_nil,
}
use tudou.Rpc.Channel.Calls.{
  CallState, forget, registered, ReadResult, read_socket, answer, turn, serve_responses, on_read,
}
use tudou.Rpc.Channel.Stalls.Steps.{wants_write}

module _ (parses : ℕ → List ℕ → Bool) where
  -- Nothing has gone out since `wire`, and no write event is asked for.
  pub record Quiet (wire : List ℕ) (c : BinaryRpcChannel) : Type 0 where
    pub unconnected : c.connected ≡ false
    pub unasked : wants_write c.channel ≡ false
    pub unsent : c.wire ≡ wire

  -- The same of what may be no channel.
  abbrev pub Quietly : List ℕ → Option BinaryRpcChannel → Type 0
  Quietly wire r = (d : BinaryRpcChannel) → r ≡ some d → Quiet wire d

  module _ (wire : List ℕ) where
    pub Quietly-some : (c : BinaryRpcChannel) → Quiet wire c → Quietly wire (some c)
    Quietly-some c q d e = subst (Quiet wire) (ap (λ o. elim o [ none ↦ c | some d ↦ d ]) e) q

    shut-Quiet :
        (c : BinaryRpcChannel) (reason : Reason) → Quiet wire c → Quiet wire (shut c reason)
    unfolding shut cleanup_pending_requests disable_all
    shut-Quiet c reason q = record {
      unconnected = q.unconnected;
      unasked = off c.channel;
      unsent = q.unsent;
    }
      where
        off : (o : Option Channel) → wants_write (on_channel disable_all o) ≡ false
        off none = refl
        off (some ch) = refl

    answer-Quiet :
        (c : BinaryRpcChannel) (seq : ℕ) (body : List ℕ)
        → Quiet wire c
        → Quiet wire (answer parses c seq body)
    unfolding answer
    answer-Quiet c seq body q = record {
      unconnected = ground (arith, q.unconnected);
      unasked = ap wants_write kept ∙ q.unasked;
      unsent = ground (arith, q.unsent);
    }
      where
        kept : (answer parses c seq body).channel ≡ c.channel
        kept = ground arith

    buffered-Quiet :
        (c : BinaryRpcChannel) (b : Buffer) → Quiet wire c → Quiet wire (record c { read_buf = b })
    buffered-Quiet c b q = record {
      unconnected = q.unconnected;
      unasked = q.unasked;
      unsent = q.unsent;
    }

    turn-Quietly :
        (c : BinaryRpcChannel) (continue : BinaryRpcChannel → Option BinaryRpcChannel)
        (rest : Buffer) (running : Bool) (result : DecodeResult)
        → Quiet wire c
        → ((d : BinaryRpcChannel) → Quiet wire d → Quietly wire (continue d))
        → Quietly wire (turn parses c continue rest running result)
    turn-Quietly c continue rest false result q next = Quietly-some c q
    turn-Quietly c continue rest true (success h meta_bytes body_bytes) q next =
        next _ (answer-Quiet _ h.sequence_id body_bytes (buffered-Quiet c rest q))
    turn-Quietly c continue rest true empty q next = Quietly-some _ (buffered-Quiet c rest q)
    turn-Quietly c continue rest true half_pack q next = Quietly-some _ (buffered-Quiet c rest q)
    turn-Quietly c continue rest true error q next =
        Quietly-some _ (shut-Quiet _ decode_error (buffered-Quiet c rest q))

    serve_responses-Quietly :
        (fuel : ℕ) (c : BinaryRpcChannel)
        → Quiet wire c
        → Quietly wire (serve_responses parses fuel c)
    unfolding serve_responses
    serve_responses-Quietly zero c q = λ d e. cc e
    serve_responses-Quietly (suc fuel) c q =
        turn-Quietly c (serve_responses parses fuel) (decode c.read_buf).1 c.running
          (decode c.read_buf).0 q (serve_responses-Quietly fuel)

    Quietly-if :
        (t : Bool) (x y : Option BinaryRpcChannel)
        → Quietly wire x
        → Quietly wire y
        → Quietly wire (if t then x else y)
    Quietly-if true x y f g = f
    Quietly-if false x y f g = g

    pub on_read-Quietly :
        (c : BinaryRpcChannel) (results : List ReadResult)
        → Quiet wire c
        → Quietly wire (on_read parses c results)
    unfolding on_read
    on_read-Quietly c results q =
        Quietly-if c.running _ (some c)
          (Quietly-if (read_socket parses c.read_buf results).1 (some _) _
            (Quietly-some _ (shut-Quiet _ read_failed read)) (serve_responses-Quietly _ _ read))
          (Quietly-some c q)
      where
        read : Quiet wire (record c { read_buf = (read_socket parses c.read_buf results).0 })
        read = buffered-Quiet c (read_socket parses c.read_buf results).0 q

    pub registered-Quiet :
        (c : BinaryRpcChannel) (seq id : ℕ) (context : ResponseContext)
        → Quiet wire c
        → Quiet wire (registered (record c { next_sequence_id = id }) seq context)
    registered-Quiet c seq id context q = record {
      unconnected = q.unconnected;
      unasked = q.unasked;
      unsent = q.unsent;
    }

    pub write_request-Quiet :
        (c : BinaryRpcChannel) (bytes : List ℕ) (results : List WriteResult)
        → Quiet wire c
        → Quiet wire (write_request_nonblocking c bytes results).0
    unfolding write_request_nonblocking
    write_request-Quiet c bytes results q =
        subst (λ (r : BinaryRpcChannel × Bool). Quiet wire r.0) (sym stays)
          (record { unconnected = q.unconnected; unasked = q.unasked; unsent = q.unsent })
      where
        stored : BinaryRpcChannel × Bool
        stored = (record c { write_buffer = c.write_buffer ++ bytes }, false)

        stays : write_request_nonblocking c bytes results ≡ stored
        stays =
            ap
              (λ t.
                if t
                then if is_nil c.write_buffer
                  then after_request c (write_bytes bytes results)
                  else stored
                else stored)
              q.unconnected

    pub Quiet-if :
        (t : Bool) (x y : BinaryRpcChannel × CallState)
        → Quiet wire x.0
        → Quiet wire y.0
        → Quiet wire (if t then x else y).0
    Quiet-if true x y q r = q
    Quiet-if false x y q r = r

    pub Quietly-same : (r : Option BinaryRpcChannel) → Quietly wire r → Quietly (wire ++ []) r
    Quietly-same r = subst (λ w. Quietly w r) (sym (append-nil wire))

    pub more-Quiet :
        (c : BinaryRpcChannel) (bytes : List ℕ)
        → Quiet wire c
        → Quiet (wire ++ bytes) (record c { wire = c.wire ++ bytes })
    more-Quiet c bytes q = record {
      unconnected = q.unconnected;
      unasked = q.unasked;
      unsent = ap (λ w. w ++ bytes) q.unsent;
    }

    pub forget-Quiet : (c : BinaryRpcChannel) (seq : ℕ) → Quiet wire c → Quiet wire (forget c seq)
    forget-Quiet c seq q = record {
      unconnected = q.unconnected;
      unasked = q.unasked;
      unsent = q.unsent;
    }
