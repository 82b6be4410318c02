-- ===== src/Tcp/Connection/Send.antt =====
-- src/tudou/tcp/TcpConnection.cpp: send_in_loop, by each of its ways.
use tudou.Prelude.{
  ℕ, ◌+◌, ◌-◌, ◌≤◌, ◌≡◌, refl, ap, subst, ◌∙◌, sym, inl, inr, Bool, true, false, not, ◌&&◌, ◌||◌,
  List, [], ◌∷◌, ◌++◌, append_assoc, append-nil, arith, Bool-cases, length, take, drop, drop_all,
  drop-append_le, drop-append_add, ltb, leb, ◌==◌,
}
use tudou.Tcp.Buffer.{
  readable_bytes, readable_start_ptr, advance_read_index, WriteOutcome, write_error, wrote,
}
use tudou.Tcp.Buffer.Contents.{IsValid, contents, max_size, length-contents, no_wrap}
use tudou.Tcp.Buffer.Read.{advance_read_index_drops, buffer-advance_read_index}
use tudou.Tcp.Connection.{
  TcpConnection, fail, is_retry, has_pending_file, to_wire, send_directly, send_gathered, send_now,
  send_in_loop,
}
use tudou.Tcp.Connection.Outgoing.{
  stream, is_fatal, Sent, Sent-fail, Sent-queue, taken, Sent-done, choose,
}

Sent-send_directly :
    {failing : Bool} (c : TcpConnection) (msg : List ℕ) (o : WriteOutcome)
    → (is_fatal o ≡ true → failing ≡ true)
    → IsValid c.write_buffer
    → c.write_buffer.write_index + length msg ≤ max_size
    → contents c.write_buffer ≡ []
    → Sent failing c msg (send_directly c msg o)
unfolding send_directly
Sent-send_directly c msg (write_error errno) fatal v small nothing =
    elim (Bool-cases (is_retry errno)) [
      | inl again ↦ rw (send_directly, again) (Sent-queue c 0 0 msg v small refl refl)
      | inr broken ↦ rw (send_directly, broken) (Sent-fail c msg (fatal (ap not broken)) v refl)
    ]
Sent-send_directly c msg (wrote n) fatal v small nothing = elim (Bool-cases (n == length msg)) [
  | inl all ↦
      rw (send_directly, all)
        (Sent-done (to_wire (take n msg) c) msg v nothing
          (taken c.wire msg n (nothing ∙ sym (drop_all n msg (ground (arith, all)))) ∙ whole) refl)
  | inr some_left ↦
      rw (send_directly, some_left)
        (Sent-queue (to_wire (take n msg) c) 0 n msg v small
          (append_assoc (c.wire ++ take n msg) (contents c.write_buffer) (drop n msg)
            ∙ taken c.wire msg n (ap (λ b. b ++ drop n msg) nothing)
            ∙ whole)
          refl)
]
  where
    whole : c.wire ++ msg ≡ stream c ++ msg
    whole = sym (ap (λ b. (c.wire ++ b) ++ msg) nothing ∙ ap (λ w. w ++ msg) (append-nil c.wire))

-- The bytes that wait are offered in front of the message.
Sent-send_gathered :
    {failing : Bool} (c : TcpConnection) (msg : List ℕ) (o : WriteOutcome)
    → (is_fatal o ≡ true → failing ≡ true)
    → IsValid c.write_buffer
    → length c.write_buffer.buffer + length msg ≤ max_size
    → Sent failing c msg
        (send_gathered c (length (contents c.write_buffer)) (contents c.write_buffer) msg o)
unfolding send_gathered
Sent-send_gathered c msg (write_error errno) fatal v small = elim (Bool-cases (is_retry errno)) [
  | inl again ↦
      rw (send_gathered, again) (Sent-queue c _ 0 msg v (omega (arith, v.inside, small)) refl refl)
  | inr broken ↦ rw (send_gathered, broken) (Sent-fail c msg (fatal (ap not broken)) v refl)
]
Sent-send_gathered c msg (wrote n) fatal v small = elim (Bool-cases (leb (length old) n)) [
  | inl through ↦
      let (valid, none_old) = advance_read_index_drops (length old) v in
      let gone : contents (advance_read_index c.write_buffer (length old)) ≡ [] =
        none_old ∙ drop_all (length old) old (omega arith) in
      let cut : drop n (old ++ msg) ≡ drop (n - length old) msg =
        ap (λ k. drop k (old ++ msg)) (split (ground (arith, through)))
        ∙ drop-append_add (n - length old) old msg in
      let done : TcpConnection = record (to_wire (take n (old ++ msg)) c) {
        write_buffer = advance_read_index c.write_buffer (length old);
        is_writing = false;
      } in
      elim (Bool-cases (n - length old == length msg)) [
        | inl all ↦
            rw (send_gathered, through, all)
              (Sent-done done msg valid gone
                (taken c.wire (old ++ msg) n
                    (gone ∙ sym (cut ∙ drop_all (n - length old) msg (ground (arith, all))))
                  ∙ sym (append_assoc c.wire old msg))
                refl)
        | inr part ↦
            rw (send_gathered, through, part)
              (Sent-queue _ (length old) (n - length old) msg valid
                (omega (
                  arith,
                  valid.inside,
                  ap length (buffer-advance_read_index c.write_buffer (length old)),
                  small,
                ))
                (append_assoc (c.wire ++ take n (old ++ msg)) _ (drop (n - length old) msg)
                  ∙ taken c.wire (old ++ msg) n
                      (ap (λ b. b ++ drop (n - length old) msg) gone ∙ sym cut)
                  ∙ sym (append_assoc c.wire old msg))
                refl)
      ]
  | inr short ↦
      let (valid, left) = advance_read_index_drops n v in
      rw (send_gathered, short)
        (Sent-queue _ (length old) 0 msg valid
          (omega
            (arith, valid.inside, ap length (buffer-advance_read_index c.write_buffer n), small))
          (append_assoc (c.wire ++ take n (old ++ msg)) _ msg
            ∙ taken c.wire (old ++ msg) n
                (ap (λ b. b ++ msg) left ∙ sym (drop-append_le n old msg (ground (arith, short))))
            ∙ sym (append_assoc c.wire old msg))
          refl)
]
  where
    old : List ℕ
    old = contents c.write_buffer

    split : length old ≤ n → n ≡ length old + (n - length old)
    split h = omega (arith, h)

Sent-send_now :
    {failing : Bool} (write : List ℕ → WriteOutcome) (c : TcpConnection) (msg : List ℕ)
    → (is_fatal (write msg) ≡ true → failing ≡ true)
    → (is_fatal (write (contents c.write_buffer ++ msg)) ≡ true → failing ≡ true)
    → IsValid c.write_buffer
    → length c.write_buffer.buffer + length msg ≤ max_size
    → Sent failing c msg
        (send_now write c (length (contents c.write_buffer)) (contents c.write_buffer) msg)
Sent-send_now write c msg direct gathered v small =
    choose ((length old == 0) && not c.is_writing) _ _
      (λ first.
        Sent-send_directly c msg (write msg) direct v room (nothing old (ground (arith, first))))
      (λ _.
        choose (ltb 0 (length old)) _ _
          (λ _. Sent-send_gathered c msg (write (old ++ msg)) gathered v small)
          (λ _. Sent-queue c (length old) 0 msg v room refl refl))
  where
    old : List ℕ
    old = contents c.write_buffer

    room : c.write_buffer.write_index + length msg ≤ max_size
    room = omega (arith, v.inside, small)

    nothing : (xs : List ℕ) → length xs ≡ 0 → xs ≡ []
    nothing [] e = refl
    nothing (x ∷ xs) e = absurd (omega (arith, e))

-- When a call of `send_in_loop` may fail.
abbrev pub may_fail : (List ℕ → WriteOutcome) → TcpConnection → List ℕ → Bool
may_fail write c msg =
    c.is_closed
    || (has_pending_file c
        || (is_fatal (write msg) || is_fatal (write (contents c.write_buffer ++ msg))))

-- A message is sent behind all that was sent before, by whichever of the three ways; the connection
-- fails only if it is closed, a file waits or the kernel reports an error that is not to be
-- retried.
pub send_in_loop-Sent :
    (write : List ℕ → WriteOutcome) (c : TcpConnection) (msg : List ℕ)
    → IsValid c.write_buffer
    → length c.write_buffer.buffer + length msg ≤ max_size
    → Sent (may_fail write c msg) c msg (send_in_loop write c msg)
unfolding send_in_loop
send_in_loop-Sent write c msg v small =
    choose c.is_closed c _
      (λ shut. record {
        valid = v;
        sent = inr (from_closed _ shut, shut, refl);
        armed = λ f. absurd (ground (arith, shut, f));
      })
      (λ _.
        choose (has_pending_file c) (fail c) _
          (λ waits. Sent-fail c msg (from_file waits c.is_closed _) v refl)
          (λ _.
            subst
              (λ (p : ℕ × List ℕ). Sent (may_fail write c msg) c msg (send_now write c p.0 p.1 msg))
              (sym offered)
              (Sent-send_now write c msg (from_write c.is_closed (has_pending_file c) _)
                (from_writev c.is_closed (has_pending_file c) (is_fatal (write msg))) v small)))
  where
    offered :
        ◌≡◌ {A = ℕ × List ℕ}
          (
            readable_bytes c.write_buffer,
            take (readable_bytes c.write_buffer) (readable_start_ptr c.write_buffer),
          )
          (length (contents c.write_buffer), contents c.write_buffer)
    offered =
        let count : readable_bytes c.write_buffer ≡ length (contents c.write_buffer) =
          omega (arith, length-contents v) in
        λ i. (count i, take ((no_wrap v).0 i) (readable_start_ptr c.write_buffer))

    from_closed : (b : Bool) → c.is_closed ≡ true → (c.is_closed || b) ≡ true
    from_closed b e = ground (arith, e)

    from_file : has_pending_file c ≡ true → (a b : Bool) → (a || (has_pending_file c || b)) ≡ true
    from_file e a b = ground (arith, e)

    from_write :
        (a b d : Bool)
        → is_fatal (write msg) ≡ true
        → (a || (b || (is_fatal (write msg) || d))) ≡ true
    from_write a b d e = ground (arith, e)

    from_writev :
        (a b d : Bool)
        → is_fatal (write (contents c.write_buffer ++ msg)) ≡ true
        → (a || (b || (d || is_fatal (write (contents c.write_buffer ++ msg))))) ≡ true
    from_writev a b d e = ground (arith, e)
