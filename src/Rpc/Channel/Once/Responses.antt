-- ===== src/Rpc/Channel/Once/Responses.antt =====
-- src/tudou/rpc/binary/BinaryRpcChannel.cpp: responses and errors take requests off the map and
-- complete them.
use tudou.Prelude.{
  count_key-erase, count_key-append, count_key-lookup, count_key_one, ℕ, zero, suc, ◌<◌, ◌≡◌, refl,
  ap, ap₂, ◌∙◌, Bool, true, List, [], ◌∷◌, ◌++◌, some, arith, Bool-cases, Option-cases, inl, inr,
  lookup, erase, number_eq, length,
}
use tudou.Tcp.Buffer.{Buffer}
use tudou.Tcp.Buffer.Contents.{IsValid, contents}
use tudou.Rpc.Codec.{decode}
use tudou.Rpc.Codec.Frame.{split_frame}
use tudou.Rpc.Codec.Refine.{decode-split_frame}
use tudou.Rpc.Codec.Cut.{split_frame-Cut, short, half, foreign, whole}
use tudou.Rpc.Channel.Write.{ResponseContext, BinaryRpcChannel, shut, decode_error}
use tudou.Rpc.Channel.Calls.{answer, outcome_of, turn, serve_responses}
use tudou.Rpc.Channel.Once.Keeps.{
  told, Once, Kept, shut-Kept, buffer-decode, idle-Kept, buffered-Kept, Kept_then,
}

module _ (parses : ℕ → List ℕ → Bool) where
  answered : BinaryRpcChannel → ℕ → ResponseContext → List ℕ → BinaryRpcChannel
  answered c seq context body = record c {
    pending_requests = erase seq c.pending_requests;
    completed = c.completed ++ (seq, outcome_of parses context body) ∷ [];
  }

  data Answered (c : BinaryRpcChannel) (seq : ℕ) (body : List ℕ) : Type 0 where
    unknown : answer parses c seq body ≡ c → Answered c seq body
    found :
        (context : ResponseContext)
        → lookup seq c.pending_requests ≡ some context
        → answer parses c seq body ≡ answered c seq context body
        → Answered c seq body

  answer-Answered : (c : BinaryRpcChannel) (seq : ℕ) (body : List ℕ) → Answered c seq body
  unfolding answer answered
  answer-Answered c seq body = elim (Option-cases (lookup seq c.pending_requests)) [
    | inl e ↦ unknown (rw (answer, e) refl)
    | inr (context, e) ↦ found context e (rw (answer, e) refl)
  ]

  told-answer :
      (s : ℕ) (c : BinaryRpcChannel) (seq : ℕ) (body : List ℕ)
      → Once c
      → told s (answer parses c seq body) ≡ told s c
  unfolding answered
  told-answer s c seq body o = elim (answer-Answered c seq body) [
    | unknown e ↦ ap (told s) e
    | found context e f ↦
        ap (told s) f
        ∙ ground (
          arith,
          count_key-append s c.completed ((seq, outcome_of parses context body) ∷ []),
          count_key_one s seq (outcome_of parses context body),
          count_key-erase seq s c.pending_requests,
          count_key-lookup seq context c.pending_requests e,
          o.at_most s,
        )
  ]

  answer-keeps :
      (c : BinaryRpcChannel) (seq : ℕ) (body : List ℕ)
      → ((answer parses c seq body).next_sequence_id ≡ c.next_sequence_id)
        × ((answer parses c seq body).read_buf ≡ c.read_buf)
        × ((answer parses c seq body).running ≡ c.running)
  unfolding answered
  answer-keeps c seq body = elim (answer-Answered c seq body) [
    | unknown e ↦ rw e (refl, refl, refl)
    | found context _ e ↦ rw e (refl, refl, refl)
  ]

  answer-Once :
      (c : BinaryRpcChannel) (seq : ℕ) (body : List ℕ)
      → c.running ≡ true
      → Once c
      → Once (answer parses c seq body)
  answer-Once c seq body up o =
      let (next, buf, runs) = answer-keeps c seq body in
      record {
        at_most = λ s. omega (arith, told-answer s c seq body o, o.at_most s);
        fresh = λ s h. told-answer s c seq body o ∙ o.fresh s (omega (arith, next));
        valid = rw buf o.valid;
      }

module _ (parses : ℕ → List ℕ → Bool) where
  -- The loop ends within its fuel.
  pub record Served (fuel : ℕ) (c : BinaryRpcChannel) : Type 0 where
    pub after : BinaryRpcChannel
    pub run : serve_responses parses fuel c ≡ some after
    pub kept : Kept c 0 after

  answer-Kept :
      (c : BinaryRpcChannel) (rest : Buffer) (seq : ℕ) (body : List ℕ)
      → c.running ≡ true
      → Kept c 0 (record c { read_buf = rest })
      → Kept c 0 (answer parses (record c { read_buf = rest }) seq body)
  answer-Kept c rest seq body up read =
      let (ids, buf, runs) = answer-keeps parses (record c { read_buf = rest }) seq body in
      record {
        once = answer-Once parses (record c { read_buf = rest }) seq body up read.once;
        same = λ s h. told-answer parses s (record c { read_buf = rest }) seq body read.once;
        halted = λ e. runs ∙ e;
        refuses = λ e. cc (e, up);
        older = omega (arith, ids);
        newer = omega (arith, ids);
        storage = omega (arith, ap (λ (b : Buffer). length b.buffer) buf, read.storage);
      }

  pub serve_responses-Served :
      (fuel : ℕ) (c : BinaryRpcChannel)
      → Once c
      → length (contents c.read_buf) < fuel
      → Served fuel c
  unfolding serve_responses
  serve_responses-Served zero c o h = absurd (omega arith)
  serve_responses-Served (suc fuel) c o h = elim (Bool-cases c.running) [
    | inr e ↦ record {
      after = c;
      run = ap (λ t. turn parses c (serve_responses parses fuel) rest t (decode c.read_buf).0) e;
      kept = idle-Kept c o;
    }
    | inl up ↦ elim (split_frame-Cut (contents c.read_buf)) [
      | short e ↦ record {
        after = record c { read_buf = rest };
        run = ap₂ (turn parses c (serve_responses parses fuel) rest) up (d.0 ∙ ap (λ o. o.0) e);
        kept = read;
      }
      | half e ↦ record {
        after = record c { read_buf = rest };
        run = ap₂ (turn parses c (serve_responses parses fuel) rest) up (d.0 ∙ ap (λ o. o.0) e);
        kept = read;
      }
      | foreign e _ ↦ record {
        after = shut (record c { read_buf = rest }) decode_error;
        run = ap₂ (turn parses c (serve_responses parses fuel) rest) up (d.0 ∙ ap (λ o. o.0) e);
        kept =
            Kept_then c (record c { read_buf = rest }) _ 0 0 0 read refl
              (shut-Kept _ decode_error read.once) (omega arith);
      }
      | whole hd meta_bytes body_bytes later e shorter _ ↦
          let a = answer parses (record c { read_buf = rest }) hd.sequence_id body_bytes in
          let (ids, buf, runs) =
            answer-keeps parses (record c { read_buf = rest }) hd.sequence_id body_bytes in
          let answered : Kept c 0 a = answer-Kept c rest hd.sequence_id body_bytes up read in
          let next = serve_responses-Served fuel a answered.once (
            omega (
              arith,
              ap (λ b. length (contents b)) buf,
              ap length (d.1 ∙ ap (λ o. o.1) e),
              shorter,
              h,
            )) in
          record {
            after = next.after;
            run =
                ap₂ (turn parses c (serve_responses parses fuel) rest) up (d.0 ∙ ap (λ o. o.0) e)
                ∙ next.run;
            kept = Kept_then c a next.after 0 0 0 answered ids next.kept (omega arith);
          }
    ]
  ]
    where
      rest : Buffer
      rest = (decode c.read_buf).1

      d :
          ((decode c.read_buf).0 ≡ (split_frame (contents c.read_buf)).0)
          × (contents rest ≡ (split_frame (contents c.read_buf)).1)
          × IsValid rest
      d = decode-split_frame o.valid

      read : Kept c 0 (record c { read_buf = rest })
      read = buffered-Kept c rest o d.2 0 (omega (arith, ap length (buffer-decode c.read_buf)))
