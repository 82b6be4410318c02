-- ===== src/Rpc/Server/Loop.antt =====
-- src/tudou/rpc/binary/BinaryRpcServer.cpp: the loop of on_message ends, and does what `Serves` says.
use tudou.Prelude.{
  ℕ, zero, suc, ◌<◌, Bool, false, ◌≡◌, refl, ap, ◌∙◌, sym, inl, inr, List, [], ◌++◌, append_assoc,
  append-nil, Option, Text, arith, length, Option-cases,
}
use tudou.Tcp.Buffer.{Buffer}
use tudou.Tcp.Buffer.Contents.{IsValid, contents}
use tudou.Rpc.Codec.{success, decode}
use tudou.Rpc.Codec.Frame.{split_frame}
use tudou.Rpc.Codec.Refine.{decode-split_frame}
use tudou.Rpc.Codec.Cut.{split_frame-Cut, split_frame_grows, short, half, foreign, whole}
use tudou.Rpc.Router.{Router, dispatch, DispatchOutcome, thrown, called_back, pending}
use tudou.Rpc.Server.{Effect, Turn, ended, respond, serve, loop}
use tudou.Rpc.Server.Stream.{Serves, waits, no_meta, serves, reply}
use tudou.Rpc.Server.Stream

module _ (parse_meta : List ℕ → Option (Text × Text)) (breaks : List Effect → Bool)
    (router : Router) (conn : ℕ) (steady : (es : List Effect) → breaks es ≡ false) where
  abbrev pub added : Turn → List Effect → Turn
  added t es = record t { effects = t.effects ++ es }

  -- The loop ends, and what it has done is what the stream of the readable bytes asks for.
  pub record Ends (fuel : ℕ) (buf : Buffer) (t : Turn) : Type 0 where
    pub corrupt : Bool
    pub left : Buffer
    pub es : List Effect
    pub run : loop parse_meta breaks router conn fuel buf t ≡ ended corrupt left (added t es)
    pub served : Serves parse_meta router conn (contents buf) corrupt (contents left) es
    pub valid : IsValid left

  serve-reply :
      (sequence_id : ℕ) (o : DispatchOutcome) (t : Turn)
      → serve parse_meta breaks conn sequence_id o t ≡ added t (reply conn sequence_id o)
  unfolding respond
  serve-reply sequence_id (thrown message) t =
      ap (λ es. record t { effects = es }) (sym (append-nil t.effects))
  serve-reply sequence_id (called_back raw) t = rw (steady t.effects)
  serve-reply sequence_id pending t =
      ap (λ es. record t { effects = es }) (sym (append-nil t.effects))

  added_nothing : (t : Turn) → t ≡ added t []
  added_nothing t = ap (λ es. record t { effects = es }) (sym (append-nil t.effects))

  added-added :
      (t : Turn) (es later : List Effect) → added (added t es) later ≡ added t (es ++ later)
  added-added t es later = ap (λ es. record t { effects = es }) (append_assoc t.effects es later)

  -- A loop that ends at once sends nothing more.
  stops :
      {fuel : ℕ} {buf left : Buffer} {t : Turn} {corrupt : Bool}
      → loop parse_meta breaks router conn fuel buf t ≡ ended corrupt left t
      → Serves parse_meta router conn (contents buf) corrupt (contents left) []
      → IsValid left
      → Ends fuel buf t
  stops {left = left} {t} {corrupt} run served v = record {
    corrupt = corrupt;
    left = left;
    es = [];
    run = run ∙ ap (ended corrupt left) (added_nothing t);
    served = served;
    valid = v;
  }

  -- A round that serves a request, and the rounds behind it.
  goes_on :
      {left : Buffer} {corrupt : Bool} (fuel : ℕ) (buf rest : Buffer) (es : List Effect)
      (sequence_id : ℕ) (o : DispatchOutcome) (t : Turn)
      → loop parse_meta breaks router conn (suc fuel) buf t
        ≡ loop parse_meta breaks router conn fuel rest
            (serve parse_meta breaks conn sequence_id o t)
      → loop parse_meta breaks router conn fuel rest (serve parse_meta breaks conn sequence_id o t)
        ≡ ended corrupt left (added (serve parse_meta breaks conn sequence_id o t) es)
      → loop parse_meta breaks router conn (suc fuel) buf t
        ≡ ended corrupt left (added t (reply conn sequence_id o ++ es))
  goes_on {left = left} {corrupt} fuel buf rest es sequence_id o t round rounds =
      round
      ∙ rounds
      ∙ ap (λ t. ended corrupt left (added t es)) (serve-reply sequence_id o t)
      ∙ ap (ended corrupt left) (added-added t (reply conn sequence_id o) es)

  -- The rounds that the loop runs from the readable bytes `q` of a buffer.
  pub loop-Ends :
      (fuel : ℕ) (buf : Buffer) (t : Turn)
      → IsValid buf
      → length (contents buf) < fuel
      → Ends fuel buf t
  unfolding loop
  loop-Ends zero buf t v h = absurd (omega arith)
  loop-Ends (suc fuel) buf t v h = elim (split_frame-Cut (contents buf)) [
    | short e ↦
        stops (rw (loop, d.0 ∙ ap (λ o. o.0) e) refl) (waits (inl e) (d.1 ∙ ap (λ o. o.1) e) refl)
          d.2
    | half e ↦
        stops (rw (loop, d.0 ∙ ap (λ o. o.0) e) refl) (waits (inr e) (d.1 ∙ ap (λ o. o.1) e) refl)
          d.2
    | foreign e _ ↦
        stops (rw (loop, d.0 ∙ ap (λ o. o.0) e) refl)
          (Stream.foreign e (d.1 ∙ ap (λ o. o.1) e) refl) d.2
    | whole hd meta_bytes body_bytes later e shorter _ ↦
        let eq : contents rest ≡ later = d.1 ∙ ap (λ o. o.1) e in
        let cut = e ∙ (λ i. (success hd meta_bytes body_bytes, (sym eq) i)) in
        elim (Option-cases (parse_meta meta_bytes)) [
          | inl unread ↦
              stops (rw (loop, d.0 ∙ ap (λ o. o.0) e, unread) refl)
                (no_meta hd meta_bytes body_bytes cut unread refl) d.2
          | inr ((service_name, method_name), named) ↦
              let o = dispatch router service_name method_name body_bytes in
              let next =
                loop-Ends fuel rest (serve parse_meta breaks conn hd.sequence_id o t) d.2
                  (omega (arith, ap length eq, shorter, h)) in
              record {
                corrupt = next.corrupt;
                left = next.left;
                es = reply conn hd.sequence_id o ++ next.es;
                run =
                    goes_on fuel buf rest next.es hd.sequence_id o t
                      (rw (loop, d.0 ∙ ap (λ o. o.0) e, named) refl) next.run;
                served =
                    serves hd meta_bytes body_bytes service_name method_name cut named refl
                      next.served;
                valid = next.valid;
              }
        ]
  ]
    where
      rest : Buffer
      rest = (decode buf).1

      d :
          ((decode buf).0 ≡ (split_frame (contents buf)).0)
          × (contents rest ≡ (split_frame (contents buf)).1)
          × IsValid rest
      d = decode-split_frame v

  -- The loop does nothing else than what the stream of the readable bytes asks for.
  pub record Follows (fuel : ℕ) (buf : Buffer) (t : Turn) (corrupt : Bool) (rest : List ℕ)
      (es : List Effect) : Type 0 where
    pub last : Buffer
    pub run : loop parse_meta breaks router conn fuel buf t ≡ ended corrupt last (added t es)
    pub same : contents last ≡ rest
    pub valid : IsValid last

  halts :
      {fuel : ℕ} {buf last : Buffer} {t : Turn} {corrupt : Bool} {rest : List ℕ} {es : List Effect}
      → loop parse_meta breaks router conn fuel buf t ≡ ended corrupt last t
      → es ≡ []
      → contents last ≡ rest
      → IsValid last
      → Follows fuel buf t corrupt rest es
  halts {last = last} {t} {corrupt} run none_sent same v = record {
    last = last;
    run = run ∙ ap (ended corrupt last) (added_nothing t ∙ ap (added t) (sym none_sent));
    same = same;
    valid = v;
  }

  pub loop-Follows :
      {q rest : List ℕ} {corrupt : Bool} {es : List Effect}
      → Serves parse_meta router conn q corrupt rest es
      → (fuel : ℕ) (buf : Buffer) (t : Turn) → IsValid buf
      → contents buf ≡ q
      → length q < fuel
      → Follows fuel buf t corrupt rest es
  unfolding loop
  loop-Follows s zero buf t v same enough = absurd (omega arith)
  loop-Follows {q} (waits e rest_q none_sent) (suc fuel) buf t v same enough =
      let d = decode-split_frame v in
      let cut = d.0 ∙ ap (λ b. (split_frame b).0) same in
      let left = d.1 ∙ ap (λ b. (split_frame b).1) same in
      elim e [
        | inl e ↦
            halts (rw (loop, cut ∙ ap (λ o. o.0) e) refl) none_sent
              (left ∙ ap (λ o. o.1) e ∙ sym rest_q) d.2
        | inr e ↦
            halts (rw (loop, cut ∙ ap (λ o. o.0) e) refl) none_sent
              (left ∙ ap (λ o. o.1) e ∙ sym rest_q) d.2
      ]
  loop-Follows (Stream.foreign e rest_q none_sent) (suc fuel) buf t v same enough =
      let d = decode-split_frame v in
      halts (rw (loop, d.0 ∙ ap (λ b. (split_frame b).0) same ∙ ap (λ o. o.0) e) refl) none_sent
        (d.1 ∙ ap (λ b. (split_frame b).1) same ∙ ap (λ o. o.1) e ∙ sym rest_q) d.2
  loop-Follows (no_meta hd meta_bytes body_bytes e unread none_sent) (suc fuel) buf t v same
        enough =
      let d = decode-split_frame v in
      halts (rw (loop, d.0 ∙ ap (λ b. (split_frame b).0) same ∙ ap (λ o. o.0) e, unread) refl)
        none_sent (d.1 ∙ ap (λ b. (split_frame b).1) same ∙ ap (λ o. o.1) e) d.2
  loop-Follows {q} {corrupt = corrupt}
        (serves {later = later} hd meta_bytes body_bytes service method e named sent more)
        (suc fuel) buf t v same enough =
      let d = decode-split_frame v in
      let o = dispatch router service method body_bytes in
      let next =
        loop-Follows more fuel (decode buf).1 (serve parse_meta breaks conn hd.sequence_id o t) d.2
          (d.1 ∙ ap (λ b. (split_frame b).1) same ∙ ap (λ o. o.1) e)
          (omega (arith, (split_frame_grows q hd meta_bytes body_bytes e).0, enough)) in
      record {
        last = next.last;
        run =
            goes_on fuel buf (decode buf).1 later hd.sequence_id o t
              (rw (loop, d.0 ∙ ap (λ b. (split_frame b).0) same ∙ ap (λ o. o.0) e, named) refl)
              next.run
            ∙ ap (λ es. ended corrupt next.last (added t es)) (sym sent);
        same = next.same;
        valid = next.valid;
      }
