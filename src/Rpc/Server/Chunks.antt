-- ===== src/Rpc/Server/Chunks.antt =====
-- src/tudou/rpc/binary/BinaryRpcServer.cpp: on_message against the stream of the connection, and a
-- stream that comes in two pieces.
use tudou.Prelude.{
  ℕ, suc, ◌+◌, ◌≤◌, Bool, true, false, ◌≡◌, refl, ap, ap₂, ◌∙◌, sym, subst, List, [], ◌∷◌, ◌++◌,
  append_assoc, append-nil, Option, none, some, Text, arith, length, length-append, lookup, insert,
  erase, insert-insert, erase-insert, erase-erase, lookup_inserted, lookup_erased, number_eq,
}
use tudou.Tcp.Buffer.{Buffer, new_buffer, initial_size, write_to_buffer}
use tudou.Tcp.Buffer.Contents.{IsValid, contents, max_size, new_buffer-IsValid, contents-new_buffer}
use tudou.Tcp.Buffer.Read.{read_all_lem}
use tudou.Tcp.Buffer.Write.{write_to_buffer_appends}
use tudou.Rpc.Codec.Cut.{split_frame_grows}
use tudou.Rpc.Router.{Router, dispatch}
use tudou.Rpc.Server.{
  Server, Effect, force_close, ended, MessageOutcome, handled, dangling, out_of_fuel, finish,
  cached, on_message, on_close,
}
use tudou.Rpc.Server.Stream.{Serves, waits, foreign, no_meta, serves, reply}
use tudou.Rpc.Server.Loop.{loop-Ends, loop-Follows}

-- What the server is after a message, in terms of the stream.
abbrev pub after_stream : Server → ℕ → Bool → List ℕ → List Effect → MessageOutcome
after_stream s conn true left es =
    handled (record s { connection_buffers = erase conn s.connection_buffers })
      (es ++ force_close conn ∷ [])
after_stream s conn false left es =
    handled (record s { connection_buffers = insert conn left s.connection_buffers }) es

-- `f` handles the next message, if this one has been handled.
abbrev pub then_message : MessageOutcome → (Server → MessageOutcome) → MessageOutcome
then_message (handled s es) f = elim (f s) [
  | handled s later ↦ handled s (es ++ later)
  | dangling ↦ dangling
  | out_of_fuel ↦ out_of_fuel
]
then_message dangling f = dangling
then_message out_of_fuel f = out_of_fuel

pub fresh_buffer :
    (bytes : List ℕ)
    → length bytes + 8 ≤ max_size
    → IsValid (write_to_buffer (new_buffer initial_size) bytes)
      × (contents (write_to_buffer (new_buffer initial_size) bytes) ≡ bytes)
unfolding new_buffer
fresh_buffer bytes small =
    let (valid, same) =
      write_to_buffer_appends bytes (new_buffer-IsValid initial_size (omega arith))
        (omega (arith, small)) in
    (valid, same ∙ ap (λ b. b ++ bytes) (contents-new_buffer initial_size))

finish_after :
    (s : Server) (conn : ℕ) (cache : List ℕ) (c : Bool) {last : Buffer} {left : List ℕ}
    (es : List Effect)
    → IsValid last
    → contents last ≡ left
    → finish s.router conn (
        ended c last
          (record { connection_buffers = insert conn cache s.connection_buffers; effects = es }))
      ≡ after_stream s conn c left es
unfolding on_close
finish_after s conn cache true es valid same =
    ap
      (λ m.
        handled (record { router = s.router; connection_buffers = m })
          (es ++ force_close conn ∷ []))
      (erase-erase conn (insert conn cache s.connection_buffers)
        ∙ erase-insert conn cache s.connection_buffers)
finish_after s conn cache false es valid same =
    rw (finish, lookup_inserted conn cache s.connection_buffers)
      (ap₂
          (λ bytes m.
            handled (record { router = s.router; connection_buffers = insert conn bytes m }) es)
          ((read_all_lem valid).0 ∙ same) refl
        ∙ ap (λ m. handled (record { router = s.router; connection_buffers = m }) es)
            (insert-insert conn cache _ s.connection_buffers))

module _ (parse_meta : List ℕ → Option (Text × Text)) where
  pub Serves-append :
      {router : Router} {conn : ℕ} {q left r : List ℕ} {c : Bool} {es later : List Effect}
      (more : List ℕ)
      → Serves parse_meta router conn q false left es
      → Serves parse_meta router conn (left ++ more) c r later
      → Serves parse_meta router conn (q ++ more) c r (es ++ later)
  Serves-append more (waits e same none_sent) next = rw (none_sent, sym same) next
  Serves-append {router} {conn} {later = later} more
        (serves {q = q} {later = between} hd meta_bytes body_bytes service method e named sent
          served)
        next =
      serves hd meta_bytes body_bytes service method
        ((split_frame_grows q hd meta_bytes body_bytes e).1 more) named
        (rw sent (
          append_assoc (reply conn hd.sequence_id (dispatch router service method body_bytes))
            between later))
        (Serves-append more served next)

  pub length-Serves :
      {router : Router} {conn : ℕ} {q left : List ℕ} {c : Bool} {es : List Effect}
      → Serves parse_meta router conn q c left es
      → length left ≤ length q
  length-Serves (waits e same none_sent) = omega (arith, ap length same)
  length-Serves (foreign e same none_sent) = omega (arith, ap length same)
  length-Serves {q = q} (no_meta hd meta_bytes body_bytes e unread none_sent) =
      omega (arith, (split_frame_grows q hd meta_bytes body_bytes e).0)
  length-Serves {q = q} (serves hd meta_bytes body_bytes service method e named sent served) =
      omega (arith, (split_frame_grows q hd meta_bytes body_bytes e).0, length-Serves served)

  -- Every stream below the largest vector size is served in some way.
  pub record Served (router : Router) (conn : ℕ) (q : List ℕ) : Type 0 where
    pub corrupt : Bool
    pub left : List ℕ
    pub es : List Effect
    pub served : Serves parse_meta router conn q corrupt left es

  pub Serves_total :
      (router : Router) (conn : ℕ) (q : List ℕ) → length q + 8 ≤ max_size → Served router conn q
  Serves_total router conn q small =
      let (valid, same) = fresh_buffer q small in
      let run =
        loop-Ends parse_meta (λ es. false) router conn (λ es. refl) (suc (length q))
          (write_to_buffer (new_buffer initial_size) q)
          (record { connection_buffers = []; effects = [] }) valid
          (omega (arith, ap length same)) in
      record {
        corrupt = run.corrupt;
        left = contents run.left;
        es = run.es;
        served =
            subst (λ q. Serves parse_meta router conn q run.corrupt (contents run.left) run.es) same
              run.served;
      }

module _ (parse_meta : List ℕ → Option (Text × Text)) (breaks : List Effect → Bool)
    (steady : (es : List Effect) → breaks es ≡ false) where
  -- A message on a connection sends what the stream of the cached and the new bytes asks for, in
  -- order; it keeps the bytes that are left, or it closes the connection and forgets them. No send
  -- finds the connection broken, and the bytes are below the largest vector size.
  pub on_message-Serves :
      (s : Server) (conn x : ℕ) (bytes : List ℕ) {c : Bool} {left : List ℕ} {es : List Effect}
      → length (cached conn s.connection_buffers ++ x ∷ bytes) + 8 ≤ max_size
      → Serves parse_meta s.router conn (cached conn s.connection_buffers ++ x ∷ bytes) c left es
      → on_message parse_meta breaks s conn (x ∷ bytes) ≡ after_stream s conn c left es
  unfolding on_message
  on_message-Serves s conn x bytes {c} {left} {es} small served =
      let cache = cached conn s.connection_buffers ++ x ∷ bytes in
      let (valid, same) = fresh_buffer cache small in
      let f =
        loop-Follows parse_meta breaks s.router conn steady served (suc (length cache))
          (write_to_buffer (new_buffer initial_size) cache)
          (record { connection_buffers = insert conn cache s.connection_buffers; effects = [] })
          valid same (omega arith) in
      ap (finish s.router conn) f.run ∙ finish_after s conn cache c es f.valid f.same

then_nothing : (o : MessageOutcome) → then_message o (λ s. handled s []) ≡ o
then_nothing (handled s es) = ap (handled s) (append-nil es)
then_nothing dangling = refl
then_nothing out_of_fuel = refl

nothing_then : (s : Server) (o : MessageOutcome) → then_message (handled s []) (λ s. o) ≡ o
nothing_then s (handled s' es) = refl
nothing_then s dangling = refl
nothing_then s out_of_fuel = refl

-- A message behind one that has kept its connection open.
then_after :
    (s : Server) (conn : ℕ) (kept : List ℕ) (c : Bool) (left : List ℕ) (es later : List Effect)
    → then_message (after_stream s conn false kept es) (λ s'.
      after_stream
        (record s { connection_buffers = insert conn kept s.connection_buffers })
        conn
        c
        left
        later)
      ≡ after_stream s conn c left (es ++ later)
then_after s conn kept true left es later =
    ap₂ (λ m es. handled (record s { connection_buffers = m }) es)
      (erase-insert conn kept s.connection_buffers) (sym (append_assoc es later _))
then_after s conn kept false left es later =
    ap (λ m. handled (record s { connection_buffers = m }) (es ++ later))
      (insert-insert conn kept left s.connection_buffers)

-- Whether the connection has an entry behind the message.
abbrev pub keeps : ℕ → MessageOutcome → Bool
keeps conn (handled s es) = elim (lookup conn s.connection_buffers) [ none ↦ false | some _ ↦ true ]
keeps conn dangling = false
keeps conn out_of_fuel = false

closed :
    (s : Server) (conn : ℕ) (left : List ℕ) (es : List Effect)
    → keeps conn (after_stream s conn true left es) ≡ false
closed s conn left es = rw (keeps, lookup_erased conn s.connection_buffers) refl

joined :
    (cache : List ℕ) (x : ℕ) (bytes : List ℕ) (y : ℕ) (more : List ℕ)
    → (cache ++ x ∷ bytes) ++ y ∷ more ≡ cache ++ x ∷ (bytes ++ y ∷ more)
joined cache x bytes y more = append_assoc cache (x ∷ bytes) (y ∷ more)

length_two :
    (s : Server) (conn x : ℕ) (bytes : List ℕ) (y : ℕ) (more : List ℕ)
    → length (cached conn s.connection_buffers ++ x ∷ (bytes ++ y ∷ more))
      ≡ length (cached conn s.connection_buffers ++ x ∷ bytes) + length (y ∷ more)
length_two s conn x bytes y more =
    ap length (sym (joined (cached conn s.connection_buffers) x bytes y more))
    ∙ length-append (cached conn s.connection_buffers ++ x ∷ bytes) (y ∷ more)

module _ (parse_meta : List ℕ → Option (Text × Text)) (breaks : List Effect → Bool)
    (steady : (es : List Effect) → breaks es ≡ false) where
  on_message_both :
      (s : Server) (conn x : ℕ) (bytes : List ℕ) (y : ℕ) (more : List ℕ)
      → length (cached conn s.connection_buffers ++ x ∷ (bytes ++ y ∷ more)) + 8 ≤ max_size
      → (c : Bool) (left : List ℕ) (es : List Effect)
      → Serves parse_meta s.router conn (cached conn s.connection_buffers ++ x ∷ bytes) c left es
      → keeps conn (on_message parse_meta breaks s conn (x ∷ bytes)) ≡ true
      → on_message parse_meta breaks s conn (x ∷ (bytes ++ y ∷ more))
        ≡ then_message
            (on_message parse_meta breaks s conn (x ∷ bytes))
            (λ s'. on_message parse_meta breaks s' conn (y ∷ more))
  on_message_both s conn x bytes y more small true left es first kept = absurd (
      ground (
        arith,
        ap (keeps conn) (
            on_message-Serves parse_meta breaks steady s conn x bytes
              (omega (arith, length_two s conn x bytes y more, small)) first),
        closed s conn left es,
        kept,
      ))
  on_message_both s conn x bytes y more small false left es first kept =
      let cache = cached conn s.connection_buffers in
      let s' : Server = record s { connection_buffers = insert conn left s.connection_buffers } in
      let room : length (left ++ y ∷ more) + 8 ≤ max_size = omega (
        arith,
        small,
        length_two s conn x bytes y more,
        length-append left (y ∷ more),
        length-Serves parse_meta first,
      ) in
      let second = Serves_total parse_meta s.router conn (left ++ y ∷ more) room in
      let now : cached conn s'.connection_buffers ≡ left =
        rw (cached, lookup_inserted conn left s.connection_buffers) refl in
      let m1 =
        on_message-Serves parse_meta breaks steady s conn x bytes
          (omega (arith, length_two s conn x bytes y more, small)) first in
      let m2 =
        on_message-Serves parse_meta breaks steady s' conn y more
          (subst (λ q. length (q ++ y ∷ more) + 8 ≤ max_size) (sym now) room)
          (subst
            (λ q.
              Serves parse_meta s.router conn (q ++ y ∷ more) second.corrupt second.left second.es)
            (sym now) second.served) in
      let both = on_message-Serves parse_meta breaks steady s conn x (bytes ++ y ∷ more) small (
        subst (λ q. Serves parse_meta s.router conn q second.corrupt second.left (es ++ second.es))
          (joined cache x bytes y more)
          (Serves-append parse_meta (y ∷ more) first second.served)) in
      both
      ∙ sym (then_after s conn left second.corrupt second.left es second.es)
      ∙ sym (
          ap (λ o. then_message o (λ s'. on_message parse_meta breaks s' conn (y ∷ more))) m1
          ∙ ap (λ o. then_message (after_stream s conn false left es) (λ _. o)) m2)

  -- It makes no difference to the server whether bytes come in one message or in two, if the first
  -- of the two leaves the connection open.
  pub on_message_in_two :
      (s : Server) (conn : ℕ) (bytes more : List ℕ)
      → length (cached conn s.connection_buffers ++ (bytes ++ more)) + 8 ≤ max_size
      → keeps conn (on_message parse_meta breaks s conn bytes) ≡ true
      → on_message parse_meta breaks s conn (bytes ++ more)
        ≡ then_message
            (on_message parse_meta breaks s conn bytes)
            (λ s'. on_message parse_meta breaks s' conn more)
  unfolding on_message
  on_message_in_two s conn [] more small kept =
      sym (nothing_then s (on_message parse_meta breaks s conn more))
  on_message_in_two s conn (x ∷ bytes) [] small kept =
      ap (λ bs. on_message parse_meta breaks s conn (x ∷ bs)) (append-nil bytes)
      ∙ sym (then_nothing (on_message parse_meta breaks s conn (x ∷ bytes)))
  on_message_in_two s conn (x ∷ bytes) (y ∷ more) small kept =
      let first =
        Serves_total parse_meta s.router conn (cached conn s.connection_buffers ++ x ∷ bytes)
          (omega (arith, length_two s conn x bytes y more, small)) in
      on_message_both s conn x bytes y more small first.corrupt first.left first.es first.served
        kept
