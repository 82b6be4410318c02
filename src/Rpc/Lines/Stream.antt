-- ===== src/Rpc/Lines/Stream.antt =====
-- src/tudou/rpc/json/JsonRpcServer.cpp: on_message against the stream of the connection.
use tudou.Prelude.{
  ℕ, zero, suc, ◌≤◌, ◌<◌, ◌≡◌, refl, ap, ◌∙◌, sym, inl, inr, Bool, false, List, [], ◌∷◌, ◌++◌,
  append_assoc, append-nil, Option, none, some, arith, if◌then◌else◌, Bool-cases, length, ◌==◌,
  Text, insert, lookup_inserted, insert-insert, number_eq,
}
use tudou.Rpc.Server.{Effect, send}
use tudou.Rpc.Lines.{
  line_end, split_line, ended, LinesOutcome, handled, broken, exhausted, is_empty, buffered,
  respond_line, serve_lines, on_lines,
}

-- One message, and the next one on the buffers it leaves.
abbrev then_lines : LinesOutcome → (List (ℕ × List ℕ) → LinesOutcome) → LinesOutcome
then_lines (handled buffers es) next = elim (next buffers) [
  | handled buffers' es' ↦ handled buffers' (es ++ es')
  | broken ↦ broken
  | exhausted ↦ exhausted
]
then_lines broken next = broken
then_lines exhausted next = exhausted

module _ (dispatch : Text → Text) (conn : ℕ) where
  -- The response to a line, if it is not empty and has one.
  abbrev pub reply_line : List ℕ → List Effect
  reply_line line =
      if is_empty line
      then []
      else if is_empty (dispatch line)
      then []
      else send conn (dispatch line ++ line_end ∷ []) ∷ []

  -- Byte by byte, with the line that has begun: what is sent, and the line that is left.
  abbrev pub serve_bytes : List ℕ → List ℕ → List Effect × List ℕ
  serve_bytes line [] = ([], line)
  serve_bytes line (b ∷ bytes) =
      let ended = serve_bytes [] bytes in
      let going = serve_bytes (line ++ b ∷ []) bytes in
      if b == line_end then (reply_line line ++ ended.0, ended.1) else going

  abbrev by_lines : List ℕ → List ℕ → Option (List ℕ × List ℕ) → List Effect × List ℕ
  by_lines line bytes none = ([], line ++ bytes)
  by_lines line bytes (some (more, rest)) =
      (reply_line (line ++ more) ++ (serve_bytes [] rest).0, (serve_bytes [] rest).1)

  serve_bytes-split_line :
      (line bytes : List ℕ) → serve_bytes line bytes ≡ by_lines line bytes (split_line bytes)
  unfolding split_line
  serve_bytes-split_line line [] = ap (λ l. ([], l)) (sym (append-nil line))
  serve_bytes-split_line line (b ∷ bytes) = elim (Bool-cases (b == line_end)) [
    | inl e ↦ rw e (
        ap (λ l. (reply_line l ++ (serve_bytes [] bytes).0, (serve_bytes [] bytes).1))
          (sym (append-nil line)))
    | inr e ↦ rw e (serve_bytes-split_line (line ++ b ∷ []) bytes ∙ shifted (split_line bytes))
  ]
    where
      shifted :
          (o : Option (List ℕ × List ℕ))
          → by_lines (line ++ b ∷ []) bytes o
            ≡ by_lines line
                (b ∷ bytes)
                (elim o [ none ↦ none | some (more, rest) ↦ some (b ∷ more, rest) ])
      shifted none = ap (λ l. ([], l)) (append_assoc line (b ∷ []) bytes)
      shifted (some (more, rest)) =
          ap (λ l. (reply_line l ++ (serve_bytes [] rest).0, (serve_bytes [] rest).1))
            (append_assoc line (b ∷ []) more)

  serve_bytes-append :
      (xs : List ℕ) (line ys : List ℕ)
      → serve_bytes line (xs ++ ys) ≡ (
        (serve_bytes line xs).0 ++ (serve_bytes (serve_bytes line xs).1 ys).0,
        (serve_bytes (serve_bytes line xs).1 ys).1,
      )
  serve_bytes-append [] line ys = refl
  serve_bytes-append (b ∷ xs) line ys = elim (Bool-cases (b == line_end)) [
    | inl e ↦ rw e (
        ap (λ (p : List Effect × List ℕ). (reply_line line ++ p.0, p.1))
          (serve_bytes-append xs [] ys)
        ∙ ap (λ es. (es, (serve_bytes (serve_bytes [] xs).1 ys).1))
            (sym (append_assoc (reply_line line) (serve_bytes [] xs).0 _)))
    | inr e ↦ rw e (serve_bytes-append xs (line ++ b ∷ []) ys)
  ]

  -- What is left has no end of a line.
  serve_bytes_left :
      (xs line : List ℕ)
      → serve_bytes [] line ≡ ([], line)
      → serve_bytes [] (serve_bytes line xs).1 ≡ ([], (serve_bytes line xs).1)
  serve_bytes_left [] line h = h
  serve_bytes_left (b ∷ xs) line h = elim (Bool-cases (b == line_end)) [
    | inl e ↦ rw e (serve_bytes_left xs [] refl)
    | inr e ↦ rw e (
        serve_bytes_left xs (line ++ b ∷ [])
          (serve_bytes-append line [] (b ∷ []) ∙ rw h (rw e refl)))
  ]

  abbrev bytes_behind : Option (List ℕ × List ℕ) → ℕ
  bytes_behind none = 0
  bytes_behind (some (line, rest)) = suc (length rest)

  split_line_shorter : (bytes : List ℕ) → bytes_behind (split_line bytes) ≤ length bytes
  unfolding split_line
  split_line_shorter [] = omega arith
  split_line_shorter (b ∷ bytes) = elim (Bool-cases (b == line_end)) [
    | inl e ↦ rw e (omega arith)
    | inr e ↦ rw e (same (split_line bytes) (split_line_shorter bytes))
  ]
    where
      same :
          (o : Option (List ℕ × List ℕ))
          → bytes_behind o ≤ length bytes
          → bytes_behind (elim o [ none ↦ none | some (more, rest) ↦ some (b ∷ more, rest) ])
            ≤ suc (length bytes)
      same none h = omega arith
      same (some (more, rest)) h = omega arith

  module _ (breaks : List Effect → Bool) (steady : (es : List Effect) → breaks es ≡ false) where
    respond_line_lem :
        (line : List ℕ) (es : List Effect)
        → respond_line dispatch breaks conn line es ≡ some (es ++ reply_line line)
    respond_line_lem line es = elim (Bool-cases (is_empty line)) [
      | inl e ↦ rw e (ap some (sym (append-nil es)))
      | inr e ↦ elim (Bool-cases (is_empty (dispatch line))) [
        | inl f ↦ rw e (rw f (ap some (sym (append-nil es))))
        | inr f ↦ rw e (rw f (rw (steady es) refl))
      ]
    ]

    serve_lines_lem :
        (fuel : ℕ) (buf : List ℕ) (es : List Effect)
        → length buf < fuel
        → serve_lines dispatch breaks conn fuel buf es
          ≡ ended (serve_bytes [] buf).1 (es ++ (serve_bytes [] buf).0)
    unfolding serve_lines
    serve_lines_lem zero buf es l = absurd (omega arith)
    serve_lines_lem (suc fuel) buf es l =
        rw (serve_bytes-split_line [] buf) (served (serve_lines_lem fuel) (split_line buf) refl)
      where
        served :
            ((rest : List ℕ) (sent : List Effect)
              → length rest < fuel
              → serve_lines dispatch breaks conn fuel rest sent
                ≡ ended (serve_bytes [] rest).1 (sent ++ (serve_bytes [] rest).0))
            → (o : Option (List ℕ × List ℕ)) → split_line buf ≡ o
            → serve_lines dispatch breaks conn (suc fuel) buf es
              ≡ ended (by_lines [] buf o).1 (es ++ (by_lines [] buf o).0)
        served further none e = rw (serve_lines, e) (ap (ended buf) (sym (append-nil es)))
        served further (some (line, rest)) e =
            rw (serve_lines, e)
              (rw (respond_line_lem line es) (
                further rest (es ++ reply_line line)
                  (omega (arith, split_line_shorter buf, ap bytes_behind e))
                ∙ ap (ended (serve_bytes [] rest).1)
                    (append_assoc es (reply_line line) (serve_bytes [] rest).0)))

    -- Under sends that find the connection whole, a message of any bytes leaves the line that has
    -- begun and sends one response, in order, to each whole line that is not empty and has one:
    -- the bytes are the kept ones followed by the received ones, read one at a time.
    pub on_lines_lem :
        (buffers : List (ℕ × List ℕ)) (b : ℕ) (bytes : List ℕ)
        → on_lines dispatch breaks buffers conn (b ∷ bytes)
          ≡ handled
              (insert conn (serve_bytes [] (buffered conn buffers ++ b ∷ bytes)).1 buffers)
              (serve_bytes [] (buffered conn buffers ++ b ∷ bytes)).0
    unfolding on_lines
    on_lines_lem buffers b bytes =
        rw
          (serve_lines_lem (suc (length (buffered conn buffers ++ b ∷ bytes)))
            (buffered conn buffers ++ b ∷ bytes) [] (omega arith))
          refl

    on_lines_next :
        (buffers : List (ℕ × List ℕ)) (left : List ℕ) (c : ℕ) (ys : List ℕ)
        → serve_bytes [] left ≡ ([], left)
        → on_lines dispatch breaks (insert conn left buffers) conn (c ∷ ys)
          ≡ handled
              (insert conn (serve_bytes left (c ∷ ys)).1 buffers)
              (serve_bytes left (c ∷ ys)).0
    on_lines_next buffers left c ys h =
        on_lines_lem (insert conn left buffers) c ys
        ∙ rw (buffered, lookup_inserted conn left buffers)
            (rw (serve_bytes-append left [] (c ∷ ys)) (
              rw h (
                ap (λ m. handled m (serve_bytes left (c ∷ ys)).0)
                  (insert-insert conn left (serve_bytes left (c ∷ ys)).1 buffers))))

    -- Under sends that find the connection whole, the responses and the buffers after two messages
    -- are those of one message with the bytes of both.
    on_lines_in_two :
        (buffers : List (ℕ × List ℕ)) (b c : ℕ) (xs ys : List ℕ)
        → on_lines dispatch breaks buffers conn ((b ∷ xs) ++ c ∷ ys)
          ≡ then_lines
              (on_lines dispatch breaks buffers conn (b ∷ xs))
              (λ next. on_lines dispatch breaks next conn (c ∷ ys))
    on_lines_in_two buffers b c xs ys = rw (on_lines_lem buffers b (xs ++ c ∷ ys)) (
        rw (on_lines_lem buffers b xs) (
          rw
            (
              then_lines,
              on_lines_next buffers (serve_bytes [] (buffered conn buffers ++ b ∷ xs)).1 c ys
                  (serve_bytes_left (buffered conn buffers ++ b ∷ xs) [] refl),
            )
            (ap (λ (p : List Effect × List ℕ). handled (insert conn p.1 buffers) p.0)
              (ap (serve_bytes []) (sym (append_assoc (buffered conn buffers) (b ∷ xs) (c ∷ ys)))
                ∙ serve_bytes-append (buffered conn buffers ++ b ∷ xs) [] (c ∷ ys)))))
