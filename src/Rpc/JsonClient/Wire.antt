-- ===== src/Rpc/JsonClient/Wire.antt =====
-- src/tudou/rpc/json/JsonRpcClient.cpp: a request and a response, however the kernel cuts them.
use tudou.Prelude.{
  ℕ, zero, suc, ◌≡◌, refl, sym, ap, ◌∙◌, Bool, true, false, ◌||◌, List, [], ◌∷◌, ◌++◌, append-nil,
  append_assoc, Option, none, some, if◌then◌else◌, ◌==◌, Text, take, drop, take-append-drop, arith,
}
use tudou.Rpc.Lines.{line_end, split_line}
use tudou.Rpc.Lines.Stream.{serve_bytes, reply_line}
use tudou.Rpc.JsonClient.{
  SocketWrite, writes, write_interrupted, write_fails, SocketRead, reads, read_interrupted,
  read_fails, all_sent, ReceiveEnd, line, send_request, receive_line,
}

-- A text that is one line.
abbrev pub has_line_end : Text → Bool
has_line_end [] = false
has_line_end (b ∷ bytes) = (b == line_end) || has_line_end bytes

pub split_line-line :
    (l rest : Text) → has_line_end l ≡ false → split_line (l ++ line_end ∷ rest) ≡ some (l, rest)
unfolding split_line
split_line-line [] rest h = refl
split_line-line (b ∷ l) rest h = ground (arith, split_line-line l rest)

abbrev extended : Text → Option (Text × Text) → Option (Text × Text)
extended ys none = none
extended ys (some (l, rest)) = some (l, rest ++ ys)

split_line-append :
    (xs ys l rest : Text)
    → split_line xs ≡ some (l, rest)
    → split_line (xs ++ ys) ≡ some (l, rest ++ ys)
unfolding split_line
split_line-append [] ys l rest h = cc
split_line-append (x ∷ xs) ys l rest h =
    joined (split_line-append xs ys) (split_line xs) refl (x == line_end) h
  where
    joined :
        ((m r : Text) → split_line xs ≡ some (m, r) → split_line (xs ++ ys) ≡ some (m, r ++ ys))
        → (o : Option (Text × Text)) → split_line xs ≡ o
        → (b : Bool)
        → (if b then some ([], xs) else elim o as (λ _. Option (Text × Text)) [
          | none ↦ none
          | some (m, r) ↦ some (x ∷ m, r)
        ])
          ≡ some (l, rest)
        → (if b
            then some ([], xs ++ ys)
            else elim (split_line (xs ++ ys)) as (λ _. Option (Text × Text)) [
              | none ↦ none
              | some (m, r) ↦ some (x ∷ m, r)
            ])
          ≡ some (l, rest ++ ys)
    joined further o e true k = ap (extended ys) k
    joined further none e false k = cc
    joined further (some (m, r)) e false k = rw (further m r e) (ap (extended ys) k)

-- What the reads bring before one fails or the stream ends.
abbrev pub delivered : List SocketRead → Text
delivered [] = []
delivered (read_interrupted ∷ results) = delivered results
delivered (read_fails ∷ results) = []
delivered (reads [] ∷ results) = []
delivered (reads (x ∷ bytes) ∷ results) = (x ∷ bytes) ++ delivered results

same : {a b c d : Text} → ◌≡◌ {A = Option (Text × Text)} (some (a, c)) (some (b, d)) → a ≡ b
same e = ap first e
  where
    first : Option (Text × Text) → Text
    first none = []
    first (some (l, rest)) = l

pub receive_line_lem :
    (results : List SocketRead) (buf l rest : Text)
    → split_line buf ≡ none
    → split_line (buf ++ delivered results) ≡ some (l, rest)
    → receive_line results buf ≡ line l
unfolding receive_line
receive_line_lem [] buf l rest n h = cc (ap split_line (append-nil buf))
receive_line_lem (read_interrupted ∷ results) buf l rest n h =
    receive_line_lem results buf l rest n h
receive_line_lem (read_fails ∷ results) buf l rest n h = cc (ap split_line (append-nil buf))
receive_line_lem (reads [] ∷ results) buf l rest n h = cc (ap split_line (append-nil buf))
receive_line_lem (reads (x ∷ bytes) ∷ results) buf l rest n h =
    arrived (receive_line_lem results (buf ++ x ∷ bytes) l rest) (split_line (buf ++ x ∷ bytes))
      refl
  where
    whole : split_line ((buf ++ x ∷ bytes) ++ delivered results) ≡ some (l, rest)
    whole = ap split_line (append_assoc buf (x ∷ bytes) (delivered results)) ∙ h

    arrived :
        (split_line (buf ++ x ∷ bytes) ≡ none
          → split_line ((buf ++ x ∷ bytes) ++ delivered results) ≡ some (l, rest)
          → receive_line results (buf ++ x ∷ bytes) ≡ line l)
        → (o : Option (Text × Text)) → split_line (buf ++ x ∷ bytes) ≡ o
        → (elim o as (λ _. ReceiveEnd) [
          | none ↦ receive_line results (buf ++ x ∷ bytes)
          | some (m, r) ↦ line m
        ])
          ≡ line l
    arrived further none e = further e whole
    arrived further (some (m, r)) e =
        ap line (same (sym (split_line-append _ (delivered results) m r e) ∙ whole))

pub send_request_lem :
    (results : List SocketWrite) (bytes : Text)
    → (send_request results bytes).1 ≡ all_sent
    → (send_request results bytes).0 ≡ bytes
unfolding send_request
send_request_lem results [] h = refl
send_request_lem [] (b ∷ bytes) h = cc
send_request_lem (write_interrupted ∷ results) (b ∷ bytes) h =
    send_request_lem results (b ∷ bytes) h
send_request_lem (write_fails ∷ results) (b ∷ bytes) h = cc
send_request_lem (writes zero ∷ results) (b ∷ bytes) h = cc
send_request_lem (writes (suc n) ∷ results) (b ∷ bytes) h =
    ap (λ taken. take (suc n) (b ∷ bytes) ++ taken) (send_request_lem results (drop n bytes) h)
    ∙ take-append-drop (suc n) (b ∷ bytes)

-- The text of a request is one line, and so is that of its response.
pub serve_bytes-line :
    (dispatch : Text → Text) (conn : ℕ) (begun l : Text)
    → has_line_end l ≡ false
    → serve_bytes dispatch conn begun (l ++ line_end ∷ [])
      ≡ (reply_line dispatch conn (begun ++ l) ++ [], [])
serve_bytes-line dispatch conn begun [] h =
    ap (λ m. (reply_line dispatch conn m ++ [], [])) (sym (append-nil begun))
serve_bytes-line dispatch conn begun (b ∷ l) h = rw (neither (b == line_end) h).0 (
    serve_bytes-line dispatch conn (begun ++ b ∷ []) l (neither (b == line_end) h).1
    ∙ ap (λ m. (reply_line dispatch conn m ++ [], [])) (append_assoc begun (b ∷ []) l))
  where
    neither : (c : Bool) → (c || has_line_end l) ≡ false → (c ≡ false) × (has_line_end l ≡ false)
    neither true k = cc
    neither false k = (refl, k)
