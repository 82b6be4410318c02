-- ===== src/Rpc/JsonClient/Laws.antt =====
-- src/tudou/rpc/json: what the JSON library says of its values, and the answer to a line.
use tudou.Prelude.{
  ℕ, ◌≡◌, ap, ◌∙◌, ◌<◌, ◌^◌, Bool, true, false, List, [], ◌∷◌, ◌++◌, append-nil, none, some,
  if◌then◌else◌, ◌==◌, ==_refl, Text, text_key, lookup, insert,
}
use tudou.Rpc.Server.{Effect, send, force_close}
use tudou.Rpc.Lines.{
  line_end, is_empty, buffered, on_lines, LinesOutcome, handled, broken, exhausted,
}
use tudou.Rpc.Lines.Stream.{serve_bytes, on_lines_lem}
use tudou.Rpc.JsonRouter.{JsonLibrary}
use tudou.Rpc.JsonClient.{JsonNumbers}
use tudou.Rpc.JsonClient.Wire.{has_line_end, serve_bytes-line}

-- The fields that assignments in this order leave.
abbrev pub assigned {ℓ} : {V : Type ℓ} → List (Text × V) → List (Text × V) → List (Text × V)
assigned fields [] = fields
assigned fields ((key, v) ∷ more) = assigned (insert key v fields) more

-- What the JSON library says of the values that it makes, and of their texts.
pub record JsonLaws (j : JsonLibrary) (n : JsonNumbers j) : Type 0 where
  pub field-object :
      (fields : List (Text × j.Json)) (key : Text)
      → j.field (j.object fields) key ≡ lookup key (assigned [] fields)
  pub object_is_object :
      (f : Text × j.Json) (fields : List (Text × j.Json))
      → j.is_object (j.object (f ∷ fields)) ≡ true
  pub object_not_array :
      (f : Text × j.Json) (fields : List (Text × j.Json))
      → j.elements (j.object (f ∷ fields)) ≡ none
  pub object_not_null :
      (f : Text × j.Json) (fields : List (Text × j.Json))
      → j.is_null (j.object (f ∷ fields)) ≡ false
  pub as_string-string : (s : Text) → j.as_string (j.string s) ≡ some s
  pub is_number-number : (k : ℕ) → j.is_number (n.number k) ≡ true
  pub number_not_string : (k : ℕ) → j.as_string (n.number k) ≡ none
  pub number_not_null : (k : ℕ) → j.is_null (n.number k) ≡ false
  pub get_uint64-number : (k : ℕ) → k < 2 ^ 64 → n.get_uint64 (n.number k) ≡ some k
  pub dump_is_line : (v : j.Json) → has_line_end (j.dump v) ≡ false
  pub dump_not_empty : (v : j.Json) → is_empty (j.dump v) ≡ false

-- The bytes that the server sends to a connection.
abbrev pub bytes_to : ℕ → List Effect → Text
bytes_to conn [] = []
bytes_to conn (send c bytes ∷ es) =
    let further = bytes_to conn es in if c == conn then bytes ++ further else further
bytes_to conn (force_close c ∷ es) = bytes_to conn es

abbrev pub answer_bytes : ℕ → LinesOutcome → Text
answer_bytes conn (handled buffers es) = bytes_to conn es
answer_bytes conn broken = []
answer_bytes conn exhausted = []

-- The server answers one line on a connection that has none begun.
pub on_lines_answers :
    (answers : Text → Text) (breaks : List Effect → Bool) (conn : ℕ) (buffers : List (ℕ × List ℕ))
    (l answer : Text)
    → ((es : List Effect) → breaks es ≡ false)
    → buffered conn buffers ≡ []
    → is_empty l ≡ false
    → has_line_end l ≡ false
    → answers l ≡ answer
    → is_empty answer ≡ false
    → answer_bytes conn (on_lines answers breaks buffers conn (l ++ line_end ∷ []))
      ≡ answer ++ line_end ∷ []
on_lines_answers answers breaks conn buffers [] answer steady fresh filled whole same full = cc
on_lines_answers answers breaks conn buffers (b ∷ l) answer steady fresh filled whole same full =
    ap (answer_bytes conn) (on_lines_lem answers conn breaks steady buffers b (l ++ line_end ∷ []))
    ∙ ap
        (λ kept. bytes_to conn (serve_bytes answers conn [] (kept ++ ((b ∷ l) ++ line_end ∷ []))).0)
        fresh
    ∙ ap (λ p. bytes_to conn p.0) (serve_bytes-line answers conn [] (b ∷ l) whole)
    ∙ ap
        (λ a.
          bytes_to conn ((if is_empty a then [] else send conn (a ++ line_end ∷ []) ∷ []) ++ []))
        same
    ∙ simp (full, ==_refl conn, append-nil)
