-- ===== src/Rpc/Lines.antt =====
-- src/tudou/rpc/json/JsonRpcServer.cpp: the bytes of each connection, cut into lines.
-- `router_.dispatch` is a parameter, and so is which sends find the connection broken: such a send
-- runs `on_close`, which erases the buffer that the loop goes on to read.
pub mod Stream
mod Tests
use tudou.Prelude.{
  ℕ, zero, suc, Bool, true, false, List, [], ◌∷◌, ◌++◌, Option, none, some, if◌then◌else◌, length,
  ◌==◌, Text, lookup, insert, erase, number_eq,
}
use tudou.Rpc.Server.{Effect, send}

abbrev pub line_end : ℕ
line_end = 10

-- `find`, `substr` and `erase`: the first line without its end, and what is behind it.
unfoldable pub split_line : List ℕ → Option (List ℕ × List ℕ)
split_line [] = none
split_line (b ∷ bytes) =
    if b == line_end
    then some ([], bytes)
    else elim (split_line bytes) [ none ↦ none | some (line, rest) ↦ some (b ∷ line, rest) ]

-- `stuck` is no value of the source, it says that the fuel ran out; `dangling` is the use of the
-- erased buffer.
pub data LinesEnd : Type 0 where
  ended : List ℕ → List Effect → LinesEnd
  dangling stuck : LinesEnd

pub data LinesOutcome : Type 0 where
  handled : List (ℕ × List ℕ) → List Effect → LinesOutcome
  broken exhausted : LinesOutcome

abbrev pub is_empty : Text → Bool
is_empty [] = true
is_empty (c ∷ cs) = false

abbrev pub buffered : ℕ → List (ℕ × List ℕ) → List ℕ
buffered conn buffers = elim (lookup conn buffers) [ none ↦ [] | some bytes ↦ bytes ]

module _ (dispatch : Text → Text) (breaks : List Effect → Bool) where
  -- What follows a line: an empty one and a notification have no response.
  abbrev pub respond_line : ℕ → List ℕ → List Effect → Option (List Effect)
  respond_line conn line es =
      if is_empty line
      then some es
      else if is_empty (dispatch line)
      then some es
      else if breaks es
      then none
      else some (es ++ send conn (dispatch line ++ line_end ∷ []) ∷ [])

  unfoldable pub serve_lines : ℕ → ℕ → List ℕ → List Effect → LinesEnd
  serve_lines conn zero buf es = stuck
  serve_lines conn (suc fuel) buf es = elim (split_line buf) [
    | none ↦ ended buf es
    | some (line, rest) ↦ elim (respond_line conn line es) [
      | none ↦ dangling
      | some es' ↦ serve_lines conn fuel rest es'
    ]
  ]

  abbrev pub finish_lines : ℕ → List (ℕ × List ℕ) → LinesEnd → LinesOutcome
  finish_lines conn buffers (ended rest es) = handled (insert conn rest buffers) es
  finish_lines conn buffers dangling = broken
  finish_lines conn buffers stuck = exhausted

  -- Each line takes a byte at least, so that the rounds do not run out.
  unfoldable pub on_lines : List (ℕ × List ℕ) → ℕ → List ℕ → LinesOutcome
  on_lines buffers conn [] = handled buffers []
  on_lines buffers conn (x ∷ bytes) =
      let buf = buffered conn buffers ++ x ∷ bytes in
      finish_lines conn buffers (serve_lines conn (suc (length buf)) buf [])

-- The buffer of a connection goes with it.
abbrev on_close : List (ℕ × List ℕ) → ℕ → List (ℕ × List ℕ)
on_close buffers conn = erase conn buffers
