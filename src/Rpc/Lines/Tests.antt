-- ===== src/Rpc/Lines/Tests.antt =====
-- Rpc/Lines at concrete inputs: every line is answered by itself.
use tudou.Prelude.{false, ◌≡◌, refl, [], ◌∷◌, lookup, insert}
use tudou.Rpc.Server.{send}
use tudou.Rpc.Lines.{on_lines, handled}
use tudou.Rpc.Lines.Stream.{on_lines_lem}

-- The rest of a line that has begun, an empty line, and the start of another.
on_lines_lem_example :
    on_lines (λ line. line) (λ es. false) ((5, 1 ∷ 2 ∷ []) ∷ []) 5 (3 ∷ 10 ∷ 10 ∷ 4 ∷ [])
    ≡ handled ((5, 4 ∷ []) ∷ []) (send 5 (1 ∷ 2 ∷ 3 ∷ 10 ∷ []) ∷ [])
unfolding lookup insert
on_lines_lem_example =
    on_lines_lem (λ line. line) 5 (λ es. false) (λ es. refl) ((5, 1 ∷ 2 ∷ []) ∷ []) 3
      (10 ∷ 10 ∷ 4 ∷ [])
