-- ===== src/Reactor/ThreadPool.antt =====
-- src/tudou/reactor/EventLoopThreadPool.cpp: which loop gets the next connection.
-- A loop is a number. The pool is started and is asked on the thread of its main loop, as the
-- asserts demand.
pub mod RoundRobin
use tudou.Prelude.{ℕ, zero, suc, ◌+◌, ◌%◌, List, [], ◌∷◌, Option, none, some, length}

pub record EventLoopThreadPool : Type 0 where
  pub main_loop : ℕ
  pub io_loops : List ℕ
  pub io_loops_index : ℕ

-- `ioLoopThreads_[index]->get_loop()`; an index out of range has no loop.
abbrev pub io_loop : List ℕ → ℕ → Option ℕ
io_loop [] n = none
io_loop (l ∷ loops) zero = some l
io_loop (l ∷ loops) (suc n) = io_loop loops n

abbrev pub advance : EventLoopThreadPool → ℕ → ℕ × EventLoopThreadPool
advance p loop = (loop, record p { io_loops_index = (p.io_loops_index + 1) % length p.io_loops })

unfoldable pub get_next_loop : EventLoopThreadPool → Option (ℕ × EventLoopThreadPool)
get_next_loop p = elim p.io_loops [
  | [] ↦ some (p.main_loop, p)
  | l ∷ loops ↦ elim (io_loop p.io_loops p.io_loops_index) [
    | none ↦ none
    | some loop ↦ some (advance p loop)
  ]
]

-- That many calls of get_next_loop, one after the other.
abbrev pub next_loops : ℕ → EventLoopThreadPool → Option (List ℕ × EventLoopThreadPool)
next_loops zero p = some ([], p)
next_loops (suc n) p = elim (get_next_loop p) [
  | none ↦ none
  | some (loop, q) ↦ elim (next_loops n q) [
    | none ↦ none
    | some (loops, r) ↦ some (loop ∷ loops, r)
  ]
]

unfoldable pub get_all_loops : EventLoopThreadPool → List ℕ
get_all_loops p = p.main_loop ∷ p.io_loops
