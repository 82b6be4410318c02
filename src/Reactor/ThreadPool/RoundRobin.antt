-- ===== src/Reactor/ThreadPool/RoundRobin.antt =====
-- src/tudou/reactor/EventLoopThreadPool.cpp: get_next_loop takes the loops in turn.
use native.Mathlib.Nat.{mod_self, mod-eq_of_lt}
use tudou.Prelude.{
  ℕ, suc, ◌+◌, ◌%◌, ◌≡◌, refl, ap, ap₂, ◌∙◌, sym, arith, List, [], ◌∷◌, ◌++◌, append_assoc, some,
  length, length-append,
}
use tudou.Reactor.ThreadPool.{EventLoopThreadPool, io_loop, get_next_loop, next_loops}

abbrev pool : ℕ → List ℕ → ℕ → EventLoopThreadPool
pool main_loop io_loops index = record {
  main_loop = main_loop;
  io_loops = io_loops;
  io_loops_index = index;
}

io_loop-append :
    (before : List ℕ) (l : ℕ) (ahead : List ℕ)
    → io_loop (before ++ l ∷ ahead) (length before) ≡ some l
io_loop-append [] l ahead = refl
io_loop-append (x ∷ before) l ahead = io_loop-append before l ahead

get_next_loop-some :
    (m : ℕ) (loops : List ℕ) (i l : ℕ)
    → io_loop loops i ≡ some l
    → get_next_loop (pool m loops i) ≡ some (l, pool m loops ((i + 1) % length loops))
unfolding get_next_loop
get_next_loop-some m [] i l e = ground (arith, e)
get_next_loop-some m (x ∷ loops) i l e = rw e refl

next_loops-suc :
    (n l : ℕ) (ls : List ℕ) (p q r : EventLoopThreadPool)
    → get_next_loop p ≡ some (l, q)
    → next_loops n q ≡ some (ls, r)
    → next_loops (suc n) p ≡ some (l ∷ ls, r)
next_loops-suc n l ls p q r e f = rw (next_loops, e) (rw f refl)

next_loops_from :
    (m : ℕ) (loops before : List ℕ) (l : ℕ) (ahead : List ℕ) (i : ℕ)
    → loops ≡ before ++ l ∷ ahead
    → i ≡ length before
    → next_loops (length (l ∷ ahead)) (pool m loops i) ≡ some (l ∷ ahead, pool m loops 0)
next_loops_from m loops before l [] i e f =
    next_loops-suc 0 l [] (pool m loops i) (pool m loops ((i + 1) % length loops)) (pool m loops 0)
      (get_next_loop-some m loops i l (ap₂ io_loop e f ∙ io_loop-append before l []))
      (ap (λ j. some ([], pool m loops j)) wraps)
  where
    wraps : (i + 1) % length loops ≡ 0
    wraps =
        ap (λ j. j % length loops) (omega (arith, ap length e, length-append before (l ∷ []), f))
        ∙ mod_self (length loops)
next_loops_from m loops before l (k ∷ ahead) i e f =
    next_loops-suc (length (k ∷ ahead)) l (k ∷ ahead) (pool m loops i)
      (pool m loops ((i + 1) % length loops)) (pool m loops 0)
      (get_next_loop-some m loops i l (ap₂ io_loop e f ∙ io_loop-append before l (k ∷ ahead)))
      (next_loops_from m loops (before ++ l ∷ []) k ahead ((i + 1) % length loops)
        (e ∙ sym (append_assoc before (l ∷ []) (k ∷ ahead)))
        (mod-eq_of_lt (omega (arith, ap length e, length-append before (l ∷ k ∷ ahead), f))
          ∙ omega (arith, length-append before (l ∷ []), f)))

-- With any io loops before the index, and one at least from there on, calls as many as the loops
-- from there on return these in order, and the index is at the first loop again.
next_loops_lem :
    (m : ℕ) (before : List ℕ) (l : ℕ) (ahead : List ℕ)
    → next_loops (length (l ∷ ahead)) (pool m (before ++ l ∷ ahead) (length before))
      ≡ some (l ∷ ahead, pool m (before ++ l ∷ ahead) 0)
next_loops_lem m before l ahead =
    next_loops_from m (before ++ l ∷ ahead) before l ahead (length before) refl refl
