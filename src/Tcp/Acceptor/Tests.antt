-- ===== src/Tcp/Acceptor/Tests.antt =====
-- Tcp/Acceptor in a process that may have two descriptors, both in use.
use tudou.Prelude.{
  ℕ, suc, ◌≤◌, ◌≡◌, refl, false, List, [], ◌∷◌, none, some, if◌then◌else◌, ltb, arith,
}
use tudou.Tcp.Acceptor.{Acceptor, waiting, accept_connection, on_read, here, next, accepts}
use tudou.Tcp.Acceptor.Owners.{IsOwned, count_fd, Reach-IsOwned}
use tudou.Tcp.Acceptor.Exhausted.{on_read_drains, on_read_spins}

abbrev above : List ℕ → ℕ
above [] = 0
above (x ∷ xs) = if ltb x (above xs) then above xs else suc x

not_above : (n : ℕ) (xs : List ℕ) → above xs ≤ n → count_fd n xs ≡ 0
not_above n [] h = refl
not_above n (x ∷ xs) h = ground (arith, not_above n xs)

above_fresh : (xs : List ℕ) → count_fd (above xs) xs ≡ 0
above_fresh xs = not_above (above xs) xs (omega arith)

abbrev full : Acceptor
full = record {
  fds = 3 ∷ 4 ∷ [];
  limit = 2;
  backlog = 9 ∷ [];
  listen_fd = 3;
  idle_fd = some 4;
  phase = waiting;
  others = [];
  handed = [];
}

full-IsOwned : IsOwned full
full-IsOwned = record { owned = λ n. omega arith; once = λ n. ground arith }

Reach-IsOwned_example : IsOwned (accept_connection above false full)
Reach-IsOwned_example =
    Reach-IsOwned above above_fresh refl full-IsOwned (next here (accepts full false refl))

on_read_drains_example :
    on_read above false false full
    ≡ record full { fds = 4 ∷ 3 ∷ []; idle_fd = some 4; backlog = [] }
on_read_drains_example = on_read_drains above false full 4 9 [] full-IsOwned refl refl refl refl

-- Another thread took the number that accept_idle_connection had freed.
abbrev robbed : Acceptor
robbed = record full { idle_fd = none; others = 4 ∷ [] }

on_read_spins_example : on_read above false false robbed ≡ robbed
on_read_spins_example = on_read_spins above false false robbed refl refl (omega arith)
