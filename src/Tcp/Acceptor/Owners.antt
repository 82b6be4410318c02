-- ===== src/Tcp/Acceptor/Owners.antt =====
-- src/tudou/tcp/Acceptor.cpp: who owns the descriptors of the process.
use tudou.Prelude.{
  ℕ, ◌+◌, ◌-◌, ◌≤◌, ◌≡◌, refl, sym, ap, subst, Bool, true, false, List, [], ◌∷◌, Option, none, some,
  if◌then◌else◌, ◌==◌, ==_iff, Bool-cases, inl, inr, arith, by_both,
}
use tudou.Tcp.Acceptor.{
  Acceptor, Phase, Accepted, exhausted, failed, remove_fd, has_room, close_fd, accept, take_backlog,
  after_accept, accept_connection, close_idle, drop_accepted, retry_accept, reopen_idle, has_fd,
  Step, accepts, closes, retries, reopens, arrives, resets, others_open, others_close, Reach, here,
  next, waiting, closing, retrying, reopening,
}

abbrev pub one_if : Bool → ℕ
one_if b = if b then 1 else 0

abbrev pub count_fd : ℕ → List ℕ → ℕ
count_fd n [] = 0
count_fd n (x ∷ xs) = one_if (x == n) + count_fd n xs

abbrev pub count_idle : ℕ → Option ℕ → ℕ
count_idle n none = 0
count_idle n (some fd) = one_if (fd == n)

-- How many parts of the program think that they own a descriptor: the listening socket, the idle
-- one, and the rest.
abbrev pub owners : ℕ → Acceptor → ℕ
owners n a = one_if (a.listen_fd == n) + count_idle n a.idle_fd + count_fd n a.others

-- A descriptor is open just if it has an owner, and has one owner at most.
pub record IsOwned (a : Acceptor) : Type 0 where
  pub owned : (n : ℕ) → count_fd n a.fds ≡ owners n a
  pub once : (n : ℕ) → count_fd n a.fds ≤ 1

count_fd-remove_fd :
    (n m : ℕ) (xs : List ℕ) → count_fd n (remove_fd m xs) ≡ count_fd n xs - one_if (m == n)
count_fd-remove_fd n m [] = ground arith
count_fd-remove_fd n m (x ∷ xs) = ground (arith, count_fd-remove_fd n m xs)

count_fd-has_fd : (m n : ℕ) (xs : List ℕ) → has_fd m xs ≡ true → one_if (m == n) ≤ count_fd n xs
count_fd-has_fd m n [] h = cc
count_fd-has_fd m n (x ∷ xs) h = ground (arith, count_fd-has_fd m n xs)

module _ (pick : List ℕ → ℕ) (fresh : (fds : List ℕ) → count_fd (pick fds) fds ≡ 0) where
  -- The count of a number when a fresh descriptor is added.
  once_more :
      (fds : List ℕ)
      → ((n : ℕ) → count_fd n fds ≤ 1)
      → (n : ℕ) → one_if (pick fds == n) + count_fd n fds ≤ 1
  once_more fds once n = elim (Bool-cases (pick fds == n)) [
    | inl e ↦
        subst (λ m. one_if (pick fds == m) + count_fd m fds ≤ 1) ((==_iff (pick fds) n).0 e)
          (ground (arith, fresh fds))
    | inr e ↦ ground (arith, once n)
  ]

  accept_connection-IsOwned :
      (interrupted : Bool) (a : Acceptor)
      → IsOwned a
      → IsOwned (accept_connection pick interrupted a)
  unfolding accept_connection accept
  accept_connection-IsOwned interrupted a v = in_room (has_room a) interrupted
    where
      Good : Acceptor × Accepted → Type 0
      Good r = IsOwned (after_accept pick r)

      took : (peers : List ℕ) → Good (take_backlog pick a peers)
      took [] = v
      took (peer ∷ peers) = record {
        owned = λ n. omega (arith, v.owned n);
        once = once_more a.fds v.once;
      }

      full : Good (a, exhausted)
      full = record { owned = v.owned; once = v.once }

      in_room :
          (room interrupted : Bool)
          → Good (
              if room
              then if interrupted then (a, failed) else take_backlog pick a a.backlog
              else (a, exhausted))
      in_room true true = v
      in_room true false = took a.backlog
      in_room false interrupted = full

  close_idle-IsOwned : (a : Acceptor) → IsOwned a → IsOwned (close_idle pick a)
  unfolding close_idle
  close_idle-IsOwned a v = closed a.idle_fd v.owned
    where
      closed :
          (idle : Option ℕ)
          → ((n : ℕ)
              → count_fd n a.fds
                ≡ one_if (a.listen_fd == n) + count_idle n idle + count_fd n a.others)
          → IsOwned (record (close_fd a idle) { idle_fd = none; phase = retrying })
      closed none owned = record { owned = owned; once = v.once }
      closed (some fd) owned = record {
        owned = λ n. omega (arith, owned n, count_fd-remove_fd n fd a.fds);
        once = λ n. omega (arith, v.once n, count_fd-remove_fd n fd a.fds);
      }

  retry_accept-IsOwned :
      (interrupted : Bool) (a : Acceptor) → IsOwned a → IsOwned (retry_accept pick interrupted a)
  unfolding retry_accept accept
  retry_accept-IsOwned interrupted a v = in_room (has_room a) interrupted
    where
      Good : Acceptor × Accepted → Type 0
      Good r = IsOwned (record (drop_accepted pick r) { phase = reopening })

      same : IsOwned (record a { phase = reopening })
      same = record { owned = v.owned; once = v.once }

      took : (peers : List ℕ) → Good (take_backlog pick a peers)
      took [] = same
      took (peer ∷ peers) =
          let p = pick a.fds in
          record {
            owned = λ n. omega (arith, v.owned n, count_fd-remove_fd n p (p ∷ a.fds));
            once = λ n. omega (arith, v.once n, count_fd-remove_fd n p (p ∷ a.fds));
          }

      in_room :
          (room interrupted : Bool)
          → Good (
              if room
              then if interrupted then (a, failed) else take_backlog pick a a.backlog
              else (a, exhausted))
      in_room true true = same
      in_room true false = took a.backlog
      in_room false interrupted = same

  -- The idle descriptor is closed when another is opened for it.
  abbrev NoIdle : Acceptor → Type 0
  NoIdle a = a.idle_fd ≡ none

  reopen_idle-IsOwned : (a : Acceptor) → NoIdle a → IsOwned a → IsOwned (reopen_idle pick a)
  unfolding reopen_idle
  reopen_idle-IsOwned a e v =
      by_both IsOwned (has_room a)
        (record {
          owned = λ n. omega (arith, v.owned n, ap (count_idle n) e);
          once = once_more a.fds v.once;
        })
        (record { owned = v.owned; once = v.once })

  abbrev IdleFits : Phase → Option ℕ → Type 0
  IdleFits waiting idle = Unit
  IdleFits closing idle = Unit
  IdleFits retrying idle = idle ≡ none
  IdleFits reopening idle = idle ≡ none

  record IsSound (a : Acceptor) : Type 0 where
    owns : IsOwned a
    fits : IdleFits a.phase a.idle_fd

  -- on_read leaves the idle descriptor, and stops waiting only to close it.
  accept_connection-IdleFits :
      (interrupted : Bool) (a : Acceptor)
      → a.phase ≡ waiting
      → IdleFits
          (accept_connection pick interrupted a).phase
          (accept_connection pick interrupted a).idle_fd
  unfolding accept_connection accept
  accept_connection-IdleFits interrupted a e = in_room (has_room a) interrupted
    where
      Fits : Acceptor × Accepted → Type 0
      Fits r = IdleFits (after_accept pick r).phase (after_accept pick r).idle_fd

      still : (idle : Option ℕ) → IdleFits a.phase idle
      still idle = subst (λ phase. IdleFits phase idle) (sym e) tt

      took : (peers : List ℕ) → Fits (take_backlog pick a peers)
      took [] = still a.idle_fd
      took (peer ∷ peers) = still a.idle_fd

      in_room :
          (room interrupted : Bool)
          → Fits (
              if room
              then if interrupted then (a, failed) else take_backlog pick a a.backlog
              else (a, exhausted))
      in_room true true = still a.idle_fd
      in_room true false = took a.backlog
      in_room false interrupted = tt

  retry_accept-NoIdle :
      (interrupted : Bool) (a : Acceptor)
      → NoIdle a
      → (retry_accept pick interrupted a).idle_fd ≡ none
  unfolding retry_accept accept
  retry_accept-NoIdle interrupted a e = in_room (has_room a) interrupted
    where
      Left : Acceptor × Accepted → Type 0
      Left r = (drop_accepted pick r).idle_fd ≡ none

      took : (peers : List ℕ) → Left (take_backlog pick a peers)
      took [] = e
      took (peer ∷ peers) = e

      in_room :
          (room interrupted : Bool)
          → Left (
              if room
              then if interrupted then (a, failed) else take_backlog pick a a.backlog
              else (a, exhausted))
      in_room true true = e
      in_room true false = took a.backlog
      in_room false interrupted = e

  Step-IsSound : {a b : Acceptor} → Step pick a b → IsSound a → IsSound b
  unfolding close_idle retry_accept reopen_idle
  Step-IsSound (accepts a interrupted e) s = record {
    owns = accept_connection-IsOwned interrupted a s.owns;
    fits = accept_connection-IdleFits interrupted a e;
  }
  Step-IsSound (closes a e) s = record { owns = close_idle-IsOwned a s.owns; fits = refl }
  Step-IsSound (retries a interrupted e) s = record {
    owns = retry_accept-IsOwned interrupted a s.owns;
    fits = retry_accept-NoIdle interrupted a (subst (λ p. IdleFits p a.idle_fd) e s.fits);
  }
  Step-IsSound (reopens a e) s = record {
    owns = reopen_idle-IsOwned a (subst (λ p. IdleFits p a.idle_fd) e s.fits) s.owns;
    fits = by_both (λ (b : Acceptor). IdleFits b.phase b.idle_fd) (has_room a) tt tt;
  }
  Step-IsSound (arrives a peer) s = record {
    owns = record { owned = s.owns.owned; once = s.owns.once };
    fits = s.fits;
  }
  Step-IsSound (resets a peer peers e) s = record {
    owns = record { owned = s.owns.owned; once = s.owns.once };
    fits = s.fits;
  }
  Step-IsSound (others_open a room) s = record {
    owns = record {
      owned = λ n. omega (arith, s.owns.owned n);
      once = once_more a.fds s.owns.once;
    };
    fits = s.fits;
  }
  Step-IsSound (others_close a fd has) s = record {
    owns = record {
      owned = λ n. omega (
        arith,
        s.owns.owned n,
        count_fd-remove_fd n fd a.fds,
        count_fd-remove_fd n fd a.others,
        count_fd-has_fd fd n a.others has,
      );
      once = λ n. omega (arith, s.owns.once n, count_fd-remove_fd n fd a.fds);
    };
    fits = s.fits;
  }

  Reach-IsSound : {start a : Acceptor} → IsSound start → Reach pick start a → IsSound a
  Reach-IsSound s here = s
  Reach-IsSound s (next r step) = Step-IsSound step (Reach-IsSound s r)

  -- However connections come and other threads open and close descriptors, also between the stages
  -- of accept_idle_connection: a descriptor is open just if a part of the program owns it, and one
  -- at most does, so that none leaks and none is closed twice. It was so at the start, when the
  -- Acceptor waited, and the kernel gives a descriptor that is not open.
  pub Reach-IsOwned :
      {start a : Acceptor} → start.phase ≡ waiting → IsOwned start → Reach pick start a → IsOwned a
  Reach-IsOwned {start} e v r =
      (Reach-IsSound (record { owns = v; fits = subst (λ p. IdleFits p start.idle_fd) (sym e) tt })
        r).owns
