-- ===== src/Tcp/Acceptor/Exhausted.antt =====
-- src/tudou/tcp/Acceptor.cpp: on_read when the process has no descriptor left.
use tudou.Prelude.{
  ℕ, suc, ◌≤◌, ◌≡◌, sym, ap, ap₂, ◌∙◌, Bool, true, false, List, [], ◌∷◌, Option, none, some,
  if◌then◌else◌, ==_refl, lt→ltb, le→ltb, arith, length, ltb,
}
use tudou.Tcp.Acceptor.{
  Acceptor, waiting, closing, retrying, reopening, exhausted, failed, remove_fd, has_room, close_fd,
  accept, take_backlog, after_accept, accept_connection, close_idle, drop_accepted, retry_accept,
  reopen_idle, recover, on_read,
}
use tudou.Tcp.Acceptor.Owners.{IsOwned, count_fd, count_idle, one_if}

length-remove_fd :
    (n : ℕ) (xs : List ℕ) → 1 ≤ count_fd n xs → suc (length (remove_fd n xs)) ≡ length xs
length-remove_fd n [] h = absurd (omega arith)
length-remove_fd n (x ∷ xs) h = ground (arith, length-remove_fd n xs)

module _ (pick : List ℕ → ℕ) where
  accept_connection-full :
      (interrupted : Bool) (a : Acceptor)
      → has_room a ≡ false
      → accept_connection pick interrupted a ≡ record a { phase = closing }
  unfolding accept_connection accept
  accept_connection-full interrupted a e =
      ap
        (λ (b : Bool). after_accept pick (
          if b
          then if interrupted then (a, failed) else take_backlog pick a a.backlog
          else (a, exhausted)))
        e

  -- Behind the retry the connection is gone, and the descriptor that it had is free again.
  retry_accept-room :
      (a : Acceptor) (peer : ℕ) (peers : List ℕ)
      → has_room a ≡ true
      → a.backlog ≡ peer ∷ peers
      → retry_accept pick false a ≡ record a { backlog = peers; phase = reopening }
  unfolding retry_accept accept
  retry_accept-room a peer peers e f =
      ap₂
        (λ (b : Bool) (backlog : List ℕ).
          record (drop_accepted pick (if b then take_backlog pick a backlog else (a, exhausted))) {
            phase = reopening;
          })
        e f
      ∙ ap
          (λ (b : Bool). record a {
            fds = if b then a.fds else pick a.fds ∷ remove_fd (pick a.fds) a.fds;
            backlog = peers;
            phase = reopening;
          })
          (==_refl (pick a.fds))

  reopen_idle-room :
      (a : Acceptor)
      → has_room a ≡ true
      → reopen_idle pick a
        ≡ record a { fds = pick a.fds ∷ a.fds; idle_fd = some (pick a.fds); phase = waiting }
  unfolding reopen_idle
  reopen_idle-room a e =
      ap
        (λ (b : Bool).
          if b
          then record a { fds = pick a.fds ∷ a.fds; idle_fd = some (pick a.fds); phase = waiting }
          else record a { phase = waiting })
        e

  -- Without a descriptor left and without an idle one, on_read changes nothing: the connection
  -- waits on, and the listening socket stays readable.
  pub on_read_spins :
      (interrupted interrupted_again : Bool) (a : Acceptor)
      → a.phase ≡ waiting
      → a.idle_fd ≡ none
      → a.limit ≤ length a.fds
      → on_read pick interrupted interrupted_again a ≡ a
  unfolding on_read close_idle retry_accept accept reopen_idle
  on_read_spins interrupted interrupted_again a p i h =
      ap (λ (b : Acceptor). recover pick b.phase interrupted_again b)
        (accept_connection-full interrupted a full)
      ∙ ap
          (λ (idle : Option ℕ).
            accept_idle_connection_from (record (close_fd (record a { phase = closing }) idle) {
              idle_fd = none;
              phase = retrying;
            }))
          i
      ∙ ap
          (λ (b : Bool).
            reopen_idle pick
              (record (drop_accepted pick (
                if b
                then if interrupted_again
                  then (without, failed)
                  else take_backlog pick without a.backlog
                else (without, exhausted))) { phase = reopening }))
          full
      ∙ ap
          (λ (b : Bool).
            if b
            then record a { fds = pick a.fds ∷ a.fds; idle_fd = some (pick a.fds); phase = waiting }
            else record a { idle_fd = none; phase = waiting })
          full
      ∙ ap₂ (λ phase idle. record a { phase = phase; idle_fd = idle }) (sym p) (sym i)
    where
      full : has_room a ≡ false
      full = le→ltb (length a.fds) a.limit h

      without : Acceptor
      without = record a { idle_fd = none; phase = retrying }

      accept_idle_connection_from : Acceptor → Acceptor
      accept_idle_connection_from b = reopen_idle pick (retry_accept pick interrupted_again b)

  -- Without a descriptor left, but with an idle one and with no other thread in between: on_read
  -- takes the first connection off the backlog without a call of the callback, and has an idle
  -- descriptor again.
  pub on_read_drains :
      (interrupted : Bool) (a : Acceptor) (fd peer : ℕ) (peers : List ℕ)
      → IsOwned a
      → a.phase ≡ waiting
      → a.idle_fd ≡ some fd
      → length a.fds ≡ a.limit
      → a.backlog ≡ peer ∷ peers
      → on_read pick interrupted false a ≡ record a {
        fds = pick (remove_fd fd a.fds) ∷ remove_fd fd a.fds;
        idle_fd = some (pick (remove_fd fd a.fds));
        backlog = peers;
      }
  unfolding on_read close_idle
  on_read_drains interrupted a fd peer peers v p i full e =
      ap (λ (b : Acceptor). recover pick b.phase false b)
        (accept_connection-full interrupted a (le→ltb (length a.fds) a.limit (omega arith)))
      ∙ ap
          (λ (idle : Option ℕ). reopen_idle pick (
            retry_accept pick false (record (close_fd (record a { phase = closing }) idle) {
              idle_fd = none;
              phase = retrying;
            })))
          i
      ∙ ap (reopen_idle pick) (retry_accept-room without peer peers room e)
      ∙ reopen_idle-room (record without { backlog = peers; phase = reopening }) room
      ∙ ap
          (λ phase. record a {
            fds = pick (remove_fd fd a.fds) ∷ remove_fd fd a.fds;
            idle_fd = some (pick (remove_fd fd a.fds));
            backlog = peers;
            phase = phase;
          })
          (sym p)
    where
      without : Acceptor
      without = record a { fds = remove_fd fd a.fds; idle_fd = none; phase = retrying }

      is_open : 1 ≤ count_fd fd a.fds
      is_open = omega (arith, v.owned fd, ap (count_idle fd) i, ap one_if (==_refl fd))

      room : ltb (length (remove_fd fd a.fds)) a.limit ≡ true
      room = lt→ltb _ _ (omega (arith, full, length-remove_fd fd a.fds is_open))
