-- ===== src/Tcp/Acceptor.antt =====
-- src/tudou/tcp/Acceptor.cpp, with accept of Socket.cpp and base/ScopedFd.h: connections that are
-- accepted, and what happens when the process has no descriptor left.
-- Other threads of the program open and close descriptors between the stages of
-- accept_idle_connection. Which free number the kernel gives is a parameter.
pub mod Owners
pub mod Exhausted
mod Tests
use tudou.Prelude.{
  ℕ, suc, ◌+◌, ◌≡◌, Bool, true, false, List, [], ◌∷◌, ◌++◌, Option, none, some, if◌then◌else◌, ltb,
  ◌==◌, length,
}

-- Where the Acceptor stands; `closing`, `retrying` and `reopening` are the stages of
-- accept_idle_connection.
pub data Phase : Type 0 where
  waiting closing retrying reopening : Phase

-- `fds` are the open descriptors of the process, `limit` is how many there may be, `backlog` the
-- peers that wait to be accepted. `others` are the descriptors of the rest of the program, to which
-- the callback adds, `handed` the peers that it was given.
pub record Acceptor : Type 0 where
  pub fds : List ℕ
  pub limit : ℕ
  pub backlog : List ℕ
  pub listen_fd : ℕ
  pub idle_fd : Option ℕ
  pub phase : Phase
  pub others : List ℕ
  pub handed : List ℕ

-- What accept4 gives: a descriptor and its peer; EMFILE or ENFILE; any other error.
pub data Accepted : Type 0 where
  accepted : ℕ → ℕ → Accepted
  exhausted failed : Accepted

-- `close`
abbrev pub remove_fd : ℕ → List ℕ → List ℕ
remove_fd n [] = []
remove_fd n (x ∷ xs) = if x == n then xs else x ∷ remove_fd n xs

abbrev pub has_fd : ℕ → List ℕ → Bool
has_fd n [] = false
has_fd n (x ∷ xs) = if x == n then true else has_fd n xs

abbrev pub has_room : Acceptor → Bool
has_room a = ltb (length a.fds) a.limit

-- `~ScopedFd`, and the assignment of an empty socket.
abbrev pub close_fd : Acceptor → Option ℕ → Acceptor
close_fd a none = a
close_fd a (some fd) = record a { fds = remove_fd fd a.fds }

module _ (pick : List ℕ → ℕ) where
  abbrev pub take_backlog : Acceptor → List ℕ → Acceptor × Accepted
  take_backlog a [] = (a, failed)
  take_backlog a (peer ∷ peers) =
      (record a { fds = pick a.fds ∷ a.fds; backlog = peers }, accepted (pick a.fds) peer)

  -- A descriptor is looked for first. `interrupted` is an error that is to be tried again.
  unfoldable pub accept : Bool → Acceptor → Acceptor × Accepted
  accept interrupted a =
      if has_room a
      then if interrupted then (a, failed) else take_backlog a a.backlog
      else (a, exhausted)

  abbrev pub handle_connect_callback : Acceptor → ℕ → ℕ → Acceptor
  handle_connect_callback a fd peer = record a {
    others = fd ∷ a.others;
    handed = a.handed ++ peer ∷ [];
  }

  -- on_read up to accept_idle_connection.
  abbrev pub after_accept : Acceptor × Accepted → Acceptor
  after_accept (a, accepted fd peer) = handle_connect_callback a fd peer
  after_accept (a, exhausted) = record a { phase = closing }
  after_accept (a, failed) = a

  unfoldable pub accept_connection : Bool → Acceptor → Acceptor
  accept_connection interrupted a = after_accept (accept interrupted a)

  unfoldable pub close_idle : Acceptor → Acceptor
  close_idle a = record (close_fd a a.idle_fd) { idle_fd = none; phase = retrying }

  -- The socket that is accepted is closed at the end of its block.
  abbrev pub drop_accepted : Acceptor × Accepted → Acceptor
  drop_accepted (a, accepted fd peer) = close_fd a (some fd)
  drop_accepted (a, exhausted) = a
  drop_accepted (a, failed) = a

  unfoldable pub retry_accept : Bool → Acceptor → Acceptor
  retry_accept interrupted a = record (drop_accepted (accept interrupted a)) { phase = reopening }

  -- `open("/dev/null")`
  unfoldable pub reopen_idle : Acceptor → Acceptor
  reopen_idle a =
      if has_room a
      then record a { fds = pick a.fds ∷ a.fds; idle_fd = some (pick a.fds); phase = waiting }
      else record a { phase = waiting }

  abbrev pub accept_idle_connection : Bool → Acceptor → Acceptor
  accept_idle_connection interrupted a = reopen_idle (retry_accept interrupted (close_idle a))

  abbrev pub recover : Phase → Bool → Acceptor → Acceptor
  recover closing interrupted a = accept_idle_connection interrupted a
  recover waiting interrupted a = a
  recover retrying interrupted a = a
  recover reopening interrupted a = a

  -- The whole of on_read, with no other thread in between.
  unfoldable pub on_read : Bool → Bool → Acceptor → Acceptor
  on_read interrupted interrupted_again a =
      let b = accept_connection interrupted a in recover b.phase interrupted_again b

  pub data Step : Acceptor → Acceptor → Type 0 where
    accepts :
        (a : Acceptor) (interrupted : Bool)
        → a.phase ≡ waiting
        → Step a (accept_connection interrupted a)
    closes : (a : Acceptor) → a.phase ≡ closing → Step a (close_idle a)
    retries :
        (a : Acceptor) (interrupted : Bool)
        → a.phase ≡ retrying
        → Step a (retry_accept interrupted a)
    reopens : (a : Acceptor) → a.phase ≡ reopening → Step a (reopen_idle a)
    arrives : (a : Acceptor) (peer : ℕ) → Step a (record a { backlog = a.backlog ++ peer ∷ [] })
    resets :
        (a : Acceptor) (peer : ℕ) (peers : List ℕ)
        → a.backlog ≡ peer ∷ peers
        → Step a (record a { backlog = peers })
    others_open :
        (a : Acceptor)
        → has_room a ≡ true
        → Step a (record a { fds = pick a.fds ∷ a.fds; others = pick a.fds ∷ a.others })
    others_close :
        (a : Acceptor) (fd : ℕ)
        → has_fd fd a.others ≡ true
        → Step a (record a { fds = remove_fd fd a.fds; others = remove_fd fd a.others })

  -- Behind the constructor: the listening socket, and the idle one if it could be opened.
  pub data Reach (start : Acceptor) : Acceptor → Type 0 where
    here : Reach start start
    next : {a b : Acceptor} → Reach start a → Step a b → Reach start b
