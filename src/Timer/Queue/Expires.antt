-- ===== src/Timer/Queue/Expires.antt =====
-- src/tudou/timer/TimerQueue.cpp: the expirations in the table by id.
use tudou.Prelude.{
  ℕ, ◌≡◌, refl, ap, Bool, true, false, List, Option, none, some, if◌then◌else◌, ◌==◌, lookup,
  insert, erase, lookup-insert, lookup-erase, number_eq,
}
use tudou.Timer.Queue.{Timer}
use tudou.Timer.Queue.Entries.{}

abbrev pub expiration_of : Option Timer → Option ℕ
expiration_of none = none
expiration_of (some timer) = some timer.expiration

unfoldable pub expires : ℕ → List (ℕ × Timer) → Option ℕ
expires j timers = expiration_of (lookup j timers)

pub expires_lem :
    (i : ℕ) (timers : List (ℕ × Timer)) {o : Option Timer}
    → lookup i timers ≡ o
    → expires i timers ≡ expiration_of o
unfolding expires
expires_lem i timers e = ap expiration_of e

pub expires-insert :
    (i j : ℕ) (timer : Timer) (timers : List (ℕ × Timer))
    → expires j (insert i timer timers)
      ≡ (if i == j then some timer.expiration else expires j timers)
unfolding expires
expires-insert i j timer timers = rw (lookup-insert i j timer timers) (spread (i == j))
  where
    spread :
        (b : Bool)
        → expiration_of (if b then some timer else lookup j timers)
          ≡ (if b then some timer.expiration else expiration_of (lookup j timers))
    spread true = refl
    spread false = refl

pub expires-erase :
    (i j : ℕ) (timers : List (ℕ × Timer))
    → expires j (erase i timers) ≡ (if i == j then none else expires j timers)
unfolding expires
expires-erase i j timers = rw (lookup-erase i j timers) (spread (i == j))
  where
    spread :
        (b : Bool)
        → expiration_of (if b then none else lookup j timers)
          ≡ (if b then none else expiration_of (lookup j timers))
    spread true = refl
    spread false = refl
