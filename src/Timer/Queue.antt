-- ===== src/Timer/Queue.antt =====
-- src/tudou/timer/Timer.cpp and TimerQueue.cpp, on the thread of the event loop.
-- A timer is known by its id; times are nanoseconds of the steady clock. The clock is a parameter,
-- its `k`-th reading is `now k`; so are the addresses that order timers of one time, and what the
-- callbacks ask of the queue.
pub mod Entries
pub mod Live
pub mod Expires
pub mod Valid
pub mod Runs
pub mod Due
mod Tests
use tudou.Prelude.{
  ℕ, suc, ◌+◌, ◌-◌, ◌*◌, ◌/◌, Bool, true, false, not, ◌&&◌, ◌||◌, List, [], ◌∷◌, ◌++◌, Option, none,
  some, if◌then◌else◌, ltb, ◌==◌, lookup, insert, erase, number_eq,
}

pub record Timer : Type 0 where
  pub callback : Option ℕ
  pub expiration : ℕ
  pub interval : ℕ

abbrev pub is_repeat : Timer → Bool
is_repeat timer = ltb 0 timer.interval

-- `timespec`
pub record Timespec : Type 0 where
  pub tv_sec : ℕ
  pub tv_nsec : ℕ

-- A deadline that has passed gives a negative duration, which is raised to a millisecond as 0 is.
unfoldable pub to_timespec : ℕ → Timespec
to_timespec duration =
    let d = if ltb duration 1000000 then 1000000 else duration in
    record { tv_sec = d / 1000000000; tv_nsec = d - d / 1000000000 * 1000000000 }

-- `armed` is the setting of the timerfd; `reads` counts the readings of the clock, and `ran` lists
-- the timers whose `run` was called.
pub record TimerQueue : Type 0 where
  pub next_timer_id : ℕ
  pub expire_set : List (ℕ × ℕ)
  pub timers_by_id : List (ℕ × Timer)
  pub armed : Option Timespec
  pub reads : ℕ
  pub ran : List ℕ

abbrev pub new_queue : TimerQueue
new_queue = record {
  next_timer_id = 1;
  expire_set = [];
  timers_by_id = [];
  armed = none;
  reads = 0;
  ran = [];
}

-- What a callback does with the queue.
pub data Command : Type 0 where
  add : Option ℕ → ℕ → ℕ → Command
  remove : ℕ → Command

-- `expireSet_.erase`
unfoldable pub set_erase : ℕ → ℕ → List (ℕ × ℕ) → List (ℕ × ℕ)
set_erase t i [] = []
set_erase t i ((u, j) ∷ s) = if (u == t) && (j == i) then s else (u, j) ∷ set_erase t i s

-- The loop that collects the expired timers: their ids, and what stays in the set.
unfoldable pub collect : ℕ → List (ℕ × ℕ) → List ℕ × List (ℕ × ℕ)
collect n [] = ([], [])
collect n ((t, i) ∷ s) =
    let (due, rest) = collect n s in if ltb n t then ([], (t, i) ∷ s) else (i ∷ due, rest)

module _ (address : ℕ → ℕ) where
  -- `expireSet_.insert`: pairs are ordered by time, then by pointer.
  unfoldable pub set_insert : ℕ → ℕ → List (ℕ × ℕ) → List (ℕ × ℕ)
  set_insert t i [] = (t, i) ∷ []
  set_insert t i ((u, j) ∷ s) =
      if ltb u t || ((u == t) && ltb (address j) (address i))
      then (u, j) ∷ set_insert t i s
      else if (u == t) && (j == i)
      then (u, j) ∷ s
      else (t, i) ∷ (u, j) ∷ s

module _ (address now : ℕ → ℕ) where
  -- `sync_timerfd` with the entries of the set.
  abbrev pub arm : List (ℕ × ℕ) → TimerQueue → TimerQueue
  arm [] q = record q { armed = none }
  arm ((t, i) ∷ s) q = record q {
    armed = some (to_timespec (t - now q.reads));
    reads = suc q.reads;
  }

  unfoldable pub sync_timerfd : TimerQueue → TimerQueue
  sync_timerfd q = arm q.expire_set q

  unfoldable pub add_timer : TimerQueue → Option ℕ → ℕ → ℕ → ℕ × TimerQueue
  add_timer q callback when interval =
      let id = q.next_timer_id in
      (
        id,
        sync_timerfd (record q {
          next_timer_id = suc q.next_timer_id;
          expire_set = set_insert address when id q.expire_set;
          timers_by_id =
              insert id (record { callback = callback; expiration = when; interval = interval })
                q.timers_by_id;
        }),
      )

  unfoldable pub erase_timer : TimerQueue → ℕ → TimerQueue
  erase_timer q id = sync_timerfd (elim (lookup id q.timers_by_id) [
    | none ↦ q
    | some timer ↦ record q {
      expire_set = set_erase timer.expiration id q.expire_set;
      timers_by_id = erase id q.timers_by_id;
    }
  ])

  unfoldable pub command : TimerQueue → Command → TimerQueue
  command q (add callback when interval) = (add_timer q callback when interval).1
  command q (remove id) = erase_timer q id

  abbrev pub commands : TimerQueue → List Command → TimerQueue
  commands q [] = q
  commands q (c ∷ cs) = commands (command q c) cs

  -- Behind the callback of a timer: it may have been cancelled, it is done, or it starts again.
  unfoldable pub after_run : TimerQueue → ℕ → Timer → TimerQueue
  after_run q id timer = elim (lookup id q.timers_by_id) [
    | none ↦ q
    | some _ ↦
        let t = now q.reads in
        if not (is_repeat timer)
        then record q { timers_by_id = erase id q.timers_by_id }
        else record q {
          reads = suc q.reads;
          timers_by_id =
              insert id (record timer { expiration = t + timer.interval }) q.timers_by_id;
          expire_set = set_insert address (t + timer.interval) id q.expire_set;
        }
  ]

  module _ (calls : ℕ → TimerQueue → List Command) where
    -- `Timer::run`: a timer without a callback does nothing.
    unfoldable pub run_callback : TimerQueue → Option ℕ → TimerQueue
    run_callback q none = q
    run_callback q (some callback) = commands q (calls callback q)

    unfoldable pub run_timer : TimerQueue → ℕ → TimerQueue
    run_timer q id = elim (lookup id q.timers_by_id) [
      | none ↦ q
      | some timer ↦
          after_run (run_callback (record q { ran = q.ran ++ id ∷ [] }) timer.callback) id timer
    ]

    unfoldable pub run_expired : TimerQueue → List ℕ → TimerQueue
    run_expired q [] = q
    run_expired q (id ∷ ids) = run_expired (run_timer q id) ids

    unfoldable pub on_timerfd_read : TimerQueue → TimerQueue
    on_timerfd_read q =
        let (due, rest) = collect (now q.reads) q.expire_set in
        sync_timerfd (run_expired (record q { expire_set = rest; reads = suc q.reads }) due)
