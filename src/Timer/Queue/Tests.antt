-- ===== src/Timer/Queue/Tests.antt =====
-- Timer/Queue at concrete inputs.
use tudou.Prelude.{
  ℕ, suc, ◌*◌, ◌≡◌, ◌⊎◌, ◌≤◌, refl, List, [], ◌∷◌, some, arith, if◌then◌else◌, ◌==◌, lookup, insert,
  erase,
}
use tudou.Timer.Queue.{
  TimerQueue, Command, add, remove, new_queue, on_timerfd_read, erase_timer, command, sync_timerfd,
  run_expired, collect, add_timer, set_insert, run_timer, after_run, run_callback, set_erase,
}
use tudou.Timer.Queue.Valid.{IsValid, new_queue-IsValid}
use tudou.Timer.Queue.Expires.{expires}
use tudou.Timer.Queue.Runs.{count, on_timerfd_read_at_most}
use tudou.Timer.Queue.Due.{on_timerfd_read_runs_due}
use tudou.Timer.Queue.Live.{
  Event, asks, fires, Arms, events, events-IsValid, events-Arms, erased_never_runs,
}

abbrev clock : ℕ → ℕ
clock k = k * 100

abbrev same_address : ℕ → ℕ
same_address i = i

-- The callback 1 cancels the timer 2.
abbrev calls : ℕ → TimerQueue → List Command
calls callback q = if callback == 1 then remove 2 ∷ [] else []

abbrev no_calls : ℕ → TimerQueue → List Command
no_calls callback q = []

abbrev three : List Event
three = asks (add (some 1) 120 0) ∷ asks (add (some 2) 130 0) ∷ asks (add (some 3) 120 1000) ∷ []

abbrev busy : TimerQueue
busy = events same_address clock calls new_queue three

busy-IsValid : IsValid busy
busy-IsValid = events-IsValid same_address clock calls three new_queue-IsValid

-- The timers 1 and 3 run, 2 is cancelled by the callback of 1, and 3 starts again.
cancelled_in_time : (on_timerfd_read same_address clock calls busy).ran ≡ 1 ∷ 3 ∷ []
unfolding on_timerfd_read sync_timerfd run_expired collect command add_timer set_insert run_timer
    lookup insert after_run run_callback erase_timer set_erase erase
cancelled_in_time = refl

events-IsValid_example :
    IsValid (events same_address clock calls new_queue (asks (add (some 1) 120 0) ∷ fires ∷ []))
events-IsValid_example =
    events-IsValid same_address clock calls (asks (add (some 1) 120 0) ∷ fires ∷ [])
      new_queue-IsValid

on_timerfd_read_at_most_example :
    let after = on_timerfd_read same_address clock calls busy in
    (count 3 after.ran ≡ count 3 busy.ran)
    ⊎ ((count 3 after.ran ≡ suc (count 3 busy.ran))
        × (u : ℕ) × (expires 3 busy.timers_by_id ≡ some u)
        × (u ≤ clock busy.reads))
on_timerfd_read_at_most_example =
    on_timerfd_read_at_most same_address clock calls busy 3 busy-IsValid

abbrev calm : TimerQueue
calm = events same_address clock no_calls new_queue three

on_timerfd_read_runs_due_example :
    count 2 (on_timerfd_read same_address clock no_calls calm).ran ≡ suc (count 2 calm.ran)
unfolding sync_timerfd command add_timer set_insert lookup insert expires
on_timerfd_read_runs_due_example =
    on_timerfd_read_runs_due same_address clock no_calls (λ callback q. refl) calm 2 130
      (events-IsValid same_address clock no_calls three new_queue-IsValid) refl (omega arith)

events-Arms_example :
    Arms clock
      (events same_address clock calls (command same_address clock new_queue (remove 4)) three)
events-Arms_example = events-Arms same_address clock calls three (asks (remove 4)) new_queue-IsValid

erased_never_runs_example :
    count 3
      (events same_address clock calls
        (erase_timer same_address clock busy 3)
        (fires ∷ fires ∷ [])).ran
    ≡ count 3 busy.ran
unfolding sync_timerfd command add_timer set_insert
erased_never_runs_example =
    erased_never_runs same_address clock calls busy 3 (fires ∷ fires ∷ []) (omega arith)
