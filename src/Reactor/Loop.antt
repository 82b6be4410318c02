-- ===== src/Reactor/Loop.antt =====
-- src/tudou/reactor/EventLoop.h and EventLoop.cpp: tasks for a loop, from its thread and from others.
-- A functor is a number, an empty one is none. The loop and the other threads take turns at the
-- steps of `Step`; an other thread may stop between the push of queue_in_loop and its wakeup.
pub mod Wakeup
mod Tests
use tudou.Prelude.{
  ℕ, zero, suc, ◌+◌, ◌-◌, ◌^◌, Bool, true, false, not, ◌||◌, ◌≡◌, List, [], ◌∷◌, ◌++◌, Option, none,
  some, if◌then◌else◌, ltb,
}

-- Where the thread of the loop stands: it has not called loop() yet, it is in the body of loop()
-- (`testing` is before the test of `isQuit_`), or it has come back from it.
pub data Phase : Type 0 where
  before testing polling handling calling finished : Phase

-- `wakeups` is the counter of the eventfd. `functors` is the local queue of do_pending_functors.
-- `owed` counts the wakeups that other threads have still to make; `queued` and `called` are the
-- functors that were pushed and those that were popped and called, in order, `direct` those that
-- run_in_loop called at once. `silent` counts the functors in `pending_functors` that the loop's own
-- thread queued outside of loop().
pub record EventLoop : Type 0 where
  pub phase : Phase
  pub is_quit : Bool
  pub is_calling_pending_functors : Bool
  pub pending_functors : List ℕ
  pub functors : List ℕ
  pub wakeups : ℕ
  pub owed : ℕ
  pub queued : List ℕ
  pub called : List ℕ
  pub direct : List ℕ
  pub silent : ℕ

abbrev pub new_loop : EventLoop
new_loop = record {
  phase = before;
  is_quit = false;
  is_calling_pending_functors = false;
  pending_functors = [];
  functors = [];
  wakeups = 0;
  owed = 0;
  queued = [];
  called = [];
  direct = [];
  silent = 0;
}

-- The largest counter of an eventfd: a write above it fails, and is logged.
abbrev pub max_wakeups : ℕ
max_wakeups = 2 ^ 64 - 2

unfoldable pub wakeup : EventLoop → EventLoop
wakeup e = record e { wakeups = if ltb e.wakeups max_wakeups then e.wakeups + 1 else e.wakeups }

-- A read of the eventfd takes the whole counter.
unfoldable pub on_read : EventLoop → EventLoop
on_read e = record e { wakeups = 0 }

abbrev pub push : EventLoop → ℕ → EventLoop
push e f = record e { pending_functors = e.pending_functors ++ f ∷ []; queued = e.queued ++ f ∷ [] }

-- What follows the push.
abbrev pub after_push : Bool → EventLoop → EventLoop
after_push in_loop_thread e =
    if not in_loop_thread || e.is_calling_pending_functors then wakeup e else e

unfoldable pub queue_in_loop : Bool → EventLoop → Option ℕ → EventLoop
queue_in_loop in_loop_thread e none = e
queue_in_loop in_loop_thread e (some f) = after_push in_loop_thread (push e f)

unfoldable pub run_in_loop : Bool → EventLoop → Option ℕ → EventLoop
run_in_loop in_loop_thread e none = e
run_in_loop in_loop_thread e (some f) =
    if in_loop_thread
    then record e { direct = e.direct ++ f ∷ [] }
    else queue_in_loop in_loop_thread e (some f)

unfoldable pub quit : Bool → EventLoop → EventLoop
quit true e = record e { is_quit = true }
quit false e = wakeup (record e { is_quit = true })

-- do_pending_functors up to its loop, one round of the loop, and its end.
unfoldable pub take_functors : EventLoop → EventLoop
take_functors e = record e {
  phase = calling;
  is_calling_pending_functors = true;
  functors = e.pending_functors;
  pending_functors = [];
  silent = 0;
}

unfoldable pub call_front : EventLoop → ℕ → List ℕ → EventLoop
call_front e f fs = record e { functors = fs; called = e.called ++ f ∷ [] }

unfoldable pub functors_done : EventLoop → EventLoop
functors_done e = record e { phase = testing; is_calling_pending_functors = false }

-- The condition of the loop.
unfoldable pub test_quit : EventLoop → EventLoop
test_quit e = record e { phase = if e.is_quit then finished else polling }

-- loop() up to its first test.
unfoldable pub enter_loop : EventLoop → EventLoop
enter_loop e = record e { phase = testing }

-- The thread of the loop runs callbacks of channels and functors.
abbrev pub in_callbacks : Phase → Bool
in_callbacks before = false
in_callbacks testing = false
in_callbacks polling = false
in_callbacks handling = true
in_callbacks calling = true
in_callbacks finished = false

-- The thread of the loop is not in loop().
abbrev pub outside_loop : Phase → Bool
outside_loop before = true
outside_loop testing = false
outside_loop polling = false
outside_loop handling = false
outside_loop calling = false
outside_loop finished = true

-- The thread of the loop runs code of its client, in a callback or outside of loop().
abbrev pub in_client : Phase → Bool
in_client p = in_callbacks p || outside_loop p

pub data Step : EventLoop → EventLoop → Type 0 where
  enters : (e : EventLoop) → e.phase ≡ before → Step e (enter_loop e)
  tests : (e : EventLoop) → e.phase ≡ testing → Step e (test_quit e)
  polls : (e : EventLoop) → e.phase ≡ polling → Step e (record e { phase = handling })
  reads_wakeup : (e : EventLoop) → e.phase ≡ handling → Step e (on_read e)
  takes : (e : EventLoop) → e.phase ≡ handling → Step e (take_functors e)
  calls :
      (e : EventLoop) (f : ℕ) (fs : List ℕ)
      → e.phase ≡ calling
      → e.functors ≡ f ∷ fs
      → Step e (call_front e f fs)
  ends : (e : EventLoop) → e.phase ≡ calling → e.functors ≡ [] → Step e (functors_done e)
  queues_here :
      (e : EventLoop) (f : Option ℕ) → in_callbacks e.phase ≡ true → Step e (queue_in_loop true e f)
  queues_outside :
      (e : EventLoop) (f : ℕ)
      → outside_loop e.phase ≡ true
      → Step e (record (queue_in_loop true e (some f)) { silent = suc e.silent })
  runs_here :
      (e : EventLoop) (f : Option ℕ) → in_client e.phase ≡ true → Step e (run_in_loop true e f)
  quits_here : (e : EventLoop) → in_client e.phase ≡ true → Step e (quit true e)
  pushes_elsewhere : (e : EventLoop) (f : ℕ) → Step e (record (push e f) { owed = suc e.owed })
  quits_elsewhere : (e : EventLoop) → Step e (record e { is_quit = true; owed = suc e.owed })
  wakes_elsewhere :
      (e : EventLoop) (n : ℕ) → e.owed ≡ suc n → Step e (record (after_push false e) { owed = n })

pub data Reach : EventLoop → Type 0 where
  start : Reach new_loop
  next : {e e' : EventLoop} → Reach e → Step e e' → Reach e'
