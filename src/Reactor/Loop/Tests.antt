-- ===== src/Reactor/Loop/Tests.antt =====
-- Reactor/Loop at a concrete run: another thread queues a task while the loop is about to poll.
use tudou.Prelude.{false, true, ◌<◌, ◌≡◌, refl, [], ◌∷◌, ◌++◌, some, length}
use tudou.Reactor.Loop.{
  EventLoop, new_loop, polling, handling, push, after_push, wakeup, enter_loop, test_quit,
  take_functors, call_front, queue_in_loop, enters, queues_outside, tests, polls, takes, calls,
  queues_here, pushes_elsewhere, wakes_elsewhere, Reach, start, next,
}
use tudou.Reactor.Loop.Wakeup.{Reach_wakes, Reach_in_order}

abbrev waiting : EventLoop
unfolding enter_loop test_quit wakeup
waiting =
    record (after_push false (record (push (test_quit (enter_loop new_loop)) 7) { owed = 1 })) {
      owed = 0;
    }

waiting_reached : Reach waiting
unfolding enter_loop test_quit wakeup
waiting_reached =
    next
      (next (next (next start (enters new_loop refl)) (tests (enter_loop new_loop) refl))
        (pushes_elsewhere (test_quit (enter_loop new_loop)) 7))
      (wakes_elsewhere _ 0 refl)

Reach_wakes_example :
    (waiting.silent < length waiting.pending_functors → 0 < waiting.wakeups)
    × (waiting.is_quit ≡ true → 0 < waiting.wakeups)
unfolding enter_loop test_quit wakeup
Reach_wakes_example = Reach_wakes waiting_reached refl refl

-- A task that the loop's own thread queues before loop() does not wake it: poll waits.
abbrev early : EventLoop
unfolding queue_in_loop
early = record (queue_in_loop true new_loop (some 5)) { silent = 1 }

early_reached : Reach (test_quit (enter_loop early))
unfolding queue_in_loop enter_loop test_quit
early_reached =
    next (next (next start (queues_outside new_loop 5 refl)) (enters early refl))
      (tests (enter_loop early) refl)

early_asleep :
    ((test_quit (enter_loop early)).phase ≡ polling)
    × ((test_quit (enter_loop early)).pending_functors ≡ 5 ∷ [])
    × ((test_quit (enter_loop early)).wakeups ≡ 0)
unfolding queue_in_loop enter_loop test_quit
early_asleep = (refl, refl, refl)

abbrev polled : EventLoop
unfolding enter_loop test_quit wakeup
polled = record waiting { phase = handling }

-- The task queues another one while it runs.
abbrev busy : EventLoop
unfolding enter_loop test_quit wakeup take_functors call_front queue_in_loop
busy = queue_in_loop true (call_front (take_functors polled) 7 []) (some 8)

Reach_in_order_example : busy.called ++ (busy.functors ++ busy.pending_functors) ≡ busy.queued
unfolding enter_loop test_quit wakeup take_functors call_front queue_in_loop
Reach_in_order_example = Reach_in_order (
    next
      (next (next (next waiting_reached (polls waiting refl)) (takes polled refl))
        (calls (take_functors polled) 7 [] refl refl))
      (queues_here (call_front (take_functors polled) 7 []) (some 8) refl))
