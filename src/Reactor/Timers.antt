-- ===== src/Reactor/Timers.antt =====
-- src/tudou/reactor/EventLoop.cpp: the timers of a loop, which its TimerQueue keeps.
-- A number of seconds, a double, stands for the milliseconds that duration_cast makes of it.
use tudou.Prelude.{ℕ, zero, suc, ◌+◌, ◌*◌, Option}
use tudou.Timer.Queue.{TimerQueue, add_timer, erase_timer}

-- `below` is any number of milliseconds below zero.
pub data Millis : Type 0 where
  below : Millis
  millis : ℕ → Millis

-- `TimerId`: zero is none.
abbrev pub no_timer : ℕ
no_timer = 0

abbrev pub ns_per_ms : ℕ
ns_per_ms = 1000000

-- A delay below zero is none; an interval is a millisecond at least.
abbrev pub delay_of : Millis → ℕ
delay_of below = 0
delay_of (millis n) = n

abbrev pub interval_of : Millis → ℕ
interval_of below = 1
interval_of (millis zero) = 1
interval_of (millis (suc n)) = suc n

module _ (address now : ℕ → ℕ) where
  -- A reading of the clock.
  abbrev pub read_clock : TimerQueue → ℕ × TimerQueue
  read_clock q = (now q.reads, record q { reads = suc q.reads })

  unfoldable pub run_at : TimerQueue → Option ℕ → ℕ → ℕ × TimerQueue
  run_at q callback when = add_timer address now q callback when 0

  unfoldable pub run_after : TimerQueue → Option ℕ → Millis → ℕ × TimerQueue
  run_after q callback delay =
      let (t, r) = read_clock q in
      add_timer address now r callback (t + delay_of delay * ns_per_ms) 0

  unfoldable pub run_every : TimerQueue → Option ℕ → Millis → ℕ × TimerQueue
  run_every q callback interval =
      let (t, r) = read_clock q in
      let ns = interval_of interval * ns_per_ms in add_timer address now r callback (t + ns) ns

  unfoldable pub cancel : TimerQueue → ℕ → TimerQueue
  cancel q zero = q
  cancel q (suc id) = erase_timer address now q (suc id)
