-- ===== src/Tcp/Heartbeat.antt =====
-- src/tudou/tcp/ConnectionHeartbeat.cpp: the idle timeout of a connection, by a timer of its loop.
pub mod Timers
pub mod Single
mod Tests
use tudou.Prelude.{
  ℕ, zero, suc, ◌+◌, ◌-◌, ◌/◌, Bool, true, false, ◌&&◌, not, ltb, Option, none, some, if◌then◌else◌,
  ◌==◌,
}
use tudou.Timer.Queue.{TimerQueue}
use tudou.Reactor.Timers.{Millis, no_timer, ns_per_ms, run_every, cancel, read_clock}

-- The two times are given with whether they are above zero; `callback` is the function that the
-- timer calls, and `conn_alive` says whether the weak pointer can be locked. `force_closes` counts
-- the calls of force_close.
pub record Heartbeat : Type 0 where
  pub callback : ℕ
  pub check_interval : Millis
  pub check_interval_positive : Bool
  pub idle_timeout_ms : ℕ
  pub idle_timeout_positive : Bool
  pub last_active_time : ℕ
  pub timer_id : ℕ
  pub conn_alive : Bool
  pub running : Bool
  pub force_closes : ℕ

-- A heartbeat with the timers of its loop.
pub record Beating : Type 0 where
  pub heartbeat : Heartbeat
  pub timers : TimerQueue

module _ (address now : ℕ → ℕ) where
  abbrev pub cancelled : Beating → ℕ → Beating
  cancelled b zero = record b { heartbeat = record b.heartbeat { running = false } }
  cancelled b (suc id) = record {
    heartbeat = record b.heartbeat { running = false; timer_id = no_timer };
    timers = cancel address now b.timers (suc id);
  }

  unfoldable pub stop : Beating → Beating
  stop b = cancelled b b.heartbeat.timer_id

  abbrev pub started : Beating → Beating
  started b =
      let (t, q) = read_clock address now b.timers in
      let (id, r) =
        run_every address now q (some b.heartbeat.callback) b.heartbeat.check_interval in
      record {
        heartbeat = record b.heartbeat { last_active_time = t; timer_id = id; running = true };
        timers = r;
      }

  abbrev pub start_stopped : Beating → Beating
  start_stopped b =
      if b.heartbeat.check_interval_positive && b.heartbeat.idle_timeout_positive
      then started b
      else b

  unfoldable pub start : Beating → Beating
  start b = start_stopped (if b.heartbeat.running then stop b else b)

  unfoldable pub refresh : Beating → Beating
  refresh b =
      let (t, q) = read_clock address now b.timers in
      record { heartbeat = record b.heartbeat { last_active_time = t }; timers = q }

  -- The milliseconds are cut down to whole ones.
  abbrev pub is_timeout : Heartbeat → ℕ → Bool
  is_timeout h t = not (ltb ((t - h.last_active_time) / ns_per_ms) h.idle_timeout_ms)

  abbrev pub check_alive : Beating → Beating
  check_alive b =
      let (t, q) = read_clock address now b.timers in
      let h = b.heartbeat in
      record {
        heartbeat = if is_timeout h t then record h { force_closes = h.force_closes + 1 } else h;
        timers = q;
      }

  unfoldable pub check_timeout : Beating → Beating
  check_timeout b =
      if b.heartbeat.running then if b.heartbeat.conn_alive then check_alive b else stop b else b
