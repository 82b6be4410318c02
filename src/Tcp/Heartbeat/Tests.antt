-- ===== src/Tcp/Heartbeat/Tests.antt =====
-- A heartbeat of src/tudou/tcp/ConnectionHeartbeat.cpp in a loop with another timer.
use tudou.Prelude.{
  ℕ, Bool, true, false, List, [], ◌∷◌, Option, none, some, ◌≡◌, refl, ◌+◌, ◌*◌, ap₂, arith,
}
use tudou.Timer.Queue.{new_queue, add_timer, sync_timerfd, set_insert, to_timespec}
use tudou.Reactor.Timers.{millis, run_every}
use tudou.Tcp.Heartbeat.{Beating, start, check_timeout}
use tudou.Tcp.Heartbeat.Single.{
  Operation, starts, refreshes, checks, conn_dies, others_add, others_cancel, IsSingle, operate_all,
  operate_all-IsSingle,
}

abbrev idle : Beating
idle = record {
  heartbeat = record {
    callback = 7;
    check_interval = millis 1000;
    check_interval_positive = true;
    idle_timeout_ms = 3000;
    idle_timeout_positive = true;
    last_active_time = 0;
    timer_id = 0;
    conn_alive = true;
    running = false;
    force_closes = 0;
  };
  timers = new_queue;
}

abbrev ticks : ℕ → ℕ
ticks k = k * 1000000000

abbrev history : List Operation
history =
    starts
    ∷ others_add (some 8) 5
    ∷ starts
    ∷ refreshes
    ∷ others_cancel 3
    ∷ checks
    ∷ checks
    ∷ conn_dies
    ∷ checks
    ∷ []

-- Each check past the timeout closes by force.
force_closes_again :
    (operate_all (λ i. i) ticks idle (starts ∷ checks ∷ checks ∷ [])).heartbeat.force_closes ≡ 2
unfolding start check_timeout run_every add_timer sync_timerfd set_insert to_timespec
force_closes_again = refl

idle-IsSingle : IsSingle idle
unfolding tudou.Prelude.lookup
idle-IsSingle = record { one = λ id. refl; known = refl; fresh = ground arith }

operate_all-IsSingle_example : IsSingle (operate_all (λ i. i) ticks idle history)
operate_all-IsSingle_example = operate_all-IsSingle (λ i. i) ticks history idle idle-IsSingle
