-- ===== src/Timer.antt =====
-- src/tudou/timer: timers and the queue that runs them.
pub mod Queue
