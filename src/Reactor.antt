-- ===== src/Reactor.antt =====
-- src/tudou/reactor: the channels of file descriptors, and the poller that finds the ready ones.
pub mod Channel
pub mod Poller
pub mod ThreadPool
pub mod Loop
pub mod Timers
mod Tests
