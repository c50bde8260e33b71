-- ===== src/Monitor/Loop.antt =====
-- monitor/scheduler.go: the event loop of `Run`. An iteration is `prepare`, which starts the rounds
-- that are due, and then `handle` on the event that `select` takes. The workers are outside: they
-- turn a task that was sent into a result. Each step reads the clock once, as `now`.
pub mod Refresh
pub mod Rounds
pub mod Events
pub mod Bounded
