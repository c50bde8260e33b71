-- ===== src/Monitor.antt =====
-- Package monitor: the latency monitor that measures proxies and decides when to switch.
pub mod Model
pub mod Window
pub mod Policy
pub mod Decide
pub mod Alert
pub mod Steady
pub mod Streams
pub mod Scheduler
pub mod Loop
mod Tests
