-- ===== src/Subscriptions.antt =====
-- Package subscriptions: what refreshes the subscriptions in the background.
pub mod Due
pub mod Model
pub mod Store
pub mod Refresh
pub mod Activate
pub mod Operations
mod Tests
pub mod Scheduler
