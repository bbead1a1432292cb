-- ===== src/LongTasks.antt =====
-- The long-task service (src/store/long-tasks.ts): tasks that plugins create, their receipts, and
-- the theorems about them.
pub mod Rows
pub mod Write
pub mod Create
pub mod Due
pub mod Invariant
pub mod Completing
pub mod Timers
pub mod Service
pub mod Once
pub mod Quota
pub mod Read
mod Tests
mod ReadTests
