-- ===== src/Queue.antt =====
-- The invocation queue and the scheduler (src/orchestration/invocation-queue.ts,
-- src/orchestration/scheduler.ts), and the snapshots of src/store/invocation-snapshot.ts.
pub mod Tables
pub mod Snapshot
pub mod Insert
pub mod Due
pub mod Receipts
pub mod Clearing
pub mod Release
pub mod Recovery
pub mod Scheduler
pub mod Keys
pub mod Counting
pub mod Sound
pub mod Ending
pub mod Starting
pub mod Expiring
pub mod Restarting
pub mod Finishing
pub mod Delivering
pub mod Routes
pub mod Gates
pub mod Passing
pub mod Launching
pub mod Retiring
pub mod Dropping
pub mod Actions
pub mod Steps
pub mod Bounds
pub mod Recovered
pub mod Samples
mod Tests
mod StateTests
mod CollectTests
pub mod Closing
pub mod Draining
pub mod Delay
pub mod Pause
pub mod Placing
pub mod Keeping
pub mod Advancing
pub mod Carrying
pub mod Silencing
pub mod CatchUp
pub mod CaughtUp
pub mod Collect
pub mod Adopting
pub mod Collected
