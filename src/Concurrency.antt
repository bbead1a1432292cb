-- ===== src/Concurrency.antt =====
-- The semaphores of src/platform/concurrency.ts and the theorems about them.
pub mod Semaphore
pub mod Invariant
pub mod Fairness
mod Tests
