-- ===== src/Context.antt =====
-- The Conversation Context (src/context): its garbage collection, its store, and its references.
pub mod Gc
pub mod Collecting
pub mod Newest
pub mod Renderable
pub mod Tables
pub mod Store
pub mod Eviction
pub mod Refs
pub mod Authorization
pub mod Applying
mod StoreTests
mod Tests
