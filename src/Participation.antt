-- ===== src/Participation.antt =====
-- Scheduled participation in chats (src/platform/participation.ts).
pub mod Windows
pub mod Schedule
pub mod Rules
pub mod Triggers
pub mod Compiling
pub mod Gate
pub mod Deciding
mod Tests
mod GateTests
