-- ===== src/Conversation.antt =====
-- The runtime state of conversations (src/orchestration/conversation-runtime.ts).
pub mod Runtime
pub mod Cache
pub mod Eviction
pub mod Injections
mod Tests
