-- ===== src/Thinking.antt =====
-- Thinking levels of models (src/platform/thinking-levels.ts).
pub mod Levels
pub mod Agreement
mod Tests
