-- ===== src/Sleep.antt =====
-- The bot's sleep and its daily token budget (src/store/sleep.ts).
pub mod State
pub mod Budget
mod Tests
