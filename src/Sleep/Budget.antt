-- ===== src/Sleep/Budget.antt =====
-- What the sleep transition and the budget tests of src/store/sleep.ts mean.
use plastic_wan.Base.{
  ℕ, ◌+◌, ◌*◌, ◌/◌, ◌≤◌, ◌<◌, ◌≡◌, ◌↔◌, ◌⊎◌, inl, inr, Bool-cases, refl, true, false, Option, none,
  some, ltb, if◌then◌else◌, arith,
}
use plastic_wan.Sleep.State.{
  SleepRow, DailyTokenBudget, is_low_daily_token_budget, active_sleep_until, next_reset_at,
  fall_asleep, enter_sleep,
}

-- The budget is low exactly when there is one and more than 95 percent of it are used; so a budget
-- that is reached is low.
pub is_low_daily_token_budget_iff :
    (b : DailyTokenBudget)
    → (is_low_daily_token_budget b ≡ true)
      ↔ ((0 < b.max_tokens) × (b.max_tokens * 95 < b.used_tokens * 100))
unfolding is_low_daily_token_budget
is_low_daily_token_budget_iff b = ground arith

fall_asleep-lem :
    (now later : ℕ) (stored : Option SleepRow)
    → let after = (fall_asleep now).0 in
      let until = (fall_asleep now).1.sleep_until in
      ((active_sleep_until later after).1 ≡ (if ltb later until then some until else none))
      × (now < until)
      × (((true ≡ true)
            × (now + 28800000 ≤ until)
            × (now / 86400000 < until / 86400000)
            × (until ≤ now + 86400000))
          ⊎ ((true ≡ false) × (after ≡ stored)))
unfolding fall_asleep next_reset_at active_sleep_until
fall_asleep-lem now later stored =
    (ground arith, omega arith, inl (refl, omega arith, omega arith, omega arith))

-- After `enterSleep` the bot is asleep exactly until the time that it returns, which is later than
-- the clock; a sleep that it entered lasts at least eight hours, ends no earlier than the next UTC
-- day and within 24 hours; one that it did not enter is the one that was stored.
pub enter_sleep-lem :
    (now later : ℕ) (stored : Option SleepRow)
    → let after = (enter_sleep now stored).0 in
      let until = (enter_sleep now stored).1.sleep_until in
      ((active_sleep_until later after).1 ≡ (if ltb later until then some until else none))
      × (now < until)
      × ((((enter_sleep now stored).1.entered ≡ true)
            × (now + 28800000 ≤ until)
            × (now / 86400000 < until / 86400000)
            × (until ≤ now + 86400000))
          ⊎ (((enter_sleep now stored).1.entered ≡ false) × (after ≡ stored)))
unfolding enter_sleep fall_asleep next_reset_at active_sleep_until
enter_sleep-lem now later none = fall_asleep-lem now later none
enter_sleep-lem now later (some row) = elim (Bool-cases (ltb now row.value)) [
  | inl e ↦ rw e (ground arith, ground arith, inr (refl, refl))
  | inr e ↦ rw e (fall_asleep-lem now later (some row))
]
