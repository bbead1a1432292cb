-- ===== src/Sleep/Tests.antt =====
-- A sleep entered an hour before midnight UTC, and a budget of a thousand tokens.
use plastic_wan.Base.{
  ℕ, ◌+◌, ◌≤◌, ◌/◌, ◌<◌, ◌≡◌, ◌⊎◌, refl, true, false, Option, none, some, ltb, if◌then◌else◌,
}
use plastic_wan.Sleep.State.{
  SleepRow, SleepTransition, DailyTokenBudget, active_sleep_until, next_reset_at, enter_sleep,
  fall_asleep,
}
use plastic_wan.Sleep.Budget.{enter_sleep-lem}

abbrev evening : ℕ
evening = 82800000

abbrev budget : DailyTokenBudget
budget = record { used_tokens = 951; max_tokens = 1000 }

abbrev entered : Option SleepRow × SleepTransition
entered = enter_sleep evening none

enter_sleep-lem_example :
    ((active_sleep_until 90000000 (entered.0)).1
      ≡ (if ltb 90000000 entered.1.sleep_until then some entered.1.sleep_until else none))
    × (evening < entered.1.sleep_until)
    × (((entered.1.entered ≡ true)
          × (evening + 28800000 ≤ entered.1.sleep_until)
          × (evening / 86400000 < entered.1.sleep_until / 86400000)
          × (entered.1.sleep_until ≤ evening + 86400000))
        ⊎ ((entered.1.entered ≡ false) × (entered.0 ≡ none)))
enter_sleep-lem_example = enter_sleep-lem evening 90000000 none

-- Eight hours count from the clock where midnight comes sooner.
until_morning : entered.1.sleep_until ≡ 111600000
unfolding enter_sleep fall_asleep next_reset_at
until_morning = refl
