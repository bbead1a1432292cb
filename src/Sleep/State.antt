-- ===== src/Sleep/State.antt =====
-- The sleep state and the daily token budget (src/store/sleep.ts). The state is the row of
-- `app_state` under `bot_sleep_until`, if there is one. A time is a number of milliseconds since the
-- epoch, and a UTC day has 86,400,000 of them.
use Prim.Native.String.{String}
use text.Mathlib.Text.{◌==◌ as str_eq}
use plastic_wan.Base.{
  ℕ, ◌+◌, ◌-◌, ◌*◌, ◌/◌, max, Bool, true, false, ◌&&◌, Option, none, some, List, ltb, leb,
  if◌then◌else◌, filter, sum_by,
}

pub record SleepRow : Type 0 where
  pub value : ℕ
  pub updated_at : ℕ

abbrev pub minimum_sleep_milliseconds : ℕ
minimum_sleep_milliseconds = 8 * 60 * 60 * 1000

abbrev pub day_milliseconds : ℕ
day_milliseconds = 86400000

abbrev pub sleep_remaining_budget_percent : ℕ
sleep_remaining_budget_percent = 5

pub record Usage : Type 0 where
  pub input : ℕ
  pub output : ℕ
  pub cache_read : ℕ
  pub cache_write : ℕ

unfoldable pub metered_tokens : Usage → ℕ
metered_tokens u = u.input + u.output + u.cache_read + u.cache_write

pub record DailyTokenBudget : Type 0 where
  pub used_tokens : ℕ
  pub max_tokens : ℕ

-- A row of `daily_usage`.
pub record UsageRow : Type 0 where
  pub utc_date : String
  pub scope : String
  pub metric : String
  pub amount : ℕ

unfoldable pub is_chat_tokens : String → UsageRow → Bool
is_chat_tokens today r =
    str_eq r.utc_date today && str_eq r.scope "chat" && str_eq r.metric "model_tokens"

-- `today` is the date of the clock.
unfoldable pub read_daily_token_budget : (today : String) → ℕ → List UsageRow → DailyTokenBudget
unfolding is_chat_tokens
read_daily_token_budget today max_tokens rows = record {
  used_tokens = sum_by (λ r. r.amount) (filter (is_chat_tokens today) rows);
  max_tokens = max_tokens;
}

unfoldable pub is_low_daily_token_budget : DailyTokenBudget → Bool
is_low_daily_token_budget b =
    let remaining = if leb b.max_tokens b.used_tokens then 0 else b.max_tokens - b.used_tokens in
    ltb (remaining * 100) (b.max_tokens * sleep_remaining_budget_percent)

unfoldable pub is_daily_token_budget_reached : DailyTokenBudget → Bool
is_daily_token_budget_reached b = leb b.max_tokens b.used_tokens

unfoldable pub stored_sleep_until : Option SleepRow → Option ℕ
stored_sleep_until none = none
stored_sleep_until (some row) = some row.value

-- A sleep that is over is deleted.
unfoldable pub active_sleep_until : ℕ → Option SleepRow → Option SleepRow × Option ℕ
active_sleep_until now none = (none, none)
active_sleep_until now (some row) =
    if ltb now row.value then (some row, some row.value) else (none, none)

unfoldable pub wake_from_sleep : Option SleepRow → Option SleepRow × Bool
wake_from_sleep none = (none, false)
wake_from_sleep (some row) = (none, true)

pub record SleepTransition : Type 0 where
  pub sleep_until : ℕ
  pub entered : Bool

-- `Date.UTC(year, month, day + 1)` of the clock's UTC date.
unfoldable pub next_reset_at : ℕ → ℕ
next_reset_at now = (now / day_milliseconds + 1) * day_milliseconds

-- The part of `enterSleep` that writes the row.
unfoldable pub fall_asleep : ℕ → Option SleepRow × SleepTransition
unfolding next_reset_at
fall_asleep now =
    let sleep_until = max (now + minimum_sleep_milliseconds) (next_reset_at now) in
    (
      some (record { value = sleep_until; updated_at = now }),
      record { sleep_until = sleep_until; entered = true },
    )

unfoldable pub enter_sleep : ℕ → Option SleepRow → Option SleepRow × SleepTransition
unfolding fall_asleep
enter_sleep now none = fall_asleep now
enter_sleep now (some row) =
    if ltb now row.value
    then (some row, record { sleep_until = row.value; entered = false })
    else fall_asleep now
