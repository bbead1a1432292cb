-- ===== src/Participation/Tests.antt =====
-- A window of Sunday night that ends on Monday morning.
use plastic_wan.Base.{ℕ, ◌≤◌, ◌≡◌, ◌↔◌, refl, true, some, [], ◌∷◌, Memᴰ, arith}
use plastic_wan.Participation.Windows.{
  CompiledWindow, LocalTime, matches_day, is_active, is_within_active_windows, previous_weekday,
  iso_weekday,
}
use plastic_wan.Participation.Schedule.{IsOpen, is_within_active_windows_iff}

abbrev night : CompiledWindow
night = record { start_minutes = 1380; end_minutes = 120; days = some (7 ∷ []) }

abbrev monday_morning : LocalTime
monday_morning = record { weekday = 1; minutes = 60 }

is_within_active_windows_iff_example :
    (is_within_active_windows (night ∷ []) monday_morning ≡ true) ↔ (
      (w : CompiledWindow) × Memᴰ w (night ∷ [])
      × (day : ℕ) × (1 ≤ day)
      × (day ≤ 7)
      × (matches_day w day ≡ true)
      × IsOpen w day monday_morning)
is_within_active_windows_iff_example =
    is_within_active_windows_iff (night ∷ []) monday_morning ((omega arith, omega arith), tt)
      (omega arith, omega arith, omega arith)

open_on_monday : is_within_active_windows (night ∷ []) monday_morning ≡ true
unfolding is_within_active_windows is_active previous_weekday matches_day
open_on_monday = refl

-- 1970-01-01 was a Thursday.
epoch_weekday : iso_weekday 0 ≡ 4
unfolding iso_weekday
epoch_weekday = refl
