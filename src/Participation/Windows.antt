-- ===== src/Participation/Windows.antt =====
-- The active windows of a participation rule (src/platform/participation.ts). The local time is an
-- argument; its weekday comes from the number of the local day since 1970-01-01.
use plastic_wan.Base.{
  ℕ, ◌+◌, ◌-◌, ◌%◌, Bool, true, false, ◌&&◌, ◌||◌, Option, none, some, List, ltb, leb, ◌==◌,
  if◌then◌else◌, any, is_empty,
}

pub record CompiledWindow : Type 0 where
  pub start_minutes : ℕ
  pub end_minutes : ℕ
  pub days : Option (List ℕ)

pub record LocalTime : Type 0 where
  pub weekday : ℕ
  pub minutes : ℕ

unfoldable pub iso_weekday : (day_number : ℕ) → ℕ
iso_weekday day_number = (day_number + 3) % 7 + 1

unfoldable pub matches_day : CompiledWindow → ℕ → Bool
matches_day w weekday = listed w.days
  where
    listed : Option (List ℕ) → Bool
    listed none = true
    listed (some days) = any (λ d. d == weekday) days

unfoldable pub previous_weekday : ℕ → ℕ
previous_weekday weekday = if weekday == 1 then 7 else weekday - 1

-- One round of the loop: whether it returns true.
unfoldable pub is_active : LocalTime → CompiledWindow → Bool
unfolding previous_weekday
is_active local w =
    if ltb w.start_minutes w.end_minutes
    then leb w.start_minutes local.minutes
      && ltb local.minutes w.end_minutes
      && matches_day w local.weekday
    else (leb w.start_minutes local.minutes && matches_day w local.weekday)
      || (ltb local.minutes w.end_minutes && matches_day w (previous_weekday local.weekday))

unfoldable pub is_within_active_windows : List CompiledWindow → LocalTime → Bool
unfolding is_active
is_within_active_windows windows local =
    if is_empty windows then false else any (is_active local) windows
