-- ===== src/Participation/Schedule.antt =====
-- The active windows of src/platform/participation.ts on the circle of the week's 10,080 minutes.
use plastic_wan.Base.{
  ℕ, ◌+◌, ◌-◌, ◌*◌, ◌≤◌, ◌<◌, ◌≡◌, ◌↔◌, ◌⊎◌, inl, inr, true, List, [], ◌∷◌, ltb, if◌then◌else◌, any,
  Memᴰ, All, All-at, any_iff, arith,
}
use plastic_wan.Participation.Windows.{
  CompiledWindow, LocalTime, matches_day, previous_weekday, is_active, is_within_active_windows,
}

-- The minute of the week.
abbrev pub minute_of_week : ℕ → ℕ → ℕ
minute_of_week weekday minutes = (weekday - 1) * 1440 + minutes

-- How long a window is open; one that does not end after its start ends on the next day.
unfoldable pub open_minutes : CompiledWindow → ℕ
open_minutes w =
    if ltb w.start_minutes w.end_minutes
    then w.end_minutes - w.start_minutes
    else w.end_minutes + 1440 - w.start_minutes

-- The window that opens on a day is open at a time: in this week, or since the end of the last.
abbrev pub IsOpen : CompiledWindow → ℕ → LocalTime → Type 0
IsOpen w day local =
    let opening = minute_of_week day w.start_minutes in
    let t = minute_of_week local.weekday local.minutes in
    ((opening ≤ t) × (t < opening + open_minutes w))
    ⊎ ((opening ≤ t + 10080) × (t + 10080 < opening + open_minutes w))

-- A window of minutes of a day, and a time of one.
abbrev pub IsWindow : CompiledWindow → Type 0
IsWindow w = (w.start_minutes < 1440) × (w.end_minutes ≤ 1440)

abbrev pub IsTime : LocalTime → Type 0
IsTime local = (1 ≤ local.weekday) × (local.weekday ≤ 7) × (local.minutes < 1440)

is_active-cases :
    (w : CompiledWindow) (local : LocalTime)
    → is_active local w ≡ true
    → ((matches_day w local.weekday ≡ true)
        × (w.start_minutes ≤ local.minutes)
        × ((local.minutes < w.end_minutes) ⊎ (w.end_minutes ≤ w.start_minutes)))
      ⊎ ((matches_day w (previous_weekday local.weekday) ≡ true)
          × (w.end_minutes ≤ w.start_minutes)
          × (local.minutes < w.end_minutes))
unfolding is_active
is_active-cases w local e = ground arith

open_day :
    (w : CompiledWindow) (local : LocalTime) (day : ℕ)
    → IsWindow w
    → IsTime local
    → 1 ≤ day
    → day ≤ 7
    → IsOpen w day local
    → ((day ≡ local.weekday)
        × (w.start_minutes ≤ local.minutes)
        × ((local.minutes < w.end_minutes) ⊎ (w.end_minutes ≤ w.start_minutes)))
      ⊎ ((day ≡ previous_weekday local.weekday)
          × (w.end_minutes ≤ w.start_minutes)
          × (local.minutes < w.end_minutes))
unfolding open_minutes previous_weekday
open_day w local day valid time low high now = ground arith

is_active_of_cases :
    (w : CompiledWindow) (local : LocalTime)
    → ((matches_day w local.weekday ≡ true)
        × (w.start_minutes ≤ local.minutes)
        × ((local.minutes < w.end_minutes) ⊎ (w.end_minutes ≤ w.start_minutes)))
      ⊎ ((matches_day w (previous_weekday local.weekday) ≡ true)
          × (w.end_minutes ≤ w.start_minutes)
          × (local.minutes < w.end_minutes))
    → is_active local w ≡ true
unfolding is_active
is_active_of_cases w local h = ground arith

pub is_active_iff :
    (w : CompiledWindow) (local : LocalTime)
    → IsWindow w
    → IsTime local
    → (is_active local w ≡ true)
      ↔ ((day : ℕ) × (1 ≤ day) × (day ≤ 7) × (matches_day w day ≡ true) × IsOpen w day local)
unfolding is_active open_minutes previous_weekday
is_active_iff w local valid time = (
  λ e. elim (is_active-cases w local e) [
    | inl (listed, after, before) ↦
        (local.weekday, time.0, time.1, listed, inl (omega arith, ground arith))
    | inr (listed, wraps, before) ↦
        (previous_weekday local.weekday, ground arith, ground arith, listed, ground arith)
  ],
  λ (day, low, high, listed, open_then). elim (open_day w local day valid time low high open_then) [
    | inl (today, after, before) ↦
        is_active_of_cases w local (inl (rw (← today) listed, after, before))
    | inr (yesterday, wraps, before) ↦
        is_active_of_cases w local (inr (rw (← yesterday) listed, wraps, before))
  ],
)

-- A rule is active at a local time exactly when one of its windows is open: there is a day on which
-- the window opens, and the minute of the week lies from its opening on, for as long as it is open,
-- around the end of the week included. The windows and the time are well formed.
pub is_within_active_windows_iff :
    (windows : List CompiledWindow) (local : LocalTime)
    → All IsWindow windows
    → IsTime local
    → (is_within_active_windows windows local ≡ true) ↔ (
        (w : CompiledWindow) × Memᴰ w windows
        × (day : ℕ) × (1 ≤ day)
        × (day ≤ 7)
        × (matches_day w day ≡ true)
        × IsOpen w day local)
unfolding is_within_active_windows
is_within_active_windows_iff windows local valid time = (
  λ e.
      let (w, m, active) = (any_iff (is_active local) windows).0 (any-of windows e) in
      let (day, low, high, listed, open_then) =
        (is_active_iff w local (All-at IsWindow windows valid m) time).0 active in
      (w, m, day, low, high, listed, open_then),
  λ (w, m, day, low, high, listed, open_then). of-any windows (
      (any_iff (is_active local) windows).1 (
        w,
        m,
        (is_active_iff w local (All-at IsWindow windows valid m) time).1
            (day, low, high, listed, open_then),
      )),
)
  where
    any-of :
        (ws : List CompiledWindow)
        → is_within_active_windows ws local ≡ true
        → any (is_active local) ws ≡ true
    any-of [] e = cc
    any-of (w ∷ ws) e = e

    of-any :
        (ws : List CompiledWindow)
        → any (is_active local) ws ≡ true
        → is_within_active_windows ws local ≡ true
    of-any [] e = cc
    of-any (w ∷ ws) e = e
