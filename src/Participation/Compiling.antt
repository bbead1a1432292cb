-- ===== src/Participation/Compiling.antt =====
-- The windows that src/platform/participation.ts compiles from a valid configuration.
use plastic_wan.Base.{
  ℕ, ◌+◌, ◌-◌, ◌*◌, ◌≤◌, ◌<◌, ◌≡◌, refl, subst, Bool, true, false, ◌&&◌, ◌||◌, inl, inr, Option,
  none, some, List, [], ◌∷◌, map, leb, ◌==◌, All, Bool-cases, ==_iff, arith,
}
use plastic_wan.Participation.Schedule.{IsWindow}
use plastic_wan.Participation.Rules.{
  Text, same_text, Script, WindowConfig, ParticipationConfig, ParticipationRule, parse_clock,
  end_of_day, compile_window, setting, or_else, merge_participation, compile_participation,
}

abbrev is_digit : (most c : ℕ) → Bool
is_digit most c = leb b'0' c && leb c (b'0' + most)

-- The patterns of a window in src/platform/config.ts.
unfoldable pub is_clock : Text → Bool
is_clock (a ∷ b ∷ c ∷ d ∷ e ∷ []) =
    ((is_digit 1 a && is_digit 9 b) || (a == b'2' && is_digit 3 b))
    && c == b':'
    && is_digit 5 d
    && is_digit 9 e
is_clock _ = false

unfoldable pub is_end_clock : Text → Bool
unfolding is_clock
is_end_clock s = is_clock s || same_text s end_of_day

abbrev pub IsWindowConfig : WindowConfig → Type 0
IsWindowConfig w = (is_clock w.start ≡ true) × (is_end_clock w.end ≡ true)

parse_int-digits :
    (js : Script) (c d : ℕ)
    → is_digit 9 c ≡ true
    → is_digit 9 d ≡ true
    → js.parse_int (c ∷ d ∷ []) ≡ (c - b'0') * 10 + (d - b'0')
parse_int-digits js c d h k =
    let first : b'0' + (c - b'0') ≡ c = ground arith in
    let second : b'0' + (d - b'0') ≡ d = ground arith in
    let two = js.parse_int_two (c - b'0') (d - b'0') (ground arith) (ground arith) in
    rw (first, second) at two

parse_clock-colon :
    (js : Script) (a b d e : ℕ)
    → (a == b':') ≡ false
    → (b == b':') ≡ false
    → (d == b':') ≡ false
    → (e == b':') ≡ false
    → parse_clock js (a ∷ b ∷ b':' ∷ d ∷ e ∷ [])
      ≡ js.parse_int (a ∷ b ∷ []) * 60 + js.parse_int (d ∷ e ∷ [])
unfolding parse_clock
parse_clock-colon js a b d e p q r s = rw (p, q, r, s) refl

parse_clock-bound : (js : Script) (s : Text) → is_clock s ≡ true → parse_clock js s < 1440
unfolding is_clock
parse_clock-bound js (a ∷ b ∷ c ∷ d ∷ e ∷ []) h =
    let hours = parse_int-digits js a b (ground arith) (ground arith) in
    let minutes = parse_int-digits js d e (ground arith) (ground arith) in
    let colon : c ≡ b':' = ground (arith, ==_iff c b':') in
    let whole =
      parse_clock-colon js a b d e (ground (arith, ==_iff a b':')) (ground (arith, ==_iff b b':'))
        (ground (arith, ==_iff d b':')) (ground (arith, ==_iff e b':')) in
    rw (colon, whole, hours, minutes) (ground (arith, ==_iff a b'2'))
parse_clock-bound js s h = ground arith

same_text-eq : (s t : Text) → same_text s t ≡ true → s ≡ t
same_text-eq [] [] h = refl
same_text-eq (c ∷ s) (d ∷ t) h = ground (arith, same_text-eq s t, ==_iff c d)
same_text-eq s t h = ground arith

compile_window-IsWindow :
    (js : Script) (w : WindowConfig) → IsWindowConfig w → IsWindow (compile_window js w)
unfolding compile_window is_end_clock
compile_window-IsWindow js w (start, end) = (
  parse_clock-bound js w.start start,
  elim (Bool-cases (same_text w.end end_of_day)) [
    | inl whole ↦ rw (whole, compile_window) (omega arith)
    | inr other ↦
        rw (other, compile_window)
          (let bound = parse_clock-bound js w.end (ground arith) in omega arith)
  ],
)

compile_windows-IsWindow :
    (js : Script) (ws : List WindowConfig)
    → All IsWindowConfig ws
    → All IsWindow (map (compile_window js) ws)
compile_windows-IsWindow js [] h = tt
compile_windows-IsWindow js (w ∷ ws) (h, hs) =
    (compile_window-IsWindow js w h, compile_windows-IsWindow js ws hs)

-- A level of participation as the configuration's schema admits it.
abbrev pub IsConfig : Option ParticipationConfig → Type 0
IsConfig none = Unit
IsConfig (some c) =
    All IsWindowConfig (or_else c.active_windows [])
    × (1 ≤ or_else c.attention_window_seconds 1)
    × (or_else c.attention_window_seconds 1 ≤ 86400)

or_else-has :
    {A : Type 0} (P : A → Type 0) (o : Option A) (neutral a : A)
    → P (or_else o neutral)
    → P a
    → P (or_else o a)
or_else-has P none neutral a h k = k
or_else-has P (some b) neutral a h k = h

-- What a level sets has a property.
abbrev HasAt :
    {A : Type 0}
    → (A → Type 0)
    → (ParticipationConfig → Option A)
    → A
    → Option ParticipationConfig
    → Type 0
HasAt P get neutral none = Unit
HasAt P get neutral (some c) = P (or_else (get c) neutral)

setting-has :
    {A : Type 0} (P : A → Type 0) (get : ParticipationConfig → Option A) (neutral : A)
    (global chat : Option ParticipationConfig) (a : A)
    → HasAt P get neutral global
    → HasAt P get neutral chat
    → P a
    → P (setting get global chat a)
setting-has P get neutral none none a g c h = h
setting-has P get neutral (some x) none a g c h = or_else-has P (get x) neutral a g h
setting-has P get neutral none (some y) a g c h = or_else-has P (get y) neutral a c h
setting-has P get neutral (some x) (some y) a g c h =
    or_else-has P (get y) neutral (or_else (get x) a) c (or_else-has P (get x) neutral a g h)

abbrev IsRule : ParticipationRule → Type 0
IsRule rule = All IsWindow rule.windows × (1 ≤ rule.window_seconds) × (rule.window_seconds ≤ 86400)

IsConfig-windows :
    (o : Option ParticipationConfig)
    → IsConfig o
    → HasAt (All IsWindowConfig) (λ c. c.active_windows) [] o
IsConfig-windows none h = tt
IsConfig-windows (some c) h = h.0

IsConfig-seconds :
    (o : Option ParticipationConfig)
    → IsConfig o
    → HasAt (λ n. (1 ≤ n) × (n ≤ 86400)) (λ c. c.attention_window_seconds) 1 o
IsConfig-seconds none h = tt
IsConfig-seconds (some c) (h, low, high) = (low, high)

merge_participation-IsRule :
    (js : Script) (global chat : Option ParticipationConfig) (timezone : Text)
    → IsConfig global
    → IsConfig chat
    → IsRule (merge_participation js global chat timezone)
unfolding merge_participation
merge_participation-IsRule js global chat timezone g c =
    let seconds =
      setting-has (λ n. (1 ≤ n) × (n ≤ 86400)) (λ c. c.attention_window_seconds) 1 global chat 300
        (IsConfig-seconds global g) (IsConfig-seconds chat c) (omega arith, omega arith) in
    (
      compile_windows-IsWindow js (setting (λ c. c.active_windows) global chat []) (
          setting-has (All IsWindowConfig) (λ c. c.active_windows) [] global chat []
            (IsConfig-windows global g) (IsConfig-windows chat c) tt),
      seconds.0,
      seconds.1,
    )

merged-IsRule :
    (js : Script) (global chat : Option ParticipationConfig) (timezone : Text)
    (rule : ParticipationRule)
    → IsConfig global
    → IsConfig chat
    → some (merge_participation js global chat timezone) ≡ some rule
    → IsRule rule
merged-IsRule js global chat timezone rule g c e =
    let same : merge_participation js global chat timezone ≡ rule = cc in
    subst IsRule same (merge_participation-IsRule js global chat timezone g c)

-- Where both levels are as the schema of the configuration admits them, a compiled rule has only
-- windows that start within the day and end by its end, and an attention window of one second to
-- a day.
pub compile_participation-bounds :
    (js : Script) (global chat : Option ParticipationConfig) (timezone : Text)
    (rule : ParticipationRule)
    → IsConfig global
    → IsConfig chat
    → compile_participation js global chat timezone ≡ some rule
    → All IsWindow rule.windows × (1 ≤ rule.window_seconds) × (rule.window_seconds ≤ 86400)
unfolding compile_participation
compile_participation-bounds js none none timezone rule g c e = cc
compile_participation-bounds js none (some x) timezone rule g c e =
    merged-IsRule js none (some x) timezone rule g c e
compile_participation-bounds js (some x) none timezone rule g c e =
    merged-IsRule js (some x) none timezone rule g c e
compile_participation-bounds js (some x) (some y) timezone rule g c e =
    merged-IsRule js (some x) (some y) timezone rule g c e
