-- ===== src/Participation/Rules.antt =====
-- `compileParticipation` of src/platform/participation.ts. A text is the list of its UTF-16 code units.
use plastic_wan.Base.{
  ℕ, ◌+◌, ◌*◌, ◌≤◌, ◌≡◌, Bool, true, false, ◌&&◌, Option, none, some, List, [], ◌∷◌, ◌++◌, map, any,
  ◌==◌, if◌then◌else◌,
}
use plastic_wan.Participation.Windows.{CompiledWindow}

abbrev pub Text : Type 0
Text = List ℕ

abbrev pub same_text : Text → Text → Bool
same_text [] [] = true
same_text (c ∷ s) (d ∷ t) = c == d && same_text s t
same_text _ _ = false

-- `toLowerCase`, and `Number.parseInt` to base ten, which reads two digits as their number.
pub record Script : Type 0 where
  pub lower_case : Text → Text
  pub parse_int : Text → ℕ
  pub parse_int_two :
      (c d : ℕ) → c ≤ 9 → d ≤ 9 → parse_int ((b'0' + c) ∷ (b'0' + d) ∷ []) ≡ c * 10 + d

pub record WindowConfig : Type 0 where
  pub start : Text
  pub end : Text
  pub days : Option (List ℕ)

pub record ParticipationConfig : Type 0 where
  pub active_windows : Option (List WindowConfig)
  pub trigger_keywords : Option (List Text)
  pub attention_window_seconds : Option ℕ

pub record ParticipationRule : Type 0 where
  pub windows : List CompiledWindow
  pub keywords : List Text
  pub window_seconds : ℕ
  pub timezone : Text

abbrev pub default_attention_window_seconds : ℕ
default_attention_window_seconds = 300

-- The parts of `split(':')`, with an empty one where there is none.
abbrev pub before_colon : Text → Text
before_colon [] = []
before_colon (c ∷ s) = let rest = before_colon s in if c == b':' then [] else c ∷ rest

abbrev pub after_colon : Text → Text
after_colon [] = []
after_colon (c ∷ s) = let rest = after_colon s in if c == b':' then s else rest

unfoldable pub parse_clock : Script → Text → ℕ
parse_clock js value =
    js.parse_int (before_colon value) * 60 + js.parse_int (before_colon (after_colon value))

abbrev pub end_of_day : Text
end_of_day = b'2' ∷ b'4' ∷ b':' ∷ b'0' ∷ b'0' ∷ []

unfoldable pub compile_window : Script → WindowConfig → CompiledWindow
unfolding parse_clock
compile_window js w = record {
  start_minutes = parse_clock js w.start;
  end_minutes = if same_text w.end end_of_day then 1440 else parse_clock js w.end;
  days = w.days;
}

-- The first of each of some texts, in order: `[...new Set(texts)]`.
abbrev pub distinct_texts : (seen texts : List Text) → List Text
distinct_texts seen [] = []
distinct_texts seen (t ∷ texts) =
    let rest = distinct_texts (t ∷ seen) texts in if any (same_text t) seen then rest else t ∷ rest

unfoldable pub unique_lower_cased : Script → List Text → List Text
unique_lower_cased js values = distinct_texts [] (map js.lower_case values)

-- `a ?? b`
abbrev pub or_else {ℓ} : {A : Type ℓ} → Option A → A → A
or_else none a = a
or_else (some a) b = a

-- A setting of a chat's level, or else of the global one.
abbrev pub setting :
    {A : Type 0}
    → (ParticipationConfig → Option A)
    → (global chat : Option ParticipationConfig) → A
    → A
setting get none none a = a
setting get (some g) none a = or_else (get g) a
setting get none (some c) a = or_else (get c) a
setting get (some g) (some c) a = or_else (get c) (or_else (get g) a)

abbrev pub keywords_of : Option ParticipationConfig → List Text
keywords_of none = []
keywords_of (some c) = or_else c.trigger_keywords []

unfoldable pub merge_participation :
    Script → (global chat : Option ParticipationConfig) → (timezone : Text) → ParticipationRule
unfolding compile_window unique_lower_cased
merge_participation js global chat timezone = record {
  windows = map (compile_window js) (setting (λ c. c.active_windows) global chat []);
  keywords = unique_lower_cased js (keywords_of global ++ keywords_of chat);
  window_seconds =
      setting (λ c. c.attention_window_seconds) global chat default_attention_window_seconds;
  timezone = timezone;
}

unfoldable pub compile_participation :
    Script
    → (global chat : Option ParticipationConfig) → (timezone : Text) → Option ParticipationRule
unfolding merge_participation
compile_participation js none none timezone = none
compile_participation js global chat timezone = some (merge_participation js global chat timezone)
