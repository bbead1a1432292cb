-- ===== src/Participation/GateTests.antt =====
-- A chat with a window at night and a keyword, at noon.
use plastic_wan.Base.{
  ℕ, ◌+◌, ◌-◌, ◌*◌, ◌≤◌, ◌≡◌, refl, true, false, ◌&&◌, none, some, List, [], ◌∷◌, map, leb, ◌==◌,
  if◌then◌else◌, All, lookup, modify, arith,
}
use plastic_wan.Participation.Windows.{
  LocalTime, is_within_active_windows, is_active, matches_day, previous_weekday,
}
use plastic_wan.Participation.Schedule.{IsWindow}
use plastic_wan.Participation.Rules.{
  Text, Script, ParticipationConfig, ParticipationRule, parse_clock, compile_window,
  unique_lower_cased, merge_participation, compile_participation,
}
use plastic_wan.Participation.Triggers.{
  BotIdentity, Message, mentions, mentions_bot, replies_to_bot, holds_keyword, contains_keyword,
  match_trigger_kind,
}
use plastic_wan.Participation.Gate.{
  Attention, ParticipationDecision, is_conversation_active, upsert, trigger, gate,
  evaluate_participation,
}
use plastic_wan.Participation.Compiling.{is_clock, is_end_clock, compile_participation-bounds}
use plastic_wan.Participation.Deciding.{evaluate_participation-agrees}
use plastic_wan.Queue.Insert.{is_chat_paused}
use plastic_wan.Queue.Samples.{waiting_state}

abbrev lower : ℕ → ℕ
lower c = if leb b'A' c && leb c b'Z' then c + 32 else c

abbrev two_digits : Text → ℕ
two_digits (c ∷ d ∷ []) = (c - b'0') * 10 + (d - b'0')
two_digits s = 0

abbrev ascii : Script
ascii = record {
  lower_case = map lower;
  parse_int = two_digits;
  parse_int_two = λ c d h k. omega arith;
}

abbrev night : ParticipationConfig
night = record {
  active_windows = some (
      record {
        start = b'2' ∷ b'2' ∷ b':' ∷ b'3' ∷ b'0' ∷ [];
        end = b'2' ∷ b'4' ∷ b':' ∷ b'0' ∷ b'0' ∷ [];
        days = none;
      }
      ∷ []);
  trigger_keywords = some ((b'H' ∷ b'i' ∷ []) ∷ []);
  attention_window_seconds = none;
}

abbrev rule : ParticipationRule
rule = merge_participation ascii none (some night) []

compile_participation-bounds_example :
    All IsWindow rule.windows × (1 ≤ rule.window_seconds) × (rule.window_seconds ≤ 86400)
unfolding compile_participation is_clock is_end_clock
compile_participation-bounds_example =
    compile_participation-bounds ascii none (some night) [] rule tt
      (((refl, refl), tt), omega arith, omega arith) refl

abbrev noon : Text → ℕ → LocalTime
noon timezone now = record { weekday = 3; minutes = 720 }

abbrev bot : BotIdentity
bot = record { id = 9; username = none }

abbrev greeting : Message
greeting = record {
  message_id = 70;
  text = some (b'O' ∷ b'h' ∷ b' ' ∷ b'h' ∷ b'I' ∷ []);
  entities = none;
  caption = none;
  caption_entities = none;
  reply_from = none;
}

abbrev decided : ParticipationDecision × List (ℕ × Attention)
decided = evaluate_participation ascii noon (some rule) waiting_state 5 1 greeting bot 1000 true []

evaluate_participation-agrees_example :
    (decided.0.bucket_creation_allowed ≡ is_conversation_active noon decided.1 rule 1 1000)
    × ((j : ℕ) → (j == 1) ≡ false → lookup j decided.1 ≡ none)
unfolding is_chat_paused merge_participation
evaluate_participation-agrees_example =
    evaluate_participation-agrees ascii noon rule waiting_state 5 1 greeting bot 1000 true [] refl
      (omega arith)

-- The greeting holds the keyword, and opens a window of five minutes.
greeted : (decided.0.bucket_creation_allowed ≡ true) × (decided.0.expires_at ≡ some 301000)
unfolding evaluate_participation gate trigger upsert modify match_trigger_kind mentions_bot mentions
    replies_to_bot contains_keyword holds_keyword is_chat_paused merge_participation compile_window
    unique_lower_cased parse_clock is_within_active_windows is_active matches_day previous_weekday
greeted = (refl, refl)
