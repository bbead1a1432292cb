-- ===== src/Participation/Gate.antt =====
-- The participation gate (src/store/participation.ts). A time is a number of milliseconds, and
-- `local_time` is the reading of one in a time zone.
use plastic_wan.Base.{
  ℕ, ◌+◌, ◌*◌, Bool, true, ◌&&◌, ◌||◌, max, Option, none, some, List, [], ◌∷◌, ltb, leb, ◌==◌,
  if◌then◌else◌, is_some, Table, lookup, insert, modify,
}
use plastic_wan.Participation.Windows.{LocalTime, is_within_active_windows}
use plastic_wan.Participation.Rules.{
  Text, Script, ParticipationRule, ParticipationConfig, or_else, compile_participation,
}
use plastic_wan.Participation.Triggers.{TriggerKind, BotIdentity, Message, match_trigger_kind}
use plastic_wan.Queue.Tables.{Conversation, State, Environment}
use plastic_wan.Queue.Insert.{is_chat_paused, resolve_chat_config}

-- A row of `conversation_attention` under its conversation.
pub record Attention : Type 0 where
  pub expires_at : ℕ
  pub triggered_at : ℕ
  pub trigger_kind : TriggerKind
  pub trigger_telegram_message_id : ℕ
  pub updated_at : ℕ

pub record ParticipationDecision : Type 0 where
  pub bucket_creation_allowed : Bool
  pub trigger_kind : Option TriggerKind
  pub expires_at : Option ℕ

-- A configured chat, as far as its rule reads it.
pub record ChatParticipation : Type 0 where
  pub id : ℕ
  pub participation : Option ParticipationConfig
  pub timezone : Option Text

-- The rules of the configured chats, whose ids are distinct.
unfoldable pub compile_rules :
    Script
    → (global : Option ParticipationConfig) → (timezone : Text) → List ChatParticipation
    → Table ParticipationRule
unfolding compile_participation
compile_rules js global timezone [] = []
compile_rules js global timezone (c ∷ chats) =
    let rest = compile_rules js global timezone chats in
    elim (compile_participation js global c.participation (or_else c.timezone timezone)) [
      | none ↦ rest
      | some rule ↦ insert c.id rule rest
    ]

-- The rule of a chat, among the rules under the ids of the configured chats.
unfoldable pub rule_for :
    Environment
    → (rules : Table ParticipationRule) → State
    → (telegram_chat_id : ℕ) → (is_private : Bool) → Option ParticipationRule
unfolding resolve_chat_config
rule_for env rules s telegram_chat_id is_private =
    if is_private then none else elim (resolve_chat_config env s telegram_chat_id) [
      | none ↦ none
      | some config ↦ lookup config.id rules
    ]

unfoldable pub attention_window_until : Table Attention → (conversation_id now : ℕ) → Option ℕ
attention_window_until attention conversation_id now = elim (lookup conversation_id attention) [
  | none ↦ none
  | some row ↦ if leb row.expires_at now then none else some row.expires_at
]

-- Whether the windows of a rule cover a time, in its time zone.
abbrev pub covers : (local_time : Text → ℕ → LocalTime) → ParticipationRule → ℕ → Bool
covers local_time rule now = is_within_active_windows rule.windows (local_time rule.timezone now)

unfoldable pub is_conversation_active :
    (local_time : Text → ℕ → LocalTime)
    → Table Attention
    → ParticipationRule
    → (conversation_id now : ℕ) → Bool
unfolding attention_window_until
is_conversation_active local_time attention rule conversation_id now =
    covers local_time rule now || is_some (attention_window_until attention conversation_id now)

-- The latest end of a window that is open in a conversation of a chat.
unfoldable pub chat_attention_until :
    Table Conversation → Table Attention → (chat_id now : ℕ) → Option ℕ
chat_attention_until conversations [] chat_id now = none
chat_attention_until conversations ((id, a) ∷ attention) chat_id now =
    let rest = chat_attention_until conversations attention chat_id now in
    elim (lookup id conversations) [
      | none ↦ rest
      | some v ↦
          if v.chat_id == chat_id && ltb now a.expires_at
          then some (elim rest [ none ↦ a.expires_at | some later ↦ max a.expires_at later ])
          else rest
    ]

-- `INSERT ... ON CONFLICT DO UPDATE`
unfoldable pub upsert : {R : Type 0} → ℕ → R → Table R → Table R
unfolding modify
upsert id row t = if is_some (lookup id t) then modify id (λ old. row) t else insert id row t

abbrev pub unrestricted : ParticipationDecision
unrestricted = record { bucket_creation_allowed = true; trigger_kind = none; expires_at = none }

unfoldable pub trigger :
    ParticipationRule
    → Message
    → (conversation_id received_at : ℕ) → TriggerKind
    → Table Attention
    → ParticipationDecision × Table Attention
unfolding upsert
trigger rule m conversation_id received_at kind attention =
    let until = received_at + rule.window_seconds * 1000 in
    (
      record { bucket_creation_allowed = true; trigger_kind = some kind; expires_at = some until },
      upsert conversation_id
          (record {
            expires_at = until;
            triggered_at = received_at;
            trigger_kind = kind;
            trigger_telegram_message_id = m.message_id;
            updated_at = received_at;
          })
          attention,
    )

-- The decision on a message in a chat with a rule.
unfoldable pub gate :
    Script
    → (local_time : Text → ℕ → LocalTime) → ParticipationRule
    → State
    → (chat_id conversation_id : ℕ) → Message
    → BotIdentity
    → (received_at : ℕ) → (eligible_human : Bool) → Table Attention
    → ParticipationDecision × Table Attention
unfolding is_chat_paused attention_window_until match_trigger_kind trigger
gate js local_time rule s chat_id conversation_id m bot received_at eligible_human attention =
    if is_chat_paused s chat_id
    then (unrestricted, attention)
    else if covers local_time rule received_at
    then (unrestricted, attention)
    else elim (if eligible_human then match_trigger_kind js m bot rule.keywords else none) [
      | none ↦
          let until = attention_window_until attention conversation_id received_at in
          (
            record {
              bucket_creation_allowed = is_some until;
              trigger_kind = none;
              expires_at = until;
            },
            attention,
          )
      | some kind ↦ trigger rule m conversation_id received_at kind attention
    ]

unfoldable pub evaluate_participation :
    Script
    → (local_time : Text → ℕ → LocalTime) → Option ParticipationRule
    → State
    → (chat_id conversation_id : ℕ) → Message
    → BotIdentity
    → (received_at : ℕ) → (eligible_human : Bool) → Table Attention
    → ParticipationDecision × Table Attention
unfolding gate
evaluate_participation js local_time none s chat_id conversation_id m bot received_at human
      attention =
    (unrestricted, attention)
evaluate_participation js local_time (some rule) s chat_id conversation_id m bot received_at human
      attention =
    gate js local_time rule s chat_id conversation_id m bot received_at human attention
