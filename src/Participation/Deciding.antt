-- ===== src/Participation/Deciding.antt =====
-- The decision of the participation gate (src/store/participation.ts) and the conversation's activity.
use plastic_wan.Base.{
  ℕ, ◌+◌, ◌*◌, ◌≤◌, ◌≡◌, refl, subst, Bool, false, inl, inr, Option, none, some, ◌==◌,
  if◌then◌else◌, Table, lookup, lookup-modify, Bool-cases, Option-cases, ==_iff, ==_refl, arith,
}
use plastic_wan.Participation.Windows.{LocalTime}
use plastic_wan.Participation.Rules.{Text, Script, ParticipationRule}
use plastic_wan.Participation.Triggers.{TriggerKind, BotIdentity, Message, match_trigger_kind}
use plastic_wan.Participation.Gate.{
  Attention, ParticipationDecision, covers, attention_window_until, is_conversation_active, upsert,
  trigger, gate, evaluate_participation,
}
use plastic_wan.Queue.Tables.{State}
use plastic_wan.Queue.Insert.{is_chat_paused}

lookup-upsert :
    {R : Type 0} (j k : ℕ) (row : R) (t : Table R)
    → lookup j (upsert k row t) ≡ (if k == j then some row else lookup j t)
unfolding upsert
lookup-upsert j k row t = elim (Option-cases (lookup k t)) [
  | inl new ↦ ground arith
  | inr (old, e) ↦ ground (arith, lookup-modify j k (λ r. row) t, ==_iff k j)
]

module _ (js : Script) (local_time : Text → ℕ → LocalTime) (rule : ParticipationRule) where
  -- What a decision of the gate at a time says, with the rows after it.
  abbrev IsAgreed :
      (c now : ℕ) (before : Table Attention) → ParticipationDecision × Table Attention → Type 0
  IsAgreed c now before (d, after) =
      (d.bucket_creation_allowed ≡ is_conversation_active local_time after rule c now)
      × ((j : ℕ) → (j == c) ≡ false → lookup j after ≡ lookup j before)

  trigger-IsAgreed :
      (m : Message) (c now : ℕ) (kind : TriggerKind) (attention : Table Attention)
      → 1 ≤ rule.window_seconds
      → IsAgreed c now attention (trigger rule m c now kind attention)
  unfolding trigger is_conversation_active attention_window_until
  trigger-IsAgreed m c now kind attention long =
      let until = now + rule.window_seconds * 1000 in
      let row : Attention = record {
        expires_at = until;
        triggered_at = now;
        trigger_kind = kind;
        trigger_telegram_message_id = m.message_id;
        updated_at = now;
      } in
      (
        elim (Bool-cases (covers local_time rule now)) [
          | inl covered ↦ ground arith
          | inr outside ↦ ground (arith, lookup-upsert c c row attention, ==_refl c)
        ],
        λ j other. ground (arith, lookup-upsert j c row attention, ==_iff j c, ==_iff c j),
      )

  -- In a chat with a rule that is not paused, where the rule's attention window has a length: a
  -- message may open a bucket exactly if its conversation is active at its time after the decision,
  -- as the catch-up after a start asks, and the attention of other conversations is unchanged.
  pub evaluate_participation-agrees :
      (s : State) (chat_id c : ℕ) (m : Message) (bot : BotIdentity) (now : ℕ) (human : Bool)
      (attention : Table Attention)
      → is_chat_paused s chat_id ≡ false
      → 1 ≤ rule.window_seconds
      → let r =
          evaluate_participation js local_time (some rule) s chat_id c m bot now human attention in
        (r.0.bucket_creation_allowed ≡ is_conversation_active local_time r.1 rule c now)
        × ((j : ℕ) → (j == c) ≡ false → lookup j r.1 ≡ lookup j attention)
  unfolding evaluate_participation gate is_conversation_active
  evaluate_participation-agrees s chat_id c m bot now human attention heard long =
      elim (Bool-cases (covers local_time rule now)) [
        | inl covered ↦ rw (heard, covered, gate) (refl, λ j other. refl)
        | inr outside ↦
            decided outside (if human then match_trigger_kind js m bot rule.keywords else none) refl
      ]
    where
      decided :
          covers local_time rule now ≡ false
          → (k : Option TriggerKind)
          → (if human then match_trigger_kind js m bot rule.keywords else none) ≡ k
          → IsAgreed c now attention (gate js local_time rule s chat_id c m bot now human attention)
      decided outside none e = rw (heard, outside, e, gate) (refl, λ j other. refl)
      decided outside (some kind) e =
          let t = trigger rule m c now kind attention in
          let same : ◌≡◌ {A = ParticipationDecision × Table Attention} t
              (gate js local_time rule s chat_id c m bot now human attention) =
            rw (heard, outside, e, gate) refl in
          subst (IsAgreed c now attention) same (trigger-IsAgreed m c now kind attention long)
