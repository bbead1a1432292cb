-- ===== src/Queue/Routes.antt =====
-- What holds after each outcome of a due bucket holds after its round of `processDue`.
use Prim.Native.String.{String}
use plastic_wan.Base.{
  ℕ, ◌≡◌, inl, inr, Option, some, List, [], ◌∷◌, ◌++◌, is_some, lookup, Bool-cases, Option-cases,
  Result, ok, Ensures, Ensures->>=,
}
use plastic_wan.Conversation.Runtime.{Runtime, is_closing}
use plastic_wan.Queue.Tables.{Bucket, State, Environment, QueueError}
use plastic_wan.Queue.Insert.{
  chat_of, telegram_chat_of, resolve_chat_config, is_chat_paused, mark_bucket_skipped,
  running_invocation,
}
use plastic_wan.Queue.Due.{
  defer_bucket, attach_open, gated, attach_bucket, queue_open, queue_gated, queue_bucket, in_round,
  process_bucket,
}

module _ (env : Environment) (now id conversation_id : ℕ) (sleep_until : Option ℕ) (s : State)
    (P : State → Type 0) (unchanged : P s)
    (skipped : (reason : String) → P (mark_bucket_skipped id now reason s)) where
  gated-Ensures :
      (telegram_chat_id : ℕ) (rest : Result QueueError State)
      → Ensures P rest
      → Ensures P (gated env id telegram_chat_id now sleep_until s rest)
  unfolding gated
  gated-Ensures telegram_chat_id rest r =
      elim (Bool-cases (is_some (resolve_chat_config env s telegram_chat_id))) [
        | inr gone ↦ rw (gone, gated) (skipped "chat_removed")
        | inl known ↦ elim (Bool-cases (is_some sleep_until)) [
          | inl asleep ↦ rw (known, asleep, gated) (skipped "sleeping")
          | inr awake ↦ rw (known, awake, gated) r
        ]
      ]

  attach_bucket-Ensures :
      (invocation_id : ℕ)
      → ((runtime : Runtime)
          → Ensures P (attach_open env id conversation_id invocation_id now runtime s))
      → Ensures P (attach_bucket env id conversation_id invocation_id now sleep_until s)
  unfolding attach_bucket
  attach_bucket-Ensures invocation_id attached = elim (Option-cases s.attachment) [
    | inl lone ↦ rw (lone, attach_bucket) unchanged
    | inr (runtime, there) ↦ elim (Bool-cases (is_closing conversation_id runtime)) [
      | inl closing ↦ rw (there, closing, attach_bucket) unchanged
      | inr opened ↦ elim (Option-cases (telegram_chat_of conversation_id s)) [
        | inl lost ↦ rw (there, opened, lost, attach_bucket) tt
        | inr (chat, found) ↦
            rw (there, opened, found, attach_bucket)
              (gated-Ensures chat (attach_open env id conversation_id invocation_id now runtime s)
                (attached runtime))
      ]
    ]
  ]

  module _ (queued : Ensures (λ r. P r.0) (queue_open env id conversation_id now s))
      (ids : List ℕ) where
    queue_gated-Ensures :
        (chat_id telegram_chat_id : ℕ)
        → Ensures
            (λ p. P p.0)
            (queue_gated env id conversation_id chat_id telegram_chat_id now sleep_until (s, ids))
    unfolding queue_gated
    queue_gated-Ensures chat_id telegram_chat_id = elim (Bool-cases (is_chat_paused s chat_id)) [
      | inl paused ↦ rw (paused, queue_gated) (skipped "chat_paused")
      | inr heard ↦ elim (Bool-cases (is_some (resolve_chat_config env s telegram_chat_id))) [
        | inr gone ↦ rw (heard, gone, queue_gated) (skipped "chat_removed")
        | inl known ↦ elim (Bool-cases (is_some sleep_until)) [
          | inl asleep ↦ rw (heard, known, asleep, queue_gated) (skipped "sleeping")
          | inr awake ↦
              rw (heard, known, awake, queue_gated)
                (Ensures->>= (λ r. P r.0) (λ p. P p.0) (queue_open env id conversation_id now s)
                  (λ r. ok (r.0, ids ++ r.1 ∷ [])) queued (λ r t. t))
        ]
      ]
    ]

    queue_bucket-Ensures :
        Ensures (λ p. P p.0) (queue_bucket env id conversation_id now sleep_until (s, ids))
    unfolding queue_bucket
    queue_bucket-Ensures = elim (Option-cases (chat_of conversation_id s)) [
      | inl lost ↦ rw (lost, queue_bucket) tt
      | inr (chat, found) ↦ elim (Option-cases (lookup chat s.chats)) [
        | inl gone ↦ rw (found, gone, queue_bucket) tt
        | inr (telegram, known) ↦
            rw (found, known, queue_bucket) (queue_gated-Ensures chat telegram)
      ]
    ]

pub process_bucket-Ensures :
    (env : Environment) (now : ℕ) (sleep_until : Option ℕ) (id : ℕ) (b : Bucket) (s : State)
    (ids : List ℕ) (P : State → Type 0)
    → P s
    → ((reason : String) → P (mark_bucket_skipped id now reason s))
    → P (defer_bucket env id now s)
    → ((invocation_id : ℕ) (runtime : Runtime)
        → running_invocation b.conversation_id s ≡ some invocation_id
        → Ensures P (attach_open env id b.conversation_id invocation_id now runtime s))
    → Ensures (λ r. P r.0) (queue_open env id b.conversation_id now s)
    → Ensures (λ p. P p.0) (process_bucket env now sleep_until (id, b) (s, ids))
unfolding process_bucket
process_bucket-Ensures env now sleep_until id b s ids P unchanged skipped deferred attached queued =
    elim (Option-cases (running_invocation b.conversation_id s)) [
      | inl idle ↦
          rw (idle, process_bucket)
            (queue_bucket-Ensures env now id b.conversation_id sleep_until s P unchanged skipped
              queued ids)
      | inr (invocation_id, found) ↦ elim (Bool-cases (in_round b.conversation_id s)) [
        | inl busy ↦ rw (found, busy, process_bucket) deferred
        | inr free ↦
            rw (found, free, process_bucket)
              (Ensures->>= P (λ p. P p.0)
                (attach_bucket env id b.conversation_id invocation_id now sleep_until s)
                (λ t. ok (t, ids))
                (attach_bucket-Ensures env now id b.conversation_id sleep_until s P unchanged
                  skipped invocation_id (λ runtime. attached invocation_id runtime found))
                (λ t x. x))
      ]
    ]
