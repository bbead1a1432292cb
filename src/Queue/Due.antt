-- ===== src/Queue/Due.antt =====
-- `processDue` (src/orchestration/invocation-queue.ts): due buckets are queued, attached to the
-- running invocation of their conversation, deferred, or skipped.
use plastic_wan.Base.{
  ℕ, ◌+◌, ◌*◌, Bool, true, false, not, ◌&&◌, ◌||◌, Option, none, some, List, [], ◌∷◌, ◌++◌, ltb,
  leb, max, ◌==◌, if◌then◌else◌, is_some, any, filter, sort, lookup, update_rows, Result, ok, err,
  ◌>>=◌,
}
use plastic_wan.Sleep.State.{active_sleep_until}
use plastic_wan.Conversation.Runtime.{
  Runtime, messages, is_closing, is_round_in_progress, queue_injection,
}
use plastic_wan.Queue.Tables.{
  Bucket, Invocation, State, Environment, QueueError, bucket_has_no_chat,
}
use plastic_wan.Queue.Insert.{
  is_collecting, is_queued, is_running, chat_of, telegram_chat_of, in_chat, resolve_chat_config,
  is_chat_paused, queue_state, attach_bucket_to_invocation, insert_invocation, mark_bucket_skipped,
  running_invocation,
}

abbrev pub minimum_defer_ms : ℕ
minimum_defer_ms = 250

-- An invocation that keeps the chat of a conversation's bucket: a queued one, or a running one of
-- another conversation.
unfoldable pub holds_chat : State → (chat_id conversation_id : ℕ) → ℕ × Invocation → Bool
unfolding is_queued is_running chat_of
holds_chat s chat_id conversation_id (id, i) =
    in_chat s chat_id i
    && (is_queued i.state || (is_running i.state && not (i.conversation_id == conversation_id)))

-- The conditions on the chat in the select of `processDue`.
unfoldable pub is_chat_free : State → ℕ → Bool
unfolding holds_chat chat_of is_chat_paused
is_chat_free s conversation_id = elim (chat_of conversation_id s) [
  | none ↦ false
  | some chat ↦
      not (is_chat_paused s chat) && not (any (holds_chat s chat conversation_id) s.invocations)
]

unfoldable pub is_due_bucket : ℕ → State → ℕ × Bucket → Bool
unfolding is_collecting is_chat_free
is_due_bucket now s (id, b) =
    is_collecting b.state && leb b.deadline_at now && is_chat_free s b.conversation_id

-- `ORDER BY deadline_at, id`
unfoldable pub by_deadline : ℕ × Bucket → ℕ × Bucket → Bool
by_deadline (i, b) (j, c) =
    ltb b.deadline_at c.deadline_at || (b.deadline_at == c.deadline_at && leb i j)

unfoldable pub due_buckets : ℕ → State → List (ℕ × Bucket)
unfolding is_due_bucket by_deadline
due_buckets now s = sort by_deadline (filter (is_due_bucket now s) s.buckets)

unfoldable pub defer_bucket : Environment → ℕ → ℕ → State → State
unfolding is_collecting update_rows
defer_bucket env bucket_id now s =
    let at_least = now + max (env.bucket_window_seconds * 1000) minimum_defer_ms in
    record s {
      buckets =
          update_rows
            (λ id b. id == bucket_id && is_collecting b.state && ltb b.deadline_at at_least)
            (λ b. record b { deadline_at = at_least; updated_at = now }) s.buckets;
    }

unfoldable pub inject : (conversation_id bucket_id : ℕ) → Runtime → State → State
unfolding queue_injection
inject conversation_id bucket_id runtime s = record s {
  attachment = some (
      (queue_injection conversation_id (record { bucket_id = bucket_id; kind = messages })
        runtime).0);
}

-- The end of `#attachBucket`, past its gates.
unfoldable pub attach_open :
    Environment
    → (bucket_id conversation_id : ℕ) → (invocation_id : ℕ) → ℕ
    → Runtime
    → State
    → Result QueueError State
unfolding attach_bucket_to_invocation inject
attach_open env bucket_id conversation_id invocation_id now runtime s = do
  attached ← attach_bucket_to_invocation env invocation_id bucket_id conversation_id now s
  ok (inject conversation_id bucket_id runtime attached)

-- The gates of `#attachBucket` and `#queueBucket` on the configuration and sleep; past them, `rest`.
unfoldable pub gated :
    Environment
    → (bucket_id telegram_chat_id : ℕ) → ℕ
    → Option ℕ
    → State
    → Result QueueError State
    → Result QueueError State
unfolding resolve_chat_config mark_bucket_skipped
gated env bucket_id telegram_chat_id now sleep_until s rest =
    if not (is_some (resolve_chat_config env s telegram_chat_id))
    then ok (mark_bucket_skipped bucket_id now "chat_removed" s)
    else if is_some sleep_until
    then ok (mark_bucket_skipped bucket_id now "sleeping" s)
    else rest

unfoldable pub attach_bucket :
    Environment
    → (bucket_id conversation_id : ℕ) → (invocation_id : ℕ) → ℕ
    → Option ℕ
    → State
    → Result QueueError State
unfolding gated attach_open
attach_bucket env bucket_id conversation_id invocation_id now sleep_until s = elim s.attachment [
  | none ↦ ok s
  | some runtime ↦
      if is_closing conversation_id runtime
      then ok s
      else elim (telegram_chat_of conversation_id s) [
        | none ↦ err (bucket_has_no_chat bucket_id)
        | some telegram_chat_id ↦
            gated env bucket_id telegram_chat_id now sleep_until s
              (attach_open env bucket_id conversation_id invocation_id now runtime s)
      ]
]

-- The end of `#queueBucket`, past its gates.
unfoldable pub queue_open :
    Environment → (bucket_id conversation_id : ℕ) → ℕ → State → Result QueueError (State × ℕ)
unfolding queue_state is_collecting update_rows insert_invocation
queue_open env bucket_id conversation_id now s =
    insert_invocation env bucket_id conversation_id now true (record s {
      buckets =
          update_rows (λ id b. id == bucket_id && is_collecting b.state) (queue_state now)
            s.buckets;
    })

-- A state with the ids of the invocations that a pass has queued.
abbrev pub Pass : Type 0
Pass = State × List ℕ

unfoldable pub queue_gated :
    Environment
    → (bucket_id conversation_id chat_id telegram_chat_id : ℕ) → ℕ
    → Option ℕ
    → Pass
    → Result QueueError Pass
unfolding is_chat_paused resolve_chat_config mark_bucket_skipped queue_open
queue_gated env bucket_id conversation_id chat_id telegram_chat_id now sleep_until (s, ids) =
    if is_chat_paused s chat_id
    then ok (mark_bucket_skipped bucket_id now "chat_paused" s, ids)
    else if not (is_some (resolve_chat_config env s telegram_chat_id))
    then ok (mark_bucket_skipped bucket_id now "chat_removed" s, ids)
    else if is_some sleep_until
    then ok (mark_bucket_skipped bucket_id now "sleeping" s, ids)
    else (do
      (queued, id) ← queue_open env bucket_id conversation_id now s
      ok (queued, ids ++ id ∷ []))

unfoldable pub queue_bucket :
    Environment → (bucket_id conversation_id : ℕ) → ℕ → Option ℕ → Pass → Result QueueError Pass
unfolding queue_gated
queue_bucket env bucket_id conversation_id now sleep_until (s, ids) =
    elim (chat_of conversation_id s) [
      | none ↦ err (bucket_has_no_chat bucket_id)
      | some chat_id ↦ elim (lookup chat_id s.chats) [
        | none ↦ err (bucket_has_no_chat bucket_id)
        | some telegram_chat_id ↦
            queue_gated env bucket_id conversation_id chat_id telegram_chat_id now sleep_until
              (s, ids)
      ]
    ]

-- `this.#attachment?.isRoundInProgress(...) === true`
unfoldable pub in_round : ℕ → State → Bool
in_round conversation_id s = elim s.attachment [
  | none ↦ false
  | some runtime ↦ is_round_in_progress conversation_id runtime
]

-- One round of the loop.
unfoldable pub process_bucket :
    Environment → ℕ → Option ℕ → ℕ × Bucket → Pass → Result QueueError Pass
unfolding running_invocation in_round defer_bucket attach_bucket queue_bucket
process_bucket env now sleep_until (id, b) (s, ids) =
    elim (running_invocation b.conversation_id s) [
      | none ↦ queue_bucket env id b.conversation_id now sleep_until (s, ids)
      | some invocation_id ↦
          if in_round b.conversation_id s then ok (defer_bucket env id now s, ids) else (do
            s' ← attach_bucket env id b.conversation_id invocation_id now sleep_until s
            ok (s', ids))
    ]

unfoldable pub process_buckets :
    Environment → ℕ → Option ℕ → List (ℕ × Bucket) → Pass → Result QueueError Pass
unfolding process_bucket
process_buckets env now sleep_until [] pass = ok pass
process_buckets env now sleep_until (row ∷ rows) pass =
    process_bucket env now sleep_until row pass >>= λ next.
    process_buckets env now sleep_until rows next

-- Sleep that is over is cleared first, outside the transaction.
unfoldable pub process_due : Environment → ℕ → State → Result QueueError Pass
unfolding due_buckets process_buckets
process_due env now s =
    let (sleep, sleep_until) = active_sleep_until now s.sleep in
    let awake = record s { sleep = sleep } in
    process_buckets env now sleep_until (due_buckets now awake) (awake, [])
