-- ===== src/Queue/Receipts.antt =====
-- Delivery of task receipts and the clearing of queued invocations: `processTasksDue`,
-- `suppressInvalidQueuedReceipts` and `skipQueuedInvocations` (src/orchestration/invocation-queue.ts).
use Prim.Native.String.{String}
use plastic_wan.Base.{
  ℕ, Bool, true, false, not, ◌&&◌, ◌||◌, Option, none, some, List, [], ◌∷◌, ◌++◌, ltb, leb, ◌==◌,
  if◌then◌else◌, is_some, any, filter, sort, Table, lookup, insert, modify, update_rows, matches,
  Result, ok, err, ◌>>=◌,
}
use plastic_wan.LongTasks.Rows.{ReceiptState, Receipt}
use plastic_wan.LongTasks.Due
use plastic_wan.LongTasks.Write.{is_pending}
use plastic_wan.Sleep.State.{active_sleep_until}
use plastic_wan.Conversation.Runtime.{completion, is_closing, queue_injection}
use plastic_wan.Queue.Tables.{
  BucketState, BucketKind, Bucket, State, Environment, QueueError, task_error,
}
use plastic_wan.Queue.Insert.{
  resolve_chat_config, is_chat_paused, insert_join, insert_invocation, running_invocation,
  chat_running,
}
use plastic_wan.Queue.Due.{Pass}

-- A receipt with its task, conversation and chat.
pub record ReceiptRow : Type 0 where
  pub task_id : ℕ
  pub created_at : ℕ
  pub conversation_id : ℕ
  pub chat_id : ℕ
  pub telegram_chat_id : ℕ
  pub message_thread_id : ℕ
  pub bypass_daily_budget : Bool

-- The join of the select; none where a row is missing.
unfoldable pub receipt_row : Environment → State → ℕ × Receipt → Option ReceiptRow
receipt_row env s (task_id, r) = elim (lookup task_id s.service.tasks) [
  | none ↦ none
  | some t ↦ elim (lookup t.conversation_id s.conversations) [
    | none ↦ none
    | some v ↦ elim (lookup v.chat_id s.chats) [
      | none ↦ none
      | some telegram_chat_id ↦ some (record {
        task_id = task_id;
        created_at = r.created_at;
        conversation_id = t.conversation_id;
        chat_id = v.chat_id;
        telegram_chat_id = telegram_chat_id;
        message_thread_id = v.message_thread_id;
        bypass_daily_budget = env.bypasses_daily_budget t.delivery_json;
      })
    ]
  ]
]

unfoldable pub joined_rows : Environment → State → Table Receipt → List ReceiptRow
unfolding receipt_row
joined_rows env s [] = []
joined_rows env s (row ∷ rows) =
    let rest = joined_rows env s rows in
    elim (receipt_row env s row) [ none ↦ rest | some r ↦ r ∷ rest ]

-- `ORDER BY created_at, task_id`
unfoldable pub by_creation : ReceiptRow → ReceiptRow → Bool
by_creation r q =
    ltb r.created_at q.created_at || (r.created_at == q.created_at && leb r.task_id q.task_id)

unfoldable pub pending_receipts : Environment → State → List ReceiptRow
unfolding joined_rows by_creation is_pending
pending_receipts env s =
    sort by_creation (joined_rows env s (filter (λ row. is_pending row.1.state) s.service.receipts))

abbrev pub topic_allowed : Option (List ℕ) → ℕ → Bool
topic_allowed none thread = true
topic_allowed (some topics) thread = any (λ t. t == thread) topics

unfoldable pub receipt_cancel_reason : Environment → ReceiptRow → State → Option String
unfolding resolve_chat_config is_chat_paused
receipt_cancel_reason env r s = elim (resolve_chat_config env s r.telegram_chat_id) [
  | none ↦ some "chat_removed"
  | some config ↦
      if is_chat_paused s r.chat_id
      then some "chat_paused"
      else if not (topic_allowed config.topic_ids r.message_thread_id)
      then some "topic_removed"
      else none
]

abbrev pub with_receipts : (Table Receipt → Table Receipt) → State → State
with_receipts f s = record s { service = record (s.service) { receipts = f s.service.receipts } }

unfoldable pub suppress : ℕ → String → Receipt → Receipt
suppress now reason r = record r {
  state = ReceiptState.suppressed;
  cancelled_at = some now;
  cancel_reason = some reason;
  admin_cancelled = false;
  updated_at = now;
}

unfoldable pub claim : ℕ → Receipt → Receipt
claim now r = record r { state = ReceiptState.claimed; claimed_at = some now; updated_at = now }

abbrev pub has_pending_receipt : ℕ → State → Bool
has_pending_receipt task_id s =
    matches (λ (r : Receipt). is_pending r.state) task_id s.service.receipts

-- A bucket that carries a receipt, waiting for its invocation or running in one.
unfoldable pub receipt_bucket : ReceiptRow → BucketState → Option ℕ → ℕ → Bucket
receipt_bucket r state started_at now = record {
  conversation_id = r.conversation_id;
  state = state;
  kind = BucketKind.realtime;
  first_received_at = now;
  deadline_at = now;
  queued_at = some now;
  started_at = started_at;
  finished_at = none;
  error_code = none;
  created_at = now;
  updated_at = now;
}

unfoldable pub link_receipt : (task_id invocation_id bucket_id : ℕ) → State → State
unfolding modify
link_receipt task_id invocation_id bucket_id s =
    with_receipts
      (modify task_id
        (λ r. record r { invocation_id = some invocation_id; bucket_id = some bucket_id }))
      s

unfoldable pub inject_completion : (conversation_id bucket_id : ℕ) → State → State
unfolding queue_injection
inject_completion conversation_id bucket_id s = record s {
  attachment = elim s.attachment [
    | none ↦ none
    | some runtime ↦ some (
        (queue_injection conversation_id (record { bucket_id = bucket_id; kind = completion })
          runtime).0)
  ];
}

-- `#insertReceiptInvocation` for a running invocation.
unfoldable pub attach_receipt :
    ReceiptRow → (invocation_id : ℕ) → ℕ → Environment → State → Result QueueError State
unfolding receipt_bucket insert_join link_receipt inject_completion
attach_receipt r invocation_id now env s =
    let bucket_id = env.new_bucket_id s.buckets in
    do
      joins ← insert_join invocation_id bucket_id now s.joins
      ok (
          inject_completion r.conversation_id bucket_id (
            link_receipt r.task_id invocation_id bucket_id (record s {
              joins = joins;
              buckets =
                  insert bucket_id (receipt_bucket r BucketState.running (some now) now) s.buckets;
            })))

-- `#insertReceiptInvocation` for a new invocation.
unfoldable pub start_receipt : ReceiptRow → ℕ → Environment → State → Result QueueError (State × ℕ)
unfolding receipt_bucket insert_invocation link_receipt
start_receipt r now env s =
    let bucket_id = env.new_bucket_id s.buckets in
    do
      (inserted, invocation_id) ←
          insert_invocation env bucket_id r.conversation_id now true (record s {
            buckets = insert bucket_id (receipt_bucket r BucketState.queued none now) s.buckets;
          })
      ok (link_receipt r.task_id invocation_id bucket_id inserted, invocation_id)

unfoldable pub claim_receipt : ReceiptRow → ℕ → State → State
unfolding claim modify
claim_receipt r now s = with_receipts (modify r.task_id (claim now)) s

-- `this.#attachment === undefined || this.#attachment.isClosing(...)`
unfoldable pub cannot_attach : ℕ → State → Bool
cannot_attach conversation_id s = elim s.attachment [
  | none ↦ true
  | some runtime ↦ is_closing conversation_id runtime
]

-- The end of a round, past the gates.
unfoldable pub deliver : Environment → ℕ → ReceiptRow → Pass → Result QueueError Pass
unfolding running_invocation cannot_attach chat_running claim_receipt attach_receipt start_receipt
deliver env now r (s, ids) = elim (running_invocation r.conversation_id s) [
  | some invocation_id ↦
      if cannot_attach r.conversation_id s || not (has_pending_receipt r.task_id s)
      then ok (s, ids)
      else (do s' ← attach_receipt r invocation_id now env (claim_receipt r now s); ok (s', ids))
  | none ↦
      if chat_running r.chat_id s || not (has_pending_receipt r.task_id s)
      then ok (s, ids)
      else (do (s', id) ← start_receipt r now env (claim_receipt r now s); ok (s', ids ++ id ∷ []))
]

unfoldable pub suppress_pending : ReceiptRow → String → ℕ → State → State
unfolding suppress update_rows is_pending
suppress_pending r reason now s =
    with_receipts
      (update_rows (λ id q. id == r.task_id && is_pending q.state) (suppress now reason)) s

-- One round of the loop.
unfoldable pub process_receipt :
    Environment → ℕ → Option ℕ → ReceiptRow → Pass → Result QueueError Pass
unfolding receipt_cancel_reason suppress_pending deliver
process_receipt env now sleep_until r (s, ids) = elim (receipt_cancel_reason env r s) [
  | some reason ↦ ok (suppress_pending r reason now s, ids)
  | none ↦
      if is_some sleep_until && not r.bypass_daily_budget
      then ok (s, ids)
      else deliver env now r (s, ids)
]

unfoldable pub process_receipts :
    Environment → ℕ → Option ℕ → List ReceiptRow → Pass → Result QueueError Pass
unfolding process_receipt
process_receipts env now sleep_until [] pass = ok pass
process_receipts env now sleep_until (r ∷ rows) pass =
    process_receipt env now sleep_until r pass >>= λ next.
    process_receipts env now sleep_until rows next

-- `this.#tasks.processDue(now)`
unfoldable pub settle_tasks : ℕ → State → Result QueueError State
settle_tasks now s = elim (Due.process_due now s.service) [
  | ok service ↦ ok (record s { service = service })
  | err e ↦ err (task_error e)
]

unfoldable pub process_tasks_due : Environment → ℕ → State → Result QueueError Pass
unfolding settle_tasks pending_receipts process_receipts
process_tasks_due env now s = do
  settled ← settle_tasks now s
  let (sleep, sleep_until) = active_sleep_until now settled.sleep
  let awake = record settled { sleep = sleep }
  process_receipts env now sleep_until (pending_receipts env awake) (awake, [])
