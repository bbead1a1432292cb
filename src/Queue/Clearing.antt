-- ===== src/Queue/Clearing.antt =====
-- The clearing of queued invocations: `suppressInvalidQueuedReceipts` and `skipQueuedInvocations`
-- (src/orchestration/invocation-queue.ts).
use Prim.Native.String.{String}
use plastic_wan.Base.{
  ℕ, Bool, true, false, not, ◌&&◌, ◌||◌, Option, none, some, List, [], ◌∷◌, leb, ◌==◌,
  if◌then◌else◌, is_some, any, filter, sort, Table, lookup, modify, update_rows, matches,
}
use plastic_wan.LongTasks.Rows.{ReceiptState, Receipt, Task}
use plastic_wan.Queue.Tables.{BucketState, InvocationState, Invocation, Join, State, Environment}
use plastic_wan.Queue.Insert.{is_queued, is_joined, close_bucket, close_invocation}
use plastic_wan.Queue.Receipts.{ReceiptRow, receipt_row, receipt_cancel_reason, with_receipts}

unfoldable pub is_claimed : ReceiptState → Bool
is_claimed ReceiptState.claimed = true
is_claimed _ = false

abbrev pub is_id : Option ℕ → ℕ → Bool
is_id none id = false
is_id (some j) id = j == id

-- A claimed receipt of an invocation.
unfoldable pub is_claimed_by : ℕ → Receipt → Bool
unfolding is_claimed
is_claimed_by invocation_id r = is_claimed r.state && is_id r.invocation_id invocation_id

-- The buckets of an invocation: its opening one, and those joined to it.
abbrev pub belongs : ℕ → ℕ → List Join → ℕ → Bool
belongs invocation_id opening joins bucket_id =
    bucket_id == opening || is_joined invocation_id bucket_id joins

-- A queued invocation that ends, with its buckets.
unfoldable pub end_queued :
    (invocation_id opening : ℕ) → InvocationState → BucketState → String → ℕ → State → State
unfolding close_invocation close_bucket update_rows
end_queued invocation_id opening state bucket_state reason now s = record s {
  invocations =
      update_rows (λ id i. id == invocation_id) (close_invocation state reason now) s.invocations;
  buckets =
      update_rows (λ id b. belongs invocation_id opening s.joins id)
        (close_bucket bucket_state reason now) s.buckets;
}

-- The queued invocation of a claimed receipt.
unfoldable pub claimed_queued : State → Receipt → Option (ℕ × Invocation)
unfolding is_claimed is_queued
claimed_queued s r = elim r.invocation_id [
  | none ↦ none
  | some id ↦ elim (lookup id s.invocations) [
    | none ↦ none
    | some i ↦ if is_claimed r.state && is_queued i.state then some (id, i) else none
  ]
]

unfoldable pub claimed_rows :
    Environment → State → Table Receipt → List (ReceiptRow × (ℕ × Invocation))
unfolding claimed_queued receipt_row
claimed_rows env s [] = []
claimed_rows env s ((task_id, r) ∷ rows) =
    let rest = claimed_rows env s rows in
    elim (claimed_queued s r) [
      | none ↦ rest
      | some row ↦ elim (receipt_row env s (task_id, r)) [ none ↦ rest | some q ↦ (q, row) ∷ rest ]
    ]

-- `admin_cancelled` stays as it is here.
unfoldable pub suppress_claimed : ReceiptRow → String → ℕ → State → State
unfolding modify
suppress_claimed q reason now s =
    with_receipts
      (modify q.task_id (λ r. record r {
        state = ReceiptState.suppressed;
        cancelled_at = some now;
        cancel_reason = some reason;
        updated_at = now;
      }))
      s

unfoldable pub suppress_row : Environment → ℕ → ReceiptRow × (ℕ × Invocation) → State → State
unfolding receipt_cancel_reason suppress_claimed end_queued
suppress_row env now (q, (id, i)) s = elim (receipt_cancel_reason env q s) [
  | none ↦ s
  | some reason ↦
      end_queued id i.bucket_id InvocationState.aborted BucketState.aborted reason now
        (suppress_claimed q reason now s)
]

unfoldable pub suppress_rows :
    Environment → ℕ → List (ReceiptRow × (ℕ × Invocation)) → State → State
unfolding suppress_row
suppress_rows env now [] s = s
suppress_rows env now (row ∷ rows) s = suppress_rows env now rows (suppress_row env now row s)

unfoldable pub suppress_invalid_queued_receipts : Environment → ℕ → State → State
unfolding claimed_rows suppress_rows
suppress_invalid_queued_receipts env now s =
    suppress_rows env now (claimed_rows env s s.service.receipts) s

-- Whether the invocation carries a claimed receipt that bypasses the daily budget.
unfoldable pub is_exempt : Environment → State → ℕ → Bool
unfolding is_claimed_by
is_exempt env s invocation_id =
    any
      (λ row.
        is_claimed_by invocation_id row.1
        && matches (λ (t : Task). env.bypasses_daily_budget t.delivery_json) row.0 s.service.tasks)
      s.service.receipts

-- `ORDER BY id`
unfoldable pub by_id : ℕ × Invocation → ℕ × Invocation → Bool
by_id (i, _) (j, _) = leb i j

unfoldable pub has_chat : State → Invocation → Bool
has_chat s i = elim (lookup i.conversation_id s.conversations) [
  | none ↦ false
  | some v ↦ is_some (lookup v.chat_id s.chats)
]

unfoldable pub sleeping_rows : Environment → State → List (ℕ × Invocation)
unfolding is_exempt by_id has_chat is_queued
sleeping_rows env s = sort by_id (
    filter (λ row. is_queued row.1.state && has_chat s row.1 && not (is_exempt env s row.0))
      s.invocations)

unfoldable pub handle : String → String → ℕ → Receipt → Receipt
handle outcome reason now r = record r {
  state = ReceiptState.handled;
  handled_at = some now;
  updated_at = now;
  invocation_outcome = some outcome;
  completion_reason = some reason;
}

unfoldable pub handle_claimed : (invocation_id : ℕ) → String → String → ℕ → State → State
unfolding is_claimed_by handle update_rows
handle_claimed invocation_id outcome reason now s =
    with_receipts
      (update_rows (λ task r. is_claimed_by invocation_id r) (handle outcome reason now)) s

-- One round of the loop; the invocation is updated only while it is queued.
unfoldable pub skip_row : ℕ → ℕ × Invocation → State → State
unfolding close_invocation close_bucket update_rows is_queued handle_claimed
skip_row now (id, i) s = handle_claimed id "skipped_budget" "sleeping" now (record s {
  invocations =
      update_rows (λ j q. j == id && is_queued q.state)
        (close_invocation InvocationState.skipped_budget "sleeping" now) s.invocations;
  buckets =
      update_rows (λ j b. belongs id i.bucket_id s.joins j)
        (close_bucket BucketState.skipped_budget "sleeping" now) s.buckets;
})

unfoldable pub skip_rows : ℕ → List (ℕ × Invocation) → State → State
unfolding skip_row
skip_rows now [] s = s
skip_rows now (row ∷ rows) s = skip_rows now rows (skip_row now row s)

unfoldable pub skip_queued_invocations : Environment → ℕ → State → State
unfolding sleeping_rows skip_rows
skip_queued_invocations env now s = skip_rows now (sleeping_rows env s) s
