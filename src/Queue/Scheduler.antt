-- ===== src/Queue/Scheduler.antt =====
-- The state transitions of `BucketScheduler` (src/orchestration/scheduler.ts): the launch of queued
-- invocations, and the terminal transaction of `#execute`.
use Prim.Native.String.{String}
use plastic_wan.Base.{
  ℕ, zero, suc, ◌+◌, ◌*◌, max, Bool, false, not, ◌&&◌, ◌||◌, Option, none, some, List, [], ◌∷◌,
  ◌++◌, ltb, leb, ◌==◌, if◌then◌else◌, is_some, any, length, filter, sort, lookup, modify, matches,
  update_rows, Result, ok, err, ◌>>=◌,
}
use plastic_wan.Sleep.State.{active_sleep_until}
use plastic_wan.Queue.Tables.{
  BucketState, InvocationState, Bucket, Invocation, State, Environment, QueueError,
  invocation_has_no_chat, invocation_has_no_start_time,
}
use plastic_wan.Queue.Insert.{
  is_collecting, is_running_bucket, is_queued, is_running, is_joined, chat_of, chat_running,
  start_bucket,
}
use plastic_wan.Queue.Clearing.{
  is_claimed_by, handle_claimed, suppress_invalid_queued_receipts, skip_queued_invocations,
}
use plastic_wan.Queue.Release.{release_uninjected_buckets}

-- The terminal states that a handler returns.
pub data OutcomeState : Type 0 where
  completed failed aborted outcome_unknown : OutcomeState

pub record Outcome : Type 0 where
  pub state : OutcomeState
  pub reason : String

abbrev pub invocation_state : OutcomeState → InvocationState
invocation_state OutcomeState.completed = InvocationState.completed
invocation_state OutcomeState.failed = InvocationState.failed
invocation_state OutcomeState.aborted = InvocationState.aborted
invocation_state OutcomeState.outcome_unknown = InvocationState.outcome_unknown

abbrev pub bucket_state : OutcomeState → BucketState
bucket_state OutcomeState.completed = BucketState.completed
bucket_state OutcomeState.failed = BucketState.failed
bucket_state OutcomeState.aborted = BucketState.aborted
bucket_state OutcomeState.outcome_unknown = BucketState.outcome_unknown

abbrev pub outcome_text : OutcomeState → String
outcome_text OutcomeState.completed = "completed"
outcome_text OutcomeState.failed = "failed"
outcome_text OutcomeState.aborted = "aborted"
outcome_text OutcomeState.outcome_unknown = "outcome_unknown"

-- What a handler that throws ends as.
unfoldable pub thrown_outcome : (signal_aborted : Bool) → Outcome
thrown_outcome signal_aborted = record {
  state = if signal_aborted then OutcomeState.aborted else OutcomeState.failed;
  reason = if signal_aborted then "aborted" else "invocation_error";
}

-- Whether an invocation carries a claimed receipt.
unfoldable pub carries_receipt : State → ℕ → Bool
unfolding is_claimed_by
carries_receipt s id = any (λ row. is_claimed_by id row.1) s.service.receipts

-- The chat of the conversation runs nothing.
unfoldable pub is_chat_idle : State → ℕ → Bool
unfolding chat_of chat_running
is_chat_idle s conversation_id = elim (chat_of conversation_id s) [
  | none ↦ false
  | some chat ↦ not (chat_running chat s)
]

unfoldable pub is_candidate : ℕ → State → ℕ × Invocation → Bool
unfolding is_queued is_chat_idle
is_candidate now s (id, i) =
    is_queued i.state
    && matches (λ (b : Bucket). leb b.deadline_at now) i.bucket_id s.buckets
    && is_chat_idle s i.conversation_id

-- `ORDER BY CASE WHEN r.task_id IS NOT NULL THEN 0 ELSE 1 END, i.id`
unfoldable pub receipts_first : State → ℕ × Invocation → ℕ × Invocation → Bool
unfolding carries_receipt
receipts_first s (i, _) (j, _) =
    (carries_receipt s i && not (carries_receipt s j))
    || ((carries_receipt s i || not (carries_receipt s j)) && leb i j)

abbrev pub first_row : List (ℕ × Invocation) → Option (ℕ × Invocation)
first_row [] = none
first_row (row ∷ rows) = some row

unfoldable pub candidate : ℕ → State → Option (ℕ × Invocation)
unfolding is_candidate receipts_first
candidate now s = first_row (sort (receipts_first s) (filter (is_candidate now s) s.invocations))

unfoldable pub start_invocation : String → ℕ → Invocation → Invocation
start_invocation config_hash now i = record i {
  state = InvocationState.running;
  started_at = some now;
  config_hash = config_hash;
}

unfoldable pub launch : Environment → ℕ → ℕ × Invocation → State → State
unfolding start_invocation start_bucket modify
launch env now (id, i) s = record s {
  invocations = modify id (start_invocation env.config_hash now) s.invocations;
  buckets = modify i.bucket_id (start_bucket now) s.buckets;
}

-- The clearing at the start of a round of `#launchQueued`.
unfoldable pub clear_queued : Environment → ℕ → State → State
unfolding suppress_invalid_queued_receipts skip_queued_invocations
clear_queued env now s =
    let cleared = suppress_invalid_queued_receipts env now s in
    let (sleep, sleep_until) = active_sleep_until now cleared.sleep in
    let awake = record cleared { sleep = sleep } in
    if is_some sleep_until then skip_queued_invocations env now awake else awake

-- The loop of `#launchQueued`, on fuel for its rounds: the state with the invocations that run in
-- this process. The clock gives the time of a round under the number of those that run.
unfoldable pub launch_queued :
    Environment → (clock : ℕ → ℕ) → (fuel : ℕ) → State × List ℕ → State × List ℕ
unfolding clear_queued candidate launch
launch_queued env clock zero (s, active) = (s, active)
launch_queued env clock (suc fuel) (s, active) =
    let now = clock (length active) in
    let cleared = clear_queued env now s in
    if leb env.max_concurrency (length active)
    then (cleared, active)
    else elim (candidate now cleared) [
      | none ↦ (cleared, active)
      | some row ↦ launch_queued env clock fuel (launch env now row cleared, active ++ row.0 ∷ [])
    ]

unfoldable pub end_invocation : Outcome → ℕ → Invocation → Invocation
end_invocation outcome now i = record i {
  state = invocation_state outcome.state;
  completion_reason = some outcome.reason;
  finished_at = some now;
}

unfoldable pub end_bucket : OutcomeState → ℕ → Bucket → Bucket
end_bucket state now b = record b {
  state = bucket_state state;
  finished_at = some now;
  updated_at = now;
}

unfoldable pub persist_outcome : (id : ℕ) → Outcome → ℕ → State → State
unfolding end_invocation update_rows is_running
persist_outcome id outcome now s = record s {
  invocations =
      update_rows (λ j i. j == id && is_running i.state) (end_invocation outcome now) s.invocations;
}

unfoldable pub close_joined : (id : ℕ) → OutcomeState → ℕ → State → State
unfolding end_bucket update_rows is_running_bucket
close_joined id state now s = record s {
  buckets =
      update_rows (λ j b. is_running_bucket b.state && is_joined id j s.joins)
        (end_bucket state now) s.buckets;
}

-- A row without a start time has no date to compute with, and is an error like a missing row.
unfoldable pub started_at_of : ℕ → State → Result QueueError ℕ
started_at_of id s = elim (lookup id s.invocations) [
  | none ↦ err (invocation_has_no_start_time id)
  | some i ↦ elim i.started_at [
    | none ↦ err (invocation_has_no_start_time id)
    | some started ↦ ok started
  ]
]

unfoldable pub is_in_chat : State → ℕ → ℕ → Bool
unfolding chat_of
is_in_chat s chat_id conversation_id = elim (chat_of conversation_id s) [
  | none ↦ false
  | some c ↦ c == chat_id
]

-- The collecting buckets of the chat are due no earlier than the run's end.
unfoldable pub push_deadlines : (chat_id deadline : ℕ) → ℕ → State → State
unfolding is_in_chat is_collecting update_rows
push_deadlines chat_id deadline now s = record s {
  buckets =
      update_rows
        (λ id b.
          is_in_chat s chat_id b.conversation_id
          && is_collecting b.state
          && ltb b.deadline_at deadline)
        (λ b. record b { deadline_at = deadline; updated_at = now }) s.buckets;
}

unfoldable pub chat_result : (id conversation_id : ℕ) → State → Result QueueError ℕ
unfolding chat_of
chat_result id conversation_id s = elim (chat_of conversation_id s) [
  | none ↦ err (invocation_has_no_chat id)
  | some c ↦ ok c
]

-- The transaction of `#execute` after its handler.
unfoldable pub finish_invocation :
    Environment → (id conversation_id : ℕ) → Outcome → ℕ → State → Result QueueError State
unfolding persist_outcome close_joined started_at_of push_deadlines chat_result handle_claimed
    release_uninjected_buckets
finish_invocation env id conversation_id outcome now s = do
  released ← release_uninjected_buckets env id now (persist_outcome id outcome now s)
  let closed = close_joined id outcome.state now released
  started ← started_at_of id closed
  chat ← chat_result id conversation_id closed
  ok (
      handle_claimed id (outcome_text outcome.state) outcome.reason now
        (push_deadlines chat (max now (started + env.bucket_window_seconds * 1000)) now closed))
