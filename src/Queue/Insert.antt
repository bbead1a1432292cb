-- ===== src/Queue/Insert.antt =====
-- The writes that the queue's operations share (src/orchestration/invocation-queue.ts).
use Prim.Native.String.{String}
use plastic_wan.Base.{
  ℕ, Bool, true, false, ◌&&◌, Option, none, some, List, [], ◌∷◌, max, ◌==◌, if◌then◌else◌, any,
  find?, Table, lookup, insert, update_rows, Result, ok, err, ◌>>=◌,
}
use plastic_wan.Queue.Tables.{
  BucketState, InvocationState, Bucket, Invocation, Join, State, ChatConfig, Environment,
  QueueError, join_key_conflict,
}
use plastic_wan.Queue.Snapshot.{snapshot_invocation}

unfoldable pub is_collecting : BucketState → Bool
is_collecting BucketState.collecting = true
is_collecting _ = false

unfoldable pub is_queued_bucket : BucketState → Bool
is_queued_bucket BucketState.queued = true
is_queued_bucket _ = false

unfoldable pub is_running_bucket : BucketState → Bool
is_running_bucket BucketState.running = true
is_running_bucket _ = false

unfoldable pub is_queued : InvocationState → Bool
is_queued InvocationState.queued = true
is_queued _ = false

unfoldable pub is_running : InvocationState → Bool
is_running InvocationState.running = true
is_running _ = false

unfoldable pub chat_of : ℕ → State → Option ℕ
chat_of conversation_id s = elim (lookup conversation_id s.conversations) [
  | none ↦ none
  | some v ↦ some v.chat_id
]

-- The chat's Telegram id, through its conversation.
unfoldable pub telegram_chat_of : ℕ → State → Option ℕ
unfolding chat_of
telegram_chat_of conversation_id s = elim (chat_of conversation_id s) [
  | none ↦ none
  | some chat ↦ lookup chat s.chats
]

-- `config.telegram.chats.find`
abbrev pub config_for : ℕ → List ChatConfig → Option ChatConfig
config_for chat_id configs = find? (λ (c : ChatConfig). c.id == chat_id) configs

unfoldable pub resolve_chat_config : Environment → State → ℕ → Option ChatConfig
resolve_chat_config env s chat_id = elim (config_for chat_id env.chat_configs) [
  | some direct ↦ some direct
  | none ↦ elim (lookup chat_id s.chat_migrations) [
    | none ↦ none
    | some old_chat_id ↦ config_for old_chat_id env.chat_configs
  ]
]

unfoldable pub is_chat_paused : State → ℕ → Bool
is_chat_paused s chat_id = any (λ c. c == chat_id) s.chat_pause

abbrev pub is_join : ℕ → ℕ → Join → Bool
is_join invocation_id bucket_id j = j.invocation_id == invocation_id && j.bucket_id == bucket_id

-- Whether a bucket is attached to an invocation.
abbrev pub is_joined : ℕ → ℕ → List Join → Bool
is_joined invocation_id bucket_id joins = any (is_join invocation_id bucket_id) joins

unfoldable pub insert_join : ℕ → ℕ → ℕ → List Join → Result QueueError (List Join)
insert_join invocation_id bucket_id now joins =
    if is_joined invocation_id bucket_id joins
    then err join_key_conflict
    else ok (
        record {
          invocation_id = invocation_id;
          bucket_id = bucket_id;
          attached_at = now;
          injected_at = none;
        }
        ∷ joins)

unfoldable pub start_bucket : ℕ → Bucket → Bucket
start_bucket now b = record b {
  state = BucketState.running;
  started_at = some now;
  updated_at = now;
}

unfoldable pub queue_state : ℕ → Bucket → Bucket
queue_state now b = record b { state = BucketState.queued; queued_at = some now; updated_at = now }

-- A bucket that ends, with the reason.
unfoldable pub close_bucket : BucketState → String → ℕ → Bucket → Bucket
close_bucket state reason now b = record b {
  state = state;
  error_code = some reason;
  finished_at = some now;
  updated_at = now;
}

-- An invocation that ends, with the reason.
unfoldable pub close_invocation : InvocationState → String → ℕ → Invocation → Invocation
close_invocation state reason now i = record i {
  state = state;
  completion_reason = some reason;
  finished_at = some now;
}

unfoldable pub attach_bucket_to_invocation :
    Environment
    → (invocation_id bucket_id conversation_id : ℕ) → ℕ
    → State
    → Result QueueError State
unfolding insert_join start_bucket is_collecting update_rows
attach_bucket_to_invocation env invocation_id bucket_id conversation_id now s = do
  joins ← insert_join invocation_id bucket_id now s.joins
  ok (
      snapshot_invocation env invocation_id bucket_id conversation_id false true (record s {
        joins = joins;
        buckets =
            update_rows (λ id b. id == bucket_id && is_collecting b.state) (start_bucket now)
              s.buckets;
      }))

unfoldable pub new_invocation : Environment → (bucket_id conversation_id : ℕ) → ℕ → Invocation
new_invocation env bucket_id conversation_id now = record {
  bucket_id = bucket_id;
  conversation_id = conversation_id;
  state = InvocationState.queued;
  config_hash = env.config_hash;
  prompt_version = env.prompt_version;
  started_at = none;
  finished_at = none;
  completion_reason = none;
  side_effect_started = false;
  created_at = now;
}

-- The id of the new invocation.
unfoldable pub insert_invocation :
    Environment
    → (bucket_id conversation_id : ℕ) → ℕ
    → (include_history : Bool) → State
    → Result QueueError (State × ℕ)
unfolding insert_join new_invocation
insert_invocation env bucket_id conversation_id now include_history s =
    let id = env.new_invocation_id s.invocations in
    do
      joins ← insert_join id bucket_id now s.joins
      ok (
        snapshot_invocation env id bucket_id conversation_id include_history false (record s {
          joins = joins;
          invocations = insert id (new_invocation env bucket_id conversation_id now) s.invocations;
        }),
        id,
      )

unfoldable pub mark_bucket_skipped : ℕ → ℕ → String → State → State
unfolding close_bucket update_rows
mark_bucket_skipped bucket_id now reason s = record s {
  buckets =
      update_rows (λ id b. id == bucket_id) (close_bucket BucketState.skipped_budget reason now)
        s.buckets;
}

abbrev pub newer : ℕ → Option ℕ → ℕ
newer i none = i
newer i (some j) = max i j

-- `ORDER BY id DESC LIMIT 1`
unfoldable pub newest_running : ℕ → Table Invocation → Option ℕ
unfolding is_running
newest_running conversation_id [] = none
newest_running conversation_id ((id, i) ∷ rows) =
    let rest = newest_running conversation_id rows in
    if i.conversation_id == conversation_id && is_running i.state
    then some (newer id rest)
    else rest

unfoldable pub running_invocation : ℕ → State → Option ℕ
unfolding newest_running
running_invocation conversation_id s = newest_running conversation_id s.invocations

abbrev pub in_chat : State → ℕ → Invocation → Bool
in_chat s chat_id i = elim (chat_of i.conversation_id s) [ none ↦ false | some c ↦ c == chat_id ]

unfoldable pub chat_running : ℕ → State → Bool
unfolding is_running chat_of
chat_running chat_id s =
    any (λ row. in_chat s chat_id row.1 && is_running row.1.state) s.invocations
