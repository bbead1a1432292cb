-- ===== src/Queue/Tables.antt =====
-- The tables that the invocation queue and the scheduler read and write (src/store/schema.ts), with
-- what they take from the configuration. A time is a number of milliseconds.
use Prim.Native.String.{String}
use plastic_wan.Base.{ℕ, ◌≡◌, Bool, Option, none, List, Table, lookup}
use plastic_wan.LongTasks.Rows.{Service, TaskError}
use plastic_wan.Sleep.State.{SleepRow}
use plastic_wan.Conversation.Runtime.{Runtime}

pub data BucketState : Type 0 where
  collecting queued running completed failed aborted outcome_unknown : BucketState
  merged expired skipped_budget : BucketState

pub data InvocationState : Type 0 where
  queued running completed failed aborted outcome_unknown skipped_budget : InvocationState

pub data BucketKind : Type 0 where
  realtime startup_catch_up : BucketKind

-- The row of `buckets` under its id.
pub record Bucket : Type 0 where
  pub conversation_id : ℕ
  pub state : BucketState
  pub kind : BucketKind
  pub first_received_at : ℕ
  pub deadline_at : ℕ
  pub queued_at : Option ℕ
  pub started_at : Option ℕ
  pub finished_at : Option ℕ
  pub error_code : Option String
  pub created_at : ℕ
  pub updated_at : ℕ

-- The row of `invocations` under its id, with the columns that the queue and the scheduler use.
pub record Invocation : Type 0 where
  pub bucket_id : ℕ
  pub conversation_id : ℕ
  pub state : InvocationState
  pub config_hash : String
  pub prompt_version : ℕ
  pub started_at : Option ℕ
  pub finished_at : Option ℕ
  pub completion_reason : Option String
  pub side_effect_started : Bool
  pub created_at : ℕ

-- A row of `invocation_buckets`.
pub record Join : Type 0 where
  pub invocation_id : ℕ
  pub bucket_id : ℕ
  pub attached_at : ℕ
  pub injected_at : Option ℕ

pub record Conversation : Type 0 where
  pub chat_id : ℕ
  pub message_thread_id : ℕ

-- A row of `messages`, with whether the sender of its current revision is a bot.
pub record Message : Type 0 where
  pub conversation_id : ℕ
  pub telegram_message_id : ℕ
  pub telegram_date : ℕ
  pub received_at : ℕ
  pub visible : Bool
  pub sent_by_bot : Bool
  pub current_revision_id : Option ℕ
  pub is_bot : Bool

-- A row of `bucket_messages`.
pub record BucketMessage : Type 0 where
  pub bucket_id : ℕ
  pub message_id : ℕ
  pub sequence_no : ℕ
  pub source_bucket_id : Option ℕ

pub data Section : Type 0 where
  history new : Section

-- A row of `invocation_messages`.
pub record InvocationMessage : Type 0 where
  pub invocation_id : ℕ
  pub message_id : ℕ
  pub revision_id : ℕ
  pub section : Section
  pub sequence_no : ℕ
  pub source_bucket_id : Option ℕ
  pub snapshot_json : String

-- The database with the service of long tasks and the attachment target, if there is one.
pub record State : Type 0 where
  pub conversations : Table Conversation
  -- the Telegram id of each chat
  pub chats : Table ℕ
  -- the old Telegram id under the new one
  pub chat_migrations : Table ℕ
  pub chat_pause : List ℕ
  pub messages : Table Message
  -- the cutoff of `/cut_topic` under its conversation
  pub cutoffs : Table ℕ
  pub bucket_messages : List BucketMessage
  pub invocation_messages : List InvocationMessage
  pub buckets : Table Bucket
  pub invocations : Table Invocation
  pub joins : List Join
  pub service : Service
  pub sleep : Option SleepRow
  pub attachment : Option Runtime

pub record ChatConfig : Type 0 where
  pub id : ℕ
  pub topic_ids : Option (List ℕ)

-- The current configuration, SQLite's choice of a new id, its reading of a delivery policy, and the
-- JSON text of a message's snapshot.
pub record Environment : Type 0 where
  pub chat_configs : List ChatConfig
  pub history_messages : ℕ
  pub bucket_window_seconds : ℕ
  pub max_concurrency : ℕ
  pub config_hash : String
  pub prompt_version : ℕ
  pub new_bucket_id : Table Bucket → ℕ
  pub new_bucket_id_fresh : (t : Table Bucket) → lookup (new_bucket_id t) t ≡ none
  pub new_invocation_id : Table Invocation → ℕ
  pub new_invocation_id_fresh : (t : Table Invocation) → lookup (new_invocation_id t) t ≡ none
  pub bypasses_daily_budget : (delivery_json : String) → Bool
  pub snapshot_text : (revision_id : ℕ) → String

pub data QueueError : Type 0 where
  -- SQLite's refusal of a second row under (invocation_id, bucket_id)
  join_key_conflict : QueueError
  bucket_has_no_chat invocation_has_no_chat invocation_has_no_start_time : ℕ → QueueError
  task_error : TaskError → QueueError
