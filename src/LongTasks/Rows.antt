-- ===== src/LongTasks/Rows.antt =====
-- Rows, inputs and errors of the long-task service (src/store/long-tasks.ts, the two tables of
-- src/store/schema.ts). A time is a number of milliseconds that is counted so that times order as
-- their ISO texts do, which is what the source compares: the years 0 to 9999 follow each other, and
-- the years outside them, whose texts begin with a sign, stand below. A stored JSON document is its text.
use Prim.Native.String.{String}
use plastic_wan.Base.{ℕ, ◌≡◌, Bool, true, false, Option, none, some, Table, lookup}

pub data TaskState : Type 0 where
  waiting completed failed cancelled : TaskState

pub data ReceiptStatus : Type 0 where
  completed failed cancelled : ReceiptStatus

-- How a plugin finishes a task: the statuses that `#finish` takes.
pub data FinishStatus : Type 0 where
  completed failed : FinishStatus

pub data ReceiptState : Type 0 where
  pending claimed handled suppressed : ReceiptState

-- The row of `long_tasks` under its id.
pub record Task : Type 0 where
  pub plugin_id : String
  pub conversation_id : ℕ
  pub created_by_invocation_id : Option ℕ
  pub created_by_user_id : Option ℕ
  pub payload_json : String
  pub state : TaskState
  pub scheduled_at : Option ℕ
  pub timer_result_json : Option String
  pub delivery_json : String
  pub created_at : ℕ
  pub updated_at : ℕ
  pub finished_at : Option ℕ

-- The row of `task_receipts` under its task's id.
pub record Receipt : Type 0 where
  pub status : ReceiptStatus
  pub result_json : Option String
  pub error_json : Option String
  pub state : ReceiptState
  pub created_at : ℕ
  pub updated_at : ℕ
  pub claimed_at : Option ℕ
  pub handled_at : Option ℕ
  pub invocation_id : Option ℕ
  pub bucket_id : Option ℕ
  pub invocation_outcome : Option String
  pub completion_reason : Option String
  pub cancelled_at : Option ℕ
  pub cancelled_by : Option String
  pub admin_cancelled : Bool
  pub cancel_reason : Option String

-- `wakes` counts the calls of the scheduler's wake callback.
pub record Service : Type 0 where
  pub tasks : Table Task
  pub receipts : Table Receipt
  pub wakes : ℕ

pub record MentionUser : Type 0 where
  pub user_id : ℕ
  pub display_name : String

pub record DeliveryPolicy : Type 0 where
  pub bypass_daily_budget : Bool
  pub mention_user : Option MentionUser

-- What a plugin's task scope is bound to.
pub record Scope : Type 0 where
  pub plugin_id : String
  pub conversation_id : ℕ
  pub invocation_id : Option ℕ
  pub caller_id : Option ℕ
  pub restricted : Bool

abbrev pub task_scope : String → ℕ → Option ℕ → Scope
task_scope plugin conversation invocation = record {
  plugin_id = plugin;
  conversation_id = conversation;
  invocation_id = invocation;
  caller_id = none;
  restricted = false;
}

abbrev pub scoped : String → ℕ → Scope
scoped plugin conversation = task_scope plugin conversation none

-- The scope of a live invocation, by its context's conversation, invocation and caller.
abbrev pub invocation_scope : String → ℕ → ℕ → Option ℕ → Scope
invocation_scope plugin conversation invocation caller = record {
  plugin_id = plugin;
  conversation_id = conversation;
  invocation_id = some invocation;
  caller_id = caller;
  restricted = true;
}

pub data Field : Type 0 where
  payload timer_result result error delivery task_payload : Field

-- The errors that the service throws, one constructor for each message.
pub data TaskError : Type 0 where
  not_json exceeds invalid_in_database : Field → TaskError
  not_canonical_iso timer_result_requires_scheduled_at : TaskError
  max_not_positive max_requires_invocation quota_exceeded : TaskError
  id_not_positive_int64 : TaskError
  no_timer_result : TaskError
  -- SQLite's refusal of a second receipt under one task id
  receipt_key_conflict : TaskError

abbrev pub max_json : ℕ
max_json = 16384

abbrev pub max_error : ℕ
max_error = 8192

abbrev pub max_delivery : ℕ
max_delivery = 4096

abbrev pub max_int64 : ℕ
max_int64 = 9223372036854775807

abbrev pub max_safe_integer : ℕ
max_safe_integer = 9007199254740991

-- What the service takes from the platform: JavaScript values with their validation and JSON
-- text, dates, and the id that SQLite gives a new row.
pub record Platform : Type 1 where
  pub Value : Type 0
  pub is_json : Value → Bool
  pub stringify : Value → String
  pub parse_json : String → Option Value
  pub stringify_delivery : DeliveryPolicy → String
  pub parse_date : String → Option ℕ
  pub to_iso : ℕ → String
  pub row_id : Table Task → ℕ
  pub row_id_fresh : (t : Table Task) → lookup (row_id t) t ≡ none

module _ (p : Platform) where
  open p use {Value}

  pub record CreateTaskInput : Type 0 where
    pub payload : Value
    pub delivery : Option DeliveryPolicy
    pub scheduled_at : Option String
    pub timer_result : Option Value
    pub max_per_invocation : Option ℕ

pub record CancelOptions : Type 0 where
  pub cancelled_by : Option String
  pub admin_cancelled : Bool
  pub reason : Option String
