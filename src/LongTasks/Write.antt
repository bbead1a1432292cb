-- ===== src/LongTasks/Write.antt =====
-- The operations of `LongTaskService` that change state. Each runs in one transaction, so an error
-- leaves the state that the caller had.
use Prim.Native.String.{String}
use text.Mathlib.Text.{◌==◌ as str_eq}
use plastic_wan.Base.{
  ℕ, suc, Bool, true, false, not, ◌&&◌, ◌||◌, Option, none, some, ◌==◌, if◌then◌else◌, is_some,
  Result, ok, err, ◌>>=◌, Table, lookup, insert, modify, matches,
}
use plastic_wan.LongTasks.Rows.{
  TaskState, waiting, ReceiptStatus, FinishStatus, ReceiptState, pending, suppressed, Task, Receipt,
  Service, Scope, TaskError, receipt_key_conflict, CancelOptions,
}

abbrev pub option_eq : Option ℕ → ℕ → Bool
option_eq none n = false
option_eq (some m) n = m == n

unfoldable pub is_waiting : TaskState → Bool
is_waiting waiting = true
is_waiting _ = false

unfoldable pub is_pending : ReceiptState → Bool
is_pending pending = true
is_pending _ = false

-- The conjuncts on plugin and conversation.
unfoldable pub in_scope : Scope → Task → Bool
in_scope sc t = str_eq t.plugin_id sc.plugin_id && t.conversation_id == sc.conversation_id

-- The conjunct on the owner, for a restricted scope with a caller.
unfoldable pub owned : Scope → Task → Bool
owned sc t = elim sc.caller_id [
  | none ↦ true
  | some c ↦ not sc.restricted || option_eq t.created_by_user_id c
]

-- `restricted && callerId === null`
unfoldable pub no_caller : Scope → Bool
no_caller sc = sc.restricted && not (is_some sc.caller_id)

unfoldable pub insert_receipt : ℕ → Receipt → Table Receipt → Result TaskError (Table Receipt)
insert_receipt id r receipts =
    if is_some (lookup id receipts) then err receipt_key_conflict else ok (insert id r receipts)

unfoldable pub finish_task : TaskState → ℕ → Task → Task
finish_task state at t = record t { state = state; finished_at = some at; updated_at = at }

unfoldable pub new_receipt :
    ReceiptStatus → Option String → Option String → ReceiptState → ℕ → Receipt
new_receipt status result_json error_json state at = record {
  status = status;
  result_json = result_json;
  error_json = error_json;
  state = state;
  created_at = at;
  updated_at = at;
  claimed_at = none;
  handled_at = none;
  invocation_id = none;
  bucket_id = none;
  invocation_outcome = none;
  completion_reason = none;
  cancelled_at = none;
  cancelled_by = none;
  admin_cancelled = false;
  cancel_reason = none;
}

unfoldable pub is_completed : FinishStatus → Bool
is_completed FinishStatus.completed = true
is_completed FinishStatus.failed = false

abbrev pub task_state : FinishStatus → TaskState
task_state FinishStatus.completed = TaskState.completed
task_state FinishStatus.failed = TaskState.failed

abbrev pub receipt_status : FinishStatus → ReceiptStatus
receipt_status FinishStatus.completed = ReceiptStatus.completed
receipt_status FinishStatus.failed = ReceiptStatus.failed

-- The transaction of `#finish`: `json` is the validated text, `notify` the option.
unfoldable pub finish_row :
    Scope
    → ℕ
    → FinishStatus
    → Option String
    → Bool
    → ℕ
    → Service
    → Result TaskError (Service × Bool)
unfolding matches in_scope is_waiting insert_receipt finish_task new_receipt is_completed
finish_row sc id status json notify at s =
    let changed = matches (λ t. in_scope sc t && is_waiting t.state) id s.tasks in
    if changed
    then (do
      receipts ←
          insert_receipt id
            (new_receipt (receipt_status status) (if is_completed status then json else none)
              (if is_completed status then none else json) (if notify then pending else suppressed)
              at)
            s.receipts
      ok (
        record s {
          tasks = modify id (finish_task (task_state status) at) s.tasks;
          receipts = receipts;
          wakes = suc s.wakes;
        },
        true,
      ))
    else ok (s, false)

unfoldable pub stamp_cancel : CancelOptions → ℕ → Receipt → Receipt
stamp_cancel o at r = record r {
  state = suppressed;
  updated_at = at;
  cancelled_at = some at;
  cancelled_by = o.cancelled_by;
  admin_cancelled = o.admin_cancelled;
  cancel_reason = o.reason;
}

unfoldable pub has_pending : ℕ → Table Receipt → Bool
has_pending id receipts = elim (lookup id receipts) [ none ↦ false | some r ↦ is_pending r.state ]

unfoldable pub cancel : Scope → ℕ → CancelOptions → ℕ → Service → Result TaskError (Service × Bool)
unfolding matches in_scope owned no_caller is_waiting is_pending has_pending insert_receipt
    finish_task new_receipt
cancel sc id o at s =
    let identity = λ (t : Task). in_scope sc t && owned sc t in
    let waits = matches (λ t. identity t && is_waiting t.state) id s.tasks in
    let pends = has_pending id s.receipts && matches identity id s.tasks in
    if no_caller sc
    then ok (s, false)
    else if waits
    then (do
      receipts ←
          insert_receipt id
            (stamp_cancel o at (new_receipt ReceiptStatus.cancelled none none suppressed at))
            s.receipts
      ok (
        record s {
          tasks = modify id (finish_task TaskState.cancelled at) s.tasks;
          receipts = receipts;
          wakes = suc s.wakes;
        },
        true,
      ))
    else if pends
    then ok (
      record s { receipts = modify id (stamp_cancel o at) s.receipts; wakes = suc s.wakes },
      true,
    )
    else ok (s, false)
