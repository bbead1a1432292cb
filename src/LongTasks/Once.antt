-- ===== src/LongTasks/Once.antt =====
-- Finishing and cancelling: who may do it, that it happens once, and what it leaves alone.
use Prim.Native.String.{String}
use plastic_wan.Base.{
  ℕ, suc, ◌≡◌, refl, ◌≢◌, Bool, true, false, not, ◌&&◌, ◌⊎◌, Option, none, some, ◌==◌, ==_iff,
  if◌then◌else◌, ok, lookup, insert, modify, matches, lookup-modify, arith,
}
use plastic_wan.LongTasks.Rows.{
  TaskState, waiting, FinishStatus, ReceiptState, pending, suppressed, Task, Receipt, Service,
  Scope, CancelOptions,
}
use plastic_wan.LongTasks.Write.{
  finish_row, cancel, finish_task, task_state, receipt_status, in_scope, owned, is_waiting,
  new_receipt, stamp_cancel, has_pending, is_pending,
}
use plastic_wan.LongTasks.Invariant.{linked, IsConsistent}

abbrev pub result_of : FinishStatus → Option String → Option String
result_of FinishStatus.completed json = json
result_of FinishStatus.failed json = none

abbrev pub error_of : FinishStatus → Option String → Option String
error_of FinishStatus.completed json = none
error_of FinishStatus.failed json = json

abbrev pub notified : Bool → ReceiptState
notified true = pending
notified false = suppressed

finish_row-eq :
    (sc : Scope) (id : ℕ) (status : FinishStatus) (json : Option String) (notify : Bool) (at : ℕ)
    (s : Service) (t : Task)
    → lookup id s.tasks ≡ some t
    → in_scope sc t ≡ true
    → t.state ≡ waiting
    → lookup id s.receipts ≡ none
    → finish_row sc id status json notify at s
      ≡ ok (
        record s {
          tasks = modify id (finish_task (task_state status) at) s.tasks;
          receipts =
              insert id
                (new_receipt
                  (receipt_status status)
                  (result_of status json)
                  (error_of status json)
                  (notified notify)
                  at)
                s.receipts;
          wakes = suc s.wakes;
        },
        true,
      )
unfolding finish_row
finish_row-eq sc id FinishStatus.completed json true at s t found scoped waits fresh = ground arith
finish_row-eq sc id FinishStatus.completed json false at s t found scoped waits fresh = ground arith
finish_row-eq sc id FinishStatus.failed json true at s t found scoped waits fresh = ground arith
finish_row-eq sc id FinishStatus.failed json false at s t found scoped waits fresh = ground arith

-- Finishing a task that is waiting in the scope, in a consistent state: it returns true, the task
-- has the new state, with its time as that of the end and of the update, and the receipt holds the
-- result or the error and nothing of a delivery, pending unless `notify` is false; no other task or receipt changes, and the scheduler is woken once.
pub finish_row-waiting :
    (sc : Scope) (id : ℕ) (status : FinishStatus) (json : Option String) (notify : Bool) (at : ℕ)
    (s : Service) (t : Task)
    → IsConsistent s
    → lookup id s.tasks ≡ some t
    → in_scope sc t ≡ true
    → t.state ≡ waiting
    → (s' : Service) × (finish_row sc id status json notify at s ≡ ok (s', true))
      × ((j : ℕ)
          → lookup j s'.tasks ≡ (
              if id == j
              then some
                  (record t { state = task_state status; finished_at = some at; updated_at = at })
              else lookup j s.tasks))
      × ((j : ℕ)
          → lookup j s'.receipts ≡ (
              if id == j
              then some (record {
                status = receipt_status status;
                result_json = result_of status json;
                error_json = error_of status json;
                state = notified notify;
                created_at = at;
                updated_at = at;
                claimed_at = none;
                handled_at = none;
                invocation_id = none;
                bucket_id = none;
                invocation_outcome = none;
                completion_reason = none;
                cancelled_at = none;
                cancelled_by = none;
                admin_cancelled = false;
                cancel_reason = none;
              })
              else lookup j s.receipts))
      × (s'.wakes ≡ suc s.wakes)
unfolding linked finish_task new_receipt
finish_row-waiting sc id status json notify at s t h found scoped waits =
    let link = h.links id in
    let f = finish_task (task_state status) at in
    let r =
      new_receipt (receipt_status status) (result_of status json) (error_of status json)
        (notified notify) at in
    (
      record s {
        tasks = modify id f s.tasks;
        receipts = insert id r s.receipts;
        wakes = suc s.wakes;
      },
      finish_row-eq sc id status json notify at s t found scoped waits (ground arith),
      λ j. ground (arith, lookup-modify j id f s.tasks, ==_iff id j),
      λ j. ground arith,
      refl,
    )

-- A task is finished once: after a call that returned true, any further finish of it, from any
-- scope, returns false and changes nothing.
pub finish_row-once :
    (sc sc' : Scope) (id : ℕ) (status status' : FinishStatus) (json json' : Option String)
    (notify notify' : Bool) (at at' : ℕ) (s s' : Service)
    → finish_row sc id status json notify at s ≡ ok (s', true)
    → finish_row sc' id status' json' notify' at' s' ≡ ok (s', false)
unfolding finish_row
finish_row-once sc sc' id status status' json json' notify notify' at at' s s' e =
    ground (arith, lookup-modify id id (finish_task (task_state status) at) s.tasks)

-- Whether neither the task nor its receipt can be cancelled any more.
settled : ℕ → Service → Bool
unfolding matches is_waiting has_pending is_pending
settled id s = not (matches (λ t. is_waiting t.state) id s.tasks) && not (has_pending id s.receipts)

cancel_of_settled :
    (sc : Scope) (id : ℕ) (o : CancelOptions) (at : ℕ) (s : Service)
    → settled id s ≡ true
    → cancel sc id o at s ≡ ok (s, false)
unfolding cancel settled
cancel_of_settled sc id o at s h = ground arith

settled-cancel :
    (sc : Scope) (id : ℕ) (o : CancelOptions) (at : ℕ) (s s' : Service)
    → linked (lookup id s.tasks) (lookup id s.receipts) ≡ true
    → cancel sc id o at s ≡ ok (s', true)
    → settled id s' ≡ true
unfolding cancel settled linked stamp_cancel
settled-cancel sc id o at s s' h e = ground (
  arith,
  lookup-modify id id (finish_task TaskState.cancelled at) s.tasks,
  lookup-modify id id (stamp_cancel o at) s.receipts,
)

-- In a consistent state a cancel succeeds once: any later one returns false and changes nothing.
pub cancel-once :
    (sc sc' : Scope) (id : ℕ) (o o' : CancelOptions) (at at' : ℕ) (s s' : Service)
    → IsConsistent s
    → cancel sc id o at s ≡ ok (s', true)
    → cancel sc' id o' at' s' ≡ ok (s', false)
cancel-once sc sc' id o o' at at' s s' h e =
    cancel_of_settled sc' id o' at' s' (settled-cancel sc id o at s s' (h.links id) e)

-- In a consistent state a receipt that an invocation has claimed or handled, or that is suppressed,
-- is out of reach: a cancel of its task returns false and changes nothing.
pub cancel_of_claimed :
    (sc : Scope) (id : ℕ) (o : CancelOptions) (at : ℕ) (s : Service) (r : Receipt)
    → IsConsistent s
    → lookup id s.receipts ≡ some r
    → r.state ≢ pending
    → cancel sc id o at s ≡ ok (s, false)
unfolding settled linked
cancel_of_claimed sc id o at s r h found taken =
    let link = h.links id in cancel_of_settled sc id o at s (ground arith)

-- A cancel that returns true was let by its scope: the task stands in the scope's plugin and
-- conversation, and the scope is not restricted, or its caller is known and created the task.
pub cancel-allowed :
    (sc : Scope) (id : ℕ) (o : CancelOptions) (at : ℕ) (s s' : Service)
    → cancel sc id o at s ≡ ok (s', true)
    → (t : Task) × (lookup id s.tasks ≡ some t)
      × (in_scope sc t ≡ true)
      × ((sc.restricted ≡ false)
          ⊎ ((c : ℕ) × (sc.caller_id ≡ some c) × (t.created_by_user_id ≡ some c)))
unfolding cancel in_scope owned
cancel-allowed sc id o at s s' e = ground arith
