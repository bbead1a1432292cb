-- ===== src/LongTasks/Tests.antt =====
-- The long-task service on a small database: a platform, a history, and the theorems at it.
use Prim.Native.String.{String}
use plastic_wan.Base.{
  ℕ, ◌+◌, ◌≤◌, ◌<◌, ◌≡◌, refl, true, false, not, ◌&&◌, ◌⊎◌, none, some, List, [], ◌∷◌, ◌==◌,
  if◌then◌else◌, ok, err, Table, lookup, modify, matches, count_rows, sort, arith,
}
use plastic_wan.LongTasks.Rows.{
  TaskState, waiting, FinishStatus, ReceiptStatus, ReceiptState, pending, claimed, Task, Receipt,
  Service, Scope, CancelOptions, Platform, CreateTaskInput, quota_exceeded, invocation_scope,
}
use plastic_wan.LongTasks.Write.{finish_row, cancel, in_scope, stamp_cancel}
use plastic_wan.LongTasks.Create.{create, of_invocation, checked_task}
use plastic_wan.LongTasks.Due.{
  process_due, next_deadline, is_due, due_rows, complete_each, wake_if, is_scheduled, first_time,
}
use plastic_wan.LongTasks.Invariant.{IsConsistent, linked, passes_checks, receipt_fits}
use plastic_wan.LongTasks.Service.{Operation, creates, cancels, timers, run, run-IsConsistent}
use plastic_wan.LongTasks.Timers.{process_due-settles, next_deadline-process_due}
use plastic_wan.LongTasks.Completing.{waits, completed_task, timer_receipt}
use plastic_wan.LongTasks.Once.{finish_row-waiting, finish_row-once, cancel-once, cancel-allowed}
use plastic_wan.LongTasks.Quota.{create-quota, create-frame}

-- An id above all that are used.
abbrev pub next_id : Table Task → ℕ
next_id [] = 1
next_id ((k, t) ∷ rows) = k + 1 + next_id rows

lookup_above : (k : ℕ) (t : Table Task) → next_id t ≤ k → lookup k t ≡ none
lookup_above k [] h = refl
lookup_above k ((j, r) ∷ t) h = ground (arith, lookup_above k t (omega arith))

pub next_id_fresh : (t : Table Task) → lookup (next_id t) t ≡ none
next_id_fresh t = lookup_above (next_id t) t (omega arith)

-- Values are texts, and every date is the instant 50.
abbrev pub sample : Platform
sample = record {
  Value = String;
  is_json = λ v. true;
  stringify = λ v. v;
  parse_json = λ text. some text;
  stringify_delivery = λ d. "{}";
  parse_date = λ text. some 50;
  to_iso = λ t. "T50";
  row_id = next_id;
  row_id_fresh = next_id_fresh;
}

abbrev start : Service
start = record { tasks = []; receipts = []; wakes = 0 }

start-IsConsistent : IsConsistent start
unfolding linked
start-IsConsistent = record {
  links = λ j. refl;
  distinct = tt;
  checks = tt;
  distinct_receipts = tt;
  receipt_checks = tt;
}

abbrev pub alarm_scope : Scope
alarm_scope = invocation_scope "alarm" 7 3 (some 42)

abbrev reminder : CreateTaskInput sample
reminder = record {
  payload = "\"tea\"";
  delivery = none;
  scheduled_at = some "T50";
  timer_result = none;
  max_per_invocation = some 1;
}

abbrev pub by_agent : CancelOptions
by_agent = record { cancelled_by = some "agent"; admin_cancelled = false; reason = none }

abbrev tea : Task
tea = record {
  plugin_id = "alarm";
  conversation_id = 7;
  created_by_invocation_id = some 3;
  created_by_user_id = some 42;
  payload_json = "\"tea\"";
  state = waiting;
  scheduled_at = some 50;
  timer_result_json = some "\"tea\"";
  delivery_json = "{}";
  created_at = 5;
  updated_at = 5;
  finished_at = none;
}

abbrev pub one_task : Service
one_task = record { tasks = (1, tea) ∷ []; receipts = []; wakes = 1 }

created : create sample alarm_scope reminder 5 start ≡ ok (one_task, 1)
unfolding create checked_task
created = refl

-- A second reminder by the same invocation is over the quota of one.
refused : create sample alarm_scope reminder 6 one_task ≡ err quota_exceeded
unfolding create checked_task
refused = refl

pub one_task-IsConsistent : IsConsistent one_task
unfolding linked passes_checks
one_task-IsConsistent = record {
  links = λ j. ground arith;
  distinct = (refl, tt);
  checks = (refl, tt);
  distinct_receipts = tt;
  receipt_checks = tt;
}

abbrev history : List (ℕ × Operation sample)
history =
    (5, creates alarm_scope reminder) ∷ (9, cancels alarm_scope 1 by_agent) ∷ (60, timers) ∷ []

run-IsConsistent_example : IsConsistent (run sample start history)
run-IsConsistent_example = run-IsConsistent sample start history start-IsConsistent

finish_row-waiting_example :
    (s' : Service) × (finish_row alarm_scope 1 FinishStatus.failed (some "\"late\"") true 8 one_task
      ≡ ok (s', true))
    × ((j : ℕ)
        → lookup j s'.tasks ≡ (
            if 1 == j
            then some
                (record tea { state = TaskState.failed; finished_at = some 8; updated_at = 8 })
            else lookup j one_task.tasks))
    × ((j : ℕ)
        → lookup j s'.receipts ≡ (
            if 1 == j
            then some (record {
              status = ReceiptStatus.failed;
              result_json = none;
              error_json = some "\"late\"";
              state = pending;
              created_at = 8;
              updated_at = 8;
              claimed_at = none;
              handled_at = none;
              invocation_id = none;
              bucket_id = none;
              invocation_outcome = none;
              completion_reason = none;
              cancelled_at = none;
              cancelled_by = none;
              admin_cancelled = false;
              cancel_reason = none;
            })
            else lookup j one_task.receipts))
    × (s'.wakes ≡ 2)
unfolding in_scope
finish_row-waiting_example =
    finish_row-waiting alarm_scope 1 FinishStatus.failed (some "\"late\"") true 8 one_task tea
      one_task-IsConsistent refl refl refl

abbrev finished_once : Service
finished_once = record {
  tasks =
      (1, record tea { state = TaskState.completed; finished_at = some 8; updated_at = 8 }) ∷ [];
  receipts =
      (
        1,
        record {
          status = ReceiptStatus.completed;
          result_json = none;
          error_json = none;
          state = pending;
          created_at = 8;
          updated_at = 8;
          claimed_at = none;
          handled_at = none;
          invocation_id = none;
          bucket_id = none;
          invocation_outcome = none;
          completion_reason = none;
          cancelled_at = none;
          cancelled_by = none;
          admin_cancelled = false;
          cancel_reason = none;
        },
      )
      ∷ [];
  wakes = 2;
}

finished :
    finish_row alarm_scope 1 FinishStatus.completed none true 8 one_task ≡ ok (finished_once, true)
unfolding finish_row modify
finished = refl

finish_row-once_example :
    finish_row alarm_scope 1 FinishStatus.failed none false 9 finished_once
    ≡ ok (finished_once, false)
finish_row-once_example =
    finish_row-once alarm_scope alarm_scope 1 FinishStatus.completed FinishStatus.failed none none
      true false 8 9 one_task finished_once finished

-- The receipt is still pending, so the alarm's owner can cancel it, once.
abbrev cancelled_once : Service
cancelled_once = record {
  tasks = finished_once.tasks;
  receipts =
      (
        1,
        record {
          status = ReceiptStatus.completed;
          result_json = none;
          error_json = none;
          state = ReceiptState.suppressed;
          created_at = 8;
          updated_at = 9;
          claimed_at = none;
          handled_at = none;
          invocation_id = none;
          bucket_id = none;
          invocation_outcome = none;
          completion_reason = none;
          cancelled_at = some 9;
          cancelled_by = some "agent";
          admin_cancelled = false;
          cancel_reason = none;
        },
      )
      ∷ [];
  wakes = 3;
}

cancelled_ok : cancel alarm_scope 1 by_agent 9 finished_once ≡ ok (cancelled_once, true)
unfolding cancel modify stamp_cancel
cancelled_ok = refl

finished_once-IsConsistent : IsConsistent finished_once
unfolding linked passes_checks receipt_fits
finished_once-IsConsistent = record {
  links = λ j. ground arith;
  distinct = (refl, tt);
  checks = (refl, tt);
  distinct_receipts = (refl, tt);
  receipt_checks = (refl, tt);
}

cancel-once_example : cancel alarm_scope 1 by_agent 10 cancelled_once ≡ ok (cancelled_once, false)
cancel-once_example =
    cancel-once alarm_scope alarm_scope 1 by_agent by_agent 9 10 finished_once cancelled_once
      finished_once-IsConsistent cancelled_ok

cancel-allowed_example :
    (t : Task) × (lookup 1 finished_once.tasks ≡ some t)
    × (in_scope alarm_scope t ≡ true)
    × ((alarm_scope.restricted ≡ false)
        ⊎ ((c : ℕ) × (alarm_scope.caller_id ≡ some c) × (t.created_by_user_id ≡ some c)))
cancel-allowed_example =
    cancel-allowed alarm_scope 1 by_agent 9 finished_once cancelled_once cancelled_ok

abbrev claimed_receipt : Receipt
claimed_receipt = record {
  status = ReceiptStatus.completed;
  result_json = none;
  error_json = none;
  state = claimed;
  created_at = 8;
  updated_at = 9;
  claimed_at = some 9;
  handled_at = none;
  invocation_id = some 4;
  bucket_id = some 5;
  invocation_outcome = none;
  completion_reason = none;
  cancelled_at = none;
  cancelled_by = none;
  admin_cancelled = false;
  cancel_reason = none;
}

abbrev claimed_once : Service
claimed_once = record finished_once { receipts = (1, claimed_receipt) ∷ [] }

claimed_once-IsConsistent : IsConsistent claimed_once
unfolding linked passes_checks receipt_fits
claimed_once-IsConsistent = record {
  links = λ j. ground arith;
  distinct = (refl, tt);
  checks = (refl, tt);
  distinct_receipts = (refl, tt);
  receipt_checks = (refl, tt);
}

process_due-settles_example :
    (s' : Service) × (process_due 60 one_task ≡ ok s')
    × IsConsistent s'
    × ((j : ℕ)
        → waits j s'.tasks ≡ (waits j one_task.tasks && not (matches (is_due 60) j one_task.tasks)))
    × ((j : ℕ) (t : Task) (d : ℕ)
        → lookup j one_task.tasks ≡ some t
        → t.state ≡ waiting
        → t.scheduled_at ≡ some d
        → d ≤ 60
        → (lookup j s'.tasks ≡ some (completed_task 60 t))
          × (lookup j s'.receipts ≡ some (timer_receipt 60 t)))
    × ((j : ℕ)
        → ((t : Task) (d : ℕ)
            → lookup j one_task.tasks ≡ some t
            → t.state ≡ waiting
            → t.scheduled_at ≡ some d
            → 60 < d)
        → (lookup j s'.tasks ≡ lookup j one_task.tasks)
          × (lookup j s'.receipts ≡ lookup j one_task.receipts))
process_due-settles_example = process_due-settles 60 one_task one_task-IsConsistent

-- At time 40 the timer is not due, and stays the next deadline.
not_due_yet : process_due 40 one_task ≡ ok one_task
unfolding process_due due_rows sort is_due complete_each wake_if
not_due_yet = refl

deadline_50 : next_deadline one_task.tasks ≡ some 50
unfolding next_deadline sort is_scheduled first_time
deadline_50 = refl

next_deadline-process_due_example : 40 < 50
next_deadline-process_due_example =
    next_deadline-process_due 40 one_task one_task 50 one_task-IsConsistent not_due_yet deadline_50

create-quota_example : count_rows (of_invocation "alarm" 3) one_task.tasks ≤ 1
create-quota_example =
    create-quota sample alarm_scope reminder 5 start one_task 1 1 3 refl refl created

create-frame_example :
    (t : Task) × (lookup 1 start.tasks ≡ none)
    × (t.state ≡ waiting)
    × (t.plugin_id ≡ "alarm")
    × (t.conversation_id ≡ 7)
    × (t.created_by_invocation_id ≡ some 3)
    × (t.created_by_user_id ≡ some 42)
    × ((j : ℕ) → lookup j one_task.tasks ≡ (if 1 == j then some t else lookup j start.tasks))
    × (one_task.receipts ≡ start.receipts)
create-frame_example = create-frame sample alarm_scope reminder 5 start one_task 1 created
