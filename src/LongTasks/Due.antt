-- ===== src/LongTasks/Due.antt =====
-- Timers of the long-task service: `processDue` and `nextDeadline` (src/store/long-tasks.ts).
use plastic_wan.Base.{
  ℕ, zero, suc, Bool, true, false, ◌&&◌, ◌||◌, Option, none, some, List, [], ◌∷◌, ltb, leb, ◌==◌,
  if◌then◌else◌, Result, ok, err, ◌>>=◌, Table, matches, modify, filter, sort,
}
use plastic_wan.LongTasks.Rows.{
  TaskState, ReceiptStatus, pending, Task, Service, TaskError, no_timer_result,
}
use plastic_wan.LongTasks.Write.{is_waiting, insert_receipt, finish_task, new_receipt}

abbrev pub due_by : ℕ → Option ℕ → Bool
due_by at none = false
due_by at (some t) = leb t at

unfoldable pub is_due : ℕ → Task → Bool
unfolding is_waiting
is_due at t = is_waiting t.state && due_by at t.scheduled_at

-- `ORDER BY scheduled_at, id`, a row with no time first as SQLite sorts NULL.
unfoldable pub schedule_order : ℕ × Task → ℕ × Task → Bool
schedule_order (i, t) (j, u) = by_time t.scheduled_at u.scheduled_at
  where
    by_time : Option ℕ → Option ℕ → Bool
    by_time none none = leb i j
    by_time none (some b) = true
    by_time (some a) none = false
    by_time (some a) (some b) = ltb a b || (a == b && leb i j)

unfoldable pub due_rows : ℕ → Table Task → List (ℕ × Task)
unfolding is_due schedule_order
due_rows at tasks = sort schedule_order (filter (λ row. is_due at row.1) tasks)

-- One round of the loop, with the count of completed tasks.
unfoldable pub complete_due : ℕ → ℕ × Task → Service × ℕ → Result TaskError (Service × ℕ)
unfolding matches is_waiting insert_receipt finish_task new_receipt
complete_due at (id, task) (s, n) = elim task.timer_result_json [
  | none ↦ err no_timer_result
  | some json ↦
      if matches (λ t. is_waiting t.state) id s.tasks
      then (do
        receipts ←
            insert_receipt id (new_receipt ReceiptStatus.completed (some json) none pending at)
              s.receipts
        ok (
          record s {
            tasks = modify id (finish_task TaskState.completed at) s.tasks;
            receipts = receipts;
          },
          suc n,
        ))
      else ok (s, n)
]

unfoldable pub complete_each : ℕ → List (ℕ × Task) → Service × ℕ → Result TaskError (Service × ℕ)
complete_each at [] acc = ok acc
complete_each at (row ∷ rows) acc = complete_due at row acc >>= λ next. complete_each at rows next

-- Only a run that completed a task wakes the scheduler.
unfoldable pub wake_if : Service × ℕ → Service
wake_if (s, zero) = s
wake_if (s, suc n) = record s { wakes = suc s.wakes }

unfoldable pub process_due : ℕ → Service → Result TaskError Service
process_due at s = do done ← complete_each at (due_rows at s.tasks) (s, 0); ok (wake_if done)

unfoldable pub is_scheduled : Task → Bool
unfolding is_waiting
is_scheduled t = is_waiting t.state && timed t.scheduled_at
  where
    timed : Option ℕ → Bool
    timed none = false
    timed (some _) = true

unfoldable pub first_time : List (ℕ × Task) → Option ℕ
first_time [] = none
first_time ((id, t) ∷ rows) = t.scheduled_at

unfoldable pub next_deadline : Table Task → Option ℕ
next_deadline tasks = first_time (sort schedule_order (filter (λ row. is_scheduled row.1) tasks))
