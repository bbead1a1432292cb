-- ===== src/LongTasks/Timers.antt =====
-- Timers: `processDue` finishes what is due and nothing else, and leaves no deadline behind it.
use plastic_wan.Base.{
  ℕ, zero, suc, ◌<◌, ◌≡◌, refl, Bool, true, false, not, ◌&&◌, inl, inr, some, List, [], ◌∷◌, ◌==◌,
  Bool-cases, ok, Table, lookup, matches, any, HasDistinctKeys, any-eq-matches, All-lookup,
  matches-lookup, All, All-sort, any-sort, filter, arith, ◌≤◌, ◌∙◌, none, Option-cases,
}
use plastic_wan.Queue.Keys.{
  sort-HasDistinctKeys, filter-HasDistinctKeys, lookup-sort_same, lookup-filter_pass,
}
use plastic_wan.LongTasks.Rows.{waiting, TaskState, Task, Service}
use plastic_wan.LongTasks.Write.{is_waiting}
use plastic_wan.LongTasks.Due.{
  is_due, due_rows, schedule_order, wake_if, process_due, next_deadline, first_time, is_scheduled,
}
use plastic_wan.LongTasks.Invariant.{passes_checks, IsConsistent}
use plastic_wan.LongTasks.Completing.{
  waits, HasTimer, timer_receipt, completed_task, complete_each-Completes,
}

passes_checks-timer :
    (at : ℕ) (row : ℕ × Task) → passes_checks row.1 ≡ true → is_due at row.1 ≡ true → HasTimer row
unfolding passes_checks is_due
passes_checks-timer at (id, t) c d = (ground arith, ground arith)

All-timers :
    (at : ℕ) (tasks : Table Task)
    → All (λ row. passes_checks row.1 ≡ true) tasks
    → All HasTimer (filter (λ row. is_due at row.1) tasks)
All-timers at [] h = tt
All-timers at (row ∷ rows) (h, hs) = elim (Bool-cases (is_due at row.1)) [
  | inl e ↦ rw e (passes_checks-timer at row h e, All-timers at rows hs)
  | inr e ↦ rw e (All-timers at rows hs)
]

any-filter :
    (p q : ℕ × Task → Bool) (xs : List (ℕ × Task)) → any p (filter q xs) ≡ any (λ x. p x && q x) xs
any-filter p q [] = refl
any-filter p q (x ∷ xs) = ground (arith, any-filter p q xs)

any-due_rows :
    (at j : ℕ) (tasks : Table Task)
    → HasDistinctKeys tasks
    → any (λ row. row.0 == j) (due_rows at tasks) ≡ matches (is_due at) j tasks
unfolding due_rows
any-due_rows at j tasks d =
    rw (any-sort schedule_order, any-filter) (any-eq-matches (is_due at) j tasks d)

All-due_rows :
    (at : ℕ) (tasks : Table Task)
    → All (λ row. passes_checks row.1 ≡ true) tasks
    → All HasTimer (due_rows at tasks)
unfolding due_rows
All-due_rows at tasks h = All-sort schedule_order HasTimer _ (All-timers at tasks h)

wake_if-IsConsistent :
    (s : Service) (n : ℕ)
    → IsConsistent s
    → IsConsistent (wake_if (s, n))
      × ((wake_if (s, n)).tasks ≡ s.tasks)
      × ((wake_if (s, n)).receipts ≡ s.receipts)
unfolding wake_if
wake_if-IsConsistent s zero h = (h, refl, refl)
wake_if-IsConsistent s (suc n) h = (
  record {
    links = h.links;
    distinct = h.distinct;
    checks = h.checks;
    distinct_receipts = h.distinct_receipts;
    receipt_checks = h.receipt_checks;
  },
  refl,
  refl,
)

-- No task of a consistent state's outcome is due any more.
record Settles (at : ℕ) (s : Service) : Type 0 where
  pub final : Service
  pub returns : process_due at s ≡ ok final
  pub consistent : IsConsistent final
  pub settles :
      (j : ℕ) → waits j final.tasks ≡ (waits j s.tasks && not (matches (is_due at) j s.tasks))
  pub clears : (j : ℕ) → matches (is_due at) j final.tasks ≡ false
  pub completes :
      (j : ℕ) (t : Task)
      → lookup j s.tasks ≡ some t
      → is_due at t ≡ true
      → (lookup j final.tasks ≡ some (completed_task at t))
        × (lookup j final.receipts ≡ some (timer_receipt at t))
  pub untouched :
      (j : ℕ)
      → matches (is_due at) j s.tasks ≡ false
      → (lookup j final.tasks ≡ lookup j s.tasks) × (lookup j final.receipts ≡ lookup j s.receipts)

due_rows-HasDistinctKeys :
    (at : ℕ) (tasks : Table Task) → HasDistinctKeys tasks → HasDistinctKeys (due_rows at tasks)
unfolding due_rows
due_rows-HasDistinctKeys at tasks d =
    sort-HasDistinctKeys schedule_order (filter (λ row. is_due at row.1) tasks)
      (filter-HasDistinctKeys (λ row. is_due at row.1) tasks d)

lookup-due_rows :
    (at j : ℕ) (t : Task) (tasks : Table Task)
    → HasDistinctKeys tasks
    → lookup j tasks ≡ some t
    → is_due at t ≡ true
    → lookup j (due_rows at tasks) ≡ some t
unfolding due_rows
lookup-due_rows at j t tasks d here due =
    lookup-sort_same schedule_order j (filter (λ row. is_due at row.1) tasks)
      (filter-HasDistinctKeys (λ row. is_due at row.1) tasks d)
    ∙ lookup-filter_pass (λ row. is_due at row.1) j t tasks here due

lookup-none_of_any :
    (j : ℕ) (rows : List (ℕ × Task)) → any (λ row. row.0 == j) rows ≡ false → lookup j rows ≡ none
lookup-none_of_any j [] e = refl
lookup-none_of_any j ((k, t) ∷ rows) e = ground (arith, lookup-none_of_any j rows)

is_due-waiting : (at : ℕ) (t : Task) → is_due at t ≡ true → is_waiting t.state ≡ true
unfolding is_due
is_due-waiting at t e = ground arith

process_due-Settles : (at : ℕ) (s : Service) → IsConsistent s → Settles at s
unfolding process_due
process_due-Settles at s h =
    let run =
      complete_each-Completes at (due_rows at s.tasks) s 0 (All-due_rows at s.tasks h.checks)
        (due_rows-HasDistinctKeys at s.tasks h.distinct) h in
    let woken = wake_if-IsConsistent run.final run.total run.consistent in
    record {
      final = wake_if (run.final, run.total);
      returns = rw run.returns;
      consistent = woken.0;
      settles =
          λ j. rw woken.1 (ground (arith, run.settles j, any-due_rows at j s.tasks h.distinct));
      clears =
          λ j. rw woken.1 (ground (arith, run.clears at j, any-due_rows at j s.tasks h.distinct));
      completes = λ j t here due.
          rw (woken.1, woken.2)
            (run.completes j t t (lookup-due_rows at j t s.tasks h.distinct here due) here
              (is_due-waiting at t due));
      untouched = λ j other.
          rw (woken.1, woken.2)
            (run.untouched j (
              lookup-none_of_any j (due_rows at s.tasks)
                (any-due_rows at j s.tasks h.distinct ∙ other)));
    }

is_due_of_time :
    (at d : ℕ) (t : Task)
    → t.state ≡ waiting
    → t.scheduled_at ≡ some d
    → d ≤ at
    → is_due at t ≡ true
unfolding is_due is_waiting
is_due_of_time at d t open_one timed passed = ground arith

waiting_of_is_waiting : (state : TaskState) → is_waiting state ≡ true → state ≡ waiting
unfolding is_waiting
waiting_of_is_waiting waiting e = refl
waiting_of_is_waiting TaskState.completed e = ground arith
waiting_of_is_waiting TaskState.failed e = ground arith
waiting_of_is_waiting TaskState.cancelled e = ground arith

-- A task that is no waiting one of a time that has come is not due.
not_due_of_time :
    (at j : ℕ) (tasks : Table Task)
    → ((t : Task) (d : ℕ)
        → lookup j tasks ≡ some t
        → t.state ≡ waiting
        → t.scheduled_at ≡ some d
        → at < d)
    → matches (is_due at) j tasks ≡ false
unfolding is_due matches
not_due_of_time at j tasks later = elim (Option-cases (lookup j tasks)) [
  | inl lost ↦ ground arith
  | inr (t, here) ↦ elim (Bool-cases (is_waiting t.state)) [
    | inr done ↦ ground arith
    | inl open_one ↦ elim (Option-cases t.scheduled_at) [
      | inl never ↦ ground arith
      | inr (d, timed) ↦
          let after = later t d here (waiting_of_is_waiting t.state open_one) timed in ground arith
    ]
  ]
]

-- In a consistent state `processDue` returns, and afterwards a task waits exactly when it waited
-- before and was not due; the state is consistent again. A waiting task whose time has come is
-- completed at the time of the call, and has a pending receipt with the result that it has kept; any
-- other task is as it was, with its receipt.
pub process_due-settles :
    (at : ℕ) (s : Service)
    → IsConsistent s
    → (s' : Service) × (process_due at s ≡ ok s')
      × IsConsistent s'
      × ((j : ℕ) → waits j s'.tasks ≡ (waits j s.tasks && not (matches (is_due at) j s.tasks)))
      × ((j : ℕ) (t : Task) (d : ℕ)
          → lookup j s.tasks ≡ some t
          → t.state ≡ waiting
          → t.scheduled_at ≡ some d
          → d ≤ at
          → (lookup j s'.tasks ≡ some (completed_task at t))
            × (lookup j s'.receipts ≡ some (timer_receipt at t)))
      × ((j : ℕ)
          → ((t : Task) (d : ℕ)
              → lookup j s.tasks ≡ some t
              → t.state ≡ waiting
              → t.scheduled_at ≡ some d
              → at < d)
          → (lookup j s'.tasks ≡ lookup j s.tasks) × (lookup j s'.receipts ≡ lookup j s.receipts))
process_due-settles at s h =
    let r = process_due-Settles at s h in
    (
      r.final,
      r.returns,
      r.consistent,
      r.settles,
      λ j t d here open_one timed passed.
          r.completes j t here (is_due_of_time at d t open_one timed passed),
      λ j later. r.untouched j (not_due_of_time at j s.tasks later),
    )

first_time-All :
    (P : ℕ → Type 0) (rows : List (ℕ × Task)) {d : ℕ}
    → All (λ row. (x : ℕ) → row.1.scheduled_at ≡ some x → P x) rows
    → first_time rows ≡ some d
    → P d
unfolding first_time
first_time-All P [] h e = cc
first_time-All P ((id, t) ∷ rows) {d} (h, hs) e = h d e

not_due_later :
    (at : ℕ) (row : ℕ × Task)
    → is_due at row.1 ≡ false
    → is_scheduled row.1 ≡ true
    → (d : ℕ) → row.1.scheduled_at ≡ some d
    → at < d
unfolding is_due is_scheduled
not_due_later at (id, t) h k d e = ground arith

All-later :
    (at : ℕ) (tasks : Table Task)
    → All (λ row. is_due at row.1 ≡ false) tasks
    → All
        (λ row. (d : ℕ) → row.1.scheduled_at ≡ some d → at < d)
        (filter (λ row. is_scheduled row.1) tasks)
All-later at [] h = tt
All-later at (row ∷ rows) (h, hs) = elim (Bool-cases (is_scheduled row.1)) [
  | inl e ↦ rw e (not_due_later at row h e, All-later at rows hs)
  | inr e ↦ rw e (All-later at rows hs)
]

-- After `processDue` in a consistent state, the next deadline lies in the future, so the
-- scheduler's loop does not spin on one that has passed.
pub next_deadline-process_due :
    (at : ℕ) (s s' : Service) (d : ℕ)
    → IsConsistent s
    → process_due at s ≡ ok s'
    → next_deadline s'.tasks ≡ some d
    → at < d
unfolding next_deadline
next_deadline-process_due at s s' d h run e =
    let r = process_due-Settles at s h in
    let same : r.final ≡ s' = cc r.returns in
    let none_due =
      All-lookup (λ row. is_due at row.1 ≡ false) r.final.tasks r.consistent.distinct
        (λ j t found. matches-lookup (is_due at) j r.final.tasks found (r.clears j)) in
    first_time-All (λ x. at < x) _
      (All-sort schedule_order (λ row. (x : ℕ) → row.1.scheduled_at ≡ some x → at < x) _
        (All-later at r.final.tasks none_due))
      (rw (← same) at e)
