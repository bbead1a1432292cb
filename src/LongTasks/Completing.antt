-- ===== src/LongTasks/Completing.antt =====
-- The loop of `processDue` over the due rows (src/store/long-tasks.ts).
use plastic_wan.Base.{
  ℕ, ◌≡◌, refl, Bool, true, false, not, ◌&&◌, ◌⊎◌, inl, inr, some, List, [], ◌∷◌, ◌==◌, is_some,
  Bool-cases, ok, err, Result-cases, Table, lookup, modify, matches, any, lookup-modify,
  HasDistinctKeys, All, arith, ◌∙◌, none, insert, Option-cases, ==_iff, ==_refl,
}
use plastic_wan.LongTasks.Rows.{
  TaskState, ReceiptStatus, pending, Task, Receipt, Service, TaskError,
}
use plastic_wan.LongTasks.Write.{is_waiting, finish_task, new_receipt}
use plastic_wan.LongTasks.Due.{is_due, complete_due, complete_each}
use plastic_wan.LongTasks.Invariant.{
  IsConsistent-tasks, linked, fits, receipt_fits, AreReceipts, IsConsistent,
}

-- Whether a task still waits.
abbrev pub waits : ℕ → Table Task → Bool
waits = matches (λ t. is_waiting t.state)

abbrev pub HasTimer : ℕ × Task → Type 0
HasTimer row =
    (is_some row.1.timer_result_json ≡ true) × (fits row.1.timer_result_json 16384 ≡ true)

-- The receipt of a timer, with the result that its task has kept.
abbrev pub timer_receipt : (at : ℕ) → Task → Receipt
timer_receipt at task = record {
  status = ReceiptStatus.completed;
  result_json = task.timer_result_json;
  error_json = none;
  state = pending;
  created_at = at;
  updated_at = at;
  claimed_at = none;
  handled_at = none;
  invocation_id = none;
  bucket_id = none;
  invocation_outcome = none;
  completion_reason = none;
  cancelled_at = none;
  cancelled_by = none;
  admin_cancelled = false;
  cancel_reason = none;
}

abbrev pub completed_task : (at : ℕ) → Task → Task
completed_task at t = record t {
  state = TaskState.completed;
  finished_at = some at;
  updated_at = at;
}

module _ (at id : ℕ) (task : Task) (s : Service) (n : ℕ) where
  complete_due-ne-err :
      (e : TaskError)
      → is_some task.timer_result_json ≡ true
      → linked (lookup id s.tasks) (lookup id s.receipts) ≡ true
      → complete_due at (id, task) (s, n) ≡ err e
      → ⊥
  unfolding complete_due linked
  complete_due-ne-err e h l r = ground arith

  module _ {s' : Service} {n' : ℕ} (run : complete_due at (id, task) (s, n) ≡ ok (s', n')) where
    complete_due-linked :
        (j : ℕ)
        → linked (lookup j s.tasks) (lookup j s.receipts) ≡ true
        → linked (lookup j s'.tasks) (lookup j s'.receipts) ≡ true
    unfolding complete_due linked
    complete_due-linked j h =
        ground (arith, lookup-modify j id (finish_task TaskState.completed at) s.tasks)

    complete_due-waits : (j : ℕ) → waits j s'.tasks ≡ (waits j s.tasks && not (id == j))
    unfolding complete_due
    complete_due-waits j =
        ground (arith, lookup-modify j id (finish_task TaskState.completed at) s.tasks)

    complete_due-is_due :
        (k j : ℕ) → matches (is_due k) j s'.tasks ≡ (matches (is_due k) j s.tasks && not (id == j))
    unfolding complete_due is_due
    complete_due-is_due k j =
        ground (arith, lookup-modify j id (finish_task TaskState.completed at) s.tasks)

    complete_due-other :
        (j : ℕ)
        → (id == j) ≡ false
        → (lookup j s'.tasks ≡ lookup j s.tasks) × (lookup j s'.receipts ≡ lookup j s.receipts)
    unfolding complete_due
    complete_due-other j other = (
      ground (arith, lookup-modify j id (finish_task TaskState.completed at) s.tasks),
      ground arith,
    )

    complete_due-row :
        (t : Task)
        → lookup id s.tasks ≡ some t
        → is_waiting t.state ≡ true
        → (lookup id s'.tasks ≡ some (completed_task at t))
          × (lookup id s'.receipts ≡ some (timer_receipt at task))
    unfolding complete_due finish_task new_receipt
    complete_due-row t here open_one = elim (Option-cases task.timer_result_json) [
      | inl lost ↦ ground arith
      | inr (json, e) ↦ (
        ground
            (arith, ==_refl id, lookup-modify id id (finish_task TaskState.completed at) s.tasks),
        ground (arith, ==_refl id),
      )
    ]

    complete_due-receipts :
        (s'.receipts ≡ s.receipts)
        ⊎ ((lookup id s.receipts ≡ none)
            × (s'.receipts ≡ insert id (timer_receipt at task) s.receipts))
    unfolding complete_due new_receipt
    complete_due-receipts =
        ground (arith, Option-cases (lookup id s.receipts), Option-cases task.timer_result_json)

    complete_due-AreReceipts :
        HasTimer (id, task) → AreReceipts s.receipts → AreReceipts s'.receipts
    unfolding receipt_fits
    complete_due-AreReceipts (timed, small) (d, c) = elim complete_due-receipts [
      | inl same ↦ rw same (d, c)
      | inr (fresh, same) ↦ rw same ((fresh, d), (ground arith, c))
    ]

    complete_due-tasks :
        (s'.tasks ≡ s.tasks) ⊎ (s'.tasks ≡ modify id (finish_task TaskState.completed at) s.tasks)
    unfolding complete_due
    complete_due-tasks = ground arith

complete_due-IsConsistent :
    (at : ℕ) (row : ℕ × Task) (s : Service) (n : ℕ) {s' : Service} {n' : ℕ}
    → complete_due at row (s, n) ≡ ok (s', n')
    → HasTimer row
    → IsConsistent s
    → IsConsistent s'
complete_due-IsConsistent at (id, task) s n {s'} run timer h =
    IsConsistent-tasks id TaskState.completed at h (complete_due-tasks at id task s n run)
      (λ j. complete_due-linked at id task s n run j (h.links j))
      (complete_due-AreReceipts at id task s n run timer (h.distinct_receipts, h.receipt_checks))

-- The loop ends without an error, in a state where exactly the listed tasks stopped waiting.
pub record Completes (at : ℕ) (rows : List (ℕ × Task)) (s : Service) (n : ℕ) : Type 0 where
  pub final : Service
  pub total : ℕ
  pub returns : complete_each at rows (s, n) ≡ ok (final, total)
  pub consistent : IsConsistent final
  pub settles :
      (j : ℕ) → waits j final.tasks ≡ (waits j s.tasks && not (any (λ row. row.0 == j) rows))
  pub clears :
      (k j : ℕ)
      → matches (is_due k) j final.tasks
        ≡ (matches (is_due k) j s.tasks && not (any (λ row. row.0 == j) rows))
  pub untouched :
      (j : ℕ)
      → lookup j rows ≡ none
      → (lookup j final.tasks ≡ lookup j s.tasks) × (lookup j final.receipts ≡ lookup j s.receipts)
  pub completes :
      (j : ℕ) (task t : Task)
      → lookup j rows ≡ some task
      → lookup j s.tasks ≡ some t
      → is_waiting t.state ≡ true
      → (lookup j final.tasks ≡ some (completed_task at t))
        × (lookup j final.receipts ≡ some (timer_receipt at task))

pub complete_each-Completes :
    (at : ℕ) (rows : List (ℕ × Task)) (s : Service) (n : ℕ)
    → All HasTimer rows
    → HasDistinctKeys rows
    → IsConsistent s
    → Completes at rows s n
unfolding complete_each
complete_each-Completes at [] s n t d h = record {
  final = s;
  total = n;
  returns = refl;
  consistent = h;
  settles = λ j. ground arith;
  clears = λ k j. ground arith;
  untouched = λ j e. (refl, refl);
  completes = λ j task t e here open_one. (cc, cc);
}
complete_each-Completes at ((id, task) ∷ rows) s n (t, ts) (apart, ds) h =
    elim (Result-cases (complete_due at (id, task) (s, n))) [
      | inl ((s', n'), e) ↦
          let rest =
            complete_each-Completes at rows s' n' ts ds
              (complete_due-IsConsistent at (id, task) s n e t h) in
          record {
            final = rest.final;
            total = rest.total;
            returns = rw e rest.returns;
            consistent = rest.consistent;
            settles = λ j. ground (arith, rest.settles j, complete_due-waits at id task s n e j);
            clears =
                λ k j. ground (arith, rest.clears k j, complete_due-is_due at id task s n e k j);
            untouched = λ j gone.
                let later = rest.untouched j (ground arith) in
                let first = complete_due-other at id task s n e j (ground arith) in
                (later.0 ∙ first.0, later.1 ∙ first.1);
            completes = λ j u v listed here open_one. elim (Bool-cases (id == j)) [
              | inl same ↦
                  let key = (==_iff id j).0 same in
                  let row : task ≡ u = ground arith in
                  let mine : lookup id s.tasks ≡ some v = cc in
                  let now_done = complete_due-row at id task s n e v mine open_one in
                  let later = rest.untouched id apart in (cc, cc)
              | inr other ↦
                  let first = complete_due-other at id task s n e j other in
                  rest.completes j u v (ground arith) (first.0 ∙ here) open_one
            ];
          }
      | inr (x, e) ↦ absurd (complete_due-ne-err at id task s n x t.0 (h.links id) e)
    ]
