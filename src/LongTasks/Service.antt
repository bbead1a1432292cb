-- ===== src/LongTasks/Service.antt =====
-- The service as a whole: `#finish` with its validation, the operations as one step function, and
-- what holds after any history of calls.
use Prim.Native.String.{String}
use plastic_wan.Base.{
  ℕ, suc, ◌≡◌, Bool, true, false, inl, inr, Option, none, some, List, [], ◌∷◌, Result, ok, err,
  Result-cases, ◌>>=◌, >>=-eq-ok, lookup, insert, arith,
}
use plastic_wan.LongTasks.Rows.{
  waiting, FinishStatus, Field, result, error, Task, Service, Scope, TaskError, CancelOptions,
  Platform, CreateTaskInput, max_json, max_error,
}
use plastic_wan.LongTasks.Write.{finish_row, cancel}
use plastic_wan.LongTasks.Create.{
  json_text, within_limit, create, checked_task, new_task, canonical_iso, timer_text, delivery_text,
  over_quota,
}
use plastic_wan.LongTasks.Due.{process_due}
use plastic_wan.LongTasks.Invariant.{
  linked, passes_checks, fits, receipt_limit, IsConsistent, finish_row-IsConsistent,
  cancel-IsConsistent,
}
use plastic_wan.LongTasks.Timers.{process_due-settles}

abbrev value_limit : FinishStatus → ℕ
value_limit FinishStatus.completed = max_json
value_limit FinishStatus.failed = max_error

abbrev value_field : FinishStatus → Field
value_field FinishStatus.completed = result
value_field FinishStatus.failed = error

module _ (p : Platform) where
  open p use {Value}

  value_text : FinishStatus → Option Value → Result TaskError (Option String)
  value_text status none = ok none
  value_text status (some v) = do
    text ← json_text p v (value_limit status) (value_field status)
    ok (some text)

  unfoldable pub finish :
      Scope
      → ℕ
      → FinishStatus
      → Option Value
      → Bool
      → ℕ
      → Service
      → Result TaskError (Service × Bool)
  unfolding value_text
  finish sc id status value notify at s = do
    json ← value_text status value
    finish_row sc id status json notify at s

  pub data Operation : Type 0 where
    creates : Scope → CreateTaskInput p → Operation
    finishes : Scope → ℕ → FinishStatus → Option Value → Bool → Operation
    cancels : Scope → ℕ → CancelOptions → Operation
    timers : Operation

  -- A call that throws rolls its transaction back.
  abbrev after : Service → Result TaskError (Service × Bool) → Service
  after s (ok (s', b)) = s'
  after s (err e) = s

  abbrev after_create : Service → Result TaskError (Service × ℕ) → Service
  after_create s (ok (s', id)) = s'
  after_create s (err e) = s

  abbrev after_timers : Service → Result TaskError Service → Service
  after_timers s (ok s') = s'
  after_timers s (err e) = s

  unfoldable pub step : Service → ℕ × Operation → Service
  step s (at, creates sc input) = after_create s (create p sc input at s)
  step s (at, finishes sc id status value notify) = after s (finish sc id status value notify at s)
  step s (at, cancels sc id options) = after s (cancel sc id options at s)
  step s (at, timers) = after_timers s (process_due at s)

  unfoldable pub run : Service → List (ℕ × Operation) → Service
  run s [] = s
  run s (c ∷ cs) = run (step s c) cs

  checked_task-passes_checks :
      (sc : Scope) (input : CreateTaskInput p) (at : ℕ) {t : Task}
      → checked_task p sc input at ≡ ok t
      → (passes_checks t ≡ true) × (t.state ≡ waiting)
  unfolding checked_task json_text canonical_iso timer_text delivery_text new_task passes_checks
  checked_task-passes_checks sc input at e = ground arith

  -- What a successful `create` did.
  pub create-inv :
      (sc : Scope) (input : CreateTaskInput p) (at : ℕ) (s s' : Service) (id : ℕ)
      → create p sc input at s ≡ ok (s', id)
      → (row : Task) × (checked_task p sc input at ≡ ok row)
        × (over_quota sc input.max_per_invocation s.tasks ≡ false)
        × (s' ≡ record s { tasks = insert id row s.tasks; wakes = suc s.wakes })
        × (id ≡ p.row_id s.tasks)
  unfolding create
  create-inv sc input at s s' id e =
      let (row, checked, then') = >>=-eq-ok (checked_task p sc input at) _ e in
      (row, checked, ground arith, ground arith, ground arith)

  create-IsConsistent :
      (sc : Scope) (input : CreateTaskInput p) (at : ℕ) (s s' : Service) (id : ℕ)
      → IsConsistent s
      → create p sc input at s ≡ ok (s', id)
      → IsConsistent s'
  unfolding linked
  create-IsConsistent sc input at s s' id h e =
      let (row, checked, quota, same, fresh) = create-inv sc input at s s' id e in
      let (fits, starts) = checked_task-passes_checks sc input at checked in
      let unused : lookup id s.tasks ≡ none = rw fresh (p.row_id_fresh s.tasks) in
      let link = λ (j : ℕ). h.links j in
      rw same (record {
        links = λ j. ground (arith, link j, link id);
        distinct = (unused, h.distinct);
        checks = (fits, h.checks);
        distinct_receipts = h.distinct_receipts;
        receipt_checks = h.receipt_checks;
      })

  value_text-fits :
      (status : FinishStatus) (value : Option Value) (json : Option String)
      → value_text status value ≡ ok json
      → fits json (receipt_limit status) ≡ true
  unfolding value_text json_text within_limit
  value_text-fits FinishStatus.completed none json e = ground arith
  value_text-fits FinishStatus.completed (some v) json e = ground arith
  value_text-fits FinishStatus.failed none json e = ground arith
  value_text-fits FinishStatus.failed (some v) json e = ground arith

  -- Every call, whatever its scope and whether or not it throws, keeps the state consistent: a
  -- task has a receipt exactly when it is not waiting, with the task's state for its status, and
  -- the rows pass their tables' CHECK constraints.
  pub step-IsConsistent :
      (s : Service) (c : ℕ × Operation) → IsConsistent s → IsConsistent (step s c)
  unfolding step finish
  step-IsConsistent s (at, creates sc input) h = elim (Result-cases (create p sc input at s)) [
    | inl ((s', id), e) ↦ rw e (create-IsConsistent sc input at s s' id h e)
    | inr (x, e) ↦ rw e h
  ]
  step-IsConsistent s (at, finishes sc id status value notify) h =
      elim (Result-cases (finish sc id status value notify at s)) [
        | inl ((s', b), e) ↦
            let (json, text, row) = >>=-eq-ok (value_text status value) _ e in
            rw e (
              finish_row-IsConsistent sc id at s h status json notify
                (value_text-fits status value json text) row)
        | inr (x, e) ↦ rw e h
      ]
  step-IsConsistent s (at, cancels sc id o) h = elim (Result-cases (cancel sc id o at s)) [
    | inl ((s', b), e) ↦ rw e (cancel-IsConsistent sc id at s h o e)
    | inr (x, e) ↦ rw e h
  ]
  step-IsConsistent s (at, timers) h = let r = process_due-settles at s h in rw r.1 r.2

  -- From a consistent state, any history of creates, finishes, cancels and timer passes, whatever
  -- they return, leads to a consistent state: a task that waits has no receipt, any other has the
  -- receipt of its outcome and no receipt is without a task, ids are distinct among the tasks and
  -- among the receipts, each task row keeps the size limits and the pairing of its timer columns,
  -- and each receipt sets only the columns of its status, a result of at most 16384 bytes or an
  -- error of at most 8192.
  pub run-IsConsistent :
      (s : Service) (cs : List (ℕ × Operation)) → IsConsistent s → IsConsistent (run s cs)
  unfolding run
  run-IsConsistent s [] h = h
  run-IsConsistent s (c ∷ cs) h = run-IsConsistent (step s c) cs (step-IsConsistent s c h)
