-- ===== src/LongTasks/Invariant.antt =====
-- What holds of tasks and receipts between two operations of the service: a task has a receipt
-- exactly when it is no longer waiting, the receipt's status is the task's state, ids are distinct in
-- both tables, and every row passes the CHECK constraints of its table on its columns and on the
-- sizes of its documents (src/store/migrations/020_long_tasks.sql).
use Prim.Native.String.{String, len}
use plastic_wan.Base.{
  ℕ, ◌≡◌, refl, Bool, true, false, not, ◌&&◌, ◌⊎◌, inl, inr, Option, none, some, leb, is_some, ok,
  Table, lookup, modify, lookup-modify, HasDistinctKeys, modify-HasDistinctKeys, All-modify, All,
  arith, Option-cases, Bool-cases, matches, insert, subst, if◌then◌else◌,
}
use plastic_wan.LongTasks.Rows.{
  TaskState, waiting, ReceiptStatus, ReceiptState, FinishStatus, Task, Receipt, Service, Scope,
  CancelOptions, max_json, max_delivery,
}
use plastic_wan.LongTasks.Write.{
  finish_task, finish_row, cancel, stamp_cancel, task_state, receipt_status, is_completed, in_scope,
  is_waiting, new_receipt,
}

-- The CHECK constraint of `task_receipts` on which columns of a receipt are set.
columns_fit : ReceiptStatus → Option String → Option String → Bool
columns_fit ReceiptStatus.completed result_json error_json = not (is_some error_json)
columns_fit ReceiptStatus.failed result_json error_json = not (is_some result_json)
columns_fit ReceiptStatus.cancelled result_json error_json =
    not (is_some result_json) && not (is_some error_json)

same_status : TaskState → ReceiptStatus → Bool
same_status TaskState.completed ReceiptStatus.completed = true
same_status TaskState.failed ReceiptStatus.failed = true
same_status TaskState.cancelled ReceiptStatus.cancelled = true
same_status _ _ = false

linked_state : TaskState → Option Receipt → Bool
linked_state waiting none = true
linked_state waiting (some r) = false
linked_state state none = false
linked_state state (some r) =
    same_status state r.status && columns_fit r.status r.result_json r.error_json

unfoldable pub linked : Option Task → Option Receipt → Bool
unfolding linked_state same_status columns_fit
linked none none = true
linked none (some r) = false
linked (some t) o = linked_state t.state o

same_presence : Option ℕ → Option String → Bool
same_presence none none = true
same_presence (some t) (some r) = true
same_presence _ _ = false

abbrev pub fits : Option String → ℕ → Bool
fits none limit = true
fits (some text) limit = leb (len text) limit

-- The CHECK constraints of `long_tasks`.
unfoldable pub passes_checks : Task → Bool
unfolding same_presence
passes_checks t =
    leb (len t.payload_json) max_json
    && fits t.timer_result_json max_json
    && leb (len t.delivery_json) max_delivery
    && same_presence t.scheduled_at t.timer_result_json

-- The CHECK constraints of `task_receipts` on the sizes of its documents.
unfoldable pub receipt_fits : Receipt → Bool
receipt_fits r = fits r.result_json 16384 && fits r.error_json 8192

abbrev pub AreReceipts : Table Receipt → Type 0
AreReceipts t = HasDistinctKeys t × All (λ row. receipt_fits row.1 ≡ true) t

pub record IsConsistent (s : Service) : Type 0 where
  pub links : (id : ℕ) → linked (lookup id s.tasks) (lookup id s.receipts) ≡ true
  pub distinct : HasDistinctKeys s.tasks
  pub checks : All (λ row. passes_checks row.1 ≡ true) s.tasks
  pub distinct_receipts : HasDistinctKeys s.receipts
  pub receipt_checks : All (λ row. receipt_fits row.1 ≡ true) s.receipts

finish_task-passes_checks :
    (state : TaskState) (at : ℕ) (t : Task)
    → passes_checks (finish_task state at t) ≡ passes_checks t
unfolding finish_task passes_checks
finish_task-passes_checks state at t = refl

-- Setting a task's terminal columns keeps the table well formed.
pub modify-finish_task :
    (id : ℕ) (state : TaskState) (at : ℕ) (t : Table Task)
    → HasDistinctKeys t × All (λ row. passes_checks row.1 ≡ true) t
    → HasDistinctKeys (modify id (finish_task state at) t)
      × All (λ row. passes_checks row.1 ≡ true) (modify id (finish_task state at) t)
modify-finish_task id state at t (d, c) = (
  modify-HasDistinctKeys id (finish_task state at) t d,
  All-modify (λ row. passes_checks row.1 ≡ true) id (finish_task state at) t
      (λ j r h. rw (finish_task-passes_checks state at r) h) c,
)

abbrev pub receipt_limit : FinishStatus → ℕ
receipt_limit FinishStatus.completed = 16384
receipt_limit FinishStatus.failed = 8192

finished_fits :
    (status : FinishStatus) (json : Option String) (notify : Bool) (at : ℕ)
    → fits json (receipt_limit status) ≡ true
    → receipt_fits (
        new_receipt
          (receipt_status status)
          (if is_completed status then json else none)
          (if is_completed status then none else json)
          (if notify then ReceiptState.pending else ReceiptState.suppressed)
          at)
      ≡ true
unfolding receipt_fits new_receipt is_completed
finished_fits FinishStatus.completed json notify at small = ground arith
finished_fits FinishStatus.failed json notify at small = ground arith

stamp_cancel-receipt_fits :
    (o : CancelOptions) (at : ℕ) (r : Receipt) → receipt_fits (stamp_cancel o at r) ≡ receipt_fits r
unfolding receipt_fits stamp_cancel
stamp_cancel-receipt_fits o at r = refl

cancelled_fits :
    (o : CancelOptions) (at : ℕ)
    → receipt_fits (
        stamp_cancel o at
          (new_receipt ReceiptStatus.cancelled none none ReceiptState.suppressed at))
      ≡ true
unfolding receipt_fits stamp_cancel new_receipt
cancelled_fits o at = refl

module _ (sc : Scope) (id at : ℕ) (s : Service) {s' : Service} {b : Bool} where
  finish_row-linked :
      (status : FinishStatus) (json : Option String) (notify : Bool)
      → finish_row sc id status json notify at s ≡ ok (s', b)
      → (j : ℕ) → linked (lookup j s.tasks) (lookup j s.receipts) ≡ true
      → linked (lookup j s'.tasks) (lookup j s'.receipts) ≡ true
  unfolding finish_row linked
  finish_row-linked FinishStatus.completed json notify e j h =
      ground (arith, lookup-modify j id (finish_task TaskState.completed at) s.tasks)
  finish_row-linked FinishStatus.failed json notify e j h =
      ground (arith, lookup-modify j id (finish_task TaskState.failed at) s.tasks)

  cancel-linked :
      (o : CancelOptions)
      → cancel sc id o at s ≡ ok (s', b)
      → (j : ℕ) → linked (lookup j s.tasks) (lookup j s.receipts) ≡ true
      → linked (lookup j s'.tasks) (lookup j s'.receipts) ≡ true
  unfolding cancel linked stamp_cancel
  cancel-linked o e j h = ground (
    arith,
    lookup-modify j id (finish_task TaskState.cancelled at) s.tasks,
    lookup-modify j id (stamp_cancel o at) s.receipts,
  )

  finish_row-tasks :
      (status : FinishStatus) (json : Option String) (notify : Bool)
      → finish_row sc id status json notify at s ≡ ok (s', b)
      → (s'.tasks ≡ s.tasks) ⊎ (s'.tasks ≡ modify id (finish_task (task_state status) at) s.tasks)
  unfolding finish_row
  finish_row-tasks status json notify e = ground arith

  finish_row-AreReceipts :
      (status : FinishStatus) (json : Option String) (notify : Bool)
      → fits json (receipt_limit status) ≡ true
      → finish_row sc id status json notify at s ≡ ok (s', b)
      → AreReceipts s.receipts
      → AreReceipts s'.receipts
  unfolding finish_row receipt_fits
  finish_row-AreReceipts status json notify small e (d, c) =
      elim (Bool-cases (matches (λ t. in_scope sc t && is_waiting t.state) id s.tasks)) [
        | inr other ↦
            let same : s.receipts ≡ s'.receipts = ground arith in subst AreReceipts same (d, c)
        | inl found ↦
            let r =
              new_receipt (receipt_status status) (if is_completed status then json else none)
                (if is_completed status then none else json)
                (if notify then ReceiptState.pending else ReceiptState.suppressed) at in
            let fresh : lookup id s.receipts ≡ none =
              ground (arith, Option-cases (lookup id s.receipts)) in
            let same : insert id r s.receipts ≡ s'.receipts = ground arith in
            subst AreReceipts same ((fresh, d), (finished_fits status json notify at small, c))
      ]

  cancel-receipts :
      (o : CancelOptions)
      → cancel sc id o at s ≡ ok (s', b)
      → (s'.receipts ≡ s.receipts)
        ⊎ (((lookup id s.receipts ≡ none)
              × (s'.receipts
                  ≡ insert id
                      (stamp_cancel o at
                        (new_receipt ReceiptStatus.cancelled none none ReceiptState.suppressed at))
                      s.receipts))
            ⊎ (s'.receipts ≡ modify id (stamp_cancel o at) s.receipts))
  unfolding cancel
  cancel-receipts o e = ground (arith, Option-cases (lookup id s.receipts))

  cancel-AreReceipts :
      (o : CancelOptions)
      → cancel sc id o at s ≡ ok (s', b)
      → AreReceipts s.receipts
      → AreReceipts s'.receipts
  cancel-AreReceipts o e (d, c) = elim (cancel-receipts o e) [
    | inl same ↦ rw same (d, c)
    | inr changed ↦ elim changed [
      | inl (fresh, same) ↦ rw same ((fresh, d), (cancelled_fits o at, c))
      | inr same ↦ rw same (
        modify-HasDistinctKeys id (stamp_cancel o at) s.receipts d,
        All-modify (λ row. receipt_fits row.1 ≡ true) id (stamp_cancel o at) s.receipts
            (λ j r h. rw (stamp_cancel-receipt_fits o at r) h) c,
      )
    ]
  ]

  cancel-tasks :
      (o : CancelOptions)
      → cancel sc id o at s ≡ ok (s', b)
      → (s'.tasks ≡ s.tasks) ⊎ (s'.tasks ≡ modify id (finish_task TaskState.cancelled at) s.tasks)
  unfolding cancel
  cancel-tasks o e = ground arith

-- A state whose tasks are those of a consistent one, or those with one of them finished.
pub IsConsistent-tasks :
    (id : ℕ) (state : TaskState) (at : ℕ) {s s' : Service}
    → IsConsistent s
    → (s'.tasks ≡ s.tasks) ⊎ (s'.tasks ≡ modify id (finish_task state at) s.tasks)
    → ((j : ℕ) → linked (lookup j s'.tasks) (lookup j s'.receipts) ≡ true)
    → AreReceipts s'.receipts
    → IsConsistent s'
IsConsistent-tasks id state at {s} {s'} h tasks links receipts =
    let kept : HasDistinctKeys s'.tasks × All (λ row. passes_checks row.1 ≡ true) s'.tasks =
      elim tasks [
        | inl e ↦ rw e (h.distinct, h.checks)
        | inr e ↦ rw e (modify-finish_task id state at s.tasks (h.distinct, h.checks))
      ] in
    record {
      links = links;
      distinct = kept.0;
      checks = kept.1;
      distinct_receipts = receipts.0;
      receipt_checks = receipts.1;
    }

module _ (sc : Scope) (id at : ℕ) (s : Service) (h : IsConsistent s) {s' : Service} {b : Bool} where
  pub finish_row-IsConsistent :
      (status : FinishStatus) (json : Option String) (notify : Bool)
      → fits json (receipt_limit status) ≡ true
      → finish_row sc id status json notify at s ≡ ok (s', b)
      → IsConsistent s'
  finish_row-IsConsistent status json notify small e =
      IsConsistent-tasks id (task_state status) at h
        (finish_row-tasks sc id at s status json notify e)
        (λ j. finish_row-linked sc id at s status json notify e j (h.links j))
        (finish_row-AreReceipts sc id at s status json notify small e
          (h.distinct_receipts, h.receipt_checks))

  pub cancel-IsConsistent : (o : CancelOptions) → cancel sc id o at s ≡ ok (s', b) → IsConsistent s'
  cancel-IsConsistent o e =
      IsConsistent-tasks id TaskState.cancelled at h (cancel-tasks sc id at s o e)
        (λ j. cancel-linked sc id at s o e j (h.links j))
        (cancel-AreReceipts sc id at s o e (h.distinct_receipts, h.receipt_checks))
