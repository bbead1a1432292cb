-- ===== src/LongTasks/Quota.antt =====
-- The quota of tasks per invocation, and what a new task holds.
use plastic_wan.Base.{
  ℕ, ◌≤◌, ◌≡◌, refl, none, some, ◌==◌, if◌then◌else◌, ok, lookup, count_rows, arith,
}
use plastic_wan.LongTasks.Rows.{Task, Service, Scope, waiting, Platform, CreateTaskInput}
use plastic_wan.LongTasks.Create.{create, checked_task, new_task, over_quota, of_invocation}
use plastic_wan.LongTasks.Service.{create-inv}

module _ (p : Platform) where
  -- A `create` with a quota, by an invocation, never takes the invocation's tasks of that plugin
  -- above the quota.
  pub create-quota :
      (sc : Scope) (input : CreateTaskInput p) (at : ℕ) (s s' : Service) (id quota inv : ℕ)
      → input.max_per_invocation ≡ some quota
      → sc.invocation_id ≡ some inv
      → create p sc input at s ≡ ok (s', id)
      → count_rows (of_invocation sc.plugin_id inv) s'.tasks ≤ quota
  unfolding over_quota
  create-quota sc input at s s' id quota inv q i e =
      let (row, checked, free, same, fresh) = create-inv p sc input at s s' id e in
      rw same (ground arith)

  checked_task-columns :
      (sc : Scope) (input : CreateTaskInput p) (at : ℕ) {t : Task}
      → checked_task p sc input at ≡ ok t
      → (t.state ≡ waiting)
        × (t.plugin_id ≡ sc.plugin_id)
        × (t.conversation_id ≡ sc.conversation_id)
        × (t.created_by_invocation_id ≡ sc.invocation_id)
        × (t.created_by_user_id ≡ sc.caller_id)
  unfolding checked_task new_task
  checked_task-columns sc input at e = ground arith

  -- A `create` that returns an id leaves every other task and every receipt as it was; the id was
  -- unused, and its task waits and belongs to the scope's plugin, conversation, invocation and
  -- caller.
  pub create-frame :
      (sc : Scope) (input : CreateTaskInput p) (at : ℕ) (s s' : Service) (id : ℕ)
      → create p sc input at s ≡ ok (s', id)
      → (t : Task) × (lookup id s.tasks ≡ none)
        × (t.state ≡ waiting)
        × (t.plugin_id ≡ sc.plugin_id)
        × (t.conversation_id ≡ sc.conversation_id)
        × (t.created_by_invocation_id ≡ sc.invocation_id)
        × (t.created_by_user_id ≡ sc.caller_id)
        × ((j : ℕ) → lookup j s'.tasks ≡ (if id == j then some t else lookup j s.tasks))
        × (s'.receipts ≡ s.receipts)
  create-frame sc input at s s' id e =
      let (row, checked, free, same, fresh) = create-inv p sc input at s s' id e in
      let (waits, plugin, conversation, invocation, caller) =
        checked_task-columns sc input at checked in
      let unused : lookup id s.tasks ≡ none = rw fresh (p.row_id_fresh s.tasks) in
      (
        row,
        unused,
        waits,
        plugin,
        conversation,
        invocation,
        caller,
        λ j. rw same refl,
        rw same refl,
      )
