-- ===== src/LongTasks/Create.antt =====
-- `LongTaskService.create` (src/store/long-tasks.ts): validation of the input, the quota and the
-- insert.
use Prim.Native.String.{String, len}
use text.Mathlib.Text.{◌==◌ as str_eq}
use plastic_wan.Base.{
  ℕ, suc, Bool, true, false, not, ◌&&◌, ◌||◌, Option, none, some, ltb, leb, if◌then◌else◌, is_some,
  Result, ok, err, ◌>>=◌, ◌>>◌, require, Table, insert, count_rows,
}
use plastic_wan.LongTasks.Rows.{
  waiting, Task, Service, MentionUser, DeliveryPolicy, Scope, Field, payload, timer_result,
  delivery, TaskError, not_json, exceeds, not_canonical_iso, timer_result_requires_scheduled_at,
  max_not_positive, max_requires_invocation, quota_exceeded, id_not_positive_int64, max_json,
  max_delivery, max_int64, max_safe_integer, Platform, CreateTaskInput,
}
use plastic_wan.LongTasks.Write.{option_eq}

-- The text of a document within the byte limit of its column.
unfoldable pub within_limit : String → ℕ → Field → Result TaskError String
within_limit text limit field = if leb (len text) limit then ok text else err (exceeds field)

unfoldable pub mention_ok : Option MentionUser → Bool
mention_ok none = true
mention_ok (some m) = ltb 0 m.user_id && leb m.user_id max_int64

-- `Number.isSafeInteger(n) && n >= 1`, where the option is given.
unfoldable pub max_ok : Option ℕ → Bool
max_ok none = true
max_ok (some n) = leb n max_safe_integer && leb 1 n

unfoldable pub of_invocation : String → ℕ → Task → Bool
of_invocation plugin inv t = str_eq t.plugin_id plugin && option_eq t.created_by_invocation_id inv

-- Whether the quota of the scope's invocation is used up.
unfoldable pub over_quota : Scope → Option ℕ → Table Task → Bool
unfolding of_invocation
over_quota sc none tasks = false
over_quota sc (some n) tasks = elim sc.invocation_id [
  | none ↦ false
  | some inv ↦ leb n (count_rows (of_invocation sc.plugin_id inv) tasks)
]

module _ (p : Platform) where
  open p use {Value, is_json, stringify, stringify_delivery, parse_date, to_iso, row_id}

  unfoldable pub json_text : Value → ℕ → Field → Result TaskError String
  unfolding within_limit
  json_text v limit field =
      if is_json v then within_limit (stringify v) limit field else err (not_json field)

  -- The instant of a canonical ISO text.
  unfoldable pub canonical_iso : Option String → Result TaskError (Option ℕ)
  canonical_iso none = ok none
  canonical_iso (some text) = elim (parse_date text) [
    | none ↦ err not_canonical_iso
    | some t ↦ if str_eq (to_iso t) text then ok (some t) else err not_canonical_iso
  ]

  unfoldable pub timer_text : Option ℕ → Value → Option Value → Result TaskError (Option String)
  unfolding json_text
  timer_text none v none = ok none
  timer_text none v (some r) = err timer_result_requires_scheduled_at
  timer_text (some t) v none = do text ← json_text v max_json timer_result; ok (some text)
  timer_text (some t) v (some r) = do text ← json_text r max_json timer_result; ok (some text)

  default_policy : Option DeliveryPolicy → DeliveryPolicy
  default_policy none = record { bypass_daily_budget = false; mention_user = none }
  default_policy (some d) = d

  unfoldable pub delivery_text : Option DeliveryPolicy → Result TaskError String
  unfolding within_limit mention_ok default_policy
  delivery_text policy =
      let d = default_policy policy in
      if mention_ok d.mention_user
      then within_limit (stringify_delivery d) max_delivery delivery
      else err id_not_positive_int64

  unfoldable pub new_task : Scope → String → Option ℕ → Option String → String → ℕ → Task
  new_task sc payload_json scheduled_at timer_result_json delivery_json at = record {
    plugin_id = sc.plugin_id;
    conversation_id = sc.conversation_id;
    created_by_invocation_id = sc.invocation_id;
    created_by_user_id = sc.caller_id;
    payload_json = payload_json;
    state = waiting;
    scheduled_at = scheduled_at;
    timer_result_json = timer_result_json;
    delivery_json = delivery_json;
    created_at = at;
    updated_at = at;
    finished_at = none;
  }

  -- The validated columns of a new task.
  unfoldable pub checked_task : Scope → CreateTaskInput p → ℕ → Result TaskError Task
  unfolding max_ok json_text canonical_iso timer_text delivery_text new_task
  checked_task sc input at = do
    payload_json ← json_text input.payload max_json payload
    scheduled_at ← canonical_iso input.scheduled_at
    timer_result_json ← timer_text scheduled_at input.payload input.timer_result
    require (max_ok input.max_per_invocation) max_not_positive
    require (not (is_some input.max_per_invocation) || is_some sc.invocation_id)
        max_requires_invocation
    delivery_json ← delivery_text input.delivery
    ok (new_task sc payload_json scheduled_at timer_result_json delivery_json at)

  -- The new state with the new task's id.
  unfoldable pub create : Scope → CreateTaskInput p → ℕ → Service → Result TaskError (Service × ℕ)
  unfolding over_quota
  create sc input at s = do
    row ← checked_task sc input at
    require (not (over_quota sc input.max_per_invocation s.tasks)) quota_exceeded
    ok (
      record s { tasks = insert (row_id s.tasks) row s.tasks; wakes = suc s.wakes },
      row_id s.tasks,
    )
