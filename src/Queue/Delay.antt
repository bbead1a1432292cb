-- ===== src/Queue/Delay.antt =====
-- `#nextDelayMilliseconds` (src/orchestration/scheduler.ts): how long the loop waits.
use plastic_wan.Base.{
  ℕ, ◌-◌, min, Bool, false, not, ◌&&◌, ◌||◌, Option, none, some, List, [], ◌∷◌, ◌++◌, ltb, leb,
  ◌==◌, is_some, any, filter, sort, lookup,
}
use plastic_wan.LongTasks.Rows.{Receipt}
use plastic_wan.LongTasks.Due.{next_deadline}
use plastic_wan.LongTasks.Write.{is_pending}
use plastic_wan.Sleep.State.{active_sleep_until}
use plastic_wan.Queue.Tables.{Bucket, State, Environment}
use plastic_wan.Queue.Insert.{is_collecting, chat_of, chat_running}
use plastic_wan.Queue.Due.{holds_chat, by_deadline}

abbrev pub longest_delay_ms : ℕ
longest_delay_ms = 60000

-- A bucket whose deadline wakes the loop.
unfoldable pub wakes_loop : State → ℕ × Bucket → Bool
unfolding is_collecting chat_of holds_chat
wakes_loop s (id, b) = is_collecting b.state && elim (chat_of b.conversation_id s) [
  | none ↦ false
  | some chat ↦ not (any (holds_chat s chat b.conversation_id) s.invocations)
]

abbrev pub first_deadline : List (ℕ × Bucket) → Option ℕ
first_deadline [] = none
first_deadline ((id, b) ∷ rows) = some b.deadline_at

unfoldable pub bucket_deadline : State → Option ℕ
unfolding wakes_loop by_deadline
bucket_deadline s = first_deadline (sort by_deadline (filter (wakes_loop s) s.buckets))

-- A pending receipt that may be delivered: the bot is awake or the receipt bypasses the budget, and
-- its chat runs nothing.
unfoldable pub is_deliverable : Environment → Option ℕ → State → ℕ × Receipt → Bool
unfolding chat_of chat_running is_pending
is_deliverable env sleep_until s (task_id, r) = elim (lookup task_id s.service.tasks) [
  | none ↦ false
  | some t ↦ elim (chat_of t.conversation_id s) [
    | none ↦ false
    | some chat ↦
        is_pending r.state
        && (not (is_some sleep_until) || env.bypasses_daily_budget t.delivery_json)
        && not (chat_running chat s)
  ]
]

-- `ORDER BY created_at, task_id`
unfoldable pub oldest_first : ℕ × Receipt → ℕ × Receipt → Bool
oldest_first (i, r) (j, q) =
    ltb r.created_at q.created_at || (r.created_at == q.created_at && leb i j)

abbrev pub first_created : List (ℕ × Receipt) → Option ℕ
first_created [] = none
first_created ((id, r) ∷ rows) = some r.created_at

unfoldable pub receipt_time : Environment → Option ℕ → State → Option ℕ
unfolding is_deliverable oldest_first
receipt_time env sleep_until s =
    first_created (sort oldest_first (filter (is_deliverable env sleep_until s) s.service.receipts))

abbrev pub optional : Option ℕ → List ℕ
optional none = []
optional (some n) = n ∷ []

-- `Math.min(...deadlines)`, none for an empty list.
abbrev pub least : List ℕ → Option ℕ
least [] = none
least (n ∷ ns) = elim (least ns) [ none ↦ some n | some m ↦ some (min n m) ]

unfoldable pub deadlines : Environment → (sleep_until : Option ℕ) → State → List ℕ
unfolding bucket_deadline next_deadline receipt_time
deadlines env sleep_until s =
    optional (bucket_deadline s)
    ++ (optional (next_deadline s.service.tasks)
        ++ (optional sleep_until ++ optional (receipt_time env sleep_until s)))

-- The subtraction stops at zero, where the source takes the larger of zero and a negative number.
unfoldable pub delay_until : (now : ℕ) → Option ℕ → ℕ
delay_until now none = longest_delay_ms
delay_until now (some next) = min longest_delay_ms (next - now)

-- The state, where a sleep that is over has been cleared, with the delay. The clock is read once
-- for the sleep and once for the delay.
unfoldable pub next_delay_milliseconds : Environment → (sleep_now now : ℕ) → State → State × ℕ
unfolding deadlines delay_until
next_delay_milliseconds env sleep_now now s =
    let (sleep, sleep_until) = active_sleep_until sleep_now s.sleep in
    let awake = record s { sleep = sleep } in
    (awake, delay_until now (least (deadlines env sleep_until awake)))
