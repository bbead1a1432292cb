-- ===== src/Queue/Actions.antt =====
-- The steps of the scheduler (src/orchestration/scheduler.ts), its start, a round of its loop and
-- the end of a run, with the arrival of a message (src/ingress/telegram-ingestion.ts), `/pause` and
-- `/resume` (src/orchestration/bot-commands.ts).
use plastic_wan.Base.{ℕ, Bool, not, ◌==◌, Option, List, [], ◌∷◌, filter, Result, ok, err, ◌>>=◌}
use plastic_wan.Queue.Tables.{State, Environment, QueueError}
use plastic_wan.Queue.Due.{process_due}
use plastic_wan.Queue.Receipts.{process_tasks_due}
use plastic_wan.Queue.Recovery.{recover}
use plastic_wan.Queue.Scheduler.{Outcome, launch_queued, finish_invocation}
use plastic_wan.Queue.Collect.{StoredMessage, CollectError, append_to_bucket}
use plastic_wan.Queue.Due.{Pass}
use plastic_wan.Queue.CatchUp.{StartupRow, Participations, CatchUpError, finish_startup_catch_up}
use plastic_wan.Queue.Pause.{CommandError, pause, resume}

-- The database with the invocations that run in this process, the keys of `#active`.
pub record Process : Type 0 where
  pub state : State
  pub active : List ℕ

-- `processTasksDue` and `processDue`, one after the other.
unfoldable pub process_both : Environment → (tasks_now now : ℕ) → State → Result QueueError State
unfolding process_tasks_due process_due
process_both env tasks_now now s = do
  delivered ← process_tasks_due env tasks_now s
  passed ← process_due env now delivered.0
  ok passed.0

-- One round of `#loop`.
unfoldable pub loop_round :
    Environment
    → (tasks_now now : ℕ) → (clock : ℕ → ℕ) → (fuel : ℕ) → Process
    → Result QueueError Process
unfolding process_both launch_queued
loop_round env tasks_now now clock fuel p = do
  processed ← process_both env tasks_now now p.state
  let launched = launch_queued env clock fuel (processed, p.active)
  ok (record { state = launched.0; active = launched.1 })

-- `#execute` from the outcome of its handler.
unfoldable pub finish_run :
    Environment
    → (id conversation_id : ℕ) → Outcome
    → (now : ℕ) → Process
    → Result QueueError Process
unfolding finish_invocation process_both
finish_run env id conversation_id outcome now p = do
  finished ← finish_invocation env id conversation_id outcome now p.state
  processed ← process_both env now now finished
  ok (record { state = processed; active = filter (λ i. not (i == id)) p.active })

-- What happens to a process.
pub data Action : Type 0 where
  start : (now : ℕ) → Action
  loop_once : (tasks_now now : ℕ) → (clock : ℕ → ℕ) → (fuel : ℕ) → Action
  finish : (id conversation_id : ℕ) → Outcome → (now : ℕ) → Action
  collect :
      (chat_id thread_id : ℕ)
      → StoredMessage
      → (received_at : ℕ) → (participation_allowed : Bool) → Action
  catch_up : Participations → List StartupRow → (pending : Option ℕ) → (started_at now : ℕ) → Action
  pause_for resume_for : (telegram_chat_id now : ℕ) → Action

pub data StepError : Type 0 where
  in_queue : QueueError → StepError
  in_collection : CollectError → StepError
  in_start : CatchUpError → StepError
  in_command : CommandError → StepError

-- The process with the state that an operation has returned, or its error.
abbrev pub with_state :
    {E : Type 0} → (E → StepError) → Process → Result E State → Result StepError Process
with_state wrap p (ok s) = ok (record p { state = s })
with_state wrap p (err e) = err (wrap e)

abbrev pub in_process : Result QueueError Process → Result StepError Process
in_process (ok p) = ok p
in_process (err e) = err (in_queue e)

abbrev pub first_state : Result CollectError (State × Option ℕ) → Result CollectError State
first_state (ok r) = ok r.0
first_state (err e) = err e

abbrev pub pass_state : Result CatchUpError Pass → Result CatchUpError State
pass_state (ok p) = ok p.0
pass_state (err e) = err e

unfoldable pub step : Environment → Action → Process → Result StepError Process
unfolding recover loop_round finish_run append_to_bucket finish_startup_catch_up pause resume
step env (start now) p = ok (record p { state = recover now p.state })
step env (loop_once tasks_now now clock fuel) p =
    in_process (loop_round env tasks_now now clock fuel p)
step env (finish id conversation_id outcome now) p =
    in_process (finish_run env id conversation_id outcome now p)
step env (collect chat_id thread_id m received_at allowed) p =
    with_state in_collection p
      (first_state (append_to_bucket env chat_id thread_id m received_at allowed p.state))
step env (catch_up part rows pending started_at now) p =
    with_state in_start p
      (pass_state (finish_startup_catch_up env part rows pending started_at now p.state))
step env (pause_for telegram_chat_id now) p =
    with_state in_command p (pause telegram_chat_id now p.state)
step env (resume_for telegram_chat_id now) p =
    with_state in_command p (resume telegram_chat_id p.state)

unfoldable pub run : Environment → List Action → Process → Result StepError Process
unfolding step
run env [] p = ok p
run env (action ∷ actions) p = step env action p >>= λ next. run env actions next
