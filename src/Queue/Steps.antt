-- ===== src/Queue/Steps.antt =====
-- The steps of `Queue.Actions`, on src/orchestration/scheduler.ts, src/ingress/telegram-ingestion.ts and
-- src/orchestration/bot-commands.ts, keep the queue sound.
use plastic_wan.Base.{
  ℕ, ◌≡◌, inl, inr, Option, List, [], ◌∷◌, Result, ok, err, Option-cases, Ensures, Ensures->>=,
  Ensures-map, Ensures-both, Ensures-ok,
}
use plastic_wan.Queue.Tables.{State, Environment, QueueError}
use plastic_wan.Queue.Due.{process_due}
use plastic_wan.Queue.Receipts.{process_tasks_due}
use plastic_wan.Queue.Scheduler.{Outcome, finish_invocation}
use plastic_wan.Queue.Sound.{Sound}
use plastic_wan.Queue.Restarting.{recover-Sound}
use plastic_wan.Queue.Delivering.{process_tasks_due-Sound}
use plastic_wan.Queue.Passing.{process_due-Sound}
use plastic_wan.Queue.Launching.{launch_queued-Sound}
use plastic_wan.Queue.Finishing.{finish_invocation-Sound}
use plastic_wan.Queue.Placing.{Placed, Moves}
use plastic_wan.Queue.Keeping.{recover-Moves, finish_invocation-Moves}
use plastic_wan.Queue.Advancing.{launch_queued-Moves}
use plastic_wan.Queue.Carrying.{process_tasks_due-Moves, process_due-Moves}
use plastic_wan.Queue.Collect.{CollectError, append_to_bucket}
use plastic_wan.Queue.Collected.{append_to_bucket-Sound, append_to_bucket-Moves}
use plastic_wan.Queue.Due.{Pass}
use plastic_wan.Queue.CatchUp.{CatchUpError, finish_startup_catch_up}
use plastic_wan.Queue.CaughtUp.{finish_startup_catch_up-Ensures}
use plastic_wan.Queue.Pause.{internal_chat_id, pause, resume}
use plastic_wan.Queue.Silencing.{pause_chat-Sound, pause_chat-Moves}
use plastic_wan.Queue.Actions.{
  Process, process_both, loop_round, finish_run, Action, start, loop_once, finish, collect,
  catch_up, pause_for, resume_for, StepError, in_collection, in_start, in_command, with_state,
  in_process, first_state, pass_state, step, run,
}

-- The queue is sound, and each invocation is of the conversation of its bucket.
abbrev pub IsValid : State → Type 0
IsValid s = Sound s × Placed s

abbrev pub IsValidProcess : Process → Type 0
IsValidProcess p = IsValid p.state

process_both-IsValid :
    (env : Environment) (tasks_now now : ℕ) (s : State)
    → IsValid s
    → Ensures IsValid (process_both env tasks_now now s)
unfolding process_both
process_both-IsValid env tasks_now now s (v, at) =
    Ensures->>= (λ r. Sound r.0 × Moves s r.0) IsValid (process_tasks_due env tasks_now s) _
      (Ensures-both (λ r. Sound r.0) (λ r. Moves s r.0) (process_tasks_due env tasks_now s)
        (process_tasks_due-Sound env tasks_now s v) (process_tasks_due-Moves env tasks_now s))
      (λ d (h, m).
        Ensures->>= (λ r. Sound r.0 × Moves d.0 r.0) IsValid (process_due env now d.0) _
          (Ensures-both (λ r. Sound r.0) (λ r. Moves d.0 r.0) (process_due env now d.0)
            (process_due-Sound env now d.0 h) (process_due-Moves env now d.0 h))
          (λ passed (g, n). (g, n.placed (m.placed at))))

finish_run-IsValid :
    (env : Environment) (id c : ℕ) (outcome : Outcome) (now : ℕ) (p : Process)
    → IsValid p.state
    → Ensures IsValidProcess (finish_run env id c outcome now p)
unfolding finish_run
finish_run-IsValid env id c outcome now p (v, at) =
    Ensures->>= (λ t. Sound t × Moves p.state t) IsValidProcess
      (finish_invocation env id c outcome now p.state) _
      (Ensures-both Sound (Moves p.state) (finish_invocation env id c outcome now p.state)
        (finish_invocation-Sound env id c outcome now p.state v)
        (finish_invocation-Moves env id c outcome now p.state))
      (λ finished (h, m).
        Ensures->>= IsValid IsValidProcess (process_both env now now finished) _
          (process_both-IsValid env now now finished (h, m.placed at)) (λ s g. g))

loop_round-IsValid :
    (env : Environment) (tasks_now now : ℕ) (clock : ℕ → ℕ) (fuel : ℕ) (p : Process)
    → IsValid p.state
    → Ensures IsValidProcess (loop_round env tasks_now now clock fuel p)
unfolding loop_round
loop_round-IsValid env tasks_now now clock fuel p v =
    Ensures->>= IsValid IsValidProcess (process_both env tasks_now now p.state) _
      (process_both-IsValid env tasks_now now p.state v)
      (λ s (h, at). (
        launch_queued-Sound env clock fuel s p.active h,
        (launch_queued-Moves env clock fuel s p.active).placed at,
      ))

in_process-Ensures :
    (r : Result QueueError Process)
    → Ensures IsValidProcess r
    → Ensures IsValidProcess (in_process r)
in_process-Ensures (ok p) h = h
in_process-Ensures (err e) h = tt

with_state-Ensures :
    {E : Type 0} (wrap : E → StepError) (p : Process) (r : Result E State)
    → Ensures IsValid r
    → Ensures IsValidProcess (with_state wrap p r)
with_state-Ensures wrap p (ok s) h = h
with_state-Ensures wrap p (err e) h = tt

first_state-Ensures :
    (r : Result CollectError (State × Option ℕ))
    → Ensures (λ p. IsValid p.0) r
    → Ensures IsValid (first_state r)
first_state-Ensures (ok r) h = h
first_state-Ensures (err e) h = tt

pass_state-Ensures :
    (r : Result CatchUpError Pass) → Ensures (λ p. IsValid p.0) r → Ensures IsValid (pass_state r)
pass_state-Ensures (ok p) h = h
pass_state-Ensures (err e) h = tt

pause-IsValid :
    (telegram_chat_id now : ℕ) (s : State)
    → IsValid s
    → Ensures IsValid (pause telegram_chat_id now s)
unfolding pause
pause-IsValid telegram_chat_id now s (v, at) =
    elim (Option-cases (internal_chat_id telegram_chat_id s)) [
      | inl lost ↦ rw (lost, pause) tt
      | inr (chat, found) ↦
          rw (found, pause)
            (pause_chat-Sound chat now s v at, (pause_chat-Moves chat now s).placed at)
    ]

resume-IsValid :
    (telegram_chat_id : ℕ) (s : State) → IsValid s → Ensures IsValid (resume telegram_chat_id s)
unfolding resume
resume-IsValid telegram_chat_id s v = elim (Option-cases (internal_chat_id telegram_chat_id s)) [
  | inl lost ↦ rw (lost, resume) tt
  | inr (chat, found) ↦ rw (found, resume) v
]

step-IsValid :
    (env : Environment) (action : Action) (p : Process)
    → IsValid p.state
    → Ensures IsValidProcess (step env action p)
unfolding step
step-IsValid env (start now) p (v, at) =
    (recover-Sound now p.state v, (recover-Moves now p.state).placed at)
step-IsValid env (loop_once tasks_now now clock fuel) p v =
    in_process-Ensures (loop_round env tasks_now now clock fuel p)
      (loop_round-IsValid env tasks_now now clock fuel p v)
step-IsValid env (finish id c outcome now) p v =
    in_process-Ensures (finish_run env id c outcome now p)
      (finish_run-IsValid env id c outcome now p v)
step-IsValid env (collect chat thread m received_at allowed) p (v, at) =
    let r = append_to_bucket env chat thread m received_at allowed p.state in
    with_state-Ensures in_collection p (first_state r) (
      first_state-Ensures r (
        Ensures-both (λ x. Sound x.0) (λ x. Placed x.0) r
          (append_to_bucket-Sound env chat thread m received_at allowed p.state v)
          (Ensures-map (λ x. Moves p.state x.0) (λ x. Placed x.0) r
            (append_to_bucket-Moves env chat thread m received_at allowed p.state)
            (λ x n. n.placed at))))
step-IsValid env (catch_up part rows pending started_at now) p (v, at) =
    let r = finish_startup_catch_up env part rows pending started_at now p.state in
    with_state-Ensures in_start p (pass_state r) (
      pass_state-Ensures r (
        Ensures-map (λ x. Sound x.0 × Moves p.state x.0) (λ x. IsValid x.0) r
          (finish_startup_catch_up-Ensures env part rows pending started_at now p.state v)
          (λ x (h, m). (h, m.placed at))))
step-IsValid env (pause_for telegram_chat_id now) p v =
    with_state-Ensures in_command p (pause telegram_chat_id now p.state)
      (pause-IsValid telegram_chat_id now p.state v)
step-IsValid env (resume_for telegram_chat_id now) p v =
    with_state-Ensures in_command p (resume telegram_chat_id p.state)
      (resume-IsValid telegram_chat_id p.state v)

run-Ensures :
    (env : Environment) (actions : List Action) (p : Process)
    → IsValid p.state
    → Ensures IsValidProcess (run env actions p)
unfolding run
run-Ensures env [] p v = v
run-Ensures env (action ∷ actions) p v =
    Ensures->>= IsValidProcess IsValidProcess (step env action p) (λ next. run env actions next)
      (step-IsValid env action p v) (λ next h. run-Ensures env actions next h)

-- Every sequence of starts, catch-ups, rounds of the loop, ends of runs, arrivals of messages, pauses
-- and resumes that succeeds, from a state where the queue is sound and each invocation is of the
-- conversation of its bucket, leaves it so: the keys of buckets and of invocations are distinct; no
-- chat has two running invocations; a queued bucket opens exactly one queued invocation, and any
-- other bucket none; and a bucket joined to a queued invocation is the one that opens it.
pub run-Sound :
    (env : Environment) (actions : List Action) (p q : Process)
    → Sound p.state
    → Placed p.state
    → run env actions p ≡ ok q
    → Sound q.state × Placed q.state
run-Sound env actions p q v at e =
    Ensures-ok IsValidProcess (run env actions p) (run-Ensures env actions p (v, at)) e
