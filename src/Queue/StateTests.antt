-- ===== src/Queue/StateTests.antt =====
-- The queue on single states: a launch, a recovery, the end of a run, a wait and a pause.
use plastic_wan.Base.{
  ◌+◌, ltb, ◌&&◌, ◌||◌, ==_iff, ◌≡◌, refl, true, none, some, [], ◌∷◌, matches, Result, ok, err,
  arith,
}
use plastic_wan.LongTasks.Rows.{Receipt}
use plastic_wan.LongTasks.Due
use plastic_wan.Queue.Tables.{BucketState, Bucket, Invocation, State, QueueError}
use plastic_wan.Queue.Insert.{
  is_collecting, is_queued_bucket, is_running_bucket, is_queued, is_running, chat_of,
  is_chat_paused, new_invocation,
}
use plastic_wan.Queue.Due.{Pass}
use plastic_wan.Queue.Clearing.{is_claimed}
use plastic_wan.Queue.Recovery.{recover}
use plastic_wan.Queue.Scheduler.{OutcomeState, start_invocation, is_in_chat, finish_invocation}
use plastic_wan.Queue.Sound.{runs_in, opens, is_queued_at, joins_own, Sound}
use plastic_wan.Queue.Recovered.{NoRow, recover_settles}
use plastic_wan.Queue.Closing.{IsClosed, finish_invocation-succeeds}
use plastic_wan.Queue.Pause.{
  CommandError, chat_under, internal_chat_id, pause, resume, pause-silences, resume-pause,
}
use plastic_wan.Queue.Samples.{small, first_bucket, waiting_state}

-- A queued batch with its invocation.
abbrev queued_state : State
queued_state = record waiting_state {
  buckets = (1, record first_bucket { state = BucketState.queued; queued_at = some 100 }) ∷ [];
  invocations = (1, new_invocation small 1 1 100) ∷ [];
  joins = record { invocation_id = 1; bucket_id = 1; attached_at = 100; injected_at = none } ∷ [];
}

-- A run that the process left when it stopped.
abbrev interrupted_state : State
interrupted_state = record queued_state {
  buckets = (1, record first_bucket { state = BucketState.running }) ∷ [];
  invocations = (1, start_invocation "h1" 110 (new_invocation small 1 1 100)) ∷ [];
}

recover_settles_example :
    NoRow (λ (i : Invocation). is_running i.state) (recover 400 interrupted_state).invocations
    × NoRow (λ (b : Bucket). is_running_bucket b.state) (recover 400 interrupted_state).buckets
    × NoRow (λ (r : Receipt). is_claimed r.state) (recover 400 interrupted_state).service.receipts
    × NoRow
        (λ (b : Bucket).
          (is_collecting b.state || is_queued_bucket b.state)
          && ltb (b.first_received_at + 300000) 400)
        (recover 400 interrupted_state).buckets
recover_settles_example = recover_settles 400 interrupted_state

interrupted_state-Sound : Sound interrupted_state
unfolding runs_in opens is_queued_at joins_own matches is_queued_bucket is_queued is_running
    start_invocation new_invocation
interrupted_state-Sound = record {
  distinct_buckets = (refl, tt);
  distinct = (refl, tt);
  serial = λ c. ground arith;
  opened = λ b. ground arith;
  own = λ j b h. ground (arith, ==_iff 1 j);
}

finish_invocation-succeeds_example :
    (t : State) × (finish_invocation small 1 1
        (record { state = OutcomeState.failed; reason = "limit" })
        400
        interrupted_state
      ≡ ok t)
    × Sound t
    × IsClosed 1 t
unfolding chat_of start_invocation new_invocation
finish_invocation-succeeds_example =
    finish_invocation-succeeds small 1 1 (record { state = OutcomeState.failed; reason = "limit" })
      400 interrupted_state (start_invocation "h1" 110 (new_invocation small 1 1 100)) 110 5
      interrupted_state-Sound refl refl refl

abbrev or_pass : Result QueueError Pass → Pass
or_pass (ok q) = q
or_pass (err e) = (waiting_state, [])

abbrev or_state : Result CommandError State → State
or_state (ok s) = s
or_state (err e) = waiting_state

abbrev paused_state : State
paused_state = or_state (pause 900 150 queued_state)

pause-silences_example :
    (is_chat_paused paused_state 5 ≡ true)
    × NoRow
        (λ (b : Bucket).
          is_in_chat paused_state 5 b.conversation_id
          && (is_collecting b.state || is_queued_bucket b.state))
        paused_state.buckets
    × NoRow
        (λ (i : Invocation). is_queued i.state && is_in_chat paused_state 5 i.conversation_id)
        paused_state.invocations
unfolding pause internal_chat_id chat_under
pause-silences_example = pause-silences 900 5 150 queued_state paused_state refl refl

resume-pause_example :
    (q : State) × (resume 900 paused_state ≡ ok q)
    × (q.chat_pause ≡ [])
    × (q.buckets ≡ paused_state.buckets)
    × (q.invocations ≡ paused_state.invocations)
unfolding pause internal_chat_id chat_under is_chat_paused
resume-pause_example = resume-pause 900 150 queued_state paused_state 5 refl refl refl
