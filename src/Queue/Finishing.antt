-- ===== src/Queue/Finishing.antt =====
-- New invocations for buckets of the queue, and the end of a run, keep the queue sound.
use plastic_wan.Base.{
  ℕ, ◌+◌, ◌*◌, ◌≡◌, refl, Bool, true, false, ◌&&◌, ◌||◌, inl, inr, List, [], ◌∷◌, ◌==◌, max, Table,
  lookup, update_rows, lookup-update_rows, matches, HasDistinctKeys, Bool-cases, Option-cases,
  ==_iff, Result-cases, ok, ◌>>=◌, Ensures, Ensures->>=, arith,
}
use plastic_wan.Queue.Tables.{Bucket, State, Environment}
use plastic_wan.Queue.Snapshot.{snapshot_invocation}
use plastic_wan.Queue.Insert.{
  is_queued_bucket, is_running_bucket, is_queued, is_running, is_joined, insert_join,
  new_invocation, insert_invocation, queue_state,
}
use plastic_wan.Queue.Clearing.{handle_claimed}
use plastic_wan.Queue.Release.{
  Uninjected, suppress_released, hand_on_receipt, release_bucket, release_buckets, uninjected_rows,
  release_uninjected_buckets,
}
use plastic_wan.Queue.Scheduler.{
  OutcomeState, Outcome, outcome_text, end_invocation, end_bucket, persist_outcome, close_joined,
  started_at_of, push_deadlines, chat_result, finish_invocation,
}
use plastic_wan.Queue.Keys.{update_rows-HasDistinctKeys}
use plastic_wan.Queue.Sound.{
  is_queued_at, IsSound, Sound, kept_buckets-IsSound, update_buckets-IsSound,
  update_invocations-IsSound,
}
use plastic_wan.Queue.Starting.{insert_queued-IsSound}

-- A bucket that was not queued is queued by a write that tests it.
pub is_queued_at-queue_state :
    (test : Bucket → Bool) (k now : ℕ) (bs : Table Bucket)
    → matches test k bs ≡ true
    → (c : ℕ)
    → is_queued_at c (update_rows (λ id b. id == k && test b) (queue_state now) bs)
      ≡ (c == k || is_queued_at c bs)
unfolding is_queued_at matches queue_state is_queued_bucket
is_queued_at-queue_state test k now bs h c = elim (Option-cases (lookup c bs)) [
  | inl e ↦
      ground
        (arith, lookup-update_rows c (λ id b. id == k && test b) (queue_state now) bs, ==_iff c k)
  | inr (r, e) ↦
      ground
        (arith, lookup-update_rows c (λ id b. id == k && test b) (queue_state now) bs, ==_iff c k)
]

-- A new invocation, where its bucket has just been queued.
pub insert_invocation-Sound :
    (env : Environment) (b conversation_id now : ℕ) (include_history : Bool) (bs : Table Bucket)
    (s : State)
    → HasDistinctKeys s.buckets
    → ((c : ℕ) → is_queued_at c s.buckets ≡ (c == b || is_queued_at c bs))
    → is_queued_at b bs ≡ false
    → IsSound s.conversations bs s.invocations s.joins
    → Ensures (λ r. Sound r.0) (insert_invocation env b conversation_id now include_history s)
unfolding insert_invocation insert_join new_invocation snapshot_invocation is_queued is_running
insert_invocation-Sound env b conversation_id now include_history bs s d queued before v =
    elim (Bool-cases (is_joined (env.new_invocation_id s.invocations) b s.joins)) [
      | inl e ↦ rw e tt
      | inr e ↦ rw e (
          insert_queued-IsSound s.conversations bs s.invocations s.joins s.buckets
            (env.new_invocation_id s.invocations) now (new_invocation env b conversation_id now) d
            queued before (env.new_invocation_id_fresh s.invocations) refl refl v)
    ]

pub insert_invocation-buckets :
    (env : Environment) (b conversation_id now : ℕ) (include_history : Bool) (s : State)
    → Ensures
        (λ r. r.0.buckets ≡ s.buckets)
        (insert_invocation env b conversation_id now include_history s)
unfolding insert_invocation insert_join snapshot_invocation
insert_invocation-buckets env b conversation_id now include_history s =
    elim (Bool-cases (is_joined (env.new_invocation_id s.invocations) b s.joins)) [
      | inl e ↦ rw e tt
      | inr e ↦ rw e refl
    ]

-- A bucket that is running is queued again, under a new invocation.
pub release_bucket-Sound :
    (env : Environment) (id now : ℕ) (u : Uninjected) (s : State)
    → Sound s
    → Ensures Sound (release_bucket env id now u s)
unfolding release_bucket suppress_released hand_on_receipt is_queued_at matches is_queued_bucket
    is_running_bucket
release_bucket-Sound env id now u s v =
    elim (Bool-cases (matches (λ (b : Bucket). is_running_bucket b.state) u.bucket_id s.buckets)) [
      | inr e ↦ rw e v
      | inl e ↦ rw e (
          let bs =
            update_rows (λ j b. j == u.bucket_id && is_running_bucket b.state) (queue_state now)
              s.buckets in
          let queued = record s { buckets = bs } in
          Ensures->>= (λ r. Sound r.0) Sound
            (insert_invocation env u.bucket_id u.conversation_id now false queued)
            (λ r. ok (hand_on_receipt id r.1 u.bucket_id now r.0))
            (insert_invocation-Sound env u.bucket_id u.conversation_id now false s.buckets queued
              (update_rows-HasDistinctKeys _ (queue_state now) s.buckets v.distinct_buckets)
              (is_queued_at-queue_state (λ b. is_running_bucket b.state) u.bucket_id now s.buckets
                e)
              (ground arith) v)
            (λ r h. h))
    ]

release_buckets-Sound :
    (env : Environment) (id now : ℕ) (rows : List Uninjected) (s : State)
    → Sound s
    → Ensures Sound (release_buckets env id now rows s)
unfolding release_buckets
release_buckets-Sound env id now [] s v = v
release_buckets-Sound env id now (u ∷ rows) s v =
    Ensures->>= Sound Sound (release_bucket env id now u s)
      (λ next. release_buckets env id now rows next) (release_bucket-Sound env id now u s v)
      (λ next. release_buckets-Sound env id now rows next)

pub release_uninjected-Sound :
    (env : Environment) (id now : ℕ) (s : State)
    → Sound s
    → Ensures Sound (release_uninjected_buckets env id now s)
unfolding release_uninjected_buckets
release_uninjected-Sound env id now s =
    release_buckets-Sound env id now (uninjected_rows id s s.joins) s

pub persist_outcome-Sound :
    (id : ℕ) (outcome : Outcome) (now : ℕ) (s : State)
    → Sound s
    → Sound (persist_outcome id outcome now s)
unfolding persist_outcome end_invocation is_running is_queued
persist_outcome-Sound id outcome now s =
    update_invocations-IsSound s.conversations s.buckets (λ j i. j == id && is_running i.state)
      (end_invocation outcome now) s.invocations s.joins (λ j i e h. ground arith)
      (λ i. ground arith) (λ i. refl)

close_joined-Sound :
    (id : ℕ) (state : OutcomeState) (now : ℕ) (s : State)
    → Sound s
    → Sound (close_joined id state now s)
unfolding close_joined end_bucket is_running_bucket is_queued_bucket
close_joined-Sound id state now s =
    update_buckets-IsSound s.conversations
      (λ j b. is_running_bucket b.state && is_joined id j s.joins) (end_bucket state now) s.buckets
      s.invocations s.joins (λ j b e h. ground arith) (λ b. ground arith)

push_deadlines-Sound :
    (chat deadline now : ℕ) (s : State) → Sound s → Sound (push_deadlines chat deadline now s)
unfolding push_deadlines
push_deadlines-Sound chat deadline now s =
    kept_buckets-IsSound s.conversations _ _ s.buckets s.invocations s.joins (λ j b e h. refl)

pub finish_invocation-Sound :
    (env : Environment) (id conversation_id : ℕ) (outcome : Outcome) (now : ℕ) (s : State)
    → Sound s
    → Ensures Sound (finish_invocation env id conversation_id outcome now s)
unfolding finish_invocation handle_claimed
finish_invocation-Sound env id conversation_id outcome now s v =
    Ensures->>= Sound Sound
      (release_uninjected_buckets env id now (persist_outcome id outcome now s)) _
      (release_uninjected-Sound env id now (persist_outcome id outcome now s)
        (persist_outcome-Sound id outcome now s v))
      (λ r h. rest r (close_joined-Sound id outcome.state now r h))
  where
    rest :
        (r : State)
        → Sound (close_joined id outcome.state now r)
        → Ensures Sound (
            let closed = close_joined id outcome.state now r in
            started_at_of id closed >>= λ started. chat_result id conversation_id closed >>= λ chat.
            ok (
              handle_claimed id (outcome_text outcome.state) outcome.reason now (
                push_deadlines chat
                  (max now (started + env.bucket_window_seconds * 1000))
                  now
                  closed)))
    rest r h = elim (Result-cases (started_at_of id (close_joined id outcome.state now r))) [
      | inr (e, failed) ↦ rw failed tt
      | inl (started, got) ↦
          rw got
            (elim (Result-cases
              (chat_result id conversation_id (close_joined id outcome.state now r))) [
                | inr (e, failed) ↦ rw failed tt
                | inl (chat, found) ↦
                    rw found
                      (push_deadlines-Sound chat _ now (close_joined id outcome.state now r) h)
              ])
    ]
