-- ===== src/Queue/Closing.antt =====
-- The end of a run always succeeds, and closes the run.
use plastic_wan.Base.{
  ℕ, ◌+◌, ◌*◌, ◌≡◌, refl, ◌∙◌, true, false, ◌&&◌, inl, inr, some, List, [], ◌∷◌, ◌==◌, max, ltb,
  lookup, lookup-update_rows, matches, Bool-cases, Option-cases, ==_iff, ==_refl, Result-cases, ok,
  Ensures-ok, Succeeds, Succeeds->>=, arith,
}
use plastic_wan.Queue.Tables.{Bucket, Invocation, State, Environment}
use plastic_wan.Queue.Snapshot.{snapshot_invocation}
use plastic_wan.Queue.Insert.{
  is_running, is_running_bucket, is_joined, is_collecting, insert_join, chat_of, insert_invocation,
}
use plastic_wan.Queue.Clearing.{handle_claimed}
use plastic_wan.Queue.Release.{
  Uninjected, uninjected_rows, suppress_released, hand_on_receipt, release_bucket, release_buckets,
  release_uninjected_buckets,
}
use plastic_wan.Queue.Scheduler.{
  OutcomeState, Outcome, outcome_text, end_invocation, end_bucket, persist_outcome, close_joined,
  started_at_of, is_in_chat, push_deadlines, chat_result, finish_invocation,
}
use plastic_wan.Queue.Sound.{joins_own, Sound}
use plastic_wan.Queue.Finishing.{
  release_bucket-Sound, persist_outcome-Sound, finish_invocation-Sound,
}

-- What the release of a bucket leaves of an invocation.
abbrev pub Keeps : ℕ → State → State → Type 0
Keeps id s t =
    Sound t
    × (lookup id t.invocations ≡ lookup id s.invocations)
    × (t.conversations ≡ s.conversations)

-- A new invocation has no bucket yet.
fresh-not-joined :
    (env : Environment) (s : State) (b : ℕ)
    → Sound s
    → is_joined (env.new_invocation_id s.invocations) b s.joins ≡ false
unfolding joins_own
fresh-not-joined env s b v =
    let id = env.new_invocation_id s.invocations in
    let fresh = env.new_invocation_id_fresh s.invocations in
    elim (Bool-cases (is_joined id b s.joins)) [ inr e ↦ e | inl e ↦ ground (arith, v.own id b e) ]

release_bucket-Keeps :
    (env : Environment) (id now : ℕ) (u : Uninjected) (s : State) (i : Invocation)
    → lookup id s.invocations ≡ some i
    → Sound s
    → Succeeds (Keeps id s) (release_bucket env id now u s)
unfolding release_bucket insert_invocation insert_join snapshot_invocation suppress_released
    hand_on_receipt
release_bucket-Keeps env id now u s i here v =
    let fresh = env.new_invocation_id_fresh s.invocations in
    let apart = fresh-not-joined env s u.bucket_id v in
    let sound = release_bucket-Sound env id now u s v in
    let running = matches (λ (b : Bucket). is_running_bucket b.state) u.bucket_id s.buckets in
    elim (Bool-cases running) [
      | inl e ↦ elim (Result-cases (release_bucket env id now u s)) [
        | inl (t, done) ↦ (
          t,
          done,
          (
            Ensures-ok Sound (release_bucket env id now u s) sound done,
            ground (arith, ==_iff (env.new_invocation_id s.invocations) id),
            ground arith,
          ),
        )
        | inr (x, failed) ↦ ground arith
      ]
      | inr e ↦ rw (e, release_bucket) (suppress_released id u now s, refl, (v, refl, refl))
    ]

release_buckets-Keeps :
    (env : Environment) (id now : ℕ) (rows : List Uninjected) (s : State) (i : Invocation)
    → lookup id s.invocations ≡ some i
    → Sound s
    → Succeeds (Keeps id s) (release_buckets env id now rows s)
unfolding release_buckets
release_buckets-Keeps env id now [] s i here v = (s, refl, (v, refl, refl))
release_buckets-Keeps env id now (u ∷ rows) s i here v =
    Succeeds->>= (Keeps id s) (Keeps id s) (release_bucket env id now u s)
      (λ next. release_buckets env id now rows next) (release_bucket-Keeps env id now u s i here v)
      (λ next (sound, same, cs).
        let (t, done, (sound', same', cs')) =
          release_buckets-Keeps env id now rows next i (same ∙ here) sound in
        (t, done, (sound', same' ∙ same, cs' ∙ cs)))

-- The run and the buckets that are joined to it are closed.
abbrev pub IsClosed : ℕ → State → Type 0
IsClosed id t =
    (matches (λ (i : Invocation). is_running i.state) id t.invocations ≡ false)
    × ((b : ℕ)
        → is_joined id b t.joins ≡ true
        → matches (λ (r : Bucket). is_running_bucket r.state) b t.buckets ≡ false)

-- The writes after the release close the buckets that still run.
close_joined-IsClosed :
    (id : ℕ) (state : OutcomeState) (chat deadline now : ℕ) (s : State)
    → matches (λ (i : Invocation). is_running i.state) id s.invocations ≡ false
    → IsClosed id (push_deadlines chat deadline now (close_joined id state now s))
unfolding push_deadlines close_joined end_bucket is_running_bucket matches
close_joined-IsClosed id state chat deadline now s ended = (
  ended,
  λ b joined.
      let closed = close_joined id state now s in
      let late = λ (j : ℕ) (r : Bucket).
        is_in_chat closed chat r.conversation_id
        && is_collecting r.state
        && ltb r.deadline_at deadline in
      ground (
        arith,
        lookup-update_rows b late (λ r. record r { deadline_at = deadline; updated_at = now })
            closed.buckets,
        lookup-update_rows b (λ j r. is_running_bucket r.state && is_joined id j s.joins)
            (end_bucket state now) s.buckets,
        Option-cases (lookup b s.buckets),
      ),
)

-- After the outcome is written the invocation does not run, and keeps its start time.
persist_outcome-lookup :
    (id : ℕ) (outcome : Outcome) (now : ℕ) (s : State) (i : Invocation) (started : ℕ)
    → lookup id s.invocations ≡ some i
    → i.started_at ≡ some started
    → (j : Invocation) × (lookup id (persist_outcome id outcome now s).invocations ≡ some j)
      × (j.started_at ≡ some started)
      × (is_running j.state ≡ false)
unfolding persist_outcome end_invocation is_running
persist_outcome-lookup id outcome now s i started here e =
    let wrote =
      lookup-update_rows id (λ j r. j == id && is_running r.state) (end_invocation outcome now)
        s.invocations in
    elim (Bool-cases (is_running i.state)) [
      | inl runs ↦ (end_invocation outcome now i, ground (arith, ==_refl id), e, ground arith)
      | inr over ↦ (i, ground arith, e, over)
    ]

started_at-close :
    (id : ℕ) (state : OutcomeState) (now : ℕ) (r : State) (j : Invocation) (started : ℕ)
    → lookup id r.invocations ≡ some j
    → j.started_at ≡ some started
    → started_at_of id (close_joined id state now r) ≡ ok started
unfolding started_at_of close_joined
started_at-close id state now r j started kept begun = rw (kept, begun, started_at_of) refl

chat-close :
    (id conversation_id : ℕ) (outcome : Outcome) (now : ℕ) (s r : State) (chat : ℕ)
    → chat_of conversation_id s ≡ some chat
    → r.conversations ≡ (persist_outcome id outcome now s).conversations
    → chat_result id conversation_id (close_joined id outcome.state now r) ≡ ok chat
unfolding chat_result chat_of close_joined persist_outcome
chat-close id conversation_id outcome now s r chat c cs = rw cs (ground arith)

-- The transaction at the end of a run never throws, where the queue is sound, the invocation has
-- started and its conversation is in a chat; after it the queue is sound, the invocation does not
-- run, and no bucket that is joined to it runs.
pub finish_invocation-succeeds :
    (env : Environment) (id conversation_id : ℕ) (outcome : Outcome) (now : ℕ) (s : State)
    (i : Invocation) (started chat : ℕ)
    → Sound s
    → lookup id s.invocations ≡ some i
    → i.started_at ≡ some started
    → chat_of conversation_id s ≡ some chat
    → (t : State) × (finish_invocation env id conversation_id outcome now s ≡ ok t)
      × Sound t
      × IsClosed id t
unfolding finish_invocation handle_claimed release_uninjected_buckets matches
finish_invocation-succeeds env id conversation_id outcome now s i started chat v here e c =
    let persisted = persist_outcome id outcome now s in
    let (j, found, begun, over) = persist_outcome-lookup id outcome now s i started here e in
    let (r, released, (sound, same, cs)) =
      release_buckets-Keeps env id now (uninjected_rows id persisted persisted.joins) persisted j
        found (persist_outcome-Sound id outcome now s v) in
    let deadline = max now (started + env.bucket_window_seconds * 1000) in
    let t =
      handle_claimed id (outcome_text outcome.state) outcome.reason now
        (push_deadlines chat deadline now (close_joined id outcome.state now r)) in
    let kept : lookup id r.invocations ≡ some j = same ∙ found in
    let closed = close_joined id outcome.state now r in
    let begins : started_at_of id closed ≡ ok started =
      started_at-close id outcome.state now r j started kept begun in
    let placed : chat_result id conversation_id closed ≡ ok chat =
      chat-close id conversation_id outcome now s r chat c cs in
    let done : finish_invocation env id conversation_id outcome now s ≡ ok t =
      rw (released, begins, placed, finish_invocation) refl in
    (
      t,
      done,
      Ensures-ok Sound (finish_invocation env id conversation_id outcome now s)
          (finish_invocation-Sound env id conversation_id outcome now s v) done,
      close_joined-IsClosed id outcome.state chat deadline now r (ground arith),
    )
