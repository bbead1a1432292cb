-- ===== src/Queue/Keeping.antt =====
-- Recovery, launches, clearings and the end of a run take no bucket and no invocation to another
-- conversation.
use plastic_wan.Base.{
  ℕ, ◌+◌, ◌*◌, ◌≡◌, refl, max, Bool, true, false, ◌&&◌, inl, inr, some, List, [], ◌∷◌, ◌==◌, filter,
  sort, Table, lookup, update_rows, matches, Bool-cases, Option-cases, ==_refl, Result-cases, ok,
  ◌>>=◌, Ensures, Ensures->>=, Ensures-map, arith,
}
use plastic_wan.Queue.Tables.{BucketState, Bucket, Join, State, Environment}
use plastic_wan.Queue.Snapshot.{snapshot_invocation}
use plastic_wan.Queue.Insert.{
  insert_join, is_joined, new_invocation, insert_invocation, queue_state, close_bucket,
  close_invocation, is_running_bucket,
}
use plastic_wan.Queue.Clearing.{handle_claimed}
use plastic_wan.Queue.Release.{
  Uninjected, uninjected_row, uninjected_rows, suppress_released, hand_on_receipt, release_bucket,
  release_buckets, release_uninjected_buckets,
}
use plastic_wan.Queue.Recovery.{
  stop_invocation, stop_invocations, stop_buckets, stop_joined, stop_others, joined_unknown,
  opened_unknown, has_join, abort_claimed, close_claims, by_bucket_id, is_stale, expire, expire_all,
  expire_stale, recover,
}
use plastic_wan.Queue.Scheduler.{
  OutcomeState, Outcome, outcome_text, end_invocation, end_bucket, persist_outcome, close_joined,
  started_at_of, push_deadlines, chat_result, finish_invocation,
}
use plastic_wan.Queue.Placing.{
  is_at, Moves, Moves-refl, Moves-trans, write_buckets-Places, write_invocations-Places,
  insert_invocation-Places, write_both-Places,
}

expire_all-Moves :
    (now : ℕ) (rows : List (ℕ × Bucket)) (s : State) → Moves s (expire_all now rows s)
unfolding expire_all expire close_bucket close_invocation
expire_all-Moves now [] s = Moves-refl s
expire_all-Moves now (row ∷ rows) s =
    Moves-trans s (expire now row.0 s) (expire_all now rows (expire now row.0 s))
      (write_both-Places s.buckets s.invocations _ _ _ _ (λ r. refl) (λ i. (refl, refl)))
      (expire_all-Moves now rows (expire now row.0 s))

stop_buckets-Moves :
    (chosen unknown : ℕ → Bool) (now : ℕ) (s : State) → Moves s (stop_buckets chosen unknown now s)
unfolding stop_buckets close_bucket
stop_buckets-Moves chosen unknown now s =
    let first =
      update_rows (λ id b. is_running_bucket b.state && chosen id && unknown id)
        (close_bucket BucketState.outcome_unknown "process_restart" now) s.buckets in
    let t = record s { buckets = first } in
    Moves-trans s t (stop_buckets chosen unknown now s)
      (write_buckets-Places s.buckets s.invocations _ _ (λ r. refl))
      (write_buckets-Places first s.invocations _ _ (λ r. refl))

stop_invocations-Moves : (now : ℕ) (s : State) → Moves s (stop_invocations now s)
unfolding stop_invocations stop_invocation close_invocation
stop_invocations-Moves now s =
    write_invocations-Places s.buckets s.invocations _ _ (λ i. (refl, refl))

abort_claimed-Moves : (now : ℕ) (s : State) → Moves s (abort_claimed now s)
unfolding abort_claimed close_bucket close_invocation
abort_claimed-Moves now s =
    write_both-Places s.buckets s.invocations _ _ _ _ (λ r. refl) (λ i. (refl, refl))

pub recover-Moves : (now : ℕ) (s : State) → Moves s (recover now s)
unfolding recover expire_stale close_claims stop_joined stop_others
recover-Moves now s =
    let a = stop_invocations now s in
    let b = stop_joined now a in
    let c = stop_others now b in
    let d = close_claims now (abort_claimed now c) in
    let rows = sort by_bucket_id (filter (λ row. is_stale now row.1) d.buckets) in
    Moves-trans s a (recover now s) (stop_invocations-Moves now s) (
      Moves-trans a b (recover now s)
        (stop_buckets-Moves (λ id. has_join id a.joins) (joined_unknown a) now a)
        (Moves-trans b c (recover now s) (stop_buckets-Moves (λ id. true) (opened_unknown b) now b)
          (Moves-trans c d (recover now s) (abort_claimed-Moves now c)
            (expire_all-Moves now rows d))))

-- A new invocation of the conversation of its bucket.
pub insert_invocation-Moves :
    (env : Environment) (b c now : ℕ) (include_history : Bool) (s : State)
    → is_at b c s.buckets ≡ true
    → Ensures (λ r. Moves s r.0) (insert_invocation env b c now include_history s)
unfolding insert_invocation insert_join new_invocation snapshot_invocation
insert_invocation-Moves env b c now include_history s at =
    elim (Bool-cases (is_joined (env.new_invocation_id s.invocations) b s.joins)) [
      | inl e ↦ rw e tt
      | inr e ↦ rw e (
          insert_invocation-Places s.buckets s.invocations (env.new_invocation_id s.invocations)
            (new_invocation env b c now) at)
    ]

release_bucket-Moves :
    (env : Environment) (id now : ℕ) (u : Uninjected) (s : State)
    → is_at u.bucket_id u.conversation_id s.buckets ≡ true
    → Ensures (Moves s) (release_bucket env id now u s)
unfolding release_bucket suppress_released hand_on_receipt queue_state
release_bucket-Moves env id now u s at =
    elim (Bool-cases (matches (λ (b : Bucket). is_running_bucket b.state) u.bucket_id s.buckets)) [
      | inr e ↦ rw e (Moves-refl s)
      | inl e ↦ rw e (
          let bs =
            update_rows (λ j b. j == u.bucket_id && is_running_bucket b.state) (queue_state now)
              s.buckets in
          let t = record s { buckets = bs } in
          let m =
            write_buckets-Places s.buckets s.invocations
              (λ j b. j == u.bucket_id && is_running_bucket b.state) (queue_state now)
              (λ r. refl) in
          Ensures->>= (λ r. Moves t r.0) (Moves s)
            (insert_invocation env u.bucket_id u.conversation_id now false t)
            (λ r. ok (hand_on_receipt id r.1 u.bucket_id now r.0))
            (insert_invocation-Moves env u.bucket_id u.conversation_id now false t
              (m.keeps u.bucket_id u.conversation_id at))
            (λ r n. Moves-trans s t r.0 m n))
    ]

row-at :
    (id : ℕ) (s : State) (j : Join) (u : Uninjected)
    → uninjected_row id s j ≡ some u
    → is_at u.bucket_id u.conversation_id s.buckets ≡ true
unfolding uninjected_row is_at matches
row-at id s j u e = elim (Option-cases (lookup j.bucket_id s.buckets)) [
  | inl lost ↦ ground arith
  | inr (b, here) ↦ elim (Option-cases (lookup j.invocation_id s.invocations)) [
    | inl gone ↦ ground arith
    | inr (i, found) ↦ ground (arith, ==_refl b.conversation_id)
  ]
]

abbrev AllAt : Table Bucket → List Uninjected → Type 0
AllAt bs [] = Unit
AllAt bs (u ∷ rows) = (is_at u.bucket_id u.conversation_id bs ≡ true) × AllAt bs rows

AllAt-keeps :
    (bs bs' : Table Bucket) (rows : List Uninjected)
    → ((b c : ℕ) → is_at b c bs ≡ true → is_at b c bs' ≡ true)
    → AllAt bs rows
    → AllAt bs' rows
AllAt-keeps bs bs' [] keeps h = tt
AllAt-keeps bs bs' (u ∷ rows) keeps (h, hs) =
    (keeps u.bucket_id u.conversation_id h, AllAt-keeps bs bs' rows keeps hs)

uninjected-AllAt :
    (id : ℕ) (s : State) (joins : List Join) → AllAt s.buckets (uninjected_rows id s joins)
unfolding uninjected_rows
uninjected-AllAt id s [] = tt
uninjected-AllAt id s (j ∷ joins) = elim (Option-cases (uninjected_row id s j)) [
  | inl e ↦ rw (e, uninjected_rows) (uninjected-AllAt id s joins)
  | inr (u, e) ↦ rw (e, uninjected_rows) (row-at id s j u e, uninjected-AllAt id s joins)
]

release_buckets-Moves :
    (env : Environment) (id now : ℕ) (rows : List Uninjected) (s : State)
    → AllAt s.buckets rows
    → Ensures (Moves s) (release_buckets env id now rows s)
unfolding release_buckets
release_buckets-Moves env id now [] s h = Moves-refl s
release_buckets-Moves env id now (u ∷ rows) s (h, hs) =
    Ensures->>= (Moves s) (Moves s) (release_bucket env id now u s)
      (λ next. release_buckets env id now rows next) (release_bucket-Moves env id now u s h)
      (λ t m.
        Ensures-map (Moves t) (Moves s) (release_buckets env id now rows t)
          (release_buckets-Moves env id now rows t
            (AllAt-keeps s.buckets t.buckets rows m.keeps hs))
          (λ u n. Moves-trans s t u m n))

pub release_uninjected-Moves :
    (env : Environment) (id now : ℕ) (s : State)
    → Ensures (Moves s) (release_uninjected_buckets env id now s)
unfolding release_uninjected_buckets
release_uninjected-Moves env id now s =
    release_buckets-Moves env id now (uninjected_rows id s s.joins) s
      (uninjected-AllAt id s s.joins)

-- The writes of the end of a run around the release.
pub persist_outcome-Moves :
    (id : ℕ) (outcome : Outcome) (now : ℕ) (s : State) → Moves s (persist_outcome id outcome now s)
unfolding persist_outcome end_invocation
persist_outcome-Moves id outcome now s =
    write_invocations-Places s.buckets s.invocations _ _ (λ i. (refl, refl))

pub closing-Moves :
    (id : ℕ) (state : OutcomeState) (chat deadline now : ℕ) (s : State)
    → Moves s (push_deadlines chat deadline now (close_joined id state now s))
unfolding push_deadlines close_joined end_bucket
closing-Moves id state chat deadline now s =
    let t = close_joined id state now s in
    Moves-trans s t (push_deadlines chat deadline now t)
      (write_buckets-Places s.buckets s.invocations _ _ (λ r. refl))
      (write_buckets-Places t.buckets s.invocations _ _ (λ r. refl))

pub finish_invocation-Moves :
    (env : Environment) (id c : ℕ) (outcome : Outcome) (now : ℕ) (s : State)
    → Ensures (Moves s) (finish_invocation env id c outcome now s)
unfolding finish_invocation handle_claimed
finish_invocation-Moves env id c outcome now s =
    let persisted = persist_outcome id outcome now s in
    Ensures->>= (Moves persisted) (Moves s) (release_uninjected_buckets env id now persisted) _
      (release_uninjected-Moves env id now persisted) (λ r m. rest r m)
  where
    rest :
        (r : State)
        → Moves (persist_outcome id outcome now s) r
        → Ensures (Moves s) (
            let closed = close_joined id outcome.state now r in
            started_at_of id closed >>= λ started. chat_result id c closed >>= λ chat. ok (
              handle_claimed id (outcome_text outcome.state) outcome.reason now (
                push_deadlines chat
                  (max now (started + env.bucket_window_seconds * 1000))
                  now
                  closed)))
    rest r m = elim (Result-cases (started_at_of id (close_joined id outcome.state now r))) [
      | inr (e, failed) ↦ rw failed tt
      | inl (started, got) ↦
          rw got (elim (Result-cases (chat_result id c (close_joined id outcome.state now r))) [
            | inr (e, failed) ↦ rw failed tt
            | inl (chat, found) ↦ rw found (
                let deadline = max now (started + env.bucket_window_seconds * 1000) in
                let t = push_deadlines chat deadline now (close_joined id outcome.state now r) in
                Moves-trans s r t
                  (Moves-trans s (persist_outcome id outcome now s) r
                    (persist_outcome-Moves id outcome now s) m)
                  (closing-Moves id outcome.state chat deadline now r))
          ])
    ]
