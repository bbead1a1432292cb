-- ===== src/Queue/Recovered.antt =====
-- What `recover` leaves behind.
use plastic_wan.Base.{
  ℕ, ◌≡◌, ◌+◌, ◌||◌, ltb, refl, Bool, true, false, not, ◌&&◌, inl, inr, some, List, [], ◌∷◌, ◌==◌,
  any, any-sort, filter, sort, Table, lookup, update_rows, lookup-update_rows, Bool-cases,
  Option-cases, ==_iff, arith,
}
use plastic_wan.LongTasks.Rows.{Receipt}
use plastic_wan.Queue.Tables.{BucketState, InvocationState, Bucket, Invocation, State}
use plastic_wan.Queue.Insert.{
  is_collecting, is_queued_bucket, is_running_bucket, is_running, close_bucket, close_invocation,
}
use plastic_wan.Queue.Clearing.{is_claimed, handle}
use plastic_wan.Queue.Recovery.{
  stop_invocation, stop_invocations, opened_unknown, stop_buckets, stop_joined, stop_others,
  abort_claimed, close_claims, is_stale, by_bucket_id, expire, expire_all, expire_stale, recover,
}

module _ {R : Type 0} where
  -- No row of a table passes a test.
  abbrev pub NoRow : (R → Bool) → Table R → Type 0
  NoRow test t = (id : ℕ) (r : R) → lookup id t ≡ some r → test r ≡ false

  update_rows-NoRow_of :
      (test : R → Bool) (p : ℕ → R → Bool) (f : R → R) (t : Table R)
      → ((r : R) → test (f r) ≡ false)
      → ((id : ℕ) (r : R) → lookup id t ≡ some r → p id r ≡ false → test r ≡ false)
      → NoRow test (update_rows p f t)
  update_rows-NoRow_of test p f t after h id r e = elim (Option-cases (lookup id t)) [
    | inl lost ↦ ground (arith, lookup-update_rows id p f t)
    | inr (q, here) ↦ ground (arith, lookup-update_rows id p f t, after q, h id q here)
  ]

  update_rows-NoRow :
      (test : R → Bool) (p : ℕ → R → Bool) (f : R → R) (t : Table R)
      → ((r : R) → test (f r) ≡ false)
      → NoRow test t
      → NoRow test (update_rows p f t)
  update_rows-NoRow test p f t after h =
      update_rows-NoRow_of test p f t after (λ id r e other. h id r e)

abbrev pub runs : Invocation → Bool
runs i = is_running i.state

abbrev pub runs_bucket : Bucket → Bool
runs_bucket b = is_running_bucket b.state

-- Nothing runs.
abbrev pub IsIdle : State → Type 0
IsIdle s = NoRow runs s.invocations × NoRow runs_bucket s.buckets

stop_running : (now : ℕ) (s : State) → NoRow runs (stop_invocations now s).invocations
unfolding stop_invocations stop_invocation close_invocation is_running
stop_running now s =
    update_rows-NoRow_of runs (λ id i. is_running i.state) (stop_invocation now) s.invocations
      (λ i. ground arith) (λ id i e h. h)

stop_running_buckets :
    (unknown : ℕ → Bool) (now : ℕ) (s : State)
    → NoRow runs_bucket (stop_buckets (λ id. true) unknown now s).buckets
unfolding stop_buckets close_bucket is_running_bucket
stop_running_buckets unknown now s =
    let first =
      update_rows (λ id b. is_running_bucket b.state && true && unknown id)
        (close_bucket BucketState.outcome_unknown "process_restart" now) s.buckets in
    update_rows-NoRow_of runs_bucket (λ id b. is_running_bucket b.state && true && not (unknown id))
      (close_bucket BucketState.aborted "process_restart" now) first (λ b. refl)
      (λ id b e h. ground (
        arith,
        lookup-update_rows id (λ j c. is_running_bucket c.state && true && unknown j)
            (close_bucket BucketState.outcome_unknown "process_restart" now) s.buckets,
        Option-cases (lookup id s.buckets),
      ))

expire-IsIdle : (now b : ℕ) (s : State) → IsIdle s → IsIdle (expire now b s)
unfolding expire close_bucket close_invocation is_running is_running_bucket
expire-IsIdle now b s (h, k) = (
  update_rows-NoRow runs _ (close_invocation InvocationState.aborted "recovery_age" now)
      s.invocations (λ i. refl) h,
  update_rows-NoRow runs_bucket _ (close_bucket BucketState.expired "recovery_age" now) s.buckets
      (λ c. refl) k,
)

expire_all-IsIdle :
    (now : ℕ) (rows : List (ℕ × Bucket)) (s : State) → IsIdle s → IsIdle (expire_all now rows s)
unfolding expire_all
expire_all-IsIdle now [] s h = h
expire_all-IsIdle now (row ∷ rows) s h =
    expire_all-IsIdle now rows (expire now row.0 s) (expire-IsIdle now row.0 s h)

abort_claimed-IsIdle : (now : ℕ) (s : State) → IsIdle s → IsIdle (abort_claimed now s)
unfolding abort_claimed close_bucket close_invocation is_running is_running_bucket
abort_claimed-IsIdle now s (h, k) = (
  update_rows-NoRow runs _ (close_invocation InvocationState.aborted "process_restart" now)
      s.invocations (λ i. refl) h,
  update_rows-NoRow runs_bucket _ (close_bucket BucketState.aborted "process_restart" now) s.buckets
      (λ c. refl) k,
)

-- The receipts are not touched by the last step of `recover`.
expire_all-service :
    (now : ℕ) (rows : List (ℕ × Bucket)) (s : State) → (expire_all now rows s).service ≡ s.service
unfolding expire_all expire
expire_all-service now [] s = refl
expire_all-service now (row ∷ rows) s = expire_all-service now rows (expire now row.0 s)

-- A bucket that is stale after the last step is none of its rows, and was so before.
expire_all-stale :
    (now id : ℕ) (b : Bucket) (rows : List (ℕ × Bucket)) (s : State)
    → lookup id (expire_all now rows s).buckets ≡ some b
    → is_stale now b ≡ true
    → (lookup id s.buckets ≡ some b) × (any (λ row. row.0 == id) rows ≡ false)
unfolding expire_all expire close_bucket is_stale is_collecting is_queued_bucket
expire_all-stale now id b [] s e h = (e, refl)
expire_all-stale now id b (row ∷ rows) s e h =
    let (before, apart) = expire_all-stale now id b rows (expire now row.0 s) e h in
    elim (Option-cases (lookup id s.buckets)) [
      | inl lost ↦ ground (
        arith,
        lookup-update_rows id (λ j c. j == row.0)
            (close_bucket BucketState.expired "recovery_age" now) s.buckets,
      )
      | inr (c, here) ↦ ground (
        arith,
        ==_iff row.0 id,
        ==_iff id row.0,
        lookup-update_rows id (λ j c. j == row.0)
            (close_bucket BucketState.expired "recovery_age" now) s.buckets,
      )
    ]

any-filter_row :
    (p : ℕ × Bucket → Bool) (id : ℕ) (b : Bucket) (t : Table Bucket)
    → lookup id t ≡ some b
    → p (id, b) ≡ true
    → any (λ row. row.0 == id) (filter p t) ≡ true
any-filter_row p id b [] e h = cc
any-filter_row p id b ((j, c) ∷ t) e h = elim (Bool-cases (j == id)) [
  | inl same ↦ let key = (==_iff j id).0 same in ground arith
  | inr other ↦ ground (arith, any-filter_row p id b t)
]

expire_stale-NoRow : (now : ℕ) (s : State) → NoRow (is_stale now) (expire_stale now s).buckets
unfolding expire_stale
expire_stale-NoRow now s id b e = elim (Bool-cases (is_stale now b)) [
  | inr fresh ↦ fresh
  | inl stale ↦
      let rows = filter (λ row. is_stale now row.1) s.buckets in
      let (before, apart) = expire_all-stale now id b (sort by_bucket_id rows) s e stale in
      let listed = any-filter_row (λ row. is_stale now row.1) id b s.buckets before stale in
      ground (arith, any-sort by_bucket_id (λ (row : ℕ × Bucket). row.0 == id) rows)
]

-- After `recover` no invocation and no bucket runs, no receipt is claimed, and no bucket that
-- collects or is queued was first received more than five minutes before.
pub recover_settles :
    (now : ℕ) (s : State)
    → NoRow (λ (i : Invocation). is_running i.state) (recover now s).invocations
      × NoRow (λ (b : Bucket). is_running_bucket b.state) (recover now s).buckets
      × NoRow (λ (r : Receipt). is_claimed r.state) (recover now s).service.receipts
      × NoRow
          (λ (b : Bucket).
            (is_collecting b.state || is_queued_bucket b.state)
            && ltb (b.first_received_at + 300000) now)
          (recover now s).buckets
unfolding recover is_stale expire_stale close_claims stop_joined stop_others handle is_claimed
recover_settles now s =
    let running = stop_invocations now s in
    let joined = stop_joined now running in
    let others = stop_others now joined in
    let aborted = abort_claimed now others in
    let claims = close_claims now aborted in
    let rows = sort by_bucket_id (filter (λ row. is_stale now row.1) claims.buckets) in
    let idle = expire_all-IsIdle now rows claims (
      abort_claimed-IsIdle now others
        (stop_running now s, stop_running_buckets (opened_unknown joined) now joined)) in
    (
      idle.0,
      idle.1,
      rw (expire_all-service now rows claims) (
          update_rows-NoRow_of (λ (r : Receipt). is_claimed r.state) (λ task r. is_claimed r.state)
            (handle "outcome_unknown" "outcome_unknown" now) aborted.service.receipts (λ r. refl)
            (λ id r e h. h)),
      expire_stale-NoRow now claims,
    )
