-- ===== src/Queue/Recovery.antt =====
-- `recover` (src/orchestration/invocation-queue.ts): what a restart finds running or claimed is
-- closed, and old work expires.
use plastic_wan.Base.{
  ℕ, ◌+◌, ◌*◌, Bool, true, false, not, ◌&&◌, ◌||◌, List, [], ◌∷◌, ltb, leb, ◌==◌, if◌then◌else◌,
  any, filter, sort, matches, update_rows,
}
use plastic_wan.Queue.Tables.{BucketState, InvocationState, Bucket, Invocation, Join, State}
use plastic_wan.Queue.Insert.{
  is_collecting, is_queued_bucket, is_running_bucket, is_queued, is_running, close_bucket,
  close_invocation,
}
use plastic_wan.Queue.Receipts.{with_receipts}
use plastic_wan.Queue.Clearing.{is_claimed, is_claimed_by, belongs, handle}

abbrev pub recovery_max_age_ms : ℕ
recovery_max_age_ms = 5 * 60000

unfoldable pub is_unknown : InvocationState → Bool
is_unknown InvocationState.outcome_unknown = true
is_unknown _ = false

-- `CASE WHEN side_effect_started = 1 THEN 'outcome_unknown' ELSE 'aborted' END`
unfoldable pub stop_invocation : ℕ → Invocation → Invocation
unfolding close_invocation
stop_invocation now i =
    close_invocation
      (if i.side_effect_started then InvocationState.outcome_unknown else InvocationState.aborted)
      "process_restart" now i

unfoldable pub stop_invocations : ℕ → State → State
unfolding stop_invocation update_rows is_running
stop_invocations now s = record s {
  invocations = update_rows (λ id i. is_running i.state) (stop_invocation now) s.invocations;
}

abbrev pub has_join : ℕ → List Join → Bool
has_join bucket_id joins = any (λ j. j.bucket_id == bucket_id) joins

-- Whether a bucket is joined to an invocation whose outcome is unknown.
unfoldable pub joined_unknown : State → ℕ → Bool
unfolding is_unknown
joined_unknown s bucket_id =
    any
      (λ j.
        j.bucket_id == bucket_id
        && matches (λ (i : Invocation). is_unknown i.state) j.invocation_id s.invocations)
      s.joins

-- Whether a bucket opened an invocation whose outcome is unknown.
unfoldable pub opened_unknown : State → ℕ → Bool
unfolding is_unknown
opened_unknown s bucket_id =
    any (λ row. row.1.bucket_id == bucket_id && is_unknown row.1.state) s.invocations

-- The running buckets of a set, closed as unknown or aborted.
unfoldable pub stop_buckets : (ℕ → Bool) → (ℕ → Bool) → ℕ → State → State
unfolding close_bucket update_rows is_running_bucket
stop_buckets chosen unknown now s = record s {
  buckets =
      update_rows (λ id b. is_running_bucket b.state && chosen id && not (unknown id))
        (close_bucket BucketState.aborted "process_restart" now)
        (update_rows (λ id b. is_running_bucket b.state && chosen id && unknown id)
          (close_bucket BucketState.outcome_unknown "process_restart" now) s.buckets);
}

-- Whether a claimed receipt names an invocation.
unfoldable pub has_claim : State → ℕ → Bool
unfolding is_claimed_by
has_claim s invocation_id = any (λ row. is_claimed_by invocation_id row.1) s.service.receipts

-- A queued invocation with a claimed receipt.
unfoldable pub is_claimed_queued : State → ℕ × Invocation → Bool
unfolding is_queued has_claim
is_claimed_queued s (id, i) = is_queued i.state && has_claim s id

unfoldable pub abort_claimed : ℕ → State → State
unfolding is_claimed_queued close_bucket close_invocation update_rows
abort_claimed now s = record s {
  buckets =
      update_rows
        (λ id b.
          any (λ row. is_claimed_queued s row && belongs row.0 row.1.bucket_id s.joins id)
            s.invocations)
        (close_bucket BucketState.aborted "process_restart" now) s.buckets;
  invocations =
      update_rows (λ id i. is_claimed_queued s (id, i))
        (close_invocation InvocationState.aborted "process_restart" now) s.invocations;
}

unfoldable pub close_claims : ℕ → State → State
unfolding is_claimed handle update_rows
close_claims now s =
    with_receipts
      (update_rows (λ task r. is_claimed r.state) (handle "outcome_unknown" "outcome_unknown" now))
      s

unfoldable pub is_stale : ℕ → Bucket → Bool
unfolding is_collecting is_queued_bucket
is_stale now b =
    (is_collecting b.state || is_queued_bucket b.state)
    && ltb (b.first_received_at + recovery_max_age_ms) now

abbrev pub by_bucket_id : ℕ × Bucket → ℕ × Bucket → Bool
by_bucket_id r q = leb r.0 q.0

unfoldable pub expire : ℕ → ℕ → State → State
unfolding close_bucket close_invocation update_rows is_queued
expire now bucket_id s = record s {
  buckets =
      update_rows (λ id b. id == bucket_id) (close_bucket BucketState.expired "recovery_age" now)
        s.buckets;
  invocations =
      update_rows (λ id i. i.bucket_id == bucket_id && is_queued i.state)
        (close_invocation InvocationState.aborted "recovery_age" now) s.invocations;
}

unfoldable pub expire_all : ℕ → List (ℕ × Bucket) → State → State
unfolding expire
expire_all now [] s = s
expire_all now (row ∷ rows) s = expire_all now rows (expire now row.0 s)

unfoldable pub expire_stale : ℕ → State → State
unfolding is_stale expire_all
expire_stale now s =
    expire_all now (sort by_bucket_id (filter (λ row. is_stale now row.1) s.buckets)) s

unfoldable pub stop_joined : ℕ → State → State
unfolding stop_buckets joined_unknown
stop_joined now s = stop_buckets (λ id. has_join id s.joins) (joined_unknown s) now s

unfoldable pub stop_others : ℕ → State → State
unfolding stop_buckets opened_unknown
stop_others now s = stop_buckets (λ id. true) (opened_unknown s) now s

unfoldable pub recover : ℕ → State → State
unfolding stop_invocations stop_joined stop_others abort_claimed close_claims expire_stale
recover now s = expire_stale now (
    close_claims now
      (abort_claimed now (stop_others now (stop_joined now (stop_invocations now s)))))
