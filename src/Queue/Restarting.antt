-- ===== src/Queue/Restarting.antt =====
-- `recover` keeps the queue sound.
use plastic_wan.Base.{ℕ, refl, Bool, true, not, ◌&&◌, List, [], ◌∷◌, filter, sort, arith}
use plastic_wan.Queue.Tables.{BucketState, InvocationState, Bucket, State}
use plastic_wan.Queue.Insert.{
  is_queued_bucket, is_running_bucket, is_queued, is_running, close_bucket, close_invocation,
}
use plastic_wan.Queue.Recovery.{
  stop_invocation, stop_invocations, joined_unknown, opened_unknown, has_join, stop_buckets,
  stop_joined, stop_others, is_claimed_queued, abort_claimed, close_claims, is_stale, by_bucket_id,
  expire, expire_all, expire_stale, recover,
}
use plastic_wan.Queue.Sound.{Sound, update_buckets-IsSound, update_invocations-IsSound}
use plastic_wan.Queue.Expiring.{expire-IsSound, end_chosen-IsSound}

stop_invocations-Sound : (now : ℕ) (s : State) → Sound s → Sound (stop_invocations now s)
unfolding stop_invocations stop_invocation close_invocation is_running is_queued
stop_invocations-Sound now s =
    update_invocations-IsSound s.conversations s.buckets (λ id i. is_running i.state)
      (stop_invocation now) s.invocations s.joins (λ j i e h. ground arith) (λ i. ground arith)
      (λ i. refl)

stop_buckets-Sound :
    (chosen unknown : ℕ → Bool) (now : ℕ) (s : State)
    → Sound s
    → Sound (stop_buckets chosen unknown now s)
unfolding stop_buckets close_bucket is_running_bucket is_queued_bucket
stop_buckets-Sound chosen unknown now s v =
    let closed =
      update_buckets-IsSound s.conversations
        (λ id b. is_running_bucket b.state && chosen id && unknown id)
        (close_bucket BucketState.outcome_unknown "process_restart" now) s.buckets s.invocations
        s.joins (λ j b e h. ground arith) (λ b. refl) v in
    update_buckets-IsSound s.conversations
      (λ id b. is_running_bucket b.state && chosen id && not (unknown id))
      (close_bucket BucketState.aborted "process_restart" now) _ s.invocations s.joins
      (λ j b e h. ground arith) (λ b. refl) closed

abort_claimed-Sound : (now : ℕ) (s : State) → Sound s → Sound (abort_claimed now s)
unfolding abort_claimed is_claimed_queued close_bucket close_invocation is_queued is_running
    is_queued_bucket
abort_claimed-Sound now s =
    end_chosen-IsSound s.conversations s.buckets s.invocations s.joins
      (close_invocation InvocationState.aborted "process_restart" now)
      (close_bucket BucketState.aborted "process_restart" now) (λ r. (refl, refl)) (λ r. refl)
      (λ r. refl) (is_claimed_queued s) (λ j r h. ground arith)

expire-Sound : (now b : ℕ) (s : State) → Sound s → Sound (expire now b s)
unfolding expire close_bucket close_invocation is_queued is_running is_queued_bucket
expire-Sound now b s =
    expire-IsSound s.conversations s.buckets s.invocations s.joins
      (close_invocation InvocationState.aborted "recovery_age" now)
      (close_bucket BucketState.expired "recovery_age" now) (λ r. (refl, refl)) (λ r. refl)
      (λ r. refl) b

expire_all-Sound :
    (now : ℕ) (rows : List (ℕ × Bucket)) (s : State) → Sound s → Sound (expire_all now rows s)
unfolding expire_all
expire_all-Sound now [] s v = v
expire_all-Sound now (row ∷ rows) s v =
    expire_all-Sound now rows (expire now row.0 s) (expire-Sound now row.0 s v)

expire_stale-Sound : (now : ℕ) (s : State) → Sound s → Sound (expire_stale now s)
unfolding expire_stale
expire_stale-Sound now s =
    expire_all-Sound now (sort by_bucket_id (filter (λ row. is_stale now row.1) s.buckets)) s

pub recover-Sound : (now : ℕ) (s : State) → Sound s → Sound (recover now s)
unfolding recover close_claims stop_joined stop_others
recover-Sound now s v =
    let running = stop_invocations now s in
    let joined = stop_joined now running in
    let stopped =
      stop_buckets-Sound (λ id. has_join id running.joins) (joined_unknown running) now running
        (stop_invocations-Sound now s v) in
    let others = stop_buckets-Sound (λ id. true) (opened_unknown joined) now joined stopped in
    expire_stale-Sound now (close_claims now (abort_claimed now (stop_others now joined)))
      (abort_claimed-Sound now (stop_others now joined) others)
