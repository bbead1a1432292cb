-- ===== src/Queue/Silencing.antt =====
-- `/pause` keeps the queue sound.
use plastic_wan.Base.{
  ℕ, ◌≡◌, refl, sym, ◌∙◌, Bool, false, not, ◌&&◌, inl, inr, some, if◌then◌else◌, lookup,
  update_rows, lookup-update_rows, count_keyed, count_keyed-update_rows, matches, Bool-cases,
  Option-cases, ==_iff, arith,
}
use plastic_wan.Queue.Tables.{BucketState, InvocationState, Bucket, Invocation, State}
use plastic_wan.Queue.Insert.{
  is_collecting, is_queued_bucket, is_running_bucket, is_queued, is_running, close_bucket,
  close_invocation,
}
use plastic_wan.Queue.Scheduler.{is_in_chat}
use plastic_wan.Queue.Keys.{update_rows-HasDistinctKeys}
use plastic_wan.Queue.Counting.{bit, count_keyed_never, count_keyed-same_rows}
use plastic_wan.Queue.Sound.{opens, is_queued_at, Sound, serial-update_rows, own-update_rows}
use plastic_wan.Queue.Placing.{is_at, Placed, Moves, write_both-Places}
use plastic_wan.Queue.Pause.{is_pausable, is_queued_in, pause_chat}

pub pause_chat-Moves : (chat_id now : ℕ) (s : State) → Moves s (pause_chat chat_id now s)
unfolding pause_chat close_bucket close_invocation
pause_chat-Moves chat_id now s =
    write_both-Places s.buckets s.invocations _ _ _ _ (λ r. refl) (λ i. (refl, refl))

module _ (chat_id now : ℕ) (s : State) (v : Sound s) (at : Placed s) where
  -- Whether a bucket is of the chat.
  in_paused : ℕ → Bool
  in_paused c = matches (λ (b : Bucket). is_in_chat s chat_id b.conversation_id) c s.buckets

  -- The invocations that a bucket opens end when it is of the chat.
  opens-pause :
      (c j : ℕ) (r : Invocation)
      → lookup j s.invocations ≡ some r
      → (if is_queued_in s chat_id r
          then opens c j (close_invocation InvocationState.aborted "chat_paused" now r)
          else opens c j r)
        ≡ (not (in_paused c) && opens c j r)
  unfolding in_paused opens is_queued is_queued_in close_invocation is_at matches
  opens-pause c j r here = elim (Option-cases (lookup c s.buckets)) [
    | inl lost ↦ ground (arith, at j r here, ==_iff r.bucket_id c)
    | inr (b, found) ↦
        ground
          (arith, at j r here, ==_iff r.bucket_id c, ==_iff b.conversation_id r.conversation_id)
  ]

  -- The buckets of the chat leave the queue.
  is_queued_at-pause :
      (c : ℕ)
      → is_queued_at c (
          update_rows
            (is_pausable s chat_id)
            (close_bucket BucketState.expired "chat_paused" now)
            s.buckets)
        ≡ (not (in_paused c) && is_queued_at c s.buckets)
  unfolding in_paused is_queued_at matches is_pausable is_collecting is_queued_bucket
      is_running_bucket close_bucket
  is_queued_at-pause c = elim (Option-cases (lookup c s.buckets)) [
    | inl lost ↦ ground (
      arith,
      lookup-update_rows c (is_pausable s chat_id)
          (close_bucket BucketState.expired "chat_paused" now) s.buckets,
    )
    | inr (b, found) ↦ ground (
      arith,
      lookup-update_rows c (is_pausable s chat_id)
          (close_bucket BucketState.expired "chat_paused" now) s.buckets,
    )
  ]

  remaining :
      (c : ℕ)
      → count_keyed (λ j r. not (in_paused c) && opens c j r) s.invocations
        ≡ bit (not (in_paused c) && is_queued_at c s.buckets)
  remaining c = elim (Bool-cases (in_paused c)) [
    | inl e ↦ rw e (count_keyed_never (λ j r. false) s.invocations (λ j r. refl))
    | inr e ↦ rw e (v.opened c)
  ]

  pub pause_chat-Sound : Sound (pause_chat chat_id now s)
  unfolding pause_chat close_bucket close_invocation is_queued is_running
  pause_chat-Sound = record {
    distinct_buckets = update_rows-HasDistinctKeys _ _ s.buckets v.distinct_buckets;
    distinct = update_rows-HasDistinctKeys _ _ s.invocations v.distinct;
    serial = serial-update_rows s.conversations _ _ s.invocations (λ i. (refl, refl)) v.serial;
    opened = λ c.
        let q = λ (j : ℕ) (r : Invocation). is_queued_in s chat_id r in
        let g = close_invocation InvocationState.aborted "chat_paused" now in
        count_keyed-update_rows (opens c) q g s.invocations
        ∙ (count_keyed-same_rows (λ j r. if q j r then opens c j (g r) else opens c j r)
              (λ j r. not (in_paused c) && opens c j r) s.invocations v.distinct (opens-pause c)
            ∙ (remaining c ∙ sym (ground (arith, is_queued_at-pause c))));
    own = λ id c joined.
        own-update_rows s.conversations _ _ s.invocations (λ i. (refl, refl)) id c (λ i. refl)
          (v.own id c joined);
  }
