-- ===== src/Queue/Gates.antt =====
-- Each step of `processDue` keeps the queue sound and writes one bucket.
use Prim.Native.String.{String}
use plastic_wan.Base.{
  ℕ, ◌≡◌, refl, Bool, true, false, ◌&&◌, inl, inr, Option, some, List, ◌==◌, lookup, update_rows,
  lookup-update_rows_other, matches, Bool-cases, ==_iff, Ensures, Ensures-both, Ensures-map, arith,
}
use plastic_wan.Conversation.Runtime.{Runtime}
use plastic_wan.Queue.Tables.{Bucket, Invocation, State, Environment}
use plastic_wan.Queue.Snapshot.{snapshot_invocation}
use plastic_wan.Queue.Insert.{
  is_collecting, is_queued_bucket, is_running, is_joined, insert_join, start_bucket, queue_state,
  close_bucket, attach_bucket_to_invocation, insert_invocation, mark_bucket_skipped,
  running_invocation,
}
use plastic_wan.Queue.Due.{defer_bucket, inject, attach_open, queue_open, process_bucket}
use plastic_wan.Queue.Keys.{update_rows-HasDistinctKeys}
use plastic_wan.Queue.Sound.{is_queued_at, Sound, kept_buckets-IsSound, update_buckets-IsSound}
use plastic_wan.Queue.Starting.{attach-IsSound}
use plastic_wan.Queue.Finishing.{
  is_queued_at-queue_state, insert_invocation-Sound, insert_invocation-buckets,
}
use plastic_wan.Queue.Delivering.{newest_running-lookup, running-not-queued}
use plastic_wan.Queue.Routes.{process_bucket-Ensures}

abbrev pub is_collecting_at : ℕ → State → Bool
is_collecting_at id s = matches (λ (b : Bucket). is_collecting b.state) id s.buckets

-- A step that keeps the queue sound and writes no bucket but one.
abbrev pub Touches : ℕ → State → State → Type 0
Touches id s t = Sound t × ((j : ℕ) → (j == id) ≡ false → lookup j t.buckets ≡ lookup j s.buckets)

module _ (env : Environment) (now : ℕ) where
  defer_bucket-Touches : (id : ℕ) (s : State) → Sound s → Touches id s (defer_bucket env id now s)
  unfolding defer_bucket
  defer_bucket-Touches id s v = (
    kept_buckets-IsSound s.conversations _ _ s.buckets s.invocations s.joins (λ j b e h. refl) v,
    λ j other. lookup-update_rows_other j _ _ s.buckets (λ b. ground arith),
  )

  mark_skipped-Touches :
      (id : ℕ) (reason : String) (s : State)
      → is_collecting_at id s ≡ true
      → Sound s
      → Touches id s (mark_bucket_skipped id now reason s)
  unfolding mark_bucket_skipped close_bucket matches is_collecting is_queued_bucket
  mark_skipped-Touches id reason s h v = (
    update_buckets-IsSound s.conversations _ _ s.buckets s.invocations s.joins
        (λ j b e chosen. ground (arith, ==_iff j id)) (λ b. refl) v,
    λ j other. lookup-update_rows_other j _ _ s.buckets (λ b. other),
  )

  attach_open-Touches :
      (id conversation_id invocation_id : ℕ) (runtime : Runtime) (s : State) (i : Invocation)
      → lookup invocation_id s.invocations ≡ some i
      → is_running i.state ≡ true
      → Sound s
      → Ensures (Touches id s) (attach_open env id conversation_id invocation_id now runtime s)
  unfolding attach_open attach_bucket_to_invocation insert_join inject snapshot_invocation
      start_bucket is_collecting is_queued_bucket
  attach_open-Touches id conversation_id invocation_id runtime s i e runs v =
      elim (Bool-cases (is_joined invocation_id id s.joins)) [
        | inl joined ↦ rw joined tt
        | inr apart ↦ rw apart (
          attach-IsSound s.conversations _ s.invocations s.joins invocation_id id now i e
              (running-not-queued i runs)
              (update_buckets-IsSound s.conversations (λ k b. k == id && is_collecting b.state)
                (start_bucket now) s.buckets s.invocations s.joins (λ j b found h. ground arith)
                (λ b. refl) v),
          λ j other.
              lookup-update_rows_other j (λ k b. k == id && is_collecting b.state)
                (start_bucket now) s.buckets (λ b. ground arith),
        )
      ]

  queue_open-Touches :
      (id conversation_id : ℕ) (s : State)
      → is_collecting_at id s ≡ true
      → Sound s
      → Ensures (λ r. Touches id s r.0) (queue_open env id conversation_id now s)
  unfolding queue_open insert_invocation insert_join snapshot_invocation matches is_queued_at
      is_collecting is_queued_bucket
  queue_open-Touches id conversation_id s h v =
      let bs = update_rows (λ k b. k == id && is_collecting b.state) (queue_state now) s.buckets in
      let t = record s { buckets = bs } in
      Ensures-map (λ r. Sound r.0 × (r.0.buckets ≡ bs)) (λ r. Touches id s r.0)
        (insert_invocation env id conversation_id now true t)
        (Ensures-both (λ r. Sound r.0) (λ r. r.0.buckets ≡ bs)
          (insert_invocation env id conversation_id now true t)
          (insert_invocation-Sound env id conversation_id now true s.buckets t
            (update_rows-HasDistinctKeys _ (queue_state now) s.buckets v.distinct_buckets)
            (is_queued_at-queue_state (λ b. is_collecting b.state) id now s.buckets h)
            (ground arith) v)
          (insert_invocation-buckets env id conversation_id now true t))
        (λ r (sound, same). (
          sound,
          λ j other.
              rw same
                (lookup-update_rows_other j _ (queue_state now) s.buckets (λ b. ground arith)),
        ))

  pub process_bucket-Touches :
      (sleep_until : Option ℕ) (id : ℕ) (b : Bucket) (s : State) (ids : List ℕ)
      → is_collecting_at id s ≡ true
      → Sound s
      → Ensures (λ p. Touches id s p.0) (process_bucket env now sleep_until (id, b) (s, ids))
  unfolding running_invocation
  process_bucket-Touches sleep_until id b s ids h v =
      process_bucket-Ensures env now sleep_until id b s ids (Touches id s) (v, λ j other. refl)
        (λ reason. mark_skipped-Touches id reason s h v) (defer_bucket-Touches id s v)
        (λ invocation_id runtime found.
          let (i, here, _, runs) =
            newest_running-lookup b.conversation_id invocation_id s.invocations v.distinct found in
          attach_open-Touches id b.conversation_id invocation_id runtime s i here runs v)
        (queue_open-Touches id b.conversation_id s h v)
