-- ===== src/Queue/CaughtUp.antt =====
-- The catch-up after a start keeps the queue sound, and each invocation with its bucket.
use Prim.Native.String.{String}
use plastic_wan.Base.{
  ℕ, false, inl, inr, Option, none, some, List, [], ◌∷◌, ◌++◌, filter, insert, matches,
  Option-cases, Bool-cases, ==_iff, ==_refl, Result, ok, err, Ensures, Ensures->>=, Ensures-both,
  Ensures-map, arith,
}
use plastic_wan.Sleep.State.{active_sleep_until}
use plastic_wan.Queue.Tables.{State, Environment, QueueError}
use plastic_wan.Queue.Insert.{is_queued_bucket, insert_invocation}
use plastic_wan.Queue.Due.{Pass}
use plastic_wan.Queue.Sound.{is_queued_at, Sound, buckets-IsSound}
use plastic_wan.Queue.Finishing.{insert_invocation-Sound}
use plastic_wan.Queue.Placing.{is_at, Moves, Moves-refl, Moves-trans, insert_bucket-Places}
use plastic_wan.Queue.Keeping.{insert_invocation-Moves}
use plastic_wan.Queue.CatchUp.{
  StartupRow, Participations, last_row, skip_reason, catch_up_bucket, open_catch_up,
  catch_up_messages, catch_up_conversations, selected, in_session, triggered_conversations,
  is_pending, from_queue, finish_startup_catch_up,
}

module _ (env : Environment) (c started_at now : ℕ) (messages : List StartupRow) (s : State) where
  skipped-Sound :
      (reason : String)
      → Sound s
      → Sound (open_catch_up env c started_at now (some reason) messages s)
  unfolding open_catch_up catch_up_bucket is_queued_at matches is_queued_bucket
  skipped-Sound reason v =
      let b = env.new_bucket_id s.buckets in
      let fresh = env.new_bucket_id_fresh s.buckets in
      buckets-IsSound s.conversations s.buckets
        (insert b (catch_up_bucket c started_at now (some reason)) s.buckets) s.invocations s.joins
        (fresh, v.distinct_buckets) (λ j. ground (arith, ==_iff b j)) v

  open_catch_up-Moves :
      (skipped : Option String) → Moves s (open_catch_up env c started_at now skipped messages s)
  unfolding open_catch_up
  open_catch_up-Moves skipped =
      insert_bucket-Places s.buckets s.invocations (env.new_bucket_id s.buckets)
        (catch_up_bucket c started_at now skipped) (env.new_bucket_id_fresh s.buckets)

  queued-Sound :
      Sound s
      → Ensures
          (λ p. Sound p.0)
          (insert_invocation env
            (env.new_bucket_id s.buckets)
            c
            now
            false
            (open_catch_up env c started_at now none messages s))
  unfolding open_catch_up catch_up_bucket is_queued_at matches is_queued_bucket
  queued-Sound v =
      let b = env.new_bucket_id s.buckets in
      let fresh = env.new_bucket_id_fresh s.buckets in
      insert_invocation-Sound env b c now false s.buckets
        (open_catch_up env c started_at now none messages s) (fresh, v.distinct_buckets)
        (λ j. ground (arith, ==_iff b j, ==_iff j b)) (ground arith) v

  queued-Moves :
      Ensures
        (λ p. Moves s p.0)
        (insert_invocation env
          (env.new_bucket_id s.buckets)
          c
          now
          false
          (open_catch_up env c started_at now none messages s))
  unfolding open_catch_up catch_up_bucket is_at matches
  queued-Moves =
      let b = env.new_bucket_id s.buckets in
      let t = open_catch_up env c started_at now none messages s in
      Ensures-map (λ p. Moves t p.0) (λ p. Moves s p.0) (insert_invocation env b c now false t)
        (insert_invocation-Moves env b c now false t (ground (arith, ==_refl b, ==_refl c)))
        (λ p n. Moves-trans s t p.0 (open_catch_up-Moves none) n)

module _ (env : Environment) (part : Participations) (started_at now : ℕ)
    (sleep_until : Option ℕ) where
  -- What every outcome of a round has.
  catch_up_messages-Ensures :
      (messages : List StartupRow) (s : State) (ids : List ℕ) (P : State → Type 0)
      → P s
      → ((c : ℕ) (reason : String)
          → P (open_catch_up env c started_at now (some reason) messages s))
      → ((c : ℕ)
          → Ensures
              (λ p. P p.0)
              (insert_invocation env
                (env.new_bucket_id s.buckets)
                c
                now
                false
                (open_catch_up env c started_at now none messages s)))
      → Ensures
          (λ p. P p.0)
          (catch_up_messages env part started_at now sleep_until messages (s, ids))
  unfolding catch_up_messages
  catch_up_messages-Ensures messages s ids P unchanged skipped queued =
      elim (Option-cases (last_row messages)) [
        | inl e ↦ rw (e, catch_up_messages) unchanged
        | inr (latest, e) ↦ elim (Option-cases (skip_reason env part s latest now sleep_until)) [
          | inr (reason, why) ↦
              rw (e, why, catch_up_messages) (skipped latest.conversation_id reason)
          | inl free ↦
              rw (e, free, catch_up_messages)
                (Ensures->>= (λ p. P p.0) (λ p. P p.0)
                  (insert_invocation env (env.new_bucket_id s.buckets) latest.conversation_id now
                    false (open_catch_up env latest.conversation_id started_at now none messages s))
                  (λ p. ok (p.0, ids ++ p.1 ∷ [])) (queued latest.conversation_id) (λ p h. h))
        ]
      ]

  catch_up_messages-Sound :
      (messages : List StartupRow) (s : State) (ids : List ℕ)
      → Sound s
      → Ensures
          (λ p. Sound p.0)
          (catch_up_messages env part started_at now sleep_until messages (s, ids))
  catch_up_messages-Sound messages s ids v =
      catch_up_messages-Ensures messages s ids Sound v
        (λ c reason. skipped-Sound env c started_at now messages s reason v)
        (λ c. queued-Sound env c started_at now messages s v)

  catch_up_messages-Moves :
      (messages : List StartupRow) (s : State) (ids : List ℕ)
      → Ensures
          (λ p. Moves s p.0)
          (catch_up_messages env part started_at now sleep_until messages (s, ids))
  catch_up_messages-Moves messages s ids =
      catch_up_messages-Ensures messages s ids (Moves s) (Moves-refl s)
        (λ c reason. open_catch_up-Moves env c started_at now messages s (some reason))
        (λ c. queued-Moves env c started_at now messages s)

  catch_up_conversations-Ensures :
      (session : List StartupRow) (conversations : List ℕ) (s : State) (ids : List ℕ)
      → Sound s
      → Ensures
          (λ p. Sound p.0 × Moves s p.0)
          (catch_up_conversations env part started_at now sleep_until session conversations
            (s, ids))
  unfolding catch_up_conversations
  catch_up_conversations-Ensures session [] s ids v = (v, Moves-refl s)
  catch_up_conversations-Ensures session (c ∷ conversations) s ids v =
      let messages = selected env c session in
      let round = catch_up_messages env part started_at now sleep_until messages (s, ids) in
      Ensures->>= (λ p. Sound p.0 × Moves s p.0) (λ p. Sound p.0 × Moves s p.0) round _
        (Ensures-both (λ p. Sound p.0) (λ p. Moves s p.0) round
          (catch_up_messages-Sound messages s ids v) (catch_up_messages-Moves messages s ids))
        (λ (t, more) (h, m).
          Ensures-map (λ p. Sound p.0 × Moves t p.0) (λ p. Sound p.0 × Moves s p.0)
            (catch_up_conversations env part started_at now sleep_until session conversations
              (t, more))
            (catch_up_conversations-Ensures session conversations t more h)
            (λ p (g, n). (g, Moves-trans s t p.0 m n)))

from_queue-Ensures :
    (s : State) (r : Result QueueError Pass)
    → Ensures (λ p. Sound p.0 × Moves s p.0) r
    → Ensures (λ p. Sound p.0 × Moves s p.0) (from_queue r)
from_queue-Ensures s (ok p) h = h
from_queue-Ensures s (err e) h = tt

pub finish_startup_catch_up-Ensures :
    (env : Environment) (part : Participations) (rows : List StartupRow) (pending : Option ℕ)
    (started_at now : ℕ) (s : State)
    → Sound s
    → Ensures
        (λ p. Sound p.0 × Moves s p.0)
        (finish_startup_catch_up env part rows pending started_at now s)
unfolding finish_startup_catch_up
finish_startup_catch_up-Ensures env part rows pending started_at now s v =
    let session = filter (in_session started_at) rows in
    let r = active_sleep_until now s.sleep in
    elim (Bool-cases (is_pending started_at pending)) [
      | inl waits ↦
          rw (waits, finish_startup_catch_up)
            (from_queue-Ensures s
              (catch_up_conversations env part started_at now r.1 session
                (triggered_conversations part session) (record s { sleep = r.0 }, []))
              (catch_up_conversations-Ensures env part started_at now r.1 session
                (triggered_conversations part session) (record s { sleep = r.0 }) [] v))
      | inr changed ↦ rw (changed, finish_startup_catch_up) tt
    ]
