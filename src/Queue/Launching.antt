-- ===== src/Queue/Launching.antt =====
-- The clearing and the launch of queued invocations keep the queue sound.
use plastic_wan.Base.{
  ℕ, zero, suc, ◌≡◌, refl, subst, true, false, ◌&&◌, inl, inr, some, List, [], ◌∷◌, ◌++◌, leb,
  is_some, any, length, filter, sort, All, All-sort, Table, lookup, count_keyed, Bool-cases,
  Option-cases, ==_iff, arith,
}
use plastic_wan.Sleep.State.{active_sleep_until}
use plastic_wan.Queue.Tables.{Invocation, State, Environment}
use plastic_wan.Queue.Insert.{
  is_queued_bucket, is_queued, is_running, chat_of, in_chat, chat_running, start_bucket,
}
use plastic_wan.Queue.Clearing.{suppress_invalid_queued_receipts}
use plastic_wan.Queue.Dropping.{suppress_invalid-Sound, skip_queued-Sound}
use plastic_wan.Queue.Scheduler.{
  is_chat_idle, is_candidate, receipts_first, first_row, candidate, start_invocation, launch,
  clear_queued, launch_queued,
}
use plastic_wan.Queue.Keys.{All-lookup-filter}
use plastic_wan.Queue.Counting.{count_keyed_none}
use plastic_wan.Queue.Sound.{in_chat_of, runs_in, Sound}
use plastic_wan.Queue.Starting.{launch-IsSound}

-- A chat that is idle counts no running invocation.
idle-none :
    (s : State) (conversation_id chat_id : ℕ)
    → is_chat_idle s conversation_id ≡ true
    → in_chat_of s.conversations chat_id conversation_id ≡ true
    → count_keyed (runs_in s.conversations chat_id) s.invocations ≡ 0
unfolding is_chat_idle chat_of chat_running runs_in is_running
idle-none s conversation_id chat_id idle here =
    count_keyed_none (runs_in s.conversations chat_id) s.invocations (
      none_runs s.invocations (elim (Option-cases (lookup conversation_id s.conversations)) [
        | inl e ↦ ground arith
        | inr (v, e) ↦ ground (arith, ==_iff v.chat_id chat_id)
      ]))
  where
    none_runs :
        (rows : Table Invocation)
        → any (λ row. in_chat s chat_id row.1 && is_running row.1.state) rows ≡ false
        → any (λ row. runs_in s.conversations chat_id row.0 row.1) rows ≡ false
    none_runs [] h = refl
    none_runs ((j, i) ∷ rows) h = ground (arith, none_runs rows)

first_row-All :
    (P : ℕ × Invocation → Type 0) (rows : List (ℕ × Invocation)) (row : ℕ × Invocation)
    → All P rows
    → first_row rows ≡ some row
    → P row
first_row-All P [] row h e = cc
first_row-All P (r ∷ rows) row (h, hs) e = let same : r ≡ row = cc in subst P same h

candidate-row :
    (now : ℕ) (s : State) (row : ℕ × Invocation)
    → Sound s
    → candidate now s ≡ some row
    → (lookup row.0 s.invocations ≡ some row.1) × (is_candidate now s row ≡ true)
unfolding candidate
candidate-row now s row v e =
    first_row-All (λ r. (lookup r.0 s.invocations ≡ some r.1) × (is_candidate now s r ≡ true))
      (sort (receipts_first s) (filter (is_candidate now s) s.invocations)) row
      (All-sort (receipts_first s) _ (filter (is_candidate now s) s.invocations)
        (All-lookup-filter (is_candidate now s) s.invocations v.distinct))
      e

launch-Sound :
    (env : Environment) (now : ℕ) (row : ℕ × Invocation) (s : State)
    → candidate now s ≡ some row
    → Sound s
    → Sound (launch env now row s)
unfolding launch start_invocation start_bucket is_candidate is_queued is_running is_queued_bucket
launch-Sound env now (id, i) s e v =
    let (found, passes) = candidate-row now s (id, i) v e in
    let queued : is_queued i.state ≡ true = ground arith in
    let idle : is_chat_idle s i.conversation_id ≡ true = ground arith in
    launch-IsSound s.conversations s.buckets s.invocations s.joins id i
      (start_invocation env.config_hash now) (start_bucket now) found queued (ground arith) refl
      refl (λ r. refl) (λ c here. idle-none s i.conversation_id c idle here) v

clear_queued-Sound :
    (env : Environment) (now : ℕ) (s : State) → Sound s → Sound (clear_queued env now s)
unfolding clear_queued
clear_queued-Sound env now s v =
    let cleared = suppress_invalid_queued_receipts env now s in
    let woken = active_sleep_until now cleared.sleep in
    let awake = record cleared { sleep = woken.0 } in
    let sound = suppress_invalid-Sound env now s v in
    elim (Bool-cases (is_some woken.1)) [
      | inl asleep ↦ rw (asleep, clear_queued) (skip_queued-Sound env now awake sound)
      | inr up ↦ rw (up, clear_queued) sound
    ]

pub launch_queued-Sound :
    (env : Environment) (clock : ℕ → ℕ) (fuel : ℕ) (s : State) (active : List ℕ)
    → Sound s
    → Sound (launch_queued env clock fuel (s, active)).0
unfolding launch_queued
launch_queued-Sound env clock zero s active v = v
launch_queued-Sound env clock (suc fuel) s active v =
    let cleared = clear_queued env (clock (length active)) s in
    let sound = clear_queued-Sound env (clock (length active)) s v in
    elim (Bool-cases (leb env.max_concurrency (length active))) [
      | inl full ↦ rw (full, launch_queued) sound
      | inr room ↦ elim (Option-cases (candidate (clock (length active)) cleared)) [
        | inl idle ↦ rw (room, idle, launch_queued) sound
        | inr (row, e) ↦
            rw (room, e, launch_queued)
              (launch_queued-Sound env clock fuel (launch env (clock (length active)) row cleared)
                (active ++ row.0 ∷ [])
                (launch-Sound env (clock (length active)) row cleared e sound))
      ]
    ]
