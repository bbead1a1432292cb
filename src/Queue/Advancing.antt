-- ===== src/Queue/Advancing.antt =====
-- Clearings, launches, deliveries and `processDue` take no bucket and no invocation to another
-- conversation.
use Prim.Native.String.{String}
use plastic_wan.Base.{
  ℕ, zero, suc, ◌≡◌, refl, true, ◌⊎◌, inl, inr, none, some, List, [], ◌∷◌, ◌++◌, leb, is_some,
  length, lookup, modify, lookup-modify, matches, Bool-cases, Option-cases, arith,
}
use plastic_wan.Sleep.State.{active_sleep_until}
use plastic_wan.Queue.Tables.{Invocation, State, Environment}
use plastic_wan.Queue.Insert.{close_bucket, close_invocation, start_bucket}
use plastic_wan.Queue.Receipts.{ReceiptRow, receipt_cancel_reason}
use plastic_wan.Queue.Clearing.{
  end_queued, suppress_claimed, suppress_row, suppress_rows, claimed_rows,
  suppress_invalid_queued_receipts, handle_claimed, skip_row, skip_rows, sleeping_rows,
  skip_queued_invocations,
}
use plastic_wan.Queue.Scheduler.{candidate, start_invocation, launch, clear_queued, launch_queued}
use plastic_wan.Queue.Placing.{is_at, Moves, Moves-refl, Moves-trans, write_both-Places}

suppress_rows-Moves :
    (env : Environment) (now : ℕ) (rows : List (ReceiptRow × (ℕ × Invocation))) (s : State)
    → Moves s (suppress_rows env now rows s)
unfolding suppress_rows suppress_row suppress_claimed end_queued close_bucket close_invocation
suppress_rows-Moves env now [] s = Moves-refl s
suppress_rows-Moves env now ((q, (id, i)) ∷ rows) s =
    Moves-trans s (suppress_row env now (q, (id, i)) s)
      (suppress_rows env now rows (suppress_row env now (q, (id, i)) s))
      (one (Option-cases (receipt_cancel_reason env q s)))
      (suppress_rows-Moves env now rows (suppress_row env now (q, (id, i)) s))
  where
    one :
        (receipt_cancel_reason env q s ≡ none)
          ⊎ ((reason : String) × (receipt_cancel_reason env q s ≡ some reason))
        → Moves s (suppress_row env now (q, (id, i)) s)
    one (inl e) = rw (e, suppress_row) (Moves-refl s)
    one (inr (reason, e)) =
        rw (e, suppress_row)
          (write_both-Places s.buckets s.invocations _ _ _ _ (λ r. refl) (λ j. (refl, refl)))

skip_rows-Moves :
    (now : ℕ) (rows : List (ℕ × Invocation)) (s : State) → Moves s (skip_rows now rows s)
unfolding skip_rows skip_row handle_claimed close_bucket close_invocation
skip_rows-Moves now [] s = Moves-refl s
skip_rows-Moves now ((id, i) ∷ rows) s =
    Moves-trans s (skip_row now (id, i) s) (skip_rows now rows (skip_row now (id, i) s))
      (write_both-Places s.buckets s.invocations _ _ _ _ (λ r. refl) (λ j. (refl, refl)))
      (skip_rows-Moves now rows (skip_row now (id, i) s))

clear_queued-Moves : (env : Environment) (now : ℕ) (s : State) → Moves s (clear_queued env now s)
unfolding clear_queued suppress_invalid_queued_receipts skip_queued_invocations
clear_queued-Moves env now s =
    let cleared = suppress_invalid_queued_receipts env now s in
    let woken = active_sleep_until now cleared.sleep in
    let awake = record cleared { sleep = woken.0 } in
    let m = suppress_rows-Moves env now (claimed_rows env s s.service.receipts) s in
    elim (Bool-cases (is_some woken.1)) [
      | inl asleep ↦
          rw (asleep, clear_queued)
            (Moves-trans s awake (skip_rows now (sleeping_rows env awake) awake) m
              (skip_rows-Moves now (sleeping_rows env awake) awake))
      | inr up ↦ rw (up, clear_queued) m
    ]

launch-Moves :
    (env : Environment) (now : ℕ) (row : ℕ × Invocation) (s : State)
    → Moves s (launch env now row s)
unfolding launch start_invocation start_bucket is_at matches
launch-Moves env now (id, i) s = record {
  keeps = keeps;
  placed = λ v j k e. elim (Option-cases (lookup j s.invocations)) [
    | inl lost ↦
        ground (arith, lookup-modify j id (start_invocation env.config_hash now) s.invocations)
    | inr (r, here) ↦ ground (
      arith,
      lookup-modify j id (start_invocation env.config_hash now) s.invocations,
      v j r here,
      keeps k.bucket_id k.conversation_id,
    )
  ];
}
  where
    keeps :
        (b c : ℕ)
        → is_at b c s.buckets ≡ true
        → is_at b c (modify i.bucket_id (start_bucket now) s.buckets) ≡ true
    keeps b c h = elim (Option-cases (lookup b s.buckets)) [
      | inl lost ↦ ground (arith, lookup-modify b i.bucket_id (start_bucket now) s.buckets)
      | inr (r, here) ↦ ground (arith, lookup-modify b i.bucket_id (start_bucket now) s.buckets)
    ]

pub launch_queued-Moves :
    (env : Environment) (clock : ℕ → ℕ) (fuel : ℕ) (s : State) (active : List ℕ)
    → Moves s (launch_queued env clock fuel (s, active)).0
unfolding launch_queued
launch_queued-Moves env clock zero s active = Moves-refl s
launch_queued-Moves env clock (suc fuel) s active =
    let now = clock (length active) in
    let cleared = clear_queued env now s in
    let m = clear_queued-Moves env now s in
    elim (Bool-cases (leb env.max_concurrency (length active))) [
      | inl full ↦ rw (full, launch_queued) m
      | inr room ↦ elim (Option-cases (candidate now cleared)) [
        | inl idle ↦ rw (room, idle, launch_queued) m
        | inr (row, e) ↦
            rw (room, e, launch_queued)
              (let last =
                  (launch_queued env clock fuel
                    (launch env now row cleared, active ++ row.0 ∷ [])).0 in
                Moves-trans s cleared last m (
                  Moves-trans cleared (launch env now row cleared) last
                    (launch-Moves env now row cleared)
                    (launch_queued-Moves env clock fuel (launch env now row cleared)
                      (active ++ row.0 ∷ []))))
      ]
    ]
