-- ===== src/Queue/Bounds.antt =====
-- `#launchQueued` ends, within the configured concurrency.
use plastic_wan.Base.{
  ℕ, zero, suc, ◌≤◌, max, inl, inr, List, [], ◌∷◌, ◌++◌, leb, length, length-append, Bool-cases,
  Option-cases, arith,
}
use plastic_wan.Queue.Tables.{State, Environment}
use plastic_wan.Queue.Scheduler.{candidate, launch, clear_queued, launch_queued}

-- `#launchQueued` leaves at most `max_concurrency` runs in the process, or as many as there were
-- where the configuration has been lowered below that.
pub length-launch_queued :
    (env : Environment) (clock : ℕ → ℕ) (fuel : ℕ) (s : State) (active : List ℕ)
    → length (launch_queued env clock fuel (s, active)).1 ≤ max env.max_concurrency (length active)
unfolding launch_queued
length-launch_queued env clock zero s active = omega arith
length-launch_queued env clock (suc fuel) s active =
    let cleared = clear_queued env (clock (length active)) s in
    elim (Bool-cases (leb env.max_concurrency (length active))) [
      | inl full ↦ rw (full, launch_queued) (omega arith)
      | inr room ↦ elim (Option-cases (candidate (clock (length active)) cleared)) [
        | inl idle ↦ rw (room, idle, launch_queued) (omega arith)
        | inr (row, e) ↦
            rw (room, e, launch_queued)
              (ground (
                arith,
                length-append active (row.0 ∷ []),
                length-launch_queued env clock fuel (launch env (clock (length active)) row cleared)
                    (active ++ row.0 ∷ []),
              ))
      ]
    ]
