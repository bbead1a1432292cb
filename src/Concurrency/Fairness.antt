-- ===== src/Concurrency/Fairness.antt =====
-- Which waiter a release serves, and what an abort removes.
use plastic_wan.Base.{
  ℕ, ◌-◌, ◌≡◌, Bool, true, false, ◌⊎◌, inl, inr, List, [], ◌∷◌, ◌++◌, Option-cases, All,
  IsOrdered-append_right, ap,
}
use plastic_wan.Concurrency.Semaphore.{Waiter, handed, before, next_waiter, release}
use plastic_wan.Concurrency.Invariant.{
  System, IsValid, IsAborted, next_waiter-some, next_waiter-none, release-some, release-none,
}

-- A release of a valid semaphore serves the queue in order. Either it hands the permit to a waiter
-- whose signal is not aborted: all that stood before it were aborted, it comes before all that stay,
-- and `active` does not change; or every waiter was aborted, the queue is empty, and `active` falls
-- by one.
pub release-serves :
    (aborted : ℕ → Bool) (y : System)
    → IsValid y
    → ((skipped : List Waiter) × (rest : List Waiter) × (w : Waiter) × (release aborted y.semaphore
          ≡ (record (y.semaphore) { waiters = rest }, handed w))
        × (y.semaphore.waiters ≡ skipped ++ w ∷ rest)
        × All (IsAborted aborted) skipped
        × (aborted w.signal ≡ false)
        × All (λ v. before w v ≡ true) rest)
      ⊎ (All (IsAborted aborted) y.semaphore.waiters
          × ((release aborted y.semaphore).0
              ≡ record (y.semaphore) { waiters = []; active = y.semaphore.active - 1 }))
release-serves aborted y v = elim (Option-cases (next_waiter aborted y.semaphore.waiters)) [
  | inl e ↦ inr (
    next_waiter-none aborted y.semaphore.waiters e,
    ap (λ x. x.0) ((release-none aborted y.semaphore e).1),
  )
  | inr ((w, rest), e) ↦
      let (skipped, split, all, live) = next_waiter-some aborted y.semaphore.waiters e in
      inl (
        skipped,
        rest,
        w,
        release-some aborted y.semaphore e,
        split,
        all,
        live,
        (IsOrdered-append_right before skipped (w ∷ rest) (rw split at v.ordered)).0,
      )
]
