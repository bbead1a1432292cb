-- ===== src/Concurrency/Tests.antt =====
-- A semaphore of one permit with three waiters.
use plastic_wan.Base.{
  ℕ, ◌-◌, ◌≡◌, refl, Bool, true, false, ◌⊎◌, none, some, List, [], ◌∷◌, ◌++◌, ◌==◌, All, sort,
}
use plastic_wan.Concurrency.Semaphore.{Waiter, Semaphore, handed, new, before, release, acquire}
use plastic_wan.Concurrency.Invariant.{
  System, Action, acquires, IsValid, IsAborted, step, run, new-IsValid, run-IsValid,
}
use plastic_wan.Concurrency.Fairness.{release-serves}

abbrev idle_one : Semaphore
idle_one = record { limit = 1; waiters = []; active = 0; sequence = 0 }

new_one : new 1 ≡ some idle_one
unfolding new
new_one = refl

no_limit : new 0 ≡ none
unfolding new
no_limit = refl

abbrev idle_system : System
idle_system = record { semaphore = idle_one; held = 0 }

-- The third caller is aborted at once; the second waiter has the better priority, and is aborted.
abbrev schedule : List Action
schedule =
    acquires false 1 0
    ∷ acquires false 2 1
    ∷ acquires true 9 0
    ∷ acquires false 3 0
    ∷ acquires false 4 0
    ∷ []

abbrev only_three : ℕ → Bool
only_three n = n == 3

run-IsValid_example : IsValid (run idle_system schedule)
run-IsValid_example = run-IsValid idle_system schedule (new-IsValid 1 idle_one new_one)

abbrev waiter : ℕ → ℕ → ℕ → Waiter
waiter signal priority sequence = record {
  signal = signal;
  priority = priority;
  sequence = sequence;
}

abbrev busy_system : System
busy_system = record {
  semaphore = record {
    limit = 1;
    waiters = waiter 3 0 1 ∷ waiter 4 0 2 ∷ waiter 2 1 0 ∷ [];
    active = 1;
    sequence = 3;
  };
  held = 1;
}

schedule_leads : run idle_system schedule ≡ busy_system
unfolding run step acquire sort before
schedule_leads = refl

busy-IsValid : IsValid busy_system
busy-IsValid = rw schedule_leads at run-IsValid_example

release-serves_example :
    ((skipped : List Waiter) × (rest : List Waiter) × (w : Waiter) × (release only_three
          busy_system.semaphore
        ≡ (record (busy_system.semaphore) { waiters = rest }, handed w))
      × (busy_system.semaphore.waiters ≡ skipped ++ w ∷ rest)
      × All (IsAborted only_three) skipped
      × (only_three w.signal ≡ false)
      × All (λ v. before w v ≡ true) rest)
    ⊎ (All (IsAborted only_three) busy_system.semaphore.waiters
        × ((release only_three busy_system.semaphore).0 ≡ record (busy_system.semaphore) {
          waiters = [];
          active = busy_system.semaphore.active - 1;
        }))
release-serves_example = release-serves only_three busy_system busy-IsValid
