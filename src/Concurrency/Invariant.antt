-- ===== src/Concurrency/Invariant.antt =====
-- A semaphore with the permits that its users hold, under any interleaving of acquires, aborts and
-- releases: the limit holds, the queue is ordered, and nobody waits while a permit is free.
use plastic_wan.Base.{
  ℕ, ◌+◌, ◌-◌, ◌≤◌, ◌<◌, ◌≡◌, ◌≢◌, refl, Bool, true, false, inl, inr, none, some, List, [], ◌∷◌,
  ◌++◌, ◌==◌, if◌then◌else◌, Bool-cases, Option-cases, sort, All, All-append, All-sort, IsOrdered,
  sort-IsOrdered, IsOrdered-append_right, All-append_right, ap, sym, ◌∙◌, dec_lt, arith,
}
use plastic_wan.Concurrency.Semaphore.{
  Waiter, Semaphore, Acquired, refused, granted, queued, Released, handed, freed, new, before,
  acquire, next_waiter, release, remove_waiter, on_abort, is_idle,
}

pub record System : Type 0 where
  pub semaphore : Semaphore
  -- release closures that were handed out and not called yet
  pub held : ℕ

pub data Action : Type 0 where
  acquires : (aborted : Bool) (signal priority : ℕ) → Action
  aborts : (sequence : ℕ) → Action
  releases : (aborted : ℕ → Bool) → Action

after_acquire : ℕ → Semaphore × Acquired → System
after_acquire held (s, granted) = record { semaphore = s; held = held + 1 }
after_acquire held (s, _) = record { semaphore = s; held = held }

-- The holder gives up its permit, and a waiter that is handed it holds it.
after_release : ℕ → Semaphore × Released → System
after_release held (s, handed w) = record { semaphore = s; held = held }
after_release held (s, freed b) = record { semaphore = s; held = held - 1 }

unfoldable pub step : System → Action → System
unfolding after_acquire after_release
step y (acquires aborted signal priority) =
    after_acquire y.held (acquire aborted signal priority y.semaphore)
step y (aborts sequence) = record y { semaphore = (on_abort sequence y.semaphore).0 }
step y (releases aborted) =
    if y.held == 0 then y else after_release y.held (release aborted y.semaphore)

unfoldable pub run : System → List Action → System
run y [] = y
run y (a ∷ as') = run (step y a) as'

pub record IsValid (y : System) : Type 0 where
  pub positive : 0 < y.semaphore.limit
  pub bounded : y.semaphore.active ≤ y.semaphore.limit
  pub counted : y.held ≡ y.semaphore.active
  pub busy : y.semaphore.waiters ≢ [] → y.semaphore.active ≡ y.semaphore.limit
  pub ordered : IsOrdered before y.semaphore.waiters
  pub numbered : All (λ w. w.sequence < y.semaphore.sequence) y.semaphore.waiters

before_total : (x y : Waiter) → before x y ≡ false → before y x ≡ true
unfolding before
before_total x y h = ground arith

before_trans : (x y z : Waiter) → before x y ≡ true → before y z ≡ true → before x z ≡ true
unfolding before
before_trans x y z h k = ground arith

All-remove_waiter :
    (P : Waiter → Type 0) (n : ℕ) (ws : List Waiter) → All P ws → All P (remove_waiter n ws)
unfolding remove_waiter
All-remove_waiter P n [] h = tt
All-remove_waiter P n (w ∷ ws) (h, hs) = elim (Bool-cases (w.sequence == n)) [
  | inl e ↦ rw e hs
  | inr e ↦ rw e (h, All-remove_waiter P n ws hs)
]

remove_waiter-IsOrdered :
    (n : ℕ) (ws : List Waiter) → IsOrdered before ws → IsOrdered before (remove_waiter n ws)
unfolding remove_waiter
remove_waiter-IsOrdered n [] h = tt
remove_waiter-IsOrdered n (w ∷ ws) (h, hs) = elim (Bool-cases (w.sequence == n)) [
  | inl e ↦ rw e hs
  | inr e ↦
      rw e (All-remove_waiter (λ v. before w v ≡ true) n ws h, remove_waiter-IsOrdered n ws hs)
]

remove_waiter-nil : (n : ℕ) → remove_waiter n [] ≡ []
unfolding remove_waiter
remove_waiter-nil n = refl

append-ne-nil : (xs : List Waiter) (w : Waiter) (ys : List Waiter) → xs ++ w ∷ ys ≡ [] → ⊥
append-ne-nil [] w ys e = cc
append-ne-nil (x ∷ xs) w ys e = cc

abbrev pub IsAborted : (ℕ → Bool) → Waiter → Type 0
IsAborted aborted w = aborted w.signal ≡ true

-- The next waiter is the first whose signal is not aborted.
pub next_waiter-some :
    (aborted : ℕ → Bool) (ws : List Waiter) {w : Waiter} {rest : List Waiter}
    → next_waiter aborted ws ≡ some (w, rest)
    → (skipped : List Waiter) × (ws ≡ skipped ++ w ∷ rest)
      × All (IsAborted aborted) skipped
      × (aborted w.signal ≡ false)
unfolding next_waiter
next_waiter-some aborted [] e = cc
next_waiter-some aborted (v ∷ vs) e = elim (Bool-cases (aborted v.signal)) [
  | inl skip ↦
      let (skipped, split, all, live) = next_waiter-some aborted vs (rw skip at e) in
      (v ∷ skipped, ap (λ l. v ∷ l) split, (skip, all), live)
  | inr live ↦ ([], ground arith, tt, ground arith)
]

pub next_waiter-none :
    (aborted : ℕ → Bool) (ws : List Waiter)
    → next_waiter aborted ws ≡ none
    → All (IsAborted aborted) ws
unfolding next_waiter
next_waiter-none aborted [] e = tt
next_waiter-none aborted (v ∷ vs) e = elim (Bool-cases (aborted v.signal)) [
  | inl skip ↦ (skip, next_waiter-none aborted vs (rw skip at e))
  | inr live ↦ cc (rw live at e)
]

fresh-IsValid :
    (limit : ℕ)
    → 0 < limit
    → IsValid (record {
      semaphore = record { limit = limit; waiters = []; active = 0; sequence = 0 };
      held = 0;
    })
fresh-IsValid limit h = record {
  positive = h;
  bounded = omega arith;
  counted = refl;
  busy = λ e. absurd (e refl);
  ordered = tt;
  numbered = tt;
}

-- A new semaphore, with no permit held, is valid.
pub new-IsValid :
    (limit : ℕ) (s : Semaphore) → new limit ≡ some s → IsValid (record { semaphore = s; held = 0 })
unfolding new
new-IsValid limit s e =
    let positive : 0 < limit = ground arith in
    let same : record { limit = limit; waiters = []; active = 0; sequence = 0 } ≡ s =
      ground arith in
    rw (← same) (fresh-IsValid limit positive)

All-lt_suc :
    (n : ℕ) (ws : List Waiter) → All (λ w. w.sequence < n) ws → All (λ w. w.sequence < n + 1) ws
All-lt_suc n [] h = tt
All-lt_suc n (w ∷ ws) (h, hs) = (omega arith, All-lt_suc n ws hs)

-- A full semaphore queues the waiter.
enqueue-IsValid :
    (y : System) (w : Waiter)
    → IsValid y
    → y.semaphore.limit ≤ y.semaphore.active
    → w.sequence ≡ y.semaphore.sequence
    → IsValid (record y {
      semaphore = record (y.semaphore) {
        waiters = sort before (y.semaphore.waiters ++ w ∷ []);
        sequence = y.semaphore.sequence + 1;
      };
    })
enqueue-IsValid y w v full n = record {
  positive = v.positive;
  bounded = v.bounded;
  counted = v.counted;
  busy = λ e. ground (arith, v.bounded);
  ordered = sort-IsOrdered before before_total before_trans (y.semaphore.waiters ++ w ∷ []);
  numbered =
      All-sort before (λ x. x.sequence < y.semaphore.sequence + 1) (y.semaphore.waiters ++ w ∷ [])
        (All-append (λ x. x.sequence < y.semaphore.sequence + 1) y.semaphore.waiters (w ∷ [])
          (All-lt_suc y.semaphore.sequence y.semaphore.waiters v.numbered) (omega arith, tt));
}

-- A permit is free only when nobody waits.
free_no_waiters :
    (y : System) → IsValid y → y.semaphore.active < y.semaphore.limit → y.semaphore.waiters ≢ [] → ⊥
free_no_waiters y v free e = let full = v.busy e in omega arith

grant-IsValid :
    (y : System)
    → IsValid y
    → y.semaphore.active < y.semaphore.limit
    → IsValid (record y {
      semaphore = record (y.semaphore) { active = y.semaphore.active + 1 };
      held = y.held + 1;
    })
grant-IsValid y v free = record {
  positive = v.positive;
  bounded = omega arith;
  counted = omega (arith, v.counted);
  busy = λ e. absurd (free_no_waiters y v free e);
  ordered = v.ordered;
  numbered = v.numbered;
}

module _ (signal priority : ℕ) (s : Semaphore) where
  abbrev waiter_of : Waiter
  waiter_of = record { signal = signal; priority = priority; sequence = s.sequence }

  pub acquire_aborted : acquire true signal priority s ≡ (s, refused)
  unfolding acquire
  acquire_aborted = refl

  pub acquire_free :
      s.active < s.limit
      → acquire false signal priority s ≡ (record s { active = s.active + 1 }, granted)
  unfolding acquire
  acquire_free h = ground arith

  pub acquire_full :
      s.limit ≤ s.active
      → acquire false signal priority s ≡ (
        record s { waiters = sort before (s.waiters ++ waiter_of ∷ []); sequence = s.sequence + 1 },
        queued s.sequence,
      )
  unfolding acquire
  acquire_full h = ground arith

acquire-IsValid :
    (aborted : Bool) (signal priority : ℕ) (y : System)
    → IsValid y
    → IsValid (after_acquire y.held (acquire aborted signal priority y.semaphore))
unfolding after_acquire
acquire-IsValid true signal priority y v = rw (acquire_aborted signal priority y.semaphore) v
acquire-IsValid false signal priority y v = elim (dec_lt y.semaphore.active y.semaphore.limit) [
  | yes free ↦ rw (acquire_free signal priority y.semaphore free) (grant-IsValid y v free)
  | no full ↦
      rw (acquire_full signal priority y.semaphore (omega arith))
        (enqueue-IsValid y (waiter_of signal priority y.semaphore) v (omega arith) refl)
]

on_abort-IsValid :
    (n : ℕ) (y : System) → IsValid y → IsValid (record y { semaphore = (on_abort n y.semaphore).0 })
unfolding on_abort
on_abort-IsValid n y v = record {
  positive = v.positive;
  bounded = v.bounded;
  counted = v.counted;
  busy = λ h. v.busy (λ e. h (rw e (remove_waiter-nil n)));
  ordered = remove_waiter-IsOrdered n y.semaphore.waiters v.ordered;
  numbered =
      All-remove_waiter (λ w. w.sequence < y.semaphore.sequence) n y.semaphore.waiters v.numbered;
}

-- The held permit passes to the next waiter.
hand-IsValid :
    (y : System) (skipped : List Waiter) (w : Waiter) (rest : List Waiter)
    → IsValid y
    → y.semaphore.waiters ≡ skipped ++ w ∷ rest
    → IsValid (record y { semaphore = record (y.semaphore) { waiters = rest } })
hand-IsValid y skipped w rest v split = record {
  positive = v.positive;
  bounded = v.bounded;
  counted = v.counted;
  busy = λ e. v.busy (λ none_left. append-ne-nil skipped w rest (sym split ∙ none_left));
  ordered = (IsOrdered-append_right before skipped (w ∷ rest) (rw split at v.ordered)).1;
  numbered =
      (All-append_right (λ x. x.sequence < y.semaphore.sequence) skipped (w ∷ rest)
        (rw split at v.numbered)).1;
}

-- With no live waiter the permit is freed.
free-IsValid :
    (y : System)
    → IsValid y
    → IsValid (record y {
      semaphore = record (y.semaphore) { waiters = []; active = y.semaphore.active - 1 };
      held = y.held - 1;
    })
free-IsValid y v = record {
  positive = v.positive;
  bounded = omega (arith, v.bounded);
  counted = omega (arith, v.counted);
  busy = λ e. absurd (e refl);
  ordered = tt;
  numbered = tt;
}

module _ (aborted : ℕ → Bool) (s : Semaphore) where
  pub release-none :
      next_waiter aborted s.waiters ≡ none
      → (b : Bool) × (release aborted s
          ≡ (record s { waiters = []; active = s.active - 1 }, freed b))
  unfolding release
  release-none e = (is_idle (record s { waiters = []; active = s.active - 1 }), ground arith)

  pub release-some :
      {w : Waiter} {rest : List Waiter}
      → next_waiter aborted s.waiters ≡ some (w, rest)
      → release aborted s ≡ (record s { waiters = rest }, handed w)
  unfolding release
  release-some e = ground arith

release-IsValid :
    (aborted : ℕ → Bool) (y : System)
    → IsValid y
    → IsValid (after_release y.held (release aborted y.semaphore))
unfolding after_release
release-IsValid aborted y v = elim (Option-cases (next_waiter aborted y.semaphore.waiters)) [
  | inl e ↦ rw ((release-none aborted y.semaphore e).1) (free-IsValid y v)
  | inr ((w, rest), e) ↦
      let (skipped, split, all, live) = next_waiter-some aborted y.semaphore.waiters e in
      rw (release-some aborted y.semaphore e) (hand-IsValid y skipped w rest v split)
]

-- Every action keeps the semaphore valid: no more permits are held than the limit, `active` counts
-- the held ones, the queue is ordered by priority and arrival, and nobody waits while a permit is
-- free.
pub step-IsValid : (y : System) (a : Action) → IsValid y → IsValid (step y a)
unfolding step
step-IsValid y (acquires aborted signal priority) v = acquire-IsValid aborted signal priority y v
step-IsValid y (aborts n) v = on_abort-IsValid n y v
step-IsValid y (releases aborted) v = elim (Bool-cases (y.held == 0)) [
  | inl e ↦ rw e v
  | inr e ↦ rw e (release-IsValid aborted y v)
]

-- Any sequence of acquires, aborts and releases keeps a valid system valid: the held permits are
-- those that `active` counts and are no more than the positive limit, the queue is ordered by
-- priority and arrival, its numbers were given out, and nobody waits while a permit is free.
pub run-IsValid : (y : System) (as' : List Action) → IsValid y → IsValid (run y as')
unfolding run
run-IsValid y [] v = v
run-IsValid y (a ∷ as') v = run-IsValid (step y a) as' (step-IsValid y a v)
