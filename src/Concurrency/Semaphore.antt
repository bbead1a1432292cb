-- ===== src/Concurrency/Semaphore.antt =====
-- `AsyncSemaphore` (src/platform/concurrency.ts). A promise that is resolved or rejected later is
-- named by the sequence number of its waiter; an operation returns the new semaphore with what it
-- did to promises. A signal is a number, and whether it is aborted is an argument: the flag of an
-- `AbortSignal` is set before its listeners run, so a release can meet an aborted waiter.
use plastic_wan.Base.{
  ℕ, ◌+◌, ◌-◌, Bool, true, false, ◌&&◌, ◌||◌, Option, none, some, List, [], ◌∷◌, ◌++◌, ltb, leb,
  ◌==◌, if◌then◌else◌, sort,
}

pub record Waiter : Type 0 where
  pub signal : ℕ
  pub priority : ℕ
  pub sequence : ℕ

pub record Semaphore : Type 0 where
  pub limit : ℕ
  pub waiters : List Waiter
  pub active : ℕ
  pub sequence : ℕ

-- The constructor: none is its error.
unfoldable pub new : ℕ → Option Semaphore
new limit =
    if ltb limit 1
    then none
    else some (record { limit = limit; waiters = []; active = 0; sequence = 0 })

-- The comparison of the sort: not after.
unfoldable pub before : Waiter → Waiter → Bool
before l r = ltb l.priority r.priority || (l.priority == r.priority && leb l.sequence r.sequence)

pub data Acquired : Type 0 where
  refused granted : Acquired
  queued : ℕ → Acquired

unfoldable pub acquire : Bool → ℕ → ℕ → Semaphore → Semaphore × Acquired
acquire aborted signal priority s =
    let w : Waiter = record { signal = signal; priority = priority; sequence = s.sequence } in
    if aborted
    then (s, refused)
    else if ltb s.active s.limit
    then (record s { active = s.active + 1 }, granted)
    else (
      record s { waiters = sort before (s.waiters ++ w ∷ []); sequence = s.sequence + 1 },
      queued s.sequence,
    )

-- The loop of `#release`: the first waiter whose signal is not aborted, with those behind it.
unfoldable pub next_waiter : (ℕ → Bool) → List Waiter → Option (Waiter × List Waiter)
next_waiter aborted [] = none
next_waiter aborted (w ∷ ws) =
    let rest = next_waiter aborted ws in if aborted w.signal then rest else some (w, ws)

-- Whether `#notifyIdle` calls the idle callback.
unfoldable pub is_idle : Semaphore → Bool
is_idle s = s.active == 0 && empty s.waiters
  where
    empty : List Waiter → Bool
    empty [] = true
    empty (_ ∷ _) = false

pub data Released : Type 0 where
  handed : Waiter → Released
  freed : (notified : Bool) → Released

-- A release closure is called once by its holder, so `active` is positive and the subtraction exact.
unfoldable pub release : (ℕ → Bool) → Semaphore → Semaphore × Released
release aborted s = elim (next_waiter aborted s.waiters) [
  | some (w, ws) ↦ (record s { waiters = ws }, handed w)
  | none ↦
      let s' : Semaphore = record s { waiters = []; active = s.active - 1 } in
      (s', freed (is_idle s'))
]

unfoldable pub remove_waiter : ℕ → List Waiter → List Waiter
remove_waiter sequence [] = []
remove_waiter sequence (w ∷ ws) =
    let rest = w ∷ remove_waiter sequence ws in if w.sequence == sequence then ws else rest

-- The abort listener of one waiter; the flag says whether the idle callback ran.
unfoldable pub on_abort : ℕ → Semaphore → Semaphore × Bool
on_abort sequence s =
    let s' : Semaphore = record s { waiters = remove_waiter sequence s.waiters } in (s', is_idle s')
