-- ===== src/Conversation/Injections.antt =====
-- How queued buckets are handed to a running invocation.
use plastic_wan.Base.{
  ℕ, ◌+◌, ◌≤◌, ◌<◌, ◌≡◌, refl, Bool, true, not, ◌⊎◌, inl, inr, List, [], ◌∷◌, ◌==◌, if◌then◌else◌,
  is_some, filter, count, length, Table, lookup, lookup-modify, Option-cases, arith,
}
use plastic_wan.Conversation.Runtime.{
  PendingBucket, ConversationState, Runtime, update_known, is_messages, pending_of, set_pending,
  ids, shift, take_next_injections,
}

-- How often an id stands among pending buckets.
abbrev pub occurrences : ℕ → List PendingBucket → ℕ
occurrences i buckets = count (λ j. j == i) (ids buckets)

occurrences-filter :
    (i : ℕ) (p : PendingBucket → Bool) (buckets : List PendingBucket)
    → occurrences i buckets
      ≡ occurrences i (filter p buckets) + occurrences i (filter (λ b. not (p b)) buckets)
occurrences-filter i p [] = refl
occurrences-filter i p (b ∷ buckets) = ground (arith, occurrences-filter i p buckets)

-- What is pending after a write of the queue.
pending_of-set_pending :
    (c : ℕ) (pending : List PendingBucket) (rt : Runtime)
    → pending_of c ((set_pending c pending rt).states)
      ≡ (if is_some (lookup c rt.states) then pending else [])
unfolding pending_of set_pending update_known
pending_of-set_pending c pending rt =
    ground (arith, lookup-modify c c (λ st. record st { pending_buckets = pending }) rt.states)

-- A conversation with pending buckets has a state.
known :
    (c : ℕ) (states : Table ConversationState)
    → (is_some (lookup c states) ≡ true) ⊎ (pending_of c states ≡ [])
unfolding pending_of
known c states = elim (Option-cases (lookup c states)) [
  | inl e ↦ inr (ground arith)
  | inr (st, e) ↦ inl (ground arith)
]

shift-conserves :
    (c i : ℕ) (pending : List PendingBucket) (rt : Runtime)
    → pending_of c rt.states ≡ pending
    → occurrences i pending
      ≡ count (λ j. j == i) ((shift c pending rt).1)
        + occurrences i (pending_of c ((shift c pending rt).0.states))
unfolding shift
shift-conserves c i [] rt e = rw e refl
shift-conserves c i (b ∷ rest) rt e = elim (known c rt.states) [
  | inl k ↦ ground (arith, pending_of-set_pending c rest rt)
  | inr n ↦ cc
]

batch-conserves :
    (c i : ℕ) (rt : Runtime)
    → occurrences i (pending_of c rt.states)
      ≡ occurrences i (filter is_messages (pending_of c rt.states))
        + occurrences i (
            pending_of c (
              (set_pending c
                (filter (λ b. not (is_messages b)) (pending_of c rt.states))
                rt).states))
batch-conserves c i rt =
    let others = filter (λ b. not (is_messages b)) (pending_of c rt.states) in
    let split = occurrences-filter i is_messages (pending_of c rt.states) in
    elim (known c rt.states) [
      | inl k ↦ ground (arith, pending_of-set_pending c others rt, split)
      | inr n ↦ ground (arith, pending_of-set_pending c others rt, split)
    ]

shift-one :
    (c : ℕ) (pending : List PendingBucket) (rt : Runtime) → length ((shift c pending rt).1) ≤ 1
unfolding shift
shift-one c [] rt = omega arith
shift-one c (b ∷ rest) rt = omega arith

-- `takeNextInjections` neither loses nor repeats a bucket: each id stands among the taken ones and
-- those still pending as often as it stood among the pending ones before.
pub take_next_injections-conserves :
    (c i : ℕ) (include_completion : Bool) (rt : Runtime)
    → occurrences i (pending_of c rt.states)
      ≡ count (λ j. j == i) ((take_next_injections c include_completion rt).1)
        + occurrences i (pending_of c ((take_next_injections c include_completion rt).0.states))
unfolding take_next_injections
take_next_injections-conserves c i include_completion rt =
    ground (arith, batch-conserves c i rt, shift-conserves c i (pending_of c rt.states) rt refl)

-- What `takeNextInjections` returns is either all pending message buckets, at least one, in their
-- order; or, where none is pending and completions are asked for, at most one bucket; or nothing.
pub take_next_injections-alone :
    (c : ℕ) (include_completion : Bool) (rt : Runtime)
    → let batch = filter is_messages (pending_of c rt.states) in
      let taken = (take_next_injections c include_completion rt).1 in
      ((0 < length batch) × (taken ≡ ids batch))
      ⊎ ((batch ≡ []) × (include_completion ≡ true) × (length taken ≤ 1))
      ⊎ ((batch ≡ []) × (taken ≡ []))
unfolding take_next_injections
take_next_injections-alone c include_completion rt =
    ground (arith, shift-one c (pending_of c rt.states) rt)
