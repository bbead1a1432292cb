-- ===== src/Queue/Dropping.antt =====
-- `suppressInvalidQueuedReceipts` and `skipQueuedInvocations` keep the queue sound.
use Prim.Native.String.{String}
use plastic_wan.Base.{
  ℕ, ◌≡◌, refl, true, false, not, ◌&&◌, ◌⊎◌, inl, inr, none, some, List, [], ◌∷◌, ◌==◌, filter, All,
  All-sort, Table, lookup, Option-cases, ==_iff, ==_refl, arith,
}
use plastic_wan.LongTasks.Rows.{Receipt}
use plastic_wan.Queue.Tables.{BucketState, InvocationState, Invocation, State, Environment}
use plastic_wan.Queue.Insert.{
  is_queued_bucket, is_queued, is_running, close_bucket, close_invocation,
}
use plastic_wan.Queue.Receipts.{ReceiptRow, receipt_row, receipt_cancel_reason}
use plastic_wan.Queue.Clearing.{
  end_queued, claimed_queued, claimed_rows, suppress_claimed, suppress_row, suppress_rows,
  suppress_invalid_queued_receipts, is_exempt, by_id, has_chat, sleeping_rows, handle_claimed,
  skip_row, skip_rows, skip_queued_invocations,
}
use plastic_wan.Queue.Keys.{All-lookup-filter}
use plastic_wan.Queue.Sound.{Sound}
use plastic_wan.Queue.Retiring.{MayRetire, queued-MayRetire, retire-IsSound, retire-MayRetire}

abbrev pub Retirable : State → ℕ × Invocation → Type 0
Retirable s row = MayRetire s.buckets s.invocations s.joins row

-- A step that keeps the queue sound, and what could be retired still can.
abbrev pub Retires : State → State → Type 0
Retires s t = Sound t × ((row : ℕ × Invocation) → Retirable s row → Retirable t row)

end_queued-Retires :
    (row : ℕ × Invocation) (state : InvocationState) (bucket_state : BucketState) (reason : String)
    (now : ℕ) (s : State)
    → is_queued state ≡ false
    → is_running state ≡ false
    → is_queued_bucket bucket_state ≡ false
    → Retirable s row
    → Sound s
    → Retires s (end_queued row.0 row.1.bucket_id state bucket_state reason now s)
unfolding end_queued close_invocation close_bucket
end_queued-Retires row state bucket_state reason now s q r b m v =
    let f = close_invocation state reason now in
    let g = close_bucket bucket_state reason now in
    (
      retire-IsSound s.conversations s.buckets s.invocations s.joins f g (λ i. (q, r)) (λ i. refl)
          (λ i. b) (λ j i. j == row.0) row (λ j i. (==_iff j row.0).0) (λ i h. ==_refl row.0) m v,
      λ other o.
          retire-MayRetire s.conversations s.buckets s.invocations s.joins f g (λ i. (q, r))
            (λ i. refl) (λ i. b) (λ j i. j == row.0) row (λ j i. (==_iff j row.0).0)
            (λ i h. ==_refl row.0) other m o,
    )

suppress_row-Retires :
    (env : Environment) (now : ℕ) (q : ReceiptRow) (row : ℕ × Invocation) (s : State)
    → Retirable s row
    → Sound s
    → Retires s (suppress_row env now (q, row) s)
unfolding suppress_row suppress_claimed is_queued is_running is_queued_bucket
suppress_row-Retires env now q row s m v = elim (Option-cases (receipt_cancel_reason env q s)) [
  | inl e ↦ rw (e, suppress_row) (v, λ other o. o)
  | inr (reason, e) ↦
      rw (e, suppress_row)
        (end_queued-Retires row InvocationState.aborted BucketState.aborted reason now
          (suppress_claimed q reason now s) refl refl refl m v)
]

All-Retires :
    {A : Type 0} (of : A → ℕ × Invocation) (s t : State) (rows : List A)
    → ((row : ℕ × Invocation) → Retirable s row → Retirable t row)
    → All (λ x. Retirable s (of x)) rows
    → All (λ x. Retirable t (of x)) rows
All-Retires of s t [] keeps h = tt
All-Retires of s t (x ∷ rows) keeps (h, hs) = (keeps (of x) h, All-Retires of s t rows keeps hs)

suppress_rows-Sound :
    (env : Environment) (now : ℕ) (rows : List (ReceiptRow × (ℕ × Invocation))) (s : State)
    → All (λ x. Retirable s x.1) rows
    → Sound s
    → Sound (suppress_rows env now rows s)
unfolding suppress_rows
suppress_rows-Sound env now [] s h v = v
suppress_rows-Sound env now ((q, row) ∷ rows) s (h, hs) v =
    let (sound, keeps) = suppress_row-Retires env now q row s h v in
    let t = suppress_row env now (q, row) s in
    suppress_rows-Sound env now rows t (All-Retires (λ x. x.1) s t rows keeps hs) sound

claimed_queued-Retirable :
    (s : State) (r : Receipt) (row : ℕ × Invocation)
    → Sound s
    → claimed_queued s r ≡ some row
    → Retirable s row
unfolding claimed_queued
claimed_queued-Retirable s r (id, i) v e =
    let (found, queued) = present (Option-cases r.invocation_id) in
    queued-MayRetire s.conversations s.buckets s.invocations s.joins (id, i) v found queued
  where
    present :
        (r.invocation_id ≡ none) ⊎ ((k : ℕ) × (r.invocation_id ≡ some k))
        → (lookup id s.invocations ≡ some i) × (is_queued i.state ≡ true)
    present (inl nothing) = cc
    present (inr (k, named)) = elim (Option-cases (lookup k s.invocations)) [
      | inl lost ↦ (ground arith, ground arith)
      | inr (j, here) ↦ (ground arith, ground arith)
    ]

claimed_rows-Retirable :
    (env : Environment) (s : State) (receipts : Table Receipt)
    → Sound s
    → All (λ x. Retirable s x.1) (claimed_rows env s receipts)
unfolding claimed_rows
claimed_rows-Retirable env s [] v = tt
claimed_rows-Retirable env s ((task_id, r) ∷ rows) v = elim (Option-cases (claimed_queued s r)) [
  | inl e ↦ rw (e, claimed_rows) (claimed_rows-Retirable env s rows v)
  | inr (row, e) ↦ elim (Option-cases (receipt_row env s (task_id, r))) [
    | inl lost ↦ rw (e, lost, claimed_rows) (claimed_rows-Retirable env s rows v)
    | inr (q, found) ↦
        rw (e, found, claimed_rows)
          (claimed_queued-Retirable s r row v e, claimed_rows-Retirable env s rows v)
  ]
]

pub suppress_invalid-Sound :
    (env : Environment) (now : ℕ) (s : State)
    → Sound s
    → Sound (suppress_invalid_queued_receipts env now s)
unfolding suppress_invalid_queued_receipts
suppress_invalid-Sound env now s v =
    suppress_rows-Sound env now (claimed_rows env s s.service.receipts) s
      (claimed_rows-Retirable env s s.service.receipts v) v

skip_row-Retires :
    (now : ℕ) (row : ℕ × Invocation) (s : State)
    → Retirable s row
    → Sound s
    → Retires s (skip_row now row s)
unfolding skip_row handle_claimed close_invocation close_bucket is_queued is_running
    is_queued_bucket
skip_row-Retires now row s m v =
    let f = close_invocation InvocationState.skipped_budget "sleeping" now in
    let g = close_bucket BucketState.skipped_budget "sleeping" now in
    (
      retire-IsSound s.conversations s.buckets s.invocations s.joins f g (λ i. (refl, refl))
          (λ i. refl) (λ i. refl) (λ j i. j == row.0 && is_queued i.state) row only hits m v,
      λ other o.
          retire-MayRetire s.conversations s.buckets s.invocations s.joins f g (λ i. (refl, refl))
            (λ i. refl) (λ i. refl) (λ j i. j == row.0 && is_queued i.state) row only hits other m
            o,
    )
  where
    only : (j : ℕ) (i : Invocation) → (j == row.0 && is_queued i.state) ≡ true → j ≡ row.0
    only j i h = (==_iff j row.0).0 (ground arith)

    hits :
        (i : Invocation) → is_queued i.state ≡ true → (row.0 == row.0 && is_queued i.state) ≡ true
    hits i h = ground (arith, ==_refl row.0)

skip_rows-Sound :
    (now : ℕ) (rows : List (ℕ × Invocation)) (s : State)
    → All (λ row. Retirable s row) rows
    → Sound s
    → Sound (skip_rows now rows s)
unfolding skip_rows
skip_rows-Sound now [] s h v = v
skip_rows-Sound now (row ∷ rows) s (h, hs) v =
    let (sound, keeps) = skip_row-Retires now row s h v in
    let t = skip_row now row s in
    skip_rows-Sound now rows t (All-Retires (λ x. x) s t rows keeps hs) sound

sleeping-Retirable :
    (env : Environment) (s : State) (rows : List (ℕ × Invocation))
    → Sound s
    → All
        (λ row.
          (lookup row.0 s.invocations ≡ some row.1)
          × ((is_queued row.1.state && has_chat s row.1 && not (is_exempt env s row.0)) ≡ true))
        rows
    → All (λ row. Retirable s row) rows
sleeping-Retirable env s [] v h = tt
sleeping-Retirable env s (row ∷ rows) v ((e, passes), hs) = (
  queued-MayRetire s.conversations s.buckets s.invocations s.joins row v e (ground arith),
  sleeping-Retirable env s rows v hs,
)

pub skip_queued-Sound :
    (env : Environment) (now : ℕ) (s : State) → Sound s → Sound (skip_queued_invocations env now s)
unfolding skip_queued_invocations sleeping_rows
skip_queued-Sound env now s v =
    let asleep = λ (row : ℕ × Invocation).
      is_queued row.1.state && has_chat s row.1 && not (is_exempt env s row.0) in
    skip_rows-Sound now (sleeping_rows env s) s
      (All-sort by_id (Retirable s) (filter asleep s.invocations) (
        sleeping-Retirable env s (filter asleep s.invocations) v
          (All-lookup-filter asleep s.invocations v.distinct)))
      v
