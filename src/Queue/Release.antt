-- ===== src/Queue/Release.antt =====
-- `releaseUninjectedBuckets` (src/orchestration/invocation-queue.ts).
use Prim.Native.String.{String}
use text.Mathlib.Text.{◌==◌ as str_eq}
use plastic_wan.Base.{
  ℕ, Bool, false, not, ◌&&◌, Option, none, some, List, [], ◌∷◌, ◌==◌, if◌then◌else◌, is_some,
  lookup, update_rows, matches, Result, ok, ◌>>=◌,
}
use plastic_wan.LongTasks.Rows.{ReceiptState, Receipt}
use plastic_wan.Queue.Tables.{Bucket, Join, State, Environment, QueueError}
use plastic_wan.Queue.Insert.{is_running_bucket, queue_state, insert_invocation}
use plastic_wan.Queue.Receipts.{with_receipts}
use plastic_wan.Queue.Clearing.{is_id, is_claimed_by}

-- A bucket that was attached to an invocation and never injected, with its conversation and error.
pub record Uninjected : Type 0 where
  pub bucket_id : ℕ
  pub conversation_id : ℕ
  pub error_code : Option String

unfoldable pub uninjected_row : (invocation_id : ℕ) → State → Join → Option Uninjected
uninjected_row invocation_id s j = elim (lookup j.bucket_id s.buckets) [
  | none ↦ none
  | some b ↦ elim (lookup j.invocation_id s.invocations) [
    | none ↦ none
    | some i ↦
        if j.invocation_id == invocation_id
          && not (is_some j.injected_at)
          && not (j.bucket_id == i.bucket_id)
        then some (record {
          bucket_id = j.bucket_id;
          conversation_id = b.conversation_id;
          error_code = b.error_code;
        })
        else none
  ]
]

unfoldable pub uninjected_rows : (invocation_id : ℕ) → State → List Join → List Uninjected
unfolding uninjected_row
uninjected_rows invocation_id s [] = []
uninjected_rows invocation_id s (j ∷ joins) =
    let rest = uninjected_rows invocation_id s joins in
    elim (uninjected_row invocation_id s j) [ none ↦ rest | some u ↦ u ∷ rest ]

-- A claimed receipt of an invocation in one of its buckets.
unfoldable pub is_claimed_in : ℕ → ℕ → Receipt → Bool
unfolding is_claimed_by
is_claimed_in invocation_id bucket_id r =
    is_id r.bucket_id bucket_id && is_claimed_by invocation_id r

abbrev pub reason_or : Option String → String → String
reason_or none other = other
reason_or (some reason) other = reason

abbrev pub is_admin_cancel : Option String → Bool
is_admin_cancel none = false
is_admin_cancel (some reason) = str_eq reason "admin_cancel"

unfoldable pub suppress_released : (invocation_id : ℕ) → Uninjected → ℕ → State → State
unfolding is_claimed_in update_rows
suppress_released invocation_id u now s =
    with_receipts
      (update_rows (λ task r. is_claimed_in invocation_id u.bucket_id r)
        (λ r. record r {
          state = ReceiptState.suppressed;
          cancelled_at = some now;
          cancel_reason = some (reason_or u.error_code "bucket_unavailable");
          admin_cancelled = is_admin_cancel u.error_code;
          updated_at = now;
        }))
      s

unfoldable pub hand_on_receipt : (from to : ℕ) → (bucket_id : ℕ) → ℕ → State → State
unfolding is_claimed_in update_rows
hand_on_receipt from to bucket_id now s =
    with_receipts
      (update_rows (λ task r. is_claimed_in from bucket_id r)
        (λ r. record r { invocation_id = some to; updated_at = now }))
      s

-- One round of the loop.
unfoldable pub release_bucket :
    Environment → (invocation_id : ℕ) → ℕ → Uninjected → State → Result QueueError State
unfolding is_running_bucket queue_state update_rows suppress_released insert_invocation
    hand_on_receipt
release_bucket env invocation_id now u s =
    if matches (λ (b : Bucket). is_running_bucket b.state) u.bucket_id s.buckets
    then (do
      (inserted, next) ← insert_invocation env u.bucket_id u.conversation_id now false (record s {
        buckets =
            update_rows (λ id b. id == u.bucket_id && is_running_bucket b.state) (queue_state now)
              s.buckets;
      })
      ok (hand_on_receipt invocation_id next u.bucket_id now inserted))
    else ok (suppress_released invocation_id u now s)

unfoldable pub release_buckets :
    Environment → (invocation_id : ℕ) → ℕ → List Uninjected → State → Result QueueError State
unfolding release_bucket
release_buckets env invocation_id now [] s = ok s
release_buckets env invocation_id now (u ∷ rows) s =
    release_bucket env invocation_id now u s >>= λ next.
    release_buckets env invocation_id now rows next

unfoldable pub release_uninjected_buckets :
    Environment → (invocation_id : ℕ) → ℕ → State → Result QueueError State
unfolding uninjected_rows release_buckets
release_uninjected_buckets env invocation_id now s =
    release_buckets env invocation_id now (uninjected_rows invocation_id s s.joins) s
