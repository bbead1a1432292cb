-- ===== src/Queue/Pause.antt =====
-- `/pause` and `/resume` on the queue (src/orchestration/bot-commands.ts).
use plastic_wan.Base.{
  ℕ, ◌≡◌, refl, subst, Bool, true, false, not, ◌&&◌, ◌||◌, Option, none, some, List, [], ◌∷◌, ◌==◌,
  if◌then◌else◌, is_some, any, filter, Table, lookup, matches, update_rows, lookup-update_rows,
  Option-cases, ==_refl, Result, ok, err, arith,
}
use plastic_wan.LongTasks.Rows.{Receipt}
use plastic_wan.Queue.Tables.{BucketState, InvocationState, Bucket, Invocation, State}
use plastic_wan.Queue.Insert.{
  is_collecting, is_queued_bucket, is_running_bucket, is_queued, is_running, chat_of,
  is_chat_paused, close_bucket, close_invocation,
}
use plastic_wan.Queue.Receipts.{suppress, with_receipts}
use plastic_wan.Queue.Clearing.{is_claimed}
use plastic_wan.Queue.Scheduler.{is_in_chat}
use plastic_wan.Queue.Recovered.{NoRow}

pub data CommandError : Type 0 where
  chat_has_no_row : (telegram_chat_id : ℕ) → CommandError

-- `chats.telegram_chat_id` is unique.
unfoldable pub chat_under : ℕ → Table ℕ → Option ℕ
chat_under telegram_chat_id [] = none
chat_under telegram_chat_id ((id, t) ∷ rows) =
    let rest = chat_under telegram_chat_id rows in if t == telegram_chat_id then some id else rest

unfoldable pub internal_chat_id : ℕ → State → Option ℕ
unfolding chat_under
internal_chat_id telegram_chat_id s = chat_under telegram_chat_id s.chats

-- A bucket that was attached to a run and not injected.
unfoldable pub is_uninjected : State → ℕ → Bool
unfolding is_running
is_uninjected s bucket_id =
    any
      (λ j.
        j.bucket_id == bucket_id
        && not (is_some j.injected_at)
        && matches (λ (i : Invocation). is_running i.state && not (bucket_id == i.bucket_id))
            j.invocation_id s.invocations)
      s.joins

unfoldable pub is_pausable : State → ℕ → ℕ → Bucket → Bool
unfolding is_in_chat is_collecting is_queued_bucket is_running_bucket is_uninjected
is_pausable s chat_id id b =
    is_in_chat s chat_id b.conversation_id
    && (is_collecting b.state
        || is_queued_bucket b.state
        || (is_running_bucket b.state && is_uninjected s id))

-- A queued invocation of a chat.
unfoldable pub is_queued_in : State → ℕ → Invocation → Bool
unfolding is_in_chat is_queued
is_queued_in s chat_id i = is_queued i.state && is_in_chat s chat_id i.conversation_id

-- A claimed receipt of a queued invocation of a chat.
unfoldable pub is_claimed_queued_in : State → ℕ → Receipt → Bool
unfolding is_claimed is_queued_in
is_claimed_queued_in s chat_id r = is_claimed r.state && elim r.invocation_id [
  | none ↦ false
  | some id ↦ matches (λ (i : Invocation). is_queued_in s chat_id i) id s.invocations
]

unfoldable pub pause_chat : (chat_id : ℕ) → ℕ → State → State
unfolding is_chat_paused is_pausable is_queued_in is_claimed_queued_in suppress close_bucket
    close_invocation update_rows
pause_chat chat_id now s =
    with_receipts
      (update_rows (λ task r. is_claimed_queued_in s chat_id r) (suppress now "chat_paused"))
      (record s {
        chat_pause = if is_chat_paused s chat_id then s.chat_pause else chat_id ∷ s.chat_pause;
        buckets =
            update_rows (is_pausable s chat_id) (close_bucket BucketState.expired "chat_paused" now)
              s.buckets;
        invocations =
            update_rows (λ id i. is_queued_in s chat_id i)
              (close_invocation InvocationState.aborted "chat_paused" now) s.invocations;
      })

unfoldable pub pause : (telegram_chat_id : ℕ) → ℕ → State → Result CommandError State
unfolding internal_chat_id pause_chat
pause telegram_chat_id now s = elim (internal_chat_id telegram_chat_id s) [
  | none ↦ err (chat_has_no_row telegram_chat_id)
  | some chat_id ↦ ok (pause_chat chat_id now s)
]

unfoldable pub resume : (telegram_chat_id : ℕ) → State → Result CommandError State
unfolding internal_chat_id
resume telegram_chat_id s = elim (internal_chat_id telegram_chat_id s) [
  | none ↦ err (chat_has_no_row telegram_chat_id)
  | some chat_id ↦ ok (record s { chat_pause = filter (λ c. not (c == chat_id)) s.chat_pause })
]

-- `/pause` of a stored chat leaves the chat paused, none of its buckets collecting or queued, and
-- none of its invocations queued.
pub pause-silences :
    (telegram_chat_id chat_id now : ℕ) (s p : State)
    → internal_chat_id telegram_chat_id s ≡ some chat_id
    → pause telegram_chat_id now s ≡ ok p
    → (is_chat_paused p chat_id ≡ true)
      × NoRow
          (λ (b : Bucket).
            is_in_chat p chat_id b.conversation_id
            && (is_collecting b.state || is_queued_bucket b.state))
          p.buckets
      × NoRow
          (λ (i : Invocation). is_queued i.state && is_in_chat p chat_id i.conversation_id)
          p.invocations
unfolding pause pause_chat is_chat_paused is_pausable is_in_chat is_queued_in is_collecting
    is_queued_bucket is_queued close_bucket close_invocation chat_of
pause-silences telegram_chat_id chat_id now s p found done =
    let paused : pause_chat chat_id now s ≡ p = ground arith in
    subst
      (λ (q : State).
        (is_chat_paused q chat_id ≡ true)
        × NoRow
            (λ (b : Bucket).
              is_in_chat q chat_id b.conversation_id
              && (is_collecting b.state || is_queued_bucket b.state))
            q.buckets
        × NoRow (λ (i : Invocation). is_queued i.state && is_in_chat q chat_id i.conversation_id)
            q.invocations)
      paused (marked chat_id now s, silent_buckets chat_id now s, silent_invocations chat_id now s)
  where
    marked :
        (chat_id now : ℕ) (s : State) → is_chat_paused (pause_chat chat_id now s) chat_id ≡ true
    marked chat_id now s = ground (arith, ==_refl chat_id)

    silent_buckets :
        (chat_id now : ℕ) (s : State)
        → NoRow
            (λ (b : Bucket).
              is_in_chat (pause_chat chat_id now s) chat_id b.conversation_id
              && (is_collecting b.state || is_queued_bucket b.state))
            (pause_chat chat_id now s).buckets
    silent_buckets chat_id now s id b e = ground (
      arith,
      lookup-update_rows id (is_pausable s chat_id)
          (close_bucket BucketState.expired "chat_paused" now) s.buckets,
      Option-cases (lookup id s.buckets),
    )

    silent_invocations :
        (chat_id now : ℕ) (s : State)
        → NoRow
            (λ (i : Invocation).
              is_queued i.state && is_in_chat (pause_chat chat_id now s) chat_id i.conversation_id)
            (pause_chat chat_id now s).invocations
    silent_invocations chat_id now s id i e = ground (
      arith,
      lookup-update_rows id (λ j r. is_queued_in s chat_id r)
          (close_invocation InvocationState.aborted "chat_paused" now) s.invocations,
      Option-cases (lookup id s.invocations),
    )

filter-absent :
    (chat_id : ℕ) (xs : List ℕ)
    → any (λ c. c == chat_id) xs ≡ false
    → filter (λ c. not (c == chat_id)) xs ≡ xs
filter-absent chat_id [] h = refl
filter-absent chat_id (x ∷ xs) h = ground (arith, filter-absent chat_id xs)

-- `/resume` after `/pause` of a chat that was not paused restores the paused chats, and revives no
-- bucket and no invocation.
pub resume-pause :
    (telegram_chat_id now : ℕ) (s p : State) (chat_id : ℕ)
    → internal_chat_id telegram_chat_id s ≡ some chat_id
    → is_chat_paused s chat_id ≡ false
    → pause telegram_chat_id now s ≡ ok p
    → (q : State) × (resume telegram_chat_id p ≡ ok q)
      × (q.chat_pause ≡ s.chat_pause)
      × (q.buckets ≡ p.buckets)
      × (q.invocations ≡ p.invocations)
unfolding pause resume pause_chat internal_chat_id is_chat_paused
resume-pause telegram_chat_id now s p chat_id found heard done =
    let paused : pause_chat chat_id now s ≡ p = ground arith in
    let q = record p { chat_pause = filter (λ c. not (c == chat_id)) p.chat_pause } in
    (
      q,
      ground arith,
      ground (arith, ==_refl chat_id, filter-absent chat_id s.chat_pause),
      refl,
      refl,
    )
