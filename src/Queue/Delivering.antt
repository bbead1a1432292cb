-- ===== src/Queue/Delivering.antt =====
-- The delivery of task receipts keeps the queue sound.
use plastic_wan.Base.{
  ℕ, ◌≡◌, refl, true, false, not, ◌&&◌, ◌||◌, inl, inr, Option, none, some, List, [], ◌∷◌, ◌++◌,
  ◌==◌, is_some, Table, lookup, insert, matches, HasDistinctKeys, Bool-cases, Option-cases, ==_iff,
  ==_refl, Result-cases, ok, Ensures, Ensures->>=, arith,
}
use plastic_wan.LongTasks.Due
use plastic_wan.Sleep.State.{active_sleep_until}
use plastic_wan.Queue.Tables.{BucketState, Invocation, State, Environment}
use plastic_wan.Queue.Insert.{
  is_queued_bucket, is_queued, is_running, is_joined, insert_join, insert_invocation,
  newest_running, running_invocation, chat_running,
}
use plastic_wan.Queue.Due.{Pass}
use plastic_wan.Queue.Receipts.{
  ReceiptRow, receipt_cancel_reason, suppress_pending, receipt_bucket, link_receipt,
  inject_completion, attach_receipt, start_receipt, claim_receipt, cannot_attach,
  has_pending_receipt, deliver, process_receipt, process_receipts, settle_tasks, pending_receipts,
  process_tasks_due,
}
use plastic_wan.Queue.Sound.{is_queued_at, IsSound, Sound, buckets-IsSound}
use plastic_wan.Queue.Starting.{attach-IsSound}
use plastic_wan.Queue.Finishing.{insert_invocation-Sound}

-- The newest running invocation is one that runs, in the conversation.
pub newest_running-lookup :
    (conversation_id id : ℕ) (is : Table Invocation)
    → HasDistinctKeys is
    → newest_running conversation_id is ≡ some id
    → (i : Invocation) × (lookup id is ≡ some i)
      × (i.conversation_id ≡ conversation_id)
      × (is_running i.state ≡ true)
unfolding newest_running
newest_running-lookup c id [] h e = cc
newest_running-lookup c id ((j, i) ∷ is) (h, hs) e =
    elim (Bool-cases (i.conversation_id == c && is_running i.state)) [
      | inr other ↦
          let (q, found, same, runs) = newest_running-lookup c id is hs (ground arith) in
          (q, ground (arith, ==_iff j id), same, runs)
      | inl here ↦ elim (Bool-cases (j == id)) [
        | inl first ↦ (i, ground arith, (==_iff i.conversation_id c).0 (ground arith), ground arith)
        | inr later ↦
            let (q, found, same, runs) =
              newest_running-lookup c id is hs (rest (newest_running c is) refl here later) in
            (q, ground arith, same, runs)
      ]
    ]
  where
    rest :
        (r : Option ℕ)
        → newest_running c is ≡ r
        → (i.conversation_id == c && is_running i.state) ≡ true
        → (j == id) ≡ false
        → newest_running c is ≡ some id
    rest none same here later = ground (arith, ==_refl j)
    rest (some k) same here later = ground (arith, ==_refl j, ==_iff j id)

pub running-not-queued : (i : Invocation) → is_running i.state ≡ true → is_queued i.state ≡ false
unfolding is_running is_queued
running-not-queued i h = ground arith

-- A new bucket that carries a receipt of a running invocation.
attach_receipt-Sound :
    (r : ReceiptRow) (id now : ℕ) (env : Environment) (s : State) (i : Invocation)
    → lookup id s.invocations ≡ some i
    → is_running i.state ≡ true
    → Sound s
    → Ensures Sound (attach_receipt r id now env s)
unfolding attach_receipt insert_join inject_completion link_receipt receipt_bucket is_queued_at
    matches is_queued_bucket
attach_receipt-Sound r id now env s i e runs v =
    let b = env.new_bucket_id s.buckets in
    let fresh = env.new_bucket_id_fresh s.buckets in
    let row = receipt_bucket r BucketState.running (some now) now in
    let inserted : IsSound s.conversations (insert b row s.buckets) s.invocations s.joins =
      buckets-IsSound s.conversations s.buckets (insert b row s.buckets) s.invocations s.joins
        (fresh, v.distinct_buckets) (λ c. ground (arith, ==_iff b c)) v in
    elim (Bool-cases (is_joined id b s.joins)) [
      | inl joined ↦ rw joined tt
      | inr apart ↦ rw apart (
          attach-IsSound s.conversations (insert b row s.buckets) s.invocations s.joins id b now i e
            (running-not-queued i runs) inserted)
    ]

start_receipt-Sound :
    (r : ReceiptRow) (now : ℕ) (env : Environment) (s : State)
    → Sound s
    → Ensures (λ p. Sound p.0) (start_receipt r now env s)
unfolding start_receipt link_receipt receipt_bucket is_queued_at matches is_queued_bucket
start_receipt-Sound r now env s v =
    let b = env.new_bucket_id s.buckets in
    let fresh = env.new_bucket_id_fresh s.buckets in
    let row = receipt_bucket r BucketState.queued none now in
    let t = record s { buckets = insert b row s.buckets } in
    Ensures->>= (λ p. Sound p.0) (λ p. Sound p.0)
      (insert_invocation env b r.conversation_id now true t)
      (λ p. ok (link_receipt r.task_id p.1 b p.0, p.1))
      (insert_invocation-Sound env b r.conversation_id now true s.buckets t
        (fresh, v.distinct_buckets) (λ c. ground (arith, ==_iff b c, ==_iff c b)) (ground arith) v)
      (λ p h. h)

deliver-Sound :
    (env : Environment) (now : ℕ) (r : ReceiptRow) (s : State) (ids : List ℕ)
    → Sound s
    → Ensures (λ p. Sound p.0) (deliver env now r (s, ids))
unfolding deliver claim_receipt running_invocation
deliver-Sound env now r s ids v = elim (Option-cases (running_invocation r.conversation_id s)) [
  | inl e ↦ elim (Bool-cases (chat_running r.chat_id s || not (has_pending_receipt r.task_id s))) [
    | inl blocked ↦ rw (e, blocked, deliver) v
    | inr free ↦
        rw (e, free, deliver)
          (Ensures->>= (λ p. Sound p.0) (λ p. Sound p.0)
            (start_receipt r now env (claim_receipt r now s)) (λ p. ok (p.0, ids ++ p.1 ∷ []))
            (start_receipt-Sound r now env (claim_receipt r now s) v) (λ p h. h))
  ]
  | inr (id, e) ↦
      elim (Bool-cases
        (cannot_attach r.conversation_id s || not (has_pending_receipt r.task_id s))) [
          | inl blocked ↦ rw (e, blocked, deliver) v
          | inr free ↦
              let (i, found, _, runs) =
                newest_running-lookup r.conversation_id id s.invocations v.distinct e in
              rw (e, free, deliver)
                (Ensures->>= Sound (λ p. Sound p.0)
                  (attach_receipt r id now env (claim_receipt r now s)) (λ s'. ok (s', ids))
                  (attach_receipt-Sound r id now env (claim_receipt r now s) i found runs v)
                  (λ p h. h))
        ]
]

process_receipt-Sound :
    (env : Environment) (now : ℕ) (sleep_until : Option ℕ) (r : ReceiptRow) (s : State)
    (ids : List ℕ)
    → Sound s
    → Ensures (λ p. Sound p.0) (process_receipt env now sleep_until r (s, ids))
unfolding process_receipt suppress_pending
process_receipt-Sound env now sleep_until r s ids v =
    elim (Option-cases (receipt_cancel_reason env r s)) [
      | inr (reason, e) ↦ rw (e, process_receipt) v
      | inl e ↦ elim (Bool-cases (is_some sleep_until && not r.bypass_daily_budget)) [
        | inl waits ↦ rw (e, waits, process_receipt) v
        | inr goes ↦ rw (e, goes, process_receipt) (deliver-Sound env now r s ids v)
      ]
    ]

process_receipts-Sound :
    (env : Environment) (now : ℕ) (sleep_until : Option ℕ) (rows : List ReceiptRow) (pass : Pass)
    → Sound pass.0
    → Ensures (λ p. Sound p.0) (process_receipts env now sleep_until rows pass)
unfolding process_receipts
process_receipts-Sound env now sleep_until [] pass v = v
process_receipts-Sound env now sleep_until (r ∷ rows) (s, ids) v =
    Ensures->>= (λ p. Sound p.0) (λ p. Sound p.0) (process_receipt env now sleep_until r (s, ids))
      (λ next. process_receipts env now sleep_until rows next)
      (process_receipt-Sound env now sleep_until r s ids v)
      (λ next. process_receipts-Sound env now sleep_until rows next)

settle_tasks-Sound : (now : ℕ) (s : State) → Sound s → Ensures Sound (settle_tasks now s)
unfolding settle_tasks
settle_tasks-Sound now s v = elim (Result-cases (Due.process_due now s.service)) [
  | inl (service, e) ↦ rw (e, settle_tasks) v
  | inr (failure, e) ↦ rw (e, settle_tasks) tt
]

pub process_tasks_due-Sound :
    (env : Environment) (now : ℕ) (s : State)
    → Sound s
    → Ensures (λ p. Sound p.0) (process_tasks_due env now s)
unfolding process_tasks_due
process_tasks_due-Sound env now s v =
    Ensures->>= Sound (λ p. Sound p.0) (settle_tasks now s) _ (settle_tasks-Sound now s v)
      (λ settled h.
        let woken = active_sleep_until now settled.sleep in
        let awake = record settled { sleep = woken.0 } in
        process_receipts-Sound env now woken.1 (pending_receipts env awake) (awake, []) h)
