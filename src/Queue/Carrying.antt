-- ===== src/Queue/Carrying.antt =====
-- Deliveries of receipts and `processDue` take no bucket and no invocation to another conversation.
use plastic_wan.Base.{
  ℕ, ◌≡◌, refl, true, not, ◌&&◌, ◌||◌, inl, inr, Option, none, some, List, [], ◌∷◌, ◌==◌, ◌++◌,
  is_some, filter, All, All-sort, Table, lookup, insert, update_rows, matches, Bool-cases,
  Option-cases, ==_refl, Result-cases, ok, Ensures, Ensures->>=, Ensures-map, arith,
}
use plastic_wan.LongTasks.Due
use plastic_wan.Sleep.State.{active_sleep_until}
use plastic_wan.Queue.Tables.{BucketState, Bucket, State, Environment}
use plastic_wan.Queue.Snapshot.{snapshot_invocation}
use plastic_wan.Queue.Insert.{
  insert_join, is_joined, is_collecting, insert_invocation, queue_state, close_bucket, start_bucket,
  mark_bucket_skipped, attach_bucket_to_invocation, chat_running, running_invocation,
}
use plastic_wan.Queue.Due.{
  is_due_bucket, by_deadline, due_buckets, defer_bucket, inject, attach_open, queue_open,
  process_bucket, process_buckets, process_due,
}
use plastic_wan.Queue.Receipts.{
  ReceiptRow, receipt_cancel_reason, suppress_pending, receipt_bucket, link_receipt,
  inject_completion, attach_receipt, start_receipt, claim_receipt, cannot_attach,
  has_pending_receipt, deliver, process_receipt, process_receipts, settle_tasks, pending_receipts,
  process_tasks_due,
}
use plastic_wan.Queue.Keys.{All-lookup-filter}
use plastic_wan.Queue.Sound.{Sound}
use plastic_wan.Queue.Placing.{
  is_at, Moves, Moves-refl, Moves-trans, write_buckets-Places, insert_bucket-Places,
}
use plastic_wan.Queue.Routes.{process_bucket-Ensures}
use plastic_wan.Queue.Keeping.{insert_invocation-Moves}

attach_receipt-Moves :
    (r : ReceiptRow) (id now : ℕ) (env : Environment) (s : State)
    → Ensures (Moves s) (attach_receipt r id now env s)
unfolding attach_receipt insert_join inject_completion link_receipt
attach_receipt-Moves r id now env s =
    let b = env.new_bucket_id s.buckets in
    elim (Bool-cases (is_joined id b s.joins)) [
      | inl joined ↦ rw joined tt
      | inr apart ↦ rw apart (
          insert_bucket-Places s.buckets s.invocations b
            (receipt_bucket r BucketState.running (some now) now)
            (env.new_bucket_id_fresh s.buckets))
    ]

start_receipt-Moves :
    (r : ReceiptRow) (now : ℕ) (env : Environment) (s : State)
    → Ensures (λ p. Moves s p.0) (start_receipt r now env s)
unfolding start_receipt link_receipt receipt_bucket is_at matches
start_receipt-Moves r now env s =
    let b = env.new_bucket_id s.buckets in
    let row = receipt_bucket r BucketState.queued none now in
    let t = record s { buckets = insert b row s.buckets } in
    let m =
      insert_bucket-Places s.buckets s.invocations b row (env.new_bucket_id_fresh s.buckets) in
    Ensures->>= (λ p. Moves t p.0) (λ p. Moves s p.0)
      (insert_invocation env b r.conversation_id now true t)
      (λ p. ok (link_receipt r.task_id p.1 b p.0, p.1))
      (insert_invocation-Moves env b r.conversation_id now true t
        (ground (arith, ==_refl b, ==_refl r.conversation_id)))
      (λ p n. Moves-trans s t p.0 m n)

deliver-Moves :
    (env : Environment) (now : ℕ) (r : ReceiptRow) (s : State) (ids : List ℕ)
    → Ensures (λ p. Moves s p.0) (deliver env now r (s, ids))
unfolding deliver claim_receipt
deliver-Moves env now r s ids = elim (Option-cases (running_invocation r.conversation_id s)) [
  | inl e ↦ elim (Bool-cases (chat_running r.chat_id s || not (has_pending_receipt r.task_id s))) [
    | inl blocked ↦ rw (e, blocked, deliver) (Moves-refl s)
    | inr free ↦
        rw (e, free, deliver)
          (Ensures->>= (λ p. Moves s p.0) (λ p. Moves s p.0)
            (start_receipt r now env (claim_receipt r now s)) (λ p. ok (p.0, ids ++ p.1 ∷ []))
            (start_receipt-Moves r now env (claim_receipt r now s)) (λ p m. m))
  ]
  | inr (id, e) ↦
      elim (Bool-cases
        (cannot_attach r.conversation_id s || not (has_pending_receipt r.task_id s))) [
          | inl blocked ↦ rw (e, blocked, deliver) (Moves-refl s)
          | inr free ↦
              rw (e, free, deliver)
                (Ensures->>= (Moves s) (λ p. Moves s p.0)
                  (attach_receipt r id now env (claim_receipt r now s)) (λ t. ok (t, ids))
                  (attach_receipt-Moves r id now env (claim_receipt r now s)) (λ t m. m))
        ]
]

process_receipt-Moves :
    (env : Environment) (now : ℕ) (sleep_until : Option ℕ) (r : ReceiptRow) (s : State)
    (ids : List ℕ)
    → Ensures (λ p. Moves s p.0) (process_receipt env now sleep_until r (s, ids))
unfolding process_receipt suppress_pending
process_receipt-Moves env now sleep_until r s ids =
    elim (Option-cases (receipt_cancel_reason env r s)) [
      | inr (reason, e) ↦ rw (e, process_receipt) (Moves-refl s)
      | inl e ↦ elim (Bool-cases (is_some sleep_until && not r.bypass_daily_budget)) [
        | inl waits ↦ rw (e, waits, process_receipt) (Moves-refl s)
        | inr goes ↦ rw (e, goes, process_receipt) (deliver-Moves env now r s ids)
      ]
    ]

process_receipts-Moves :
    (env : Environment) (now : ℕ) (sleep_until : Option ℕ) (rows : List ReceiptRow) (s : State)
    (ids : List ℕ)
    → Ensures (λ p. Moves s p.0) (process_receipts env now sleep_until rows (s, ids))
unfolding process_receipts
process_receipts-Moves env now sleep_until [] s ids = Moves-refl s
process_receipts-Moves env now sleep_until (r ∷ rows) s ids =
    Ensures->>= (λ p. Moves s p.0) (λ p. Moves s p.0)
      (process_receipt env now sleep_until r (s, ids))
      (λ next. process_receipts env now sleep_until rows next)
      (process_receipt-Moves env now sleep_until r s ids)
      (λ p m.
        Ensures-map (λ q. Moves p.0 q.0) (λ q. Moves s q.0)
          (process_receipts env now sleep_until rows p)
          (process_receipts-Moves env now sleep_until rows p.0 p.1)
          (λ q n. Moves-trans s p.0 q.0 m n))

pub process_tasks_due-Moves :
    (env : Environment) (now : ℕ) (s : State)
    → Ensures (λ p. Moves s p.0) (process_tasks_due env now s)
unfolding process_tasks_due settle_tasks
process_tasks_due-Moves env now s = elim (Result-cases (Due.process_due now s.service)) [
  | inr (failure, e) ↦ rw (e, settle_tasks) tt
  | inl (service, e) ↦
      rw (e, settle_tasks)
        (let settled = record s { service = service } in
          let woken = active_sleep_until now settled.sleep in
          let awake = record settled { sleep = woken.0 } in
          process_receipts-Moves env now woken.1 (pending_receipts env awake) awake [])
]

-- One due bucket, whose conversation is that of its row.
process_bucket-Moves :
    (env : Environment) (now : ℕ) (sleep_until : Option ℕ) (id : ℕ) (b : Bucket) (s : State)
    (ids : List ℕ)
    → is_at id b.conversation_id s.buckets ≡ true
    → Ensures (λ p. Moves s p.0) (process_bucket env now sleep_until (id, b) (s, ids))
unfolding mark_bucket_skipped close_bucket defer_bucket attach_open attach_bucket_to_invocation
    insert_join inject snapshot_invocation start_bucket queue_open queue_state
process_bucket-Moves env now sleep_until id b s ids at =
    process_bucket-Ensures env now sleep_until id b s ids (Moves s) (Moves-refl s)
      (λ reason. write_buckets-Places s.buckets s.invocations _ _ (λ r. refl))
      (write_buckets-Places s.buckets s.invocations _ _ (λ r. refl))
      (λ invocation_id runtime found. elim (Bool-cases (is_joined invocation_id id s.joins)) [
        | inl joined ↦ rw joined tt
        | inr apart ↦ rw apart (write_buckets-Places s.buckets s.invocations _ _ (λ r. refl))
      ])
      (let bs = update_rows (λ j r. j == id && is_collecting r.state) (queue_state now) s.buckets in
        let t = record s { buckets = bs } in
        let m =
          write_buckets-Places s.buckets s.invocations (λ j r. j == id && is_collecting r.state)
            (queue_state now) (λ r. refl) in
        Ensures-map (λ r. Moves t r.0) (λ r. Moves s r.0)
          (insert_invocation env id b.conversation_id now true t)
          (insert_invocation-Moves env id b.conversation_id now true t
            (m.keeps id b.conversation_id at))
          (λ r n. Moves-trans s t r.0 m n))

-- The buckets of the rows stay in their conversations.
AllAt-rows :
    (bs bs' : Table Bucket) (rows : List (ℕ × Bucket))
    → ((b c : ℕ) → is_at b c bs ≡ true → is_at b c bs' ≡ true)
    → All (λ row. is_at row.0 row.1.conversation_id bs ≡ true) rows
    → All (λ row. is_at row.0 row.1.conversation_id bs' ≡ true) rows
AllAt-rows bs bs' [] keeps h = tt
AllAt-rows bs bs' (row ∷ rows) keeps (h, hs) =
    (keeps row.0 row.1.conversation_id h, AllAt-rows bs bs' rows keeps hs)

process_buckets-Moves :
    (env : Environment) (now : ℕ) (sleep_until : Option ℕ) (rows : List (ℕ × Bucket)) (s : State)
    (ids : List ℕ)
    → All (λ row. is_at row.0 row.1.conversation_id s.buckets ≡ true) rows
    → Ensures (λ p. Moves s p.0) (process_buckets env now sleep_until rows (s, ids))
unfolding process_buckets
process_buckets-Moves env now sleep_until [] s ids h = Moves-refl s
process_buckets-Moves env now sleep_until ((id, b) ∷ rows) s ids (h, hs) =
    Ensures->>= (λ p. Moves s p.0) (λ p. Moves s p.0)
      (process_bucket env now sleep_until (id, b) (s, ids))
      (λ next. process_buckets env now sleep_until rows next)
      (process_bucket-Moves env now sleep_until id b s ids h)
      (λ p m.
        Ensures-map (λ q. Moves p.0 q.0) (λ q. Moves s q.0)
          (process_buckets env now sleep_until rows p)
          (process_buckets-Moves env now sleep_until rows p.0 p.1
            (AllAt-rows s.buckets p.0.buckets rows m.keeps hs))
          (λ q n. Moves-trans s p.0 q.0 m n))

due-at :
    (now : ℕ) (s : State) (rows : List (ℕ × Bucket))
    → All (λ row. (lookup row.0 s.buckets ≡ some row.1) × (is_due_bucket now s row ≡ true)) rows
    → All (λ row. is_at row.0 row.1.conversation_id s.buckets ≡ true) rows
unfolding is_at matches
due-at now s [] h = tt
due-at now s ((id, b) ∷ rows) ((e, due), hs) =
    (ground (arith, ==_refl b.conversation_id), due-at now s rows hs)

pub process_due-Moves :
    (env : Environment) (now : ℕ) (s : State)
    → Sound s
    → Ensures (λ p. Moves s p.0) (process_due env now s)
unfolding process_due due_buckets
process_due-Moves env now s v =
    let woken = active_sleep_until now s.sleep in
    let awake = record s { sleep = woken.0 } in
    let due = filter (is_due_bucket now awake) s.buckets in
    process_buckets-Moves env now woken.1 (due_buckets now awake) awake [] (
      All-sort by_deadline (λ row. is_at row.0 row.1.conversation_id awake.buckets ≡ true) due
        (due-at now awake due
          (All-lookup-filter (is_due_bucket now awake) s.buckets v.distinct_buckets)))
