-- ===== src/Context/Applying.antt =====
-- The collector and the store together: what `planContextGc` plans on the store's window
-- (src/context/context-gc.ts), `advanceHead` (src/context/context-store.ts) carries out.
use plastic_wan.Base.{ℕ, ◌<◌, ◌≡◌, some, All, All-at, ok, Result-cases, inl, inr, arith}
use plastic_wan.Context.Gc.{Options, GcPlan, plan_context_gc}
use plastic_wan.Context.Collecting.{plan_context_gc-IsSafeCut, plan_context_gc_needed}
use plastic_wan.Context.Tables.{Header, Store}
use plastic_wan.Context.Store.{advance_head, window}

-- What lies between the head and the next number is not refused.
advance_head-accepts :
    (h : Header) (target now : ℕ) (s : Store)
    → h.head_seq < target
    → target < h.next_seq
    → (s' : Store) × (h' : Header) × (advance_head h target now s ≡ ok (s', h'))
      × (h'.head_seq ≡ target)
unfolding advance_head
advance_head-accepts h target now s above below =
    elim (Result-cases (advance_head h target now s)) [
      | inl ((s', h'), e) ↦ (s', h', e, ground arith)
      | inr (x, e) ↦ absurd (ground arith)
    ]

-- A plan that is made on the header's window and head is never refused by the store: where all rows
-- of the window lie below the header's next number, the head advances to the plan's target.
pub advance_head-plan :
    (o : Options) (p : GcPlan) (h : Header) (now : ℕ) (s : Store)
    → o.window ≡ window h s
    → o.head_seq ≡ h.head_seq
    → All (λ r. r.seq < h.next_seq) (window h s)
    → plan_context_gc o ≡ some p
    → (s' : Store) × (h' : Header) × (advance_head h p.target_seq now s ≡ ok (s', h'))
      × (h'.head_seq ≡ p.target_seq)
advance_head-plan o p h now s same_window same_head below planned =
    let cut = plan_context_gc-IsSafeCut o p planned in
    let (asked, r, member, checkpoint, target) = plan_context_gc_needed o p planned in
    let bound = All-at (λ r. r.seq < h.next_seq) o.window (rw same_window below) member in
    advance_head-accepts h p.target_seq now s (omega (arith, cut.above_head, same_head))
      (omega (arith, bound, target))
