-- ===== src/Context/Collecting.antt =====
-- When the collector cuts, and what a cut keeps.
use mathlib.Core.List.{reverse}
use plastic_wan.Base.{
  ℕ, suc, ◌≤◌, ◌<◌, ◌≡◌, refl, true, false, ◌⊎◌, inl, inr, Option, none, some, List, [], ◌∷◌, leb,
  ◌==◌, Bool-cases, Option-cases, filter, find?, find?-All, drop, get_elem?, All-reverse,
  All-filter, All-filter_self, All-Memᴰ, Memᴰ, length-filter_le, length-filter_le_length,
  sum_by-filter_le_sum_by, arith,
}
use plastic_wan.Context.Gc.{
  WindowRow, Options, GcPlan, is_renderable, count_sends, is_send_from, tokens_from, sum_tokens,
  token_pressure, within_budget, is_candidate, fits_tokens, keeps_sends, under_budget,
  choose_target, index_of, make_plan, plan_context_gc,
}

index_of-get_elem? :
    (seq : ℕ) (seqs : List (Option ℕ)) {i : ℕ}
    → index_of seq seqs ≡ some i
    → get_elem? seqs i ≡ some (some seq)
unfolding index_of
index_of-get_elem? seq [] e = cc
index_of-get_elem? seq (none ∷ seqs) e = elim (Option-cases (index_of seq seqs)) [
  | inl missing ↦ cc (rw missing at e)
  | inr (j, found) ↦ let here = index_of-get_elem? seq seqs found in ground arith
]
index_of-get_elem? seq (some s ∷ seqs) e = elim (Bool-cases (s == seq)) [
  | inl t ↦ ground arith
  | inr f ↦ elim (Option-cases (index_of seq seqs)) [
    | inl missing ↦ ground arith
    | inr (j, found) ↦ let here = index_of-get_elem? seq seqs found in ground arith
  ]
]

-- A plan is what the last steps make of a target, on a window that asked for a collection.
pub plan-inv :
    (o : Options) (p : GcPlan)
    → plan_context_gc o ≡ some p
    → (target : WindowRow) × (index : ℕ) × (choose_target o
          (filter (is_candidate o.head_seq) o.window)
        ≡ some target)
      × (index_of target.seq o.transcript_seqs ≡ some (suc index))
      × (is_renderable (drop (suc index) o.messages) ≡ true)
      × (p ≡ make_plan o target (suc index))
      × ((o.retained_sends_max < count_sends o.window o.head_seq) ⊎ (token_pressure o ≡ true))
unfolding plan_context_gc
plan-inv o p e = ground arith

-- The chosen target is a candidate row of the window, and passes one of the two criteria.
choose_target-inv :
    (o : Options) (r : WindowRow)
    → choose_target o (filter (is_candidate o.head_seq) o.window) ≡ some r
    → Memᴰ r o.window
      × (is_candidate o.head_seq r ≡ true)
      × ((keeps_sends o r ≡ true) ⊎ (under_budget o r ≡ true))
unfolding choose_target
choose_target-inv o r e =
    let test = is_candidate o.head_seq in
    let rows = filter test o.window in
    let good = All-reverse (λ x. test x ≡ true) rows (All-filter_self test o.window) in
    let members =
      All-reverse (λ x. Memᴰ x o.window) rows
        (All-filter (λ x. Memᴰ x o.window) test o.window (All-Memᴰ o.window)) in
    elim (Option-cases (find? (keeps_sends o) (reverse rows))) [
      | inl missing ↦
          let second : find? (under_budget o) (reverse rows) ≡ some r = rw missing at e in
          (
            (find?-All (λ x. Memᴰ x o.window) (under_budget o) (reverse rows) members second).0,
            (find?-All (λ x. test x ≡ true) (under_budget o) (reverse rows) good second).0,
            inr (find?-All (λ x. test x ≡ true) (under_budget o) (reverse rows) good second).1,
          )
      | inr (x, found) ↦
          let same : x ≡ r = ground arith in
          let first : find? (keeps_sends o) (reverse rows) ≡ some r = rw same at found in
          (
            (find?-All (λ x. Memᴰ x o.window) (keeps_sends o) (reverse rows) members first).0,
            (find?-All (λ x. test x ≡ true) (keeps_sends o) (reverse rows) good first).0,
            inl (find?-All (λ x. test x ≡ true) (keeps_sends o) (reverse rows) good first).1,
          )
    ]

-- What the caller relies on when it carries out a plan.
pub record IsSafeCut (o : Options) (p : GcPlan) : Type 0 where
  pub above_head : o.head_seq < p.target_seq
  pub nonzero : 0 < p.retained_index
  pub at_target : get_elem? o.transcript_seqs p.retained_index ≡ some (some p.target_seq)
  pub renderable : is_renderable (drop p.retained_index o.messages) ≡ true
  pub relieves : (token_pressure o ≡ false) ⊎ (within_budget o p.after_tokens ≡ true)
  pub worthwhile :
      (o.retained_sends_target ≤ p.after_sends) ⊎ (within_budget o p.after_tokens ≡ true)
  pub fewer_sends : p.after_sends ≤ p.before_sends
  pub fewer_tokens : p.after_tokens ≤ p.before_tokens
  pub fewer_messages : p.after_messages ≤ p.before_messages

criterion-relieves :
    (o : Options) (r : WindowRow)
    → (keeps_sends o r ≡ true) ⊎ (under_budget o r ≡ true)
    → ((token_pressure o ≡ false) ⊎ (within_budget o (tokens_from o.window r.seq) ≡ true))
      × ((o.retained_sends_target ≤ count_sends o.window r.seq)
          ⊎ (within_budget o (tokens_from o.window r.seq) ≡ true))
unfolding keeps_sends under_budget fits_tokens
criterion-relieves o r (inl k) = (ground arith, inl (ground arith))
criterion-relieves o r (inr u) = (inr u, inr u)

count_sends-anti :
    (rows : List WindowRow) (a b : ℕ) → a ≤ b → count_sends rows b ≤ count_sends rows a
unfolding count_sends is_send_from
count_sends-anti rows a b h = length-filter_le _ _ rows (λ r e. ground arith)

make_plan-IsSafeCut :
    (o : Options) (r : WindowRow) (i : ℕ)
    → is_candidate o.head_seq r ≡ true
    → (keeps_sends o r ≡ true) ⊎ (under_budget o r ≡ true)
    → index_of r.seq o.transcript_seqs ≡ some (suc i)
    → is_renderable (drop (suc i) o.messages) ≡ true
    → IsSafeCut o (make_plan o r (suc i))
unfolding make_plan is_candidate tokens_from sum_tokens
make_plan-IsSafeCut o r i c criterion found renders =
    let above : o.head_seq < r.seq = ground arith in
    let (relieves, worthwhile) = criterion-relieves o r criterion in
    record {
      above_head = above;
      nonzero = omega arith;
      at_target = index_of-get_elem? r.seq o.transcript_seqs found;
      renderable = renders;
      relieves = relieves;
      worthwhile = worthwhile;
      fewer_sends = count_sends-anti o.window o.head_seq r.seq (omega arith);
      fewer_tokens = sum_by-filter_le_sum_by (λ x. x.est_tokens) (λ x. leb r.seq x.seq) o.window;
      fewer_messages = length-filter_le_length (λ x. leb r.seq x.seq) o.window;
    }

-- A plan is a safe cut: its target lies above the head, the retained segment starts at the
-- target's place in the transcript, which is not the first, and renders; under token pressure
-- what stays is within the budget, and in any case it holds the wanted sends or is within the
-- budget; and the plan's counts do not grow.
pub plan_context_gc-IsSafeCut :
    (o : Options) (p : GcPlan) → plan_context_gc o ≡ some p → IsSafeCut o p
plan_context_gc-IsSafeCut o p e =
    let (r, i, chosen, found, renders, same, asked) = plan-inv o p e in
    let (member, c, criterion) = choose_target-inv o r chosen in
    rw same (make_plan-IsSafeCut o r i c criterion found renders)

pub plan_context_gc_needed :
    (o : Options) (p : GcPlan)
    → plan_context_gc o ≡ some p
    → ((o.retained_sends_max < count_sends o.window o.head_seq) ⊎ (token_pressure o ≡ true))
      × (r : WindowRow) × Memᴰ r o.window
      × (r.is_checkpoint ≡ true)
      × (r.seq ≡ p.target_seq)
unfolding is_candidate make_plan
plan_context_gc_needed o p e =
    let (r, i, chosen, found, renders, same, asked) = plan-inv o p e in
    let (member, c, criterion) = choose_target-inv o r chosen in
    (asked, r, member, ground arith, rw same refl)
