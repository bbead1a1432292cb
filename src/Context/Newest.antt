-- ===== src/Context/Newest.antt =====
-- The collector keeps as little as its first criterion lets it: no newer checkpoint would do.
use mathlib.Core.List.{reverse, reverse-cons}
use plastic_wan.Base.{
  ℕ, ◌≤◌, ◌≡◌, refl, Bool, true, false, ◌⊎◌, inl, inr, Option, none, some, List, [], ◌∷◌, ◌++◌, ltb,
  if◌then◌else◌, Bool-cases, Option-cases, filter, find?, All, All-filter, All-Memᴰ, Memᴰ,
  IsOrdered, ap, arith,
}
use plastic_wan.Context.Gc.{
  WindowRow, Options, GcPlan, is_candidate, keeps_sends, under_budget, or_else, choose_target,
  make_plan, plan_context_gc,
}
use plastic_wan.Context.Collecting.{plan-inv}

abbrev pub older : WindowRow → WindowRow → Bool
older a b = ltb a.seq b.seq

-- The last row that passes a test.
find_last : (WindowRow → Bool) → List WindowRow → Option WindowRow
find_last p [] = none
find_last p (x ∷ xs) = elim (find_last p xs) [
  | some r ↦ some r
  | none ↦ if p x then some x else none
]

find?-append :
    (p : WindowRow → Bool) (xs : List WindowRow) (x : WindowRow)
    → find? p (xs ++ x ∷ []) ≡ or_else (find? p xs) (if p x then some x else none)
unfolding or_else
find?-append p [] x = ground arith
find?-append p (y ∷ ys) x = ground (arith, find?-append p ys x)

find?-reverse : (p : WindowRow → Bool) (xs : List WindowRow) → find? p (reverse xs) ≡ find_last p xs
unfolding find_last or_else
find?-reverse p [] = refl
find?-reverse p (x ∷ xs) =
    rw (reverse-cons x xs) (ground (arith, find?-append p (reverse xs) x, find?-reverse p xs))

find_last-none :
    (p : WindowRow → Bool) (xs : List WindowRow) → find_last p xs ≡ none → All (λ x. p x ≡ false) xs
unfolding find_last
find_last-none p [] e = tt
find_last-none p (x ∷ xs) e =
    let later : find_last p xs ≡ none = ground arith in (ground arith, find_last-none p xs later)

find_last-All :
    (P : WindowRow → Type 0) (p : WindowRow → Bool) (xs : List WindowRow) {r : WindowRow}
    → All P xs
    → find_last p xs ≡ some r
    → P r
unfolding find_last
find_last-All P p [] h e = cc
find_last-All P p (x ∷ xs) {r} (h, hs) e = elim (Option-cases (find_last p xs)) [
  | inl missing ↦ let same : x ≡ r = ground arith in rw (← same) h
  | inr (y, found) ↦ find_last-All P p xs hs (ground arith)
]

abbrev Fails : (WindowRow → Bool) → ℕ → WindowRow → Type 0
Fails p seq x = (x.seq ≤ seq) ⊎ (p x ≡ false)

All-Fails_of_false :
    (p : WindowRow → Bool) (seq : ℕ) (xs : List WindowRow)
    → All (λ x. p x ≡ false) xs
    → All (Fails p seq) xs
All-Fails_of_false p seq [] h = tt
All-Fails_of_false p seq (x ∷ xs) (h, hs) = (inr h, All-Fails_of_false p seq xs hs)

find_last-newest :
    (p : WindowRow → Bool) (xs : List WindowRow) {r : WindowRow}
    → IsOrdered older xs
    → find_last p xs ≡ some r
    → All (Fails p r.seq) xs
unfolding find_last
find_last-newest p [] h e = tt
find_last-newest p (x ∷ xs) {r} (h, hs) e = elim (Option-cases (find_last p xs)) [
  | inl missing ↦
      let same : x ≡ r = ground arith in
      (
        let eq : x.seq ≡ r.seq = ap (λ (w : WindowRow). w.seq) same in inl (omega arith),
        All-Fails_of_false p r.seq xs (find_last-none p xs missing),
      )
  | inr (y, found) ↦
      let later : find_last p xs ≡ some r = ground arith in
      let before = find_last-All (λ w. older x w ≡ true) p xs h later in
      (inl (ground arith), find_last-newest p xs hs later)
]

filter-IsOrdered :
    (p : WindowRow → Bool) (xs : List WindowRow)
    → IsOrdered older xs
    → IsOrdered older (filter p xs)
filter-IsOrdered p [] h = tt
filter-IsOrdered p (x ∷ xs) (h, hs) = elim (Bool-cases (p x)) [
  | inl e ↦ rw e (All-filter (λ y. older x y ≡ true) p xs h, filter-IsOrdered p xs hs)
  | inr e ↦ rw e (filter-IsOrdered p xs hs)
]

choose_target-newest :
    (o : Options) (xs : List WindowRow) {r : WindowRow}
    → IsOrdered older xs
    → choose_target o xs ≡ some r
    → All (Fails (keeps_sends o) r.seq) xs
unfolding choose_target or_else
choose_target-newest o xs {r} h e =
    let last = find?-reverse (keeps_sends o) xs in
    elim (Option-cases (find_last (keeps_sends o) xs)) [
      | inl missing ↦
          All-Fails_of_false (keeps_sends o) r.seq xs (find_last-none (keeps_sends o) xs missing)
      | inr (x, found) ↦
          let same : x ≡ r = ground arith in
          find_last-newest (keeps_sends o) xs h (rw same at found)
    ]

find_last-holds :
    (p : WindowRow → Bool) (xs : List WindowRow) {r : WindowRow}
    → find_last p xs ≡ some r
    → p r ≡ true
unfolding find_last
find_last-holds p [] e = cc
find_last-holds p (x ∷ xs) {r} e = elim (Option-cases (find_last p xs)) [
  | inl missing ↦ elim (Bool-cases (p x)) [
    | inl here ↦ let same : x ≡ r = ground arith in rw (← same) here
    | inr other ↦ ground arith
  ]
  | inr (y, found) ↦ find_last-holds p xs (ground arith)
]

choose_target-mem :
    (o : Options) (xs : List WindowRow) {r : WindowRow} → choose_target o xs ≡ some r → Memᴰ r xs
unfolding choose_target or_else
choose_target-mem o xs {r} e =
    let first = find?-reverse (keeps_sends o) xs in
    let second = find?-reverse (under_budget o) xs in
    elim (Option-cases (find_last (keeps_sends o) xs)) [
      | inl missing ↦
          find_last-All (λ x. Memᴰ x xs) (under_budget o) xs (All-Memᴰ xs) (ground arith)
      | inr (x, found) ↦
          find_last-All (λ x. Memᴰ x xs) (keeps_sends o) xs (All-Memᴰ xs) (ground arith)
    ]

-- By which criterion a target was chosen among the candidates.
abbrev IsChosen : Options → WindowRow → List WindowRow → Type 0
IsChosen o r xs =
    (keeps_sends o r ≡ true)
    ⊎ (All (λ x. keeps_sends o x ≡ false) xs
        × (under_budget o r ≡ true)
        × All (λ x. (x.seq ≤ r.seq) ⊎ (under_budget o x ≡ false)) xs)

choose_target-IsChosen :
    (o : Options) (xs : List WindowRow) {r : WindowRow}
    → IsOrdered older xs
    → choose_target o xs ≡ some r
    → IsChosen o r xs
unfolding choose_target or_else
choose_target-IsChosen o xs {r} h e =
    let first = find?-reverse (keeps_sends o) xs in
    let second = find?-reverse (under_budget o) xs in
    elim (Option-cases (find_last (keeps_sends o) xs)) [
      | inl missing ↦
          let found : find_last (under_budget o) xs ≡ some r = ground arith in
          inr (
            find_last-none (keeps_sends o) xs missing,
            find_last-holds (under_budget o) xs found,
            find_last-newest (under_budget o) xs h found,
          )
      | inr (x, found) ↦
          let kept : find_last (keeps_sends o) xs ≡ some r = ground arith in
          inl (find_last-holds (keeps_sends o) xs kept)
    ]

-- On a window in ascending order of sequence numbers, every checkpoint above the head that is newer
-- than the target of a plan fails the first criterion: it keeps fewer than the wanted sends or,
-- under token pressure, stays over the budget. The target itself meets that criterion; or no
-- checkpoint above the head does, and it is the newest of them whose retained tokens are within
-- the budget.
pub plan_context_gc_newest :
    (o : Options) (p : GcPlan)
    → IsOrdered older o.window
    → plan_context_gc o ≡ some p
    → All
        (λ r. (r.seq ≤ p.target_seq) ⊎ (keeps_sends o r ≡ false))
        (filter (is_candidate o.head_seq) o.window)
      × (target : WindowRow) × (target.seq ≡ p.target_seq)
      × Memᴰ target (filter (is_candidate o.head_seq) o.window)
      × ((keeps_sends o target ≡ true)
          ⊎ (All (λ r. keeps_sends o r ≡ false) (filter (is_candidate o.head_seq) o.window)
              × (under_budget o target ≡ true)
              × All
                  (λ r. (r.seq ≤ p.target_seq) ⊎ (under_budget o r ≡ false))
                  (filter (is_candidate o.head_seq) o.window)))
unfolding make_plan
plan_context_gc_newest o p h e =
    let (r, i, chosen, found, renders, same, asked) = plan-inv o p e in
    let xs = filter (is_candidate o.head_seq) o.window in
    let ordered = filter-IsOrdered (is_candidate o.head_seq) o.window h in
    rw same (
      choose_target-newest o xs ordered chosen,
      r,
      refl,
      choose_target-mem o xs chosen,
      choose_target-IsChosen o xs ordered chosen,
    )
