-- ===== src/Queue/Keys.antt =====
-- Lemmas on tables for the queue: keys stay distinct, and what a sort or a selection finds.
use plastic_wan.Base.{
  ℕ, ◌≡◌, refl, Bool, true, false, inl, inr, none, some, [], ◌∷◌, ◌==◌, if◌then◌else◌, filter, sort,
  insert_sorted, All, Table, lookup, update_rows, lookup-update_rows, HasDistinctKeys, Bool-cases,
  ==_iff, ==_refl, arith,
}

module _ {R : Type 0} where
  pub update_rows-HasDistinctKeys :
      (p : ℕ → R → Bool) (f : R → R) (t : Table R)
      → HasDistinctKeys t
      → HasDistinctKeys (update_rows p f t)
  unfolding update_rows
  update_rows-HasDistinctKeys p f [] h = tt
  update_rows-HasDistinctKeys p f ((j, r) ∷ t) (h, hs) = elim (Bool-cases (p j r)) [
    | inl e ↦
        rw e (ground (arith, lookup-update_rows j p f t), update_rows-HasDistinctKeys p f t hs)
    | inr e ↦
        rw e (ground (arith, lookup-update_rows j p f t), update_rows-HasDistinctKeys p f t hs)
  ]

  lookup-insert_sorted :
      (before : ℕ × R → ℕ × R → Bool) (j k : ℕ) (r : R) (t : Table R)
      → (k == j) ≡ false
      → lookup j t ≡ none
      → lookup j (insert_sorted before (k, r) t) ≡ none
  unfolding insert_sorted
  lookup-insert_sorted before j k r [] ne h = ground arith
  lookup-insert_sorted before j k r ((i, q) ∷ t) ne h =
      ground (arith, lookup-insert_sorted before j k r t)

  insert_sorted-HasDistinctKeys :
      (before : ℕ × R → ℕ × R → Bool) (k : ℕ) (r : R) (t : Table R)
      → lookup k t ≡ none
      → HasDistinctKeys t
      → HasDistinctKeys (insert_sorted before (k, r) t)
  unfolding insert_sorted
  insert_sorted-HasDistinctKeys before k r [] e h = (refl, tt)
  insert_sorted-HasDistinctKeys before k r ((i, q) ∷ t) e (h, hs) =
      elim (Bool-cases (before (k, r) (i, q))) [
        | inl first ↦ rw first (e, (h, hs))
        | inr later ↦ rw later (
          lookup-insert_sorted before i k r t (ground (arith, ==_iff i k, ==_iff k i)) h,
          insert_sorted-HasDistinctKeys before k r t (ground arith) hs,
        )
      ]

  lookup-sort :
      (before : ℕ × R → ℕ × R → Bool) (j : ℕ) (t : Table R)
      → lookup j t ≡ none
      → lookup j (sort before t) ≡ none
  unfolding sort
  lookup-sort before j [] h = refl
  lookup-sort before j ((k, r) ∷ t) h =
      lookup-insert_sorted before j k r (sort before t) (ground arith)
        (lookup-sort before j t (ground arith))

  pub sort-HasDistinctKeys :
      (before : ℕ × R → ℕ × R → Bool) (t : Table R)
      → HasDistinctKeys t
      → HasDistinctKeys (sort before t)
  unfolding sort
  sort-HasDistinctKeys before [] h = tt
  sort-HasDistinctKeys before ((k, r) ∷ t) (h, hs) =
      insert_sorted-HasDistinctKeys before k r (sort before t) (lookup-sort before k t h)
        (sort-HasDistinctKeys before t hs)

  lookup-filter :
      (p : ℕ × R → Bool) (j : ℕ) (t : Table R) → lookup j t ≡ none → lookup j (filter p t) ≡ none
  lookup-filter p j [] h = refl
  lookup-filter p j ((k, r) ∷ t) h = ground (arith, lookup-filter p j t)

  pub filter-HasDistinctKeys :
      (p : ℕ × R → Bool) (t : Table R) → HasDistinctKeys t → HasDistinctKeys (filter p t)
  filter-HasDistinctKeys p [] h = tt
  filter-HasDistinctKeys p ((k, r) ∷ t) (h, hs) = elim (Bool-cases (p (k, r))) [
    | inl e ↦ rw e (lookup-filter p k t h, filter-HasDistinctKeys p t hs)
    | inr e ↦ rw e (filter-HasDistinctKeys p t hs)
  ]

  -- The selected rows stand in the table under their keys.
  pub All-lookup-filter :
      (p : ℕ × R → Bool) (t : Table R)
      → HasDistinctKeys t
      → All (λ row. (lookup row.0 t ≡ some row.1) × (p row ≡ true)) (filter p t)
  All-lookup-filter p t h = go p t t h (λ j r e. e)
    where
      go :
          (p : ℕ × R → Bool) (t u : Table R)
          → HasDistinctKeys u
          → ((j : ℕ) (r : R) → lookup j u ≡ some r → lookup j t ≡ some r)
          → All (λ row. (lookup row.0 t ≡ some row.1) × (p row ≡ true)) (filter p u)
      go p t [] h inside = tt
      go p t ((k, r) ∷ u) (h, hs) inside =
          let here = inside k r (ground (arith, ==_refl k)) in
          let rest = go p t u hs (λ j q e. inside j q (later u j k r q h e)) in
          elim (Bool-cases (p (k, r))) [ inl e ↦ rw e ((here, e), rest) | inr e ↦ rw e rest ]
        where
          later :
              (u : Table R) (j k : ℕ) (r q : R)
              → lookup k u ≡ none
              → lookup j u ≡ some q
              → lookup j ((k, r) ∷ u) ≡ some q
          later u j k r q h e = ground (arith, ==_iff k j)

  -- A sort finds the same rows under their keys, and a selection those that pass.
  lookup-insert_sorted_any :
      (before : ℕ × R → ℕ × R → Bool) (j k : ℕ) (r : R) (t : Table R)
      → lookup k t ≡ none
      → lookup j (insert_sorted before (k, r) t) ≡ (if k == j then some r else lookup j t)
  unfolding insert_sorted
  lookup-insert_sorted_any before j k r [] h = refl
  lookup-insert_sorted_any before j k r ((i, q) ∷ t) h =
      ground (arith, lookup-insert_sorted_any before j k r t, ==_iff i j, ==_iff k j, ==_refl k)

  pub lookup-sort_same :
      (before : ℕ × R → ℕ × R → Bool) (j : ℕ) (t : Table R)
      → HasDistinctKeys t
      → lookup j (sort before t) ≡ lookup j t
  unfolding sort
  lookup-sort_same before j [] h = refl
  lookup-sort_same before j ((k, r) ∷ t) (h, hs) = ground (
    arith,
    lookup-insert_sorted_any before j k r (sort before t) (lookup-sort before k t h),
    lookup-sort_same before j t hs,
  )

  pub lookup-filter_pass :
      (p : ℕ × R → Bool) (j : ℕ) (r : R) (t : Table R)
      → lookup j t ≡ some r
      → p (j, r) ≡ true
      → lookup j (filter p t) ≡ some r
  lookup-filter_pass p j r [] e h = cc
  lookup-filter_pass p j r ((k, q) ∷ t) e h = elim (Bool-cases (k == j)) [
    | inl same ↦ let key = (==_iff k j).0 same in ground (arith, ==_refl j)
    | inr other ↦ ground (arith, lookup-filter_pass p j r t)
  ]
