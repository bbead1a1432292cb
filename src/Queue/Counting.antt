-- ===== src/Queue/Counting.antt =====
-- Lemmas on tables for the queue: counts after the writes.
use plastic_wan.Base.{
  ℕ, ◌+◌, ◌≤◌, ◌≡◌, refl, Bool, true, false, not, ◌&&◌, inl, inr, none, some, [], ◌∷◌, ◌==◌, any,
  Table, lookup, modify, update_rows, count_keyed, HasDistinctKeys, Bool-cases, ==_iff, ==_refl,
  arith,
}

abbrev pub bit : Bool → ℕ
bit true = 1
bit false = 0

module _ {R : Type 0} where
  -- A count after a write of one row.
  pub count_keyed-modify :
      (q : ℕ → R → Bool) (k : ℕ) (f : R → R) (t : Table R) {r : R}
      → lookup k t ≡ some r
      → count_keyed q (modify k f t) + bit (q k r) ≡ count_keyed q t + bit (q k (f r))
  unfolding modify
  count_keyed-modify q k f [] e = cc
  count_keyed-modify q k f ((j, p) ∷ t) {r = r} e = elim (Bool-cases (j == k)) [
    | inl same ↦ let key = (==_iff j k).0 same in rw key (ground (arith, ==_refl k))
    | inr other ↦ rw other (ground (arith, count_keyed-modify q k f t {r = r}))
  ]

  -- A row that passes is counted.
  pub count_keyed_pos :
      (q : ℕ → R → Bool) (k : ℕ) (t : Table R) {r : R}
      → lookup k t ≡ some r
      → q k r ≡ true
      → 1 ≤ count_keyed q t
  count_keyed_pos q k [] e h = cc
  count_keyed_pos q k ((j, p) ∷ t) {r = r} e h = elim (Bool-cases (j == k)) [
    | inl same ↦ let key = (==_iff j k).0 same in ground (arith, ==_refl k)
    | inr other ↦ ground (arith, count_keyed_pos q k t {r = r})
  ]

  pub count_keyed_none :
      (q : ℕ → R → Bool) (t : Table R) → any (λ row. q row.0 row.1) t ≡ false → count_keyed q t ≡ 0
  count_keyed_none q [] h = refl
  count_keyed_none q ((j, p) ∷ t) h = ground (arith, count_keyed_none q t)

  pub count_keyed_le :
      (q p : ℕ → R → Bool) (t : Table R)
      → ((j : ℕ) (r : R) → q j r ≡ true → p j r ≡ true)
      → count_keyed q t ≤ count_keyed p t
  count_keyed_le q p [] h = omega arith
  count_keyed_le q p ((j, r) ∷ t) h = ground (arith, h j r, count_keyed_le q p t h)

  -- A test that only one key passes.
  pub update_rows-eq-modify :
      (p : ℕ → R → Bool) (f : R → R) (k : ℕ) (t : Table R) {r : R}
      → HasDistinctKeys t
      → lookup k t ≡ some r
      → p k r ≡ true
      → ((j : ℕ) (q : R) → p j q ≡ true → j ≡ k)
      → update_rows p f t ≡ modify k f t
  unfolding update_rows modify
  update_rows-eq-modify p f k [] h e passes only = refl
  update_rows-eq-modify p f k ((j, q) ∷ t) {r = r} (h, hs) e passes only =
      elim (Bool-cases (j == k)) [
        | inl same ↦
            let key = (==_iff j k).0 same in
            let gone : lookup k t ≡ none = cc in
            rw key (ground (arith, ==_refl k, untouched p f k t only gone))
        | inr other ↦ ground (arith, only j q, ==_refl k, update_rows-eq-modify p f k t {r = r} hs)
      ]
    where
      untouched :
          (p : ℕ → R → Bool) (f : R → R) (k : ℕ) (t : Table R)
          → ((j : ℕ) (q : R) → p j q ≡ true → j ≡ k)
          → lookup k t ≡ none
          → update_rows p f t ≡ t
      untouched p f k [] only h = refl
      untouched p f k ((j, q) ∷ t) only h =
          ground (arith, only j q, ==_refl k, untouched p f k t only)

  pub count_keyed_never :
      (q : ℕ → R → Bool) (t : Table R) → ((j : ℕ) (r : R) → q j r ≡ false) → count_keyed q t ≡ 0
  count_keyed_never q [] h = refl
  count_keyed_never q ((j, r) ∷ t) h = ground (arith, h j r, count_keyed_never q t h)

  -- Two tests that agree on the rows of a table count the same.
  pub count_keyed-same_rows :
      (q p : ℕ → R → Bool) (t : Table R)
      → HasDistinctKeys t
      → ((j : ℕ) (r : R) → lookup j t ≡ some r → q j r ≡ p j r)
      → count_keyed q t ≡ count_keyed p t
  count_keyed-same_rows q p [] h agree = refl
  count_keyed-same_rows q p ((k, r) ∷ t) (h, hs) agree = ground (
    arith,
    agree k r,
    ==_refl k,
    count_keyed-same_rows q p t hs (λ j x e. agree j x (ground (arith, ==_iff k j))),
  )

  pub count_keyed-split :
      (q p : ℕ → R → Bool) (t : Table R)
      → count_keyed q t
        ≡ count_keyed (λ j r. q j r && p j r) t + count_keyed (λ j r. q j r && not (p j r)) t
  count_keyed-split q p [] = refl
  count_keyed-split q p ((j, r) ∷ t) = ground (arith, count_keyed-split q p t)

  -- A search through rows with distinct keys finds one that a select by its key gives.
  pub any-lookup :
      (p : ℕ × R → Bool) (t : Table R)
      → HasDistinctKeys t
      → any p t ≡ true
      → (k : ℕ) × (r : R) × (lookup k t ≡ some r) × (p (k, r) ≡ true)
  any-lookup p [] h e = cc
  any-lookup p ((j, q) ∷ t) (h, hs) e = elim (Bool-cases (p (j, q))) [
    | inl here ↦ (j, q, ground (arith, ==_refl j), here)
    | inr there ↦
        let (k, r, found, passes) = any-lookup p t hs (ground arith) in
        (k, r, ground (arith, ==_iff j k), passes)
  ]
