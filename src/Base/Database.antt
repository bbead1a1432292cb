-- ===== src/Base/Database.antt =====
-- A database table as rows under their primary key, with the statements that the stores issue:
-- a select by key, an insert, and an update of the row under a key. A select that lists rows
-- states its order, so the order in which rows are kept does not show.
use mathlib.Core.Option
use plastic_wan.Base.Lists.{All, any}
use mathlib.Core.Logic.{inl, inr}
use plastic_wan.Base.Tests.{Bool-cases, Option-cases, ==_iff, ==_refl, ◌==◌, if◌then◌else◌}
use Prim.Native.Nat.{ℕ, suc}
use mathlib.Core.Path.{◌≡◌, refl}
use mathlib.Core.Bool.{Bool, false, ◌&&◌}
use mathlib.Core.Option.{Option, none, some}
use mathlib.Core.List.{List, [], ◌∷◌}
use native.Mathlib.Omega.{arith}

abbrev pub Table : Type 0 → Type 0
Table R = List (ℕ × R)

module _ {R : Type 0} where
  abbrev pub lookup : ℕ → Table R → Option R
  lookup k [] = none
  lookup k ((j, r) ∷ t) = let rest = lookup k t in if j == k then some r else rest

  abbrev pub insert : ℕ → R → Table R → Table R
  insert k r t = (k, r) ∷ t

  unfoldable pub modify : ℕ → (R → R) → Table R → Table R
  modify k f [] = []
  modify k f ((j, r) ∷ t) =
      let rest = modify k f t in if j == k then (j, f r) ∷ t else (j, r) ∷ rest

  -- `SELECT count(*) ... WHERE test`
  abbrev pub count_rows : (R → Bool) → Table R → ℕ
  count_rows p [] = 0
  count_rows p ((j, r) ∷ t) = let rest = count_rows p t in if p r then suc rest else rest

  pub lookup-modify :
      (j k : ℕ) (f : R → R) (t : Table R)
      → lookup j (modify k f t) ≡ (if k == j then Option.map f (lookup j t) else lookup j t)
  unfolding modify
  lookup-modify j k f [] = ground arith
  lookup-modify j k f ((i, r) ∷ t) = ground (arith, lookup-modify j k f t)

  pub count_rows-modify :
      (p : R → Bool) (k : ℕ) (f : R → R) (t : Table R)
      → ((r : R) → p (f r) ≡ p r)
      → count_rows p (modify k f t) ≡ count_rows p t
  unfolding modify
  count_rows-modify p k f [] h = refl
  count_rows-modify p k f ((i, r) ∷ t) h = ground (arith, count_rows-modify p k f t h, h r)

  pub All-modify :
      (P : ℕ × R → Type 0) (k : ℕ) (f : R → R) (t : Table R)
      → ((j : ℕ) (r : R) → P (j, r) → P (j, f r))
      → All P t
      → All P (modify k f t)
  unfolding modify
  All-modify P k f [] h a = tt
  All-modify P k f ((i, r) ∷ t) h (a, as') = elim (Bool-cases (i == k)) [
    | inl e ↦ rw e (h i r a, as')
    | inr e ↦ rw e (a, All-modify P k f t h as')
  ]

  -- No two rows have one key.
  abbrev pub HasDistinctKeys : Table R → Type 0
  HasDistinctKeys [] = Unit
  HasDistinctKeys ((k, r) ∷ t) = (lookup k t ≡ none) × HasDistinctKeys t

  pub modify-HasDistinctKeys :
      (k : ℕ) (f : R → R) (t : Table R) → HasDistinctKeys t → HasDistinctKeys (modify k f t)
  unfolding modify
  modify-HasDistinctKeys k f [] h = tt
  modify-HasDistinctKeys k f ((i, r) ∷ t) (h, hs) = elim (Bool-cases (i == k)) [
    | inl e ↦ rw e (h, hs)
    | inr e ↦ rw e (ground (arith, lookup-modify i k f t), modify-HasDistinctKeys k f t hs)
  ]

  -- Whether the row under a key passes a test.
  unfoldable pub matches : (R → Bool) → ℕ → Table R → Bool
  matches test k t = elim (lookup k t) [ none ↦ false | some r ↦ test r ]

  pub matches-lookup :
      (q : R → Bool) (k : ℕ) (t : Table R) {r : R} {b : Bool}
      → lookup k t ≡ some r
      → matches q k t ≡ b
      → q r ≡ b
  unfolding matches
  matches-lookup q k t e h = ground arith

  any_key_none :
      (q : R → Bool) (k : ℕ) (t : Table R)
      → lookup k t ≡ none
      → any (λ row. row.0 == k && q row.1) t ≡ false
  any_key_none q k [] h = refl
  any_key_none q k ((i, r) ∷ t) h = ground (arith, any_key_none q k t)

  -- With distinct keys a search through the rows agrees with the select by key.
  pub any-eq-matches :
      (q : R → Bool) (k : ℕ) (t : Table R)
      → HasDistinctKeys t
      → any (λ row. row.0 == k && q row.1) t ≡ matches q k t
  unfolding matches
  any-eq-matches q k [] h = refl
  any-eq-matches q k ((i, r) ∷ t) (h, hs) =
      ground (arith, any-eq-matches q k t hs, any_key_none q k t, ==_iff i k)

  pub All-lookup :
      (P : ℕ × R → Type 0) (t : Table R)
      → HasDistinctKeys t
      → ((k : ℕ) (r : R) → lookup k t ≡ some r → P (k, r))
      → All P t
  All-lookup P [] h f = tt
  All-lookup P ((i, r) ∷ t) (h, hs) f = (
    f i r (rw (==_refl i)),
    All-lookup P t hs λ k r' e. elim (Bool-cases (i == k)) [
      | inl same ↦ absurd (cc ((==_iff i k).0 same))
      | inr other ↦ f k r' (rw other e)
    ],
  )

  -- `UPDATE ... SET ... WHERE test`, by the key and the row.
  unfoldable pub update_rows : (ℕ → R → Bool) → (R → R) → Table R → Table R
  update_rows p f [] = []
  update_rows p f ((j, r) ∷ t) =
      let rest = update_rows p f t in if p j r then (j, f r) ∷ rest else (j, r) ∷ rest

  -- Rows counted by the key as well.
  abbrev pub count_keyed : (ℕ → R → Bool) → Table R → ℕ
  count_keyed p [] = 0
  count_keyed p ((j, r) ∷ t) = let rest = count_keyed p t in if p j r then suc rest else rest

  pub lookup-update_rows :
      (j : ℕ) (p : ℕ → R → Bool) (f : R → R) (t : Table R)
      → lookup j (update_rows p f t)
        ≡ (elim (lookup j t) [ none ↦ none | some r ↦ some (if p j r then f r else r) ])
  unfolding update_rows
  lookup-update_rows j p f [] = refl
  lookup-update_rows j p f ((i, r) ∷ t) = ground (arith, lookup-update_rows j p f t, ==_iff i j)

  pub lookup-update_rows_other :
      (j : ℕ) (p : ℕ → R → Bool) (f : R → R) (t : Table R)
      → ((r : R) → p j r ≡ false)
      → lookup j (update_rows p f t) ≡ lookup j t
  lookup-update_rows_other j p f t h = elim (Option-cases (lookup j t)) [
    | inl e ↦ ground (arith, lookup-update_rows j p f t)
    | inr (r, e) ↦ ground (arith, lookup-update_rows j p f t, h r)
  ]

  -- The count after an update, row by row.
  pub count_keyed-update_rows :
      (q p : ℕ → R → Bool) (f : R → R) (t : Table R)
      → count_keyed q (update_rows p f t)
        ≡ count_keyed (λ j r. if p j r then q j (f r) else q j r) t
  unfolding update_rows
  count_keyed-update_rows q p f [] = refl
  count_keyed-update_rows q p f ((i, r) ∷ t) = ground (arith, count_keyed-update_rows q p f t)

  pub count_keyed-same :
      (q p : ℕ → R → Bool) (t : Table R)
      → ((j : ℕ) (r : R) → q j r ≡ p j r)
      → count_keyed q t ≡ count_keyed p t
  count_keyed-same q p [] h = refl
  count_keyed-same q p ((i, r) ∷ t) h = ground (arith, h i r, count_keyed-same q p t h)
