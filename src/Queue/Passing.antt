-- ===== src/Queue/Passing.antt =====
-- `processDue` keeps the queue sound.
use plastic_wan.Base.{
  ℕ, ◌≡◌, true, false, Option, none, some, List, [], ◌∷◌, ◌==◌, filter, All, All-sort, lookup,
  matches, HasDistinctKeys, Ensures, Ensures->>=, arith,
}
use plastic_wan.Sleep.State.{active_sleep_until}
use plastic_wan.Queue.Tables.{Bucket, State, Environment}
use plastic_wan.Queue.Due.{
  is_due_bucket, by_deadline, due_buckets, process_bucket, process_buckets, process_due,
}
use plastic_wan.Queue.Keys.{sort-HasDistinctKeys, filter-HasDistinctKeys, All-lookup-filter}
use plastic_wan.Queue.Sound.{Sound}
use plastic_wan.Queue.Gates.{is_collecting_at, Touches, process_bucket-Touches}

module _ (env : Environment) (now : ℕ) where
  -- The buckets of the later rows are still collecting.
  pub still_collecting :
      (id : ℕ) (s t : State) (rows : List (ℕ × Bucket))
      → ((j : ℕ) → (j == id) ≡ false → lookup j t.buckets ≡ lookup j s.buckets)
      → lookup id rows ≡ none
      → All (λ row. is_collecting_at row.0 s ≡ true) rows
      → All (λ row. is_collecting_at row.0 t ≡ true) rows
  unfolding matches
  still_collecting id s t [] frame apart h = tt
  still_collecting id s t ((j, b) ∷ rows) frame apart (h, hs) =
      (ground (arith, frame j), still_collecting id s t rows frame (ground arith) hs)

  process_buckets-Sound :
      (sleep_until : Option ℕ) (rows : List (ℕ × Bucket)) (s : State) (ids : List ℕ)
      → HasDistinctKeys rows
      → All (λ row. is_collecting_at row.0 s ≡ true) rows
      → Sound s
      → Ensures (λ p. Sound p.0) (process_buckets env now sleep_until rows (s, ids))
  unfolding process_buckets
  process_buckets-Sound sleep_until [] s ids d h v = v
  process_buckets-Sound sleep_until ((id, b) ∷ rows) s ids (apart, d) (h, hs) v =
      Ensures->>= (λ p. Touches id s p.0) (λ p. Sound p.0)
        (process_bucket env now sleep_until (id, b) (s, ids))
        (λ next. process_buckets env now sleep_until rows next)
        (process_bucket-Touches env now sleep_until id b s ids h v)
        (λ p (sound, frame).
          process_buckets-Sound sleep_until rows p.0 p.1 d
            (still_collecting id s p.0 rows frame apart hs) sound)

  pub collecting_rows :
      (s : State) (rows : List (ℕ × Bucket))
      → All (λ row. (lookup row.0 s.buckets ≡ some row.1) × (is_due_bucket now s row ≡ true)) rows
      → All (λ row. is_collecting_at row.0 s ≡ true) rows
  unfolding is_due_bucket matches
  collecting_rows s [] h = tt
  collecting_rows s ((id, b) ∷ rows) ((e, due), hs) = (ground arith, collecting_rows s rows hs)

  pub process_due-Sound : (s : State) → Sound s → Ensures (λ p. Sound p.0) (process_due env now s)
  unfolding process_due due_buckets
  process_due-Sound s v =
      let woken = active_sleep_until now s.sleep in
      let awake = record s { sleep = woken.0 } in
      let due = filter (is_due_bucket now awake) s.buckets in
      process_buckets-Sound woken.1 (due_buckets now awake) awake []
        (sort-HasDistinctKeys by_deadline due
          (filter-HasDistinctKeys (is_due_bucket now awake) s.buckets v.distinct_buckets))
        (All-sort by_deadline (λ row. is_collecting_at row.0 awake ≡ true) due
          (collecting_rows awake due
            (All-lookup-filter (is_due_bucket now awake) s.buckets v.distinct_buckets)))
        v
