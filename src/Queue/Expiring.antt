-- ===== src/Queue/Expiring.antt =====
-- Whole sets of queued invocations that end with their buckets keep the queue sound.
use plastic_wan.Base.{
  ℕ, ◌≤◌, ◌≡◌, refl, sym, ◌∙◌, Bool, true, false, not, ◌&&◌, ◌||◌, ◌⊎◌, inl, inr, some, List, [],
  ◌∷◌, ◌==◌, if◌then◌else◌, any, Table, lookup, update_rows, lookup-update_rows, count_keyed,
  count_keyed-update_rows, count_keyed-same, matches, Bool-cases, Option-cases, ==_iff, ==_refl,
  arith,
}
use plastic_wan.Queue.Tables.{Bucket, Invocation, Join, Conversation}
use plastic_wan.Queue.Insert.{is_queued_bucket, is_queued, is_running, is_joined}
use plastic_wan.Queue.Keys.{update_rows-HasDistinctKeys}
use plastic_wan.Queue.Counting.{
  bit, count_keyed_never, count_keyed_none, count_keyed_pos, count_keyed-split, any-lookup,
}
use plastic_wan.Queue.Sound.{
  opens, is_queued_at, IsSound, serial-update_rows, own-update_rows, belongs-opening,
}

pub queued_at-update_rows :
    (g : Bucket → Bucket) (p : ℕ → Bool) (b : ℕ) (bs : Table Bucket)
    → ((r : Bucket) → is_queued_bucket (g r).state ≡ false)
    → is_queued_at b (update_rows (λ j r. p j) g bs) ≡ (not (p b) && is_queued_at b bs)
unfolding is_queued_at matches
queued_at-update_rows g p b bs after = elim (Option-cases (lookup b bs)) [
  | inl e ↦ ground (arith, lookup-update_rows b (λ j r. p j) g bs)
  | inr (r, e) ↦ ground (arith, lookup-update_rows b (λ j r. p j) g bs, after r)
]

module _ (cs : Table Conversation) (bs : Table Bucket) (is : Table Invocation) (js : List Join)
    (f : Invocation → Invocation) (g : Bucket → Bucket)
    (ends : (r : Invocation) → (is_queued (f r).state ≡ false) × (is_running (f r).state ≡ false))
    (same : (r : Invocation) → (f r).bucket_id ≡ r.bucket_id)
    (after : (r : Bucket) → is_queued_bucket (g r).state ≡ false) where
  -- A bucket leaves the queue with all queued invocations that it opens.
  pub expire-IsSound :
      (b : ℕ)
      → IsSound cs bs is js
      → IsSound cs
          (update_rows (λ j r. j == b) g bs)
          (update_rows (λ j r. r.bucket_id == b && is_queued r.state) f is)
          js
  unfolding opens
  expire-IsSound b v = record {
    distinct_buckets = update_rows-HasDistinctKeys _ g bs v.distinct_buckets;
    distinct = update_rows-HasDistinctKeys _ f is v.distinct;
    serial = serial-update_rows cs _ f is ends v.serial;
    opened = λ c. counted c ∙ sym (ap_bit c);
    own = λ j c joined. own-update_rows cs _ f is ends j c same (v.own j c joined);
  }
    where
      hit : ℕ → Invocation → Bool
      hit j r = r.bucket_id == b && is_queued r.state

      rest :
          (c j : ℕ) (r : Invocation)
          → (if hit j r then opens c j (f r) else opens c j r) ≡ (not (c == b) && opens c j r)
      rest c j r =
          ground (arith, ends r, ==_iff r.bucket_id b, ==_iff r.bucket_id c, ==_iff c b, ==_refl b)

      left :
          (c : ℕ)
          → count_keyed (λ j r. not (c == b) && opens c j r) is
            ≡ bit (not (c == b) && is_queued_at c bs)
      left c = elim (Bool-cases (c == b)) [
        | inl e ↦ rw e (count_keyed_never (λ j r. false) is (λ j r. refl))
        | inr e ↦ rw e (v.opened c)
      ]

      counted :
          (c : ℕ)
          → count_keyed (opens c) (update_rows (λ j r. r.bucket_id == b && is_queued r.state) f is)
            ≡ bit (not (c == b) && is_queued_at c bs)
      counted c =
          count_keyed-update_rows (opens c) hit f is
          ∙ (count_keyed-same (λ j r. if hit j r then opens c j (f r) else opens c j r)
                (λ j r. not (c == b) && opens c j r) is (rest c)
              ∙ left c)

      ap_bit :
          (c : ℕ)
          → bit (is_queued_at c (update_rows (λ j r. j == b) g bs))
            ≡ bit (not (c == b) && is_queued_at c bs)
      ap_bit c = ground (arith, queued_at-update_rows g (λ j. j == b) c bs after)

  -- Chosen queued invocations end, with every bucket that is joined to one of them.
  pub end_chosen-IsSound :
      (p : ℕ × Invocation → Bool)
      → ((j : ℕ) (r : Invocation) → p (j, r) ≡ true → is_queued r.state ≡ true)
      → IsSound cs bs is js
      → IsSound cs
          (update_rows
            (λ c r. any (λ row. p row && (c == row.1.bucket_id || is_joined row.0 c js)) is)
            g
            bs)
          (update_rows (λ j r. p (j, r)) f is)
          js
  unfolding opens
  end_chosen-IsSound p chosen v = record {
    distinct_buckets = update_rows-HasDistinctKeys _ g bs v.distinct_buckets;
    distinct = update_rows-HasDistinctKeys _ f is v.distinct;
    serial = serial-update_rows cs _ f is ends v.serial;
    opened = λ c. ground (
      arith,
      counted c,
      v.opened c,
      count_keyed-split (opens c) (λ j r. p (j, r)) is,
      queued_at-update_rows g leaves c bs after,
      all_or_none c (Bool-cases (leaves c)),
    );
    own = λ j c joined. own-update_rows cs _ f is ends j c same (v.own j c joined);
  }
    where
      leaves : ℕ → Bool
      leaves c = any (λ row. p row && (c == row.1.bucket_id || is_joined row.0 c js)) is

      rest :
          (c j : ℕ) (r : Invocation)
          → (if p (j, r) then opens c j (f r) else opens c j r) ≡ (opens c j r && not (p (j, r)))
      rest c j r = ground (arith, ends r)

      counted :
          (c : ℕ)
          → count_keyed (opens c) (update_rows (λ j r. p (j, r)) f is)
            ≡ count_keyed (λ j r. opens c j r && not (p (j, r))) is
      counted c =
          count_keyed-update_rows (opens c) (λ j r. p (j, r)) f is
          ∙ count_keyed-same (λ j r. if p (j, r) then opens c j (f r) else opens c j r)
              (λ j r. opens c j r && not (p (j, r))) is (rest c)

      found :
          (c : ℕ)
          → (k : ℕ) × (r : Invocation) × (lookup k is ≡ some r)
            × ((p (k, r) && (c == r.bucket_id || is_joined k c js)) ≡ true)
          → 1 ≤ count_keyed (λ j r. opens c j r && p (j, r)) is
      found c (k, r, here, passes) =
          count_keyed_pos (λ j q. opens c j q && p (j, q)) k is here
            (ground (
              arith,
              chosen k r,
              belongs-opening cs bs is js k r v here (chosen k r (ground arith)) c,
              ==_iff c r.bucket_id,
              ==_refl c,
            ))

      fewer :
          (c : ℕ) (rows : Table Invocation)
          → any (λ row. p row && (c == row.1.bucket_id || is_joined row.0 c js)) rows ≡ false
          → any (λ row. opens c row.0 row.1 && p row) rows ≡ false
      fewer c [] e = refl
      fewer c ((j, r) ∷ rows) e = ground (arith, fewer c rows, ==_iff r.bucket_id c, ==_refl c)

      all_or_none :
          (c : ℕ)
          → (leaves c ≡ true) ⊎ (leaves c ≡ false)
          → ((leaves c ≡ true) × (1 ≤ count_keyed (λ j r. opens c j r && p (j, r)) is))
            ⊎ ((leaves c ≡ false) × (count_keyed (λ j r. opens c j r && p (j, r)) is ≡ 0))
      all_or_none c (inl e) = inl (
        e,
        found c (
            any-lookup (λ row. p row && (c == row.1.bucket_id || is_joined row.0 c js)) is
              v.distinct e),
      )
      all_or_none c (inr e) =
          inr (e, count_keyed_none (λ j r. opens c j r && p (j, r)) is (fewer c is e))
