-- ===== src/Queue/Ending.antt =====
-- Queued invocations that end with their buckets keep the queue sound.
use plastic_wan.Base.{
  ℕ, ◌≡◌, Bool, true, false, ◌||◌, inl, inr, some, List, ◌==◌, if◌then◌else◌, Table, lookup,
  update_rows, lookup-update_rows, matches, Option-cases, ==_iff, arith,
}
use plastic_wan.Queue.Tables.{Bucket, Invocation, Join, Conversation}
use plastic_wan.Queue.Insert.{is_queued_bucket, is_queued, is_running, is_joined}
use plastic_wan.Queue.Keys.{update_rows-HasDistinctKeys}
use plastic_wan.Queue.Counting.{count_keyed-modify, update_rows-eq-modify}
use plastic_wan.Queue.Sound.{
  opens, is_queued_at, IsSound, serial-update_rows, own-update_rows, opening-queued,
  belongs-opening,
}

-- A bucket after its invocation has ended.
is_queued_at-update :
    (g : Bucket → Bucket) (p : ℕ → Bucket → Bool) (b opening : ℕ) (bs : Table Bucket)
    → ((r : Bucket) → is_queued_bucket (g r).state ≡ false)
    → ((r : Bucket) → p b r ≡ (b == opening))
    → is_queued_at b (update_rows p g bs) ≡ (if b == opening then false else is_queued_at b bs)
unfolding is_queued_at matches
is_queued_at-update g p b opening bs after chosen = elim (Option-cases (lookup b bs)) [
  | inl e ↦ ground (arith, lookup-update_rows b p g bs)
  | inr (r, e) ↦ ground (arith, lookup-update_rows b p g bs, chosen r, after r)
]

module _ (cs : Table Conversation) (bs : Table Bucket) (is : Table Invocation) (js : List Join)
    (id : ℕ) (i : Invocation) (p : ℕ → Invocation → Bool) (f : Invocation → Invocation)
    (g : Bucket → Bucket) where
  -- One queued invocation ends, with the buckets that are joined to it.
  pub end_one-IsSound :
      IsSound cs bs is js
      → lookup id is ≡ some i
      → is_queued i.state ≡ true
      → p id i ≡ true
      → ((j : ℕ) (r : Invocation) → p j r ≡ true → j ≡ id)
      → ((r : Invocation) → (is_queued (f r).state ≡ false) × (is_running (f r).state ≡ false))
      → ((r : Invocation) → (f r).bucket_id ≡ r.bucket_id)
      → ((r : Bucket) → is_queued_bucket (g r).state ≡ false)
      → IsSound cs
          (update_rows (λ j b. j == i.bucket_id || is_joined id j js) g bs)
          (update_rows p f is)
          js
  unfolding opens
  end_one-IsSound v e q hit only ends same after = record {
    distinct_buckets = update_rows-HasDistinctKeys _ g bs v.distinct_buckets;
    distinct = update_rows-HasDistinctKeys p f is v.distinct;
    serial = serial-update_rows cs p f is ends v.serial;
    opened = λ b.
        let swap = update_rows-eq-modify p f id is v.distinct e hit only in
        let counted = count_keyed-modify (opens b) id f is e in
        let gone =
          is_queued_at-update g (λ j r. j == i.bucket_id || is_joined id j js) b i.bucket_id bs
            after (λ r. belongs-opening cs bs is js id i v e q b) in
        rw swap (
          ground (
            arith,
            counted,
            gone,
            v.opened b,
            ends i,
            ==_iff i.bucket_id b,
            ==_iff b i.bucket_id,
            opening-queued cs bs is js id i v e q,
          ));
    own = λ j b joined. own-update_rows cs p f is ends j b same (v.own j b joined);
  }
