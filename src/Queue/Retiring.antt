-- ===== src/Queue/Retiring.antt =====
-- The clearing of queued invocations row by row keeps the queue sound.
use plastic_wan.Base.{
  ℕ, ◌≡◌, refl, sym, subst, ap, ◌∙◌, Bool, true, false, ◌||◌, ◌⊎◌, inl, inr, some, List, ◌==◌,
  if◌then◌else◌, Table, lookup, update_rows, lookup-update_rows, matches, Bool-cases, ==_iff,
  ==_refl, arith,
}
use plastic_wan.Queue.Tables.{Bucket, Invocation, Join, Conversation}
use plastic_wan.Queue.Insert.{is_queued_bucket, is_queued, is_running, is_joined}
use plastic_wan.Queue.Clearing.{belongs}
use plastic_wan.Queue.Sound.{
  is_queued_at, IsSound, update_buckets-IsSound, update_invocations-IsSound, belongs-opening,
}
use plastic_wan.Queue.Ending.{end_one-IsSound}
use plastic_wan.Queue.Expiring.{queued_at-update_rows}

-- An invocation that may be retired: it is queued, or has ended with its buckets off the queue.
pub record MayRetire (bs : Table Bucket) (is : Table Invocation) (js : List Join)
    (row : ℕ × Invocation) : Type 0 where
  pub present : Invocation
  pub found : lookup row.0 is ≡ some present
  pub opening : present.bucket_id ≡ row.1.bucket_id
  pub idle : is_running present.state ≡ false
  pub alone : (b : ℕ) → belongs row.0 row.1.bucket_id js b ≡ (b == row.1.bucket_id)
  pub off : is_queued present.state ≡ false → is_queued_at row.1.bucket_id bs ≡ false

pub queued-MayRetire :
    (cs : Table Conversation) (bs : Table Bucket) (is : Table Invocation) (js : List Join)
    (row : ℕ × Invocation)
    → IsSound cs bs is js
    → lookup row.0 is ≡ some row.1
    → is_queued row.1.state ≡ true
    → MayRetire bs is js row
unfolding is_queued is_running
queued-MayRetire cs bs is js (id, i) v e q = record {
  present = i;
  found = e;
  opening = refl;
  idle = ground arith;
  alone = belongs-opening cs bs is js id i v e q;
  off = λ h. ground arith;
}

module _ (cs : Table Conversation) (bs : Table Bucket) (is : Table Invocation) (js : List Join)
    (f : Invocation → Invocation) (g : Bucket → Bucket)
    (ends : (r : Invocation) → (is_queued (f r).state ≡ false) × (is_running (f r).state ≡ false))
    (same : (r : Invocation) → (f r).bucket_id ≡ r.bucket_id)
    (after : (r : Bucket) → is_queued_bucket (g r).state ≡ false) (p : ℕ → Invocation → Bool)
    (row : ℕ × Invocation) (only : (j : ℕ) (r : Invocation) → p j r ≡ true → j ≡ row.0)
    (hits : (r : Invocation) → is_queued r.state ≡ true → p row.0 r ≡ true) where
  pub retire-IsSound :
      MayRetire bs is js row
      → IsSound cs bs is js
      → IsSound cs
          (update_rows (λ b r. belongs row.0 row.1.bucket_id js b) g bs)
          (update_rows p f is)
          js
  unfolding is_queued_at matches
  retire-IsSound m v = elim (Bool-cases (is_queued m.present.state)) [
    | inl queued ↦
        subst
          (λ opening.
            IsSound cs (update_rows (λ b r. b == opening || is_joined row.0 b js) g bs)
              (update_rows p f is) js)
          m.opening
          (end_one-IsSound cs bs is js row.0 m.present p f g v m.found queued
            (hits m.present queued) only ends same after)
    | inr ended ↦
        update_buckets-IsSound cs (λ b r. belongs row.0 row.1.bucket_id js b) g bs
          (update_rows p f is) js (idle_bucket ended) after
          (update_invocations-IsSound cs bs p f is js (λ j i e h. stale ended j i e h) ends same v)
  ]
    where
      stale :
          is_queued m.present.state ≡ false
          → (j : ℕ) (i : Invocation) → lookup j is ≡ some i
          → p j i ≡ true
          → is_queued i.state ≡ false
      stale ended j i e h =
          let key = only j i h in
          let here : lookup row.0 is ≡ some i = cc in
          let found = m.found in let one : m.present ≡ i = cc in cc

      idle_bucket :
          is_queued m.present.state ≡ false
          → (j : ℕ) (b : Bucket) → lookup j bs ≡ some b
          → belongs row.0 row.1.bucket_id js j ≡ true
          → is_queued_bucket b.state ≡ false
      idle_bucket ended j b e h = ground (arith, m.alone j, ==_iff j row.1.bucket_id, m.off ended)

  -- A row that could be retired still can.
  pub retire-MayRetire :
      (other : ℕ × Invocation)
      → MayRetire bs is js row
      → MayRetire bs is js other
      → MayRetire
          (update_rows (λ b r. belongs row.0 row.1.bucket_id js b) g bs)
          (update_rows p f is)
          js
          other
  retire-MayRetire other m o = record {
    present = if p other.0 o.present then f o.present else o.present;
    found = ground (arith, o.found, lookup-update_rows other.0 p f is);
    opening = ground (arith, o.opening, same o.present);
    idle = ground (arith, o.idle, ends o.present);
    alone = o.alone;
    off = λ h. ground (
      arith,
      queued_at-update_rows g (λ b. belongs row.0 row.1.bucket_id js b) other.1.bucket_id bs after,
      o.off,
      taken (Bool-cases (p other.0 o.present)),
    );
  }
    where
      taken :
          (p other.0 o.present ≡ true) ⊎ (p other.0 o.present ≡ false)
          → (p other.0 o.present ≡ false)
            ⊎ (belongs row.0 row.1.bucket_id js other.1.bucket_id ≡ true)
      taken (inr e) = inl e
      taken (inl e) =
          let key = only other.0 o.present e in
          let found = o.found in
          let here : lookup row.0 is ≡ some o.present = cc in
          let there = m.found in
          let one : m.present ≡ o.present = cc in
          let opening : row.1.bucket_id ≡ other.1.bucket_id =
            sym m.opening ∙ (ap (λ (i : Invocation). i.bucket_id) one ∙ o.opening) in
          inr (ground (arith, ==_refl other.1.bucket_id))
