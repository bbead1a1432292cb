-- ===== src/Queue/Placing.antt =====
-- Each invocation is of the conversation of the bucket that opens it.
use plastic_wan.Base.{
  ℕ, ◌≡◌, subst, ◌∙◌, Bool, true, inl, inr, none, some, ◌==◌, Table, lookup, insert, update_rows,
  lookup-update_rows, matches, Bool-cases, Option-cases, ==_iff, arith,
}
use plastic_wan.Queue.Tables.{Bucket, Invocation, State}

-- Whether a bucket is of a conversation.
unfoldable pub is_at : ℕ → ℕ → Table Bucket → Bool
unfolding matches
is_at bucket_id conversation_id bs =
    matches (λ (b : Bucket). b.conversation_id == conversation_id) bucket_id bs

abbrev pub IsPlaced : Table Bucket → Table Invocation → Type 0
IsPlaced bs is =
    (id : ℕ) (i : Invocation)
    → lookup id is ≡ some i
    → is_at i.bucket_id i.conversation_id bs ≡ true

abbrev pub Placed : State → Type 0
Placed s = IsPlaced s.buckets s.invocations

-- A write that takes no bucket to another conversation, and places what it inserts.
pub record Places (bs : Table Bucket) (is : Table Invocation) (bs' : Table Bucket)
    (is' : Table Invocation) : Type 0 where
  pub keeps : (b c : ℕ) → is_at b c bs ≡ true → is_at b c bs' ≡ true
  pub placed : IsPlaced bs is → IsPlaced bs' is'

abbrev pub Moves : State → State → Type 0
Moves s t = Places s.buckets s.invocations t.buckets t.invocations

pub Moves-refl : (s : State) → Moves s s
Moves-refl s = record { keeps = λ b c h. h; placed = λ v. v }

pub Moves-trans : (s t u : State) → Moves s t → Moves t u → Moves s u
Moves-trans s t u m n = record {
  keeps = λ b c h. n.keeps b c (m.keeps b c h);
  placed = λ v. n.placed (m.placed v);
}

pub is_at-update_rows :
    (b c : ℕ) (p : ℕ → Bucket → Bool) (f : Bucket → Bucket) (bs : Table Bucket)
    → ((r : Bucket) → (f r).conversation_id ≡ r.conversation_id)
    → is_at b c (update_rows p f bs) ≡ is_at b c bs
unfolding is_at
is_at-update_rows b c p f bs same = elim (Option-cases (lookup b bs)) [
  | inl e ↦ ground (arith, lookup-update_rows b p f bs)
  | inr (r, e) ↦ ground (arith, lookup-update_rows b p f bs, same r)
]

module _ (bs : Table Bucket) (is : Table Invocation) where
  pub write_buckets-Places :
      (p : ℕ → Bucket → Bool) (f : Bucket → Bucket)
      → ((r : Bucket) → (f r).conversation_id ≡ r.conversation_id)
      → Places bs is (update_rows p f bs) is
  write_buckets-Places p f same = record {
    keeps = λ b c h. is_at-update_rows b c p f bs same ∙ h;
    placed = λ v id i e. is_at-update_rows i.bucket_id i.conversation_id p f bs same ∙ v id i e;
  }

  pub write_invocations-Places :
      (q : ℕ → Invocation → Bool) (g : Invocation → Invocation)
      → ((i : Invocation)
          → ((g i).bucket_id ≡ i.bucket_id) × ((g i).conversation_id ≡ i.conversation_id))
      → Places bs is bs (update_rows q g is)
  write_invocations-Places q g same = record { keeps = λ b c h. h; placed = placed }
    where
      placed : IsPlaced bs is → IsPlaced bs (update_rows q g is)
      placed v id i e = elim (Option-cases (lookup id is)) [
        | inl lost ↦ ground (arith, lookup-update_rows id q g is)
        | inr (j, here) ↦ ground (arith, lookup-update_rows id q g is, same j, v id j here)
      ]

  pub insert_bucket-Places :
      (b : ℕ) (r : Bucket) → lookup b bs ≡ none → Places bs is (insert b r bs) is
  unfolding is_at
  insert_bucket-Places b r fresh = record {
    keeps = λ j c h. ground (arith, ==_iff b j);
    placed = λ v id i e. ground (arith, v id i e, ==_iff b i.bucket_id);
  }

  pub insert_invocation-Places :
      (id : ℕ) (i : Invocation)
      → is_at i.bucket_id i.conversation_id bs ≡ true
      → Places bs is bs (insert id i is)
  insert_invocation-Places id i at = record {
    keeps = λ b c h. h;
    placed = λ v j k e. elim (Bool-cases (id == j)) [
      | inl same ↦
          let one : i ≡ k = ground arith in
          subst (λ (x : Invocation). is_at x.bucket_id x.conversation_id bs ≡ true) one at
      | inr other ↦ v j k (ground arith)
    ];
  }

-- Writes of buckets and of invocations, one after the other.
pub write_both-Places :
    (bs : Table Bucket) (is : Table Invocation) (p : ℕ → Bucket → Bool) (f : Bucket → Bucket)
    (q : ℕ → Invocation → Bool) (g : Invocation → Invocation)
    → ((r : Bucket) → (f r).conversation_id ≡ r.conversation_id)
    → ((i : Invocation)
        → ((g i).bucket_id ≡ i.bucket_id) × ((g i).conversation_id ≡ i.conversation_id))
    → Places bs is (update_rows p f bs) (update_rows q g is)
write_both-Places bs is p f q g same also =
    let m = write_buckets-Places bs is p f same in
    let n = write_invocations-Places (update_rows p f bs) is q g also in
    record { keeps = m.keeps; placed = λ v. n.placed (m.placed v) }
