-- ===== src/Queue/Sound.antt =====
-- The invariant of the queue: a bucket is queued exactly when one queued invocation opens with it, a
-- queued invocation has no other bucket, and no chat has two running invocations.
use plastic_wan.Base.{
  ℕ, ◌≤◌, ◌≡◌, sym, ◌∙◌, Bool, true, false, not, ◌&&◌, ◌||◌, ◌⊎◌, inl, inr, Option, none, some,
  List, ◌==◌, if◌then◌else◌, Table, lookup, update_rows, lookup-update_rows, count_keyed,
  count_keyed-update_rows, matches, HasDistinctKeys, Bool-cases, Option-cases, ==_iff, ==_refl,
  arith,
}
use plastic_wan.Queue.Tables.{Bucket, Invocation, Join, Conversation, State}
use plastic_wan.Queue.Insert.{is_queued_bucket, is_queued, is_running, is_joined}
use plastic_wan.Queue.Keys.{update_rows-HasDistinctKeys}
use plastic_wan.Queue.Counting.{bit, count_keyed_pos, count_keyed_le, count_keyed-same_rows}

abbrev pub in_chat_of : Table Conversation → ℕ → ℕ → Bool
in_chat_of cs chat_id conversation_id = elim (lookup conversation_id cs) [
  | none ↦ false
  | some v ↦ v.chat_id == chat_id
]

-- A running invocation of a chat.
unfoldable pub runs_in : Table Conversation → ℕ → ℕ → Invocation → Bool
unfolding is_running
runs_in cs chat_id j i = in_chat_of cs chat_id i.conversation_id && is_running i.state

-- A queued invocation that opens with a bucket.
unfoldable pub opens : ℕ → ℕ → Invocation → Bool
unfolding is_queued
opens bucket_id j i = is_queued i.state && i.bucket_id == bucket_id

unfoldable pub is_queued_at : ℕ → Table Bucket → Bool
unfolding is_queued_bucket
is_queued_at bucket_id bs = matches (λ (b : Bucket). is_queued_bucket b.state) bucket_id bs

-- Whether a join is the opening one, if its invocation is queued.
unfoldable pub joins_own : Option Invocation → ℕ → Bool
unfolding is_queued
joins_own none bucket_id = false
joins_own (some i) bucket_id = not (is_queued i.state) || i.bucket_id == bucket_id

pub record IsSound (cs : Table Conversation) (bs : Table Bucket) (is : Table Invocation)
    (js : List Join) : Type 0 where
  pub distinct_buckets : HasDistinctKeys bs
  pub distinct : HasDistinctKeys is
  -- no chat runs two invocations
  pub serial : (chat_id : ℕ) → count_keyed (runs_in cs chat_id) is ≤ 1
  -- a queued bucket opens one queued invocation, and any other bucket none
  pub opened : (bucket_id : ℕ) → count_keyed (opens bucket_id) is ≡ bit (is_queued_at bucket_id bs)
  -- a joined invocation exists, and if it is queued the join is its opening one
  pub own :
      (id bucket_id : ℕ)
      → is_joined id bucket_id js ≡ true
      → joins_own (lookup id is) bucket_id ≡ true

abbrev pub Sound : State → Type 0
Sound s = IsSound s.conversations s.buckets s.invocations s.joins

-- A write of buckets that queues none and takes none off the queue.
pub buckets-IsSound :
    (cs : Table Conversation) (bs bs' : Table Bucket) (is : Table Invocation) (js : List Join)
    → HasDistinctKeys bs'
    → ((b : ℕ) → is_queued_at b bs' ≡ is_queued_at b bs)
    → IsSound cs bs is js
    → IsSound cs bs' is js
buckets-IsSound cs bs bs' is js d same v = record {
  distinct_buckets = d;
  distinct = v.distinct;
  serial = v.serial;
  opened = λ b. v.opened b ∙ sym (ground (arith, same b));
  own = v.own;
}

-- Such a write by `update_rows`: no chosen bucket enters the queue or leaves it.
pub kept_buckets-IsSound :
    (cs : Table Conversation) (p : ℕ → Bucket → Bool) (f : Bucket → Bucket) (bs : Table Bucket)
    (is : Table Invocation) (js : List Join)
    → ((j : ℕ) (b : Bucket)
        → lookup j bs ≡ some b
        → p j b ≡ true
        → is_queued_bucket (f b).state ≡ is_queued_bucket b.state)
    → IsSound cs bs is js
    → IsSound cs (update_rows p f bs) is js
unfolding is_queued_at matches
kept_buckets-IsSound cs p f bs is js kept v =
    buckets-IsSound cs bs (update_rows p f bs) is js
      (update_rows-HasDistinctKeys p f bs v.distinct_buckets)
      (λ j. same j (Option-cases (lookup j bs))) v
  where
    same :
        (j : ℕ)
        → (lookup j bs ≡ none) ⊎ ((b : Bucket) × (lookup j bs ≡ some b))
        → is_queued_at j (update_rows p f bs) ≡ is_queued_at j bs
    same j (inl e) = ground (arith, lookup-update_rows j p f bs)
    same j (inr (b, e)) = ground (arith, lookup-update_rows j p f bs, kept j b e)

-- The chosen buckets are not queued, before and after.
pub update_buckets-IsSound :
    (cs : Table Conversation) (p : ℕ → Bucket → Bool) (f : Bucket → Bucket) (bs : Table Bucket)
    (is : Table Invocation) (js : List Join)
    → ((j : ℕ) (b : Bucket)
        → lookup j bs ≡ some b
        → p j b ≡ true
        → is_queued_bucket b.state ≡ false)
    → ((b : Bucket) → is_queued_bucket (f b).state ≡ false)
    → IsSound cs bs is js
    → IsSound cs (update_rows p f bs) is js
update_buckets-IsSound cs p f bs is js before after =
    kept_buckets-IsSound cs p f bs is js (λ j b e h. after b ∙ sym (before j b e h))

module _ (cs : Table Conversation) (p : ℕ → Invocation → Bool) (f : Invocation → Invocation)
    (is : Table Invocation)
    (ends : (i : Invocation)
      → (is_queued (f i).state ≡ false) × (is_running (f i).state ≡ false)) where
  -- Invocations that end start no run.
  pub serial-update_rows :
      ((chat_id : ℕ) → count_keyed (runs_in cs chat_id) is ≤ 1)
      → (chat_id : ℕ) → count_keyed (runs_in cs chat_id) (update_rows p f is) ≤ 1
  unfolding runs_in
  serial-update_rows h c = ground (
    arith,
    h c,
    count_keyed-update_rows (runs_in cs c) p f is,
    count_keyed_le (λ j r. if p j r then runs_in cs c j (f r) else runs_in cs c j r) (runs_in cs c)
        is fewer,
  )
    where
      fewer :
          (j : ℕ) (r : Invocation)
          → (if p j r then runs_in cs c j (f r) else runs_in cs c j r) ≡ true
          → runs_in cs c j r ≡ true
      fewer j r e = ground (arith, ends r)

  pub own-update_rows :
      (id bucket_id : ℕ)
      → ((i : Invocation) → (f i).bucket_id ≡ i.bucket_id)
      → joins_own (lookup id is) bucket_id ≡ true
      → joins_own (lookup id (update_rows p f is)) bucket_id ≡ true
  unfolding joins_own
  own-update_rows id b same h = elim (Option-cases (lookup id is)) [
    | inl e ↦ ground (arith, lookup-update_rows id p f is)
    | inr (i, e) ↦ ground (arith, lookup-update_rows id p f is, same i, ends i)
  ]

-- A write that ends invocations which are not queued.
pub update_invocations-IsSound :
    (cs : Table Conversation) (bs : Table Bucket) (p : ℕ → Invocation → Bool)
    (f : Invocation → Invocation) (is : Table Invocation) (js : List Join)
    → ((j : ℕ) (i : Invocation) → lookup j is ≡ some i → p j i ≡ true → is_queued i.state ≡ false)
    → ((i : Invocation) → (is_queued (f i).state ≡ false) × (is_running (f i).state ≡ false))
    → ((i : Invocation) → (f i).bucket_id ≡ i.bucket_id)
    → IsSound cs bs is js
    → IsSound cs bs (update_rows p f is) js
unfolding opens
update_invocations-IsSound cs bs p f is js before after same v = record {
  distinct_buckets = v.distinct_buckets;
  distinct = update_rows-HasDistinctKeys p f is v.distinct;
  serial = serial-update_rows cs p f is after v.serial;
  opened = λ b.
      count_keyed-update_rows (opens b) p f is
      ∙ (count_keyed-same_rows (λ j r. if p j r then opens b j (f r) else opens b j r) (opens b) is
            v.distinct (unchanged b)
          ∙ v.opened b);
  own = λ id b j. own-update_rows cs p f is after id b same (v.own id b j);
}
  where
    unchanged :
        (b j : ℕ) (r : Invocation)
        → lookup j is ≡ some r
        → (if p j r then opens b j (f r) else opens b j r) ≡ opens b j r
    unchanged b j r e = ground (arith, before j r e, after r)

-- The bucket of a queued invocation is queued, and is the only one that is joined to it.
pub opening-queued :
    (cs : Table Conversation) (bs : Table Bucket) (is : Table Invocation) (js : List Join) (id : ℕ)
    (i : Invocation)
    → IsSound cs bs is js
    → lookup id is ≡ some i
    → is_queued i.state ≡ true
    → is_queued_at i.bucket_id bs ≡ true
unfolding opens
opening-queued cs bs is js id i v e q = ground (
  arith,
  v.opened i.bucket_id,
  count_keyed_pos (opens i.bucket_id) id is e (ground (arith, ==_refl i.bucket_id)),
)

pub belongs-opening :
    (cs : Table Conversation) (bs : Table Bucket) (is : Table Invocation) (js : List Join) (id : ℕ)
    (i : Invocation)
    → IsSound cs bs is js
    → lookup id is ≡ some i
    → is_queued i.state ≡ true
    → (b : ℕ) → (b == i.bucket_id || is_joined id b js) ≡ (b == i.bucket_id)
unfolding joins_own
belongs-opening cs bs is js id i v e q b = elim (Bool-cases (is_joined id b js)) [
  | inl joined ↦ ground (arith, v.own id b joined, ==_iff i.bucket_id b, ==_iff b i.bucket_id)
  | inr apart ↦ ground arith
]
