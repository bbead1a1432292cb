-- ===== src/Queue/Starting.antt =====
-- New queued invocations, launches and attached buckets keep the queue sound.
use plastic_wan.Base.{
  ℕ, ◌≡◌, true, false, ◌||◌, ◌⊎◌, inl, inr, none, some, List, ◌∷◌, ◌==◌, if◌then◌else◌, Table,
  lookup, insert, modify, lookup-modify, modify-HasDistinctKeys, count_keyed, matches,
  HasDistinctKeys, Option-cases, ==_iff, arith,
}
use plastic_wan.Queue.Tables.{Bucket, Invocation, Join, Conversation}
use plastic_wan.Queue.Insert.{is_queued_bucket, is_queued, is_running}
use plastic_wan.Queue.Counting.{count_keyed-modify}
use plastic_wan.Queue.Sound.{
  in_chat_of, runs_in, opens, is_queued_at, joins_own, IsSound, opening-queued,
}

module _ (cs : Table Conversation) (bs : Table Bucket) (is : Table Invocation)
    (js : List Join) where
  -- A new invocation is queued with its bucket, which was not queued.
  pub insert_queued-IsSound :
      (bs' : Table Bucket) (id now : ℕ) (i : Invocation)
      → HasDistinctKeys bs'
      → ((c : ℕ) → is_queued_at c bs' ≡ (c == i.bucket_id || is_queued_at c bs))
      → is_queued_at i.bucket_id bs ≡ false
      → lookup id is ≡ none
      → is_queued i.state ≡ true
      → is_running i.state ≡ false
      → IsSound cs bs is js
      → IsSound cs bs' (insert id i is) (
          record {
            invocation_id = id;
            bucket_id = i.bucket_id;
            attached_at = now;
            injected_at = none;
          }
          ∷ js)
  unfolding opens runs_in joins_own
  insert_queued-IsSound bs' id now i d queued before fresh q r v = record {
    distinct_buckets = d;
    distinct = (fresh, v.distinct);
    serial = λ c. ground (arith, v.serial c);
    opened = λ b. ground (arith, v.opened b, queued b, ==_iff b i.bucket_id, ==_iff i.bucket_id b);
    own = λ j b joined. ground (arith, v.own j b, ==_iff id j, ==_iff i.bucket_id b);
  }

  -- A bucket is attached to an invocation that is not queued.
  pub attach-IsSound :
      (id b now : ℕ) (i : Invocation)
      → lookup id is ≡ some i
      → is_queued i.state ≡ false
      → IsSound cs bs is js
      → IsSound cs bs is
          (record { invocation_id = id; bucket_id = b; attached_at = now; injected_at = none } ∷ js)
  unfolding joins_own
  attach-IsSound id b now i e q v = record {
    distinct_buckets = v.distinct_buckets;
    distinct = v.distinct;
    serial = v.serial;
    opened = v.opened;
    own = λ j c joined. ground (arith, v.own j c, ==_iff id j);
  }

  -- A queued invocation starts in a chat that runs nothing, with its bucket.
  pub launch-IsSound :
      (id : ℕ) (i : Invocation) (f : Invocation → Invocation) (g : Bucket → Bucket)
      → lookup id is ≡ some i
      → is_queued i.state ≡ true
      → is_running i.state ≡ false
      → is_queued (f i).state ≡ false
      → (f i).conversation_id ≡ i.conversation_id
      → ((r : Bucket) → is_queued_bucket (g r).state ≡ false)
      → ((c : ℕ) → in_chat_of cs c i.conversation_id ≡ true → count_keyed (runs_in cs c) is ≡ 0)
      → IsSound cs bs is js
      → IsSound cs (modify i.bucket_id g bs) (modify id f is) js
  unfolding opens runs_in joins_own is_queued_at matches
  launch-IsSound id i f g e q r started same after idle v = record {
    distinct_buckets = modify-HasDistinctKeys i.bucket_id g bs v.distinct_buckets;
    distinct = modify-HasDistinctKeys id f is v.distinct;
    serial = λ c. ground (arith, v.serial c, idle c, count_keyed-modify (runs_in cs c) id f is e);
    opened = λ b. ground (
      arith,
      v.opened b,
      count_keyed-modify (opens b) id f is e,
      opening-queued cs bs is js id i v e q,
      lookup-modify b i.bucket_id g bs,
      bucket_after b (Option-cases (lookup b bs)),
      ==_iff i.bucket_id b,
    );
    own = λ j b joined. ground (arith, v.own j b joined, lookup-modify j id f is, ==_iff id j);
  }
    where
      bucket_after :
          (b : ℕ)
          → (lookup b bs ≡ none) ⊎ ((r : Bucket) × (lookup b bs ≡ some r))
          → is_queued_at b (modify i.bucket_id g bs)
            ≡ (if i.bucket_id == b then false else is_queued_at b bs)
      bucket_after b (inl none_here) = ground (arith, lookup-modify b i.bucket_id g bs)
      bucket_after b (inr (r, here)) = ground (arith, lookup-modify b i.bucket_id g bs, after r)
