-- ===== src/Queue/Collected.antt =====
-- The outcomes of `#appendToBucket` (src/ingress/telegram-ingestion.ts).
use plastic_wan.Base.{
  ℕ, ◌≤◌, ◌≡◌, refl, Bool, true, false, not, ◌&&◌, ◌||◌, inl, inr, some, List, [], ◌∷◌, leb, ◌==◌,
  any, Table, insert, matches, HasDistinctKeys, Bool-cases, Option-cases, ==_iff, ==_refl, ok,
  Ensures, arith,
}
use plastic_wan.Queue.Adopting.{any-in_bucket, any-adopt_pending}
use plastic_wan.Queue.Snapshot.{in_bucket}
use plastic_wan.Queue.Tables.{Bucket, BucketMessage, State, Environment}
use plastic_wan.Queue.Insert.{is_collecting, is_queued_bucket, is_chat_paused}
use plastic_wan.Queue.Sound.{is_queued_at, Sound, buckets-IsSound}
use plastic_wan.Queue.Placing.{Moves, Moves-refl, insert_bucket-Places}
use plastic_wan.Queue.Collect.{
  StoredMessage, conversation_under, collecting_bucket, open_bucket, holds_message, adopt_pending,
  next_number, add_message, open_for, append_to_bucket,
}

abbrev with_message : (bucket_id message_id : ℕ) → State → State
with_message bucket_id message_id s = record s {
  bucket_messages =
      record {
        bucket_id = bucket_id;
        message_id = message_id;
        sequence_no = next_number bucket_id s.bucket_messages;
        source_bucket_id = some bucket_id;
      }
      ∷ s.bucket_messages;
}

-- A message that is added changes the rows of the buckets' messages only.
add_message-Ensures :
    (b id : ℕ) (s : State) (P : State → Type 0)
    → ((rows : List BucketMessage) → P (record s { bucket_messages = rows }))
    → Ensures (λ r. P r.0) (add_message b id s)
unfolding add_message
add_message-Ensures b id s P h = elim (Bool-cases (any (in_bucket b id) s.bucket_messages)) [
  | inl taken ↦ rw (taken, add_message) tt
  | inr free ↦ rw (free, add_message) (h _)
]

-- What every outcome of a collection has.
collect-Ensures :
    (env : Environment) (chat_id thread_id : ℕ) (m : StoredMessage) (now : ℕ) (allowed : Bool)
    (s : State) (P : State → Type 0)
    → P s
    → ((b : ℕ) → Ensures (λ r. P r.0) (add_message b m.id s))
    → ((c : ℕ) → Ensures (λ r. P r.0) (open_for env c m now allowed s))
    → Ensures (λ r. P r.0) (append_to_bucket env chat_id thread_id m now allowed s)
unfolding append_to_bucket
collect-Ensures env chat_id thread_id m now allowed s P unchanged added opened =
    elim (Bool-cases (is_chat_paused s chat_id)) [
      | inl paused ↦ rw (paused, append_to_bucket) unchanged
      | inr heard ↦ elim (Option-cases (conversation_under chat_id thread_id s.conversations)) [
        | inl lost ↦ rw (heard, lost, append_to_bucket) tt
        | inr (c, found) ↦ elim (Option-cases (collecting_bucket c s.buckets)) [
          | inl new ↦ rw (heard, found, new, append_to_bucket) (opened c)
          | inr (b, open_one) ↦ rw (heard, found, open_one, append_to_bucket) (added b)
        ]
      ]
    ]

open_for-Sound :
    (env : Environment) (c : ℕ) (m : StoredMessage) (now : ℕ) (allowed : Bool) (s : State)
    → Sound s
    → Ensures (λ r. Sound r.0) (open_for env c m now allowed s)
unfolding open_for open_bucket adopt_pending is_queued_at matches is_queued_bucket
open_for-Sound env c m now allowed s v =
    let fresh = env.new_bucket_id_fresh s.buckets in
    let id = env.new_bucket_id s.buckets in
    elim (Bool-cases (m.companion_only || not m.eligible_human || not allowed)) [
      | inl shut ↦ rw (shut, open_for) v
      | inr free ↦
          let opened = record s { buckets = insert id (open_bucket env c now) s.buckets } in
          let kept : Sound opened =
            buckets-IsSound s.conversations s.buckets (insert id (open_bucket env c now) s.buckets)
              s.invocations s.joins (fresh, v.distinct_buckets) (λ b. ground (arith, ==_iff id b))
              v in
          rw (free, open_for)
            (add_message-Ensures id m.id (adopt_pending env c id opened) Sound (λ rows. kept))
    ]

open_for-Moves :
    (env : Environment) (c : ℕ) (m : StoredMessage) (now : ℕ) (allowed : Bool) (s : State)
    → Ensures (λ r. Moves s r.0) (open_for env c m now allowed s)
unfolding open_for adopt_pending
open_for-Moves env c m now allowed s =
    elim (Bool-cases (m.companion_only || not m.eligible_human || not allowed)) [
      | inl shut ↦ rw (shut, open_for) (Moves-refl s)
      | inr free ↦
          let id = env.new_bucket_id s.buckets in
          let opened = record s { buckets = insert id (open_bucket env c now) s.buckets } in
          let kept : Moves s opened =
            insert_bucket-Places s.buckets s.invocations id (open_bucket env c now)
              (env.new_bucket_id_fresh s.buckets) in
          rw (free, open_for)
            (add_message-Ensures id m.id (adopt_pending env c id opened) (Moves s) (λ rows. kept))
    ]

pub append_to_bucket-Sound :
    (env : Environment) (chat_id thread_id : ℕ) (m : StoredMessage) (now : ℕ) (allowed : Bool)
    (s : State)
    → Sound s
    → Ensures (λ r. Sound r.0) (append_to_bucket env chat_id thread_id m now allowed s)
append_to_bucket-Sound env chat_id thread_id m now allowed s v =
    collect-Ensures env chat_id thread_id m now allowed s Sound v
      (λ b. add_message-Ensures b m.id s Sound (λ rows. v))
      (λ c. open_for-Sound env c m now allowed s v)

pub append_to_bucket-Moves :
    (env : Environment) (chat_id thread_id : ℕ) (m : StoredMessage) (now : ℕ) (allowed : Bool)
    (s : State)
    → Ensures (λ r. Moves s r.0) (append_to_bucket env chat_id thread_id m now allowed s)
append_to_bucket-Moves env chat_id thread_id m now allowed s =
    collect-Ensures env chat_id thread_id m now allowed s (Moves s) (Moves-refl s)
      (λ b. add_message-Ensures b m.id s (Moves s) (λ rows. Moves-refl s))
      (λ c. open_for-Moves env c m now allowed s)

collecting_bucket-matches :
    (c b : ℕ) (bs : Table Bucket)
    → HasDistinctKeys bs
    → collecting_bucket c bs ≡ some b
    → matches (λ (r : Bucket). r.conversation_id == c && is_collecting r.state) b bs ≡ true
unfolding collecting_bucket matches
collecting_bucket-matches c b [] h e = cc
collecting_bucket-matches c b ((j, r) ∷ bs) (h, hs) e =
    elim (Bool-cases (r.conversation_id == c && is_collecting r.state)) [
      | inl here ↦ ground (arith, ==_refl j)
      | inr other ↦ ground (arith, collecting_bucket-matches c b bs hs, ==_iff j b)
    ]

-- The next number of a bucket is above all that it has.
next_number-above :
    (b : ℕ) (rows : List BucketMessage)
    → any (λ (r : BucketMessage). r.bucket_id == b && leb (next_number b rows) r.sequence_no) rows
      ≡ false
unfolding next_number
next_number-above b rows = go rows (next_number b rows) (omega arith)
  where
    go :
        (xs : List BucketMessage) (n : ℕ)
        → next_number b xs ≤ n
        → any (λ (r : BucketMessage). r.bucket_id == b && leb n r.sequence_no) xs ≡ false
    go [] n h = refl
    go (r ∷ xs) n h = ground (arith, go xs n)

-- Where the queue is sound, a human message that may trigger and that no bucket has taken, with an id
-- that no message of a bot has, in a stored thread of a chat that is not paused and may participate,
-- is taken by a collecting bucket of its conversation, with a
-- number above those of all other messages of the bucket.
pub append_to_bucket-collects :
    (env : Environment) (chat_id thread_id c : ℕ) (m : StoredMessage) (now : ℕ) (s : State)
    → Sound s
    → is_chat_paused s chat_id ≡ false
    → conversation_under chat_id thread_id s.conversations ≡ some c
    → m.eligible_human ≡ true
    → m.companion_only ≡ false
    → any (holds_message m.id) s.bucket_messages ≡ false
    → any (λ row. row.0 == m.id && row.1.is_bot) s.messages ≡ false
    → (b : ℕ) × (t : State) × (append_to_bucket env chat_id thread_id m now true s ≡ ok (t, some b))
      × (matches (λ (r : Bucket). r.conversation_id == c && is_collecting r.state) b t.buckets
          ≡ true)
      × (number : ℕ) × (rest : List BucketMessage) × (t.bucket_messages
          ≡ record {
            bucket_id = b;
            message_id = m.id;
            sequence_no = number;
            source_bucket_id = some b;
          }
            ∷ rest)
      × (any (λ (r : BucketMessage). r.bucket_id == b && leb number r.sequence_no) rest ≡ false)
unfolding append_to_bucket open_for add_message open_bucket adopt_pending matches is_collecting
append_to_bucket-collects env chat_id thread_id c m now s v heard found human alone new person =
    elim (Option-cases (collecting_bucket c s.buckets)) [
      | inr (b, open_one) ↦
          let free = any-in_bucket m.id c b s.bucket_messages new in
          (
            b,
            with_message b m.id s,
            ground arith,
            collecting_bucket-matches c b s.buckets v.distinct_buckets open_one,
            next_number b s.bucket_messages,
            s.bucket_messages,
            refl,
            next_number-above b s.bucket_messages,
          )
      | inl none_open ↦
          let b = env.new_bucket_id s.buckets in
          let opened = record s { buckets = insert b (open_bucket env c now) s.buckets } in
          let t = adopt_pending env c b opened in
          let free = any-adopt_pending m.id c b env opened new person in
          (
            b,
            with_message b m.id t,
            ground arith,
            ground (arith, ==_refl b, ==_refl c),
            next_number b t.bucket_messages,
            t.bucket_messages,
            refl,
            next_number-above b t.bucket_messages,
          )
    ]
