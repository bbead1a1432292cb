-- ===== src/Queue/Collect.antt =====
-- The bucket of a message that has arrived: `#appendToBucket` and `#adoptPendingBotMessages`
-- (src/ingress/telegram-ingestion.ts).
use mathlib.Core.List.{reverse}
use plastic_wan.Base.{
  ℕ, ◌+◌, ◌*◌, max, Bool, not, ◌&&◌, ◌||◌, Option, none, some, List, [], ◌∷◌, leb, ◌==◌,
  if◌then◌else◌, is_some, any, filter, sort, Table, lookup, insert, Result, ok, err,
}
use plastic_wan.Queue.Tables.{
  BucketState, BucketKind, Bucket, Conversation, Message, BucketMessage, State, Environment,
}
use plastic_wan.Queue.Snapshot.{in_bucket, above_cutoff, newest_first, take_first}
use plastic_wan.Queue.Insert.{is_collecting, is_chat_paused}

pub record StoredMessage : Type 0 where
  pub id : ℕ
  pub revision_id : ℕ
  pub conversation_id : ℕ
  pub eligible_human : Bool
  pub companion_only : Bool

-- A missing conversation, or the primary key (bucket_id, message_id) of a message that the bucket
-- has already.
pub data CollectError : Type 0 where
  conversation_missing message_key_conflict : CollectError

-- The conversation of a thread; (chat_id, message_thread_id) is unique.
unfoldable pub conversation_under : (chat_id thread_id : ℕ) → Table Conversation → Option ℕ
conversation_under chat_id thread_id [] = none
conversation_under chat_id thread_id ((id, v) ∷ rows) =
    let rest = conversation_under chat_id thread_id rows in
    if v.chat_id == chat_id && v.message_thread_id == thread_id then some id else rest

-- The collecting bucket of a conversation, of which there is one at most.
unfoldable pub collecting_bucket : ℕ → Table Bucket → Option ℕ
unfolding is_collecting
collecting_bucket conversation_id [] = none
collecting_bucket conversation_id ((id, b) ∷ rows) =
    let rest = collecting_bucket conversation_id rows in
    if b.conversation_id == conversation_id && is_collecting b.state then some id else rest

unfoldable pub open_bucket : Environment → (conversation_id : ℕ) → ℕ → Bucket
open_bucket env conversation_id now = record {
  conversation_id = conversation_id;
  state = BucketState.collecting;
  kind = BucketKind.realtime;
  first_received_at = now;
  deadline_at = now + env.bucket_window_seconds * 1000;
  queued_at = none;
  started_at = none;
  finished_at = none;
  error_code = none;
  created_at = now;
  updated_at = now;
}

-- `MAX(first_received_at)` of the other buckets of a conversation; zero stands for none.
unfoldable pub last_received : (conversation_id bucket_id : ℕ) → Table Bucket → ℕ
last_received conversation_id bucket_id [] = 0
last_received conversation_id bucket_id ((id, b) ∷ rows) =
    let rest = last_received conversation_id bucket_id rows in
    if b.conversation_id == conversation_id && not (id == bucket_id)
    then max b.first_received_at rest
    else rest

abbrev pub holds_message : ℕ → BucketMessage → Bool
holds_message message_id b = b.message_id == message_id

-- A message of another bot that no bucket has taken.
unfoldable pub is_adoptable : (conversation_id bucket_id : ℕ) → State → ℕ × Message → Bool
unfolding last_received above_cutoff
is_adoptable conversation_id bucket_id s (id, m) =
    m.conversation_id == conversation_id
    && m.visible
    && not m.sent_by_bot
    && m.is_bot
    && is_some m.current_revision_id
    && not (any (holds_message id) s.bucket_messages)
    && leb (last_received conversation_id bucket_id s.buckets) m.received_at
    && above_cutoff (lookup conversation_id s.cutoffs) m.telegram_message_id

unfoldable pub insert_messages :
    (bucket_id sequence : ℕ) → List (ℕ × Message) → List BucketMessage → List BucketMessage
insert_messages bucket_id sequence [] rows = rows
insert_messages bucket_id sequence ((id, m) ∷ pending) rows =
    insert_messages bucket_id (sequence + 1) pending (
      record {
        bucket_id = bucket_id;
        message_id = id;
        sequence_no = sequence;
        source_bucket_id = some bucket_id;
      }
      ∷ rows)

unfoldable pub adopt_pending : Environment → (conversation_id bucket_id : ℕ) → State → State
unfolding is_adoptable newest_first insert_messages
adopt_pending env conversation_id bucket_id s =
    let newest = sort newest_first (filter (is_adoptable conversation_id bucket_id s) s.messages) in
    record s {
      bucket_messages =
          insert_messages bucket_id 1 (reverse (take_first env.history_messages newest))
            s.bucket_messages;
    }

-- `COALESCE(MAX(sequence_no), 0) + 1`
unfoldable pub next_number : ℕ → List BucketMessage → ℕ
next_number bucket_id [] = 1
next_number bucket_id (b ∷ rows) =
    let rest = next_number bucket_id rows in
    if b.bucket_id == bucket_id then max (b.sequence_no + 1) rest else rest

-- The message in its bucket, which is returned.
unfoldable pub add_message :
    (bucket_id message_id : ℕ) → State → Result CollectError (State × Option ℕ)
unfolding next_number
add_message bucket_id message_id s =
    if any (in_bucket bucket_id message_id) s.bucket_messages
    then err message_key_conflict
    else ok (
      record s {
        bucket_messages =
            record {
              bucket_id = bucket_id;
              message_id = message_id;
              sequence_no = next_number bucket_id s.bucket_messages;
              source_bucket_id = some bucket_id;
            }
            ∷ s.bucket_messages;
      },
      some bucket_id,
    )

-- The state in which a bucket has been opened for a message, if one may be.
unfoldable pub open_for :
    Environment
    → (conversation_id : ℕ) → StoredMessage
    → ℕ
    → Bool
    → State
    → Result CollectError (State × Option ℕ)
unfolding open_bucket adopt_pending add_message
open_for env conversation_id m now allowed s =
    if m.companion_only || not m.eligible_human || not allowed
    then ok (s, none)
    else let id = env.new_bucket_id s.buckets in
      let opened = record s {
        buckets = insert id (open_bucket env conversation_id now) s.buckets;
      } in
      add_message id m.id (adopt_pending env conversation_id id opened)

-- The new state with the bucket that has taken the message.
unfoldable pub append_to_bucket :
    Environment
    → (chat_id thread_id : ℕ) → StoredMessage
    → (received_at : ℕ) → (participation_allowed : Bool) → State
    → Result CollectError (State × Option ℕ)
unfolding is_chat_paused conversation_under collecting_bucket add_message open_for
append_to_bucket env chat_id thread_id m received_at participation_allowed s =
    if is_chat_paused s chat_id
    then ok (s, none)
    else elim (conversation_under chat_id thread_id s.conversations) [
      | none ↦ err conversation_missing
      | some conversation_id ↦ elim (collecting_bucket conversation_id s.buckets) [
        | some bucket_id ↦ add_message bucket_id m.id s
        | none ↦ open_for env conversation_id m received_at participation_allowed s
      ]
    ]
