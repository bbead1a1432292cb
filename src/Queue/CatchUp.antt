-- ===== src/Queue/CatchUp.antt =====
-- The catch-up after a start: `finishStartupCatchUp` of src/orchestration/invocation-queue.ts. The rows
-- are those of the join of messages with their revisions, senders and chats.
use Prim.Native.String.{String}
use mathlib.Core.List.{reverse}
use plastic_wan.Base.{
  ℕ, ◌+◌, Bool, true, false, not, ◌&&◌, ◌||◌, Option, none, some, List, [], ◌∷◌, ◌++◌, ltb, leb,
  ◌==◌, if◌then◌else◌, is_some, filter, sort, Table, insert, Result, ok, err, ◌>>=◌,
}
use plastic_wan.Participation.Windows.{LocalTime}
use plastic_wan.Participation.Rules.{Text, ParticipationRule}
use plastic_wan.Participation.Gate.{Attention, rule_for, is_conversation_active}
use plastic_wan.Sleep.State.{active_sleep_until}
use plastic_wan.Queue.Tables.{
  BucketState, BucketKind, Bucket, BucketMessage, State, Environment, QueueError,
}
use plastic_wan.Queue.Snapshot.{take_first}
use plastic_wan.Queue.Insert.{is_chat_paused, resolve_chat_config, insert_invocation}
use plastic_wan.Queue.Due.{Pass}

pub data RevisionKind : Type 0 where
  service sticker other_kind : RevisionKind

pub record StartupRow : Type 0 where
  pub id : ℕ
  pub conversation_id : ℕ
  pub chat_id : ℕ
  pub telegram_chat_id : ℕ
  pub is_private : Bool
  pub telegram_message_id : ℕ
  pub telegram_date : ℕ
  pub received_at : ℕ
  pub visible : Bool
  pub sent_by_bot : Bool
  pub kind : RevisionKind
  pub has_content : Bool
  pub by_bot : Bool

-- What the catch-up reads of participation, and whether a sticker alone may trigger.
pub record Participations : Type 0 where
  pub rules : Table ParticipationRule
  pub local_time : Text → ℕ → LocalTime
  pub attention : Table Attention
  pub sticker_trigger_enabled : Bool

pub data CatchUpError : Type 0 where
  catch_up_state_changed : CatchUpError
  in_catch_up : QueueError → CatchUpError

-- `has_content` says that a revision has a text, a caption, or media besides a sticker.
unfoldable pub is_eligible_human : Participations → StartupRow → Bool
is_eligible_human part r = not r.by_bot && of_kind r.kind
  where
    of_kind : RevisionKind → Bool
    of_kind service = false
    of_kind sticker = r.has_content || part.sticker_trigger_enabled
    of_kind other_kind = true

unfoldable pub in_session : (started_at : ℕ) → StartupRow → Bool
in_session started_at r = leb started_at r.received_at && r.visible && not r.sent_by_bot

abbrev pub newest_row : StartupRow → StartupRow → Bool
newest_row a b =
    ltb b.telegram_date a.telegram_date
    || (a.telegram_date == b.telegram_date && leb b.telegram_message_id a.telegram_message_id)

-- The newest messages of a conversation, the oldest first.
unfoldable pub selected : Environment → (conversation_id : ℕ) → List StartupRow → List StartupRow
selected env conversation_id session =
    let own = filter (λ (r : StartupRow). r.conversation_id == conversation_id) session in
    reverse (take_first env.history_messages (sort newest_row own))

abbrev pub insert_id : ℕ → List ℕ → List ℕ
insert_id c [] = c ∷ []
insert_id c (d ∷ ids) =
    let rest = insert_id c ids in
    if c == d then d ∷ ids else if ltb c d then c ∷ d ∷ ids else d ∷ rest

-- The conversations with a message that may trigger, in order.
unfoldable pub triggered_conversations : Participations → List StartupRow → List ℕ
unfolding is_eligible_human
triggered_conversations part [] = []
triggered_conversations part (r ∷ session) =
    let rest = triggered_conversations part session in
    if is_eligible_human part r then insert_id r.conversation_id rest else rest

abbrev pub last_row : List StartupRow → Option StartupRow
last_row [] = none
last_row (r ∷ []) = some r
last_row (r ∷ q ∷ rows) = last_row (q ∷ rows)

unfoldable pub participation_blocks :
    Environment → Participations → State → StartupRow → (now : ℕ) → Bool
unfolding rule_for is_conversation_active
participation_blocks env part s latest now =
    elim (rule_for env part.rules s latest.telegram_chat_id latest.is_private) [
      | none ↦ false
      | some rule ↦
          not
            (is_conversation_active part.local_time part.attention rule latest.conversation_id now)
    ]

unfoldable pub skip_reason :
    Environment → Participations → State → StartupRow → (now : ℕ) → Option ℕ → Option String
unfolding resolve_chat_config is_chat_paused participation_blocks
skip_reason env part s latest now sleep_until =
    if not (is_some (resolve_chat_config env s latest.telegram_chat_id))
    then some "chat_removed"
    else if is_chat_paused s latest.chat_id
    then some "chat_paused"
    else if is_some sleep_until
    then some "sleeping"
    else if participation_blocks env part s latest now
    then some "participation_gated"
    else none

unfoldable pub catch_up_bucket :
    (conversation_id started_at now : ℕ) → (skipped : Option String) → Bucket
catch_up_bucket conversation_id started_at now skipped = record {
  conversation_id = conversation_id;
  state = if is_some skipped then BucketState.skipped_budget else BucketState.queued;
  kind = BucketKind.startup_catch_up;
  first_received_at = started_at;
  deadline_at = now;
  queued_at = if is_some skipped then none else some now;
  started_at = none;
  finished_at = if is_some skipped then some now else none;
  error_code = skipped;
  created_at = now;
  updated_at = now;
}

unfoldable pub number_messages :
    (bucket_id sequence : ℕ) → List StartupRow → List BucketMessage → List BucketMessage
number_messages bucket_id sequence [] rows = rows
number_messages bucket_id sequence (m ∷ messages) rows =
    number_messages bucket_id (sequence + 1) messages (
      record {
        bucket_id = bucket_id;
        message_id = m.id;
        sequence_no = sequence;
        source_bucket_id = some bucket_id;
      }
      ∷ rows)

-- The bucket of the catch-up of a conversation, with its messages.
unfoldable pub open_catch_up :
    Environment
    → (conversation_id started_at now : ℕ) → (skipped : Option String) → List StartupRow
    → State
    → State
unfolding catch_up_bucket number_messages
open_catch_up env conversation_id started_at now skipped messages s =
    let id = env.new_bucket_id s.buckets in
    record s {
      buckets = insert id (catch_up_bucket conversation_id started_at now skipped) s.buckets;
      bucket_messages = number_messages id 1 messages s.bucket_messages;
    }

-- A round of the loop over the conversations, for the messages of one.
unfoldable pub catch_up_messages :
    Environment
    → Participations
    → (started_at now : ℕ) → (sleep_until : Option ℕ) → List StartupRow
    → Pass
    → Result QueueError Pass
unfolding skip_reason open_catch_up insert_invocation
catch_up_messages env part started_at now sleep_until messages (s, ids) = elim (last_row messages) [
  | none ↦ ok (s, ids)
  | some latest ↦
      let c = latest.conversation_id in
      elim (skip_reason env part s latest now sleep_until) [
        | some reason ↦ ok (open_catch_up env c started_at now (some reason) messages s, ids)
        | none ↦ do
          (queued, id) ←
              insert_invocation env (env.new_bucket_id s.buckets) c now false
                (open_catch_up env c started_at now none messages s)
          ok (queued, ids ++ id ∷ [])
      ]
]

unfoldable pub catch_up_conversations :
    Environment
    → Participations
    → (started_at now : ℕ) → (sleep_until : Option ℕ) → (session : List StartupRow)
    → (conversations : List ℕ) → Pass
    → Result QueueError Pass
unfolding selected catch_up_messages
catch_up_conversations env part started_at now sleep_until session [] p = ok p
catch_up_conversations env part started_at now sleep_until session (c ∷ conversations) p =
    catch_up_messages env part started_at now sleep_until (selected env c session) p >>= λ next.
    catch_up_conversations env part started_at now sleep_until session conversations next

abbrev pub is_pending : ℕ → Option ℕ → Bool
is_pending started_at none = false
is_pending started_at (some t) = t == started_at

abbrev pub from_queue : Result QueueError Pass → Result CatchUpError Pass
from_queue (ok p) = ok p
from_queue (err e) = err (in_catch_up e)

-- `pending` is the start that waits for its catch-up; the result leaves none.
unfoldable pub finish_startup_catch_up :
    Environment
    → Participations
    → List StartupRow
    → (pending : Option ℕ) → (started_at now : ℕ) → State
    → Result CatchUpError Pass
unfolding active_sleep_until in_session triggered_conversations catch_up_conversations
finish_startup_catch_up env part rows pending started_at now s =
    let session = filter (in_session started_at) rows in
    let (sleep, sleep_until) = active_sleep_until now s.sleep in
    if is_pending started_at pending
    then from_queue (
        catch_up_conversations env part started_at now sleep_until session
          (triggered_conversations part session) (record s { sleep = sleep }, []))
    else err catch_up_state_changed
