-- ===== src/Queue/Samples.antt =====
-- A small database for the tests of the queue: a conversation with one batch.
use plastic_wan.Base.{
  ℕ, ◌+◌, ◌≤◌, ◌≡◌, refl, true, false, none, some, [], ◌∷◌, Table, lookup, matches, arith,
}
use plastic_wan.Queue.Tables.{BucketState, BucketKind, Bucket, Message, State, Environment}
use plastic_wan.Queue.Insert.{is_queued_bucket}
use plastic_wan.Queue.Collect.{StoredMessage}
use plastic_wan.Queue.Placing.{Placed}
use plastic_wan.Queue.Sound.{runs_in, opens, is_queued_at, joins_own, Sound}
use plastic_wan.Queue.Actions.{Process}

module _ {R : Type 0} where
  -- An id above all that are used.
  abbrev pub next_id : Table R → ℕ
  next_id [] = 1
  next_id ((k, r) ∷ rows) = k + next_id rows

  next_id_pos : (t : Table R) → 1 ≤ next_id t
  next_id_pos [] = omega arith
  next_id_pos ((k, r) ∷ t) = let h = next_id_pos t in omega arith

  lookup_above : (k : ℕ) (t : Table R) → next_id t ≤ k → lookup k t ≡ none
  lookup_above k [] h = refl
  lookup_above k ((j, r) ∷ t) h =
      let pos = next_id_pos t in ground (arith, lookup_above k t (omega arith))

  pub next_id_fresh : (t : Table R) → lookup (next_id t) t ≡ none
  next_id_fresh t = lookup_above (next_id t) t (omega arith)

-- One chat, with windows of ten seconds.
abbrev pub small : Environment
small = record {
  chat_configs = record { id = 900; topic_ids = none } ∷ [];
  history_messages = 20;
  bucket_window_seconds = 10;
  max_concurrency = 2;
  config_hash = "h1";
  prompt_version = 3;
  new_bucket_id = next_id;
  new_bucket_id_fresh = next_id_fresh;
  new_invocation_id = next_id;
  new_invocation_id_fresh = next_id_fresh;
  bypasses_daily_budget = λ json. false;
  snapshot_text = λ revision. "{}";
}

abbrev pub first_bucket : Bucket
first_bucket = record {
  conversation_id = 1;
  state = BucketState.collecting;
  kind = BucketKind.realtime;
  first_received_at = 40;
  deadline_at = 100;
  queued_at = none;
  started_at = none;
  finished_at = none;
  error_code = none;
  created_at = 40;
  updated_at = 40;
}

abbrev question : Message
question = record {
  conversation_id = 1;
  telegram_message_id = 70;
  telegram_date = 54;
  received_at = 55;
  visible = true;
  sent_by_bot = false;
  current_revision_id = some 8;
  is_bot = false;
}

-- A conversation with one batch, and nothing queued.
abbrev pub waiting_state : State
waiting_state = record {
  conversations = (1, record { chat_id = 5; message_thread_id = 0 }) ∷ [];
  chats = (5, 900) ∷ [];
  chat_migrations = [];
  chat_pause = [];
  messages = (7, question) ∷ [];
  cutoffs = [];
  bucket_messages = [];
  invocation_messages = [];
  buckets = (1, first_bucket) ∷ [];
  invocations = [];
  joins = [];
  service = record { tasks = []; receipts = []; wakes = 0 };
  sleep = none;
  attachment = none;
}

abbrev pub waiting_process : Process
waiting_process = record { state = waiting_state; active = [] }

pub waiting_state-Sound : Sound waiting_state
unfolding runs_in opens is_queued_at joins_own matches is_queued_bucket
waiting_state-Sound = record {
  distinct_buckets = (refl, tt);
  distinct = tt;
  serial = λ c. omega arith;
  opened = λ b. ground arith;
  own = λ j b h. ground arith;
}

pub waiting_state-Placed : Placed waiting_state
waiting_state-Placed id i e = ground arith

abbrev pub taken : StoredMessage
taken = record {
  id = 7;
  revision_id = 8;
  conversation_id = 1;
  eligible_human = true;
  companion_only = false;
}
