-- ===== src/Context/Tables.antt =====
-- The rows of the tables `conversation_contexts`, `context_messages` and `context_refs`
-- (src/store/schema.ts), with the handles and inputs of src/context/context-store.ts. A time is a
-- number of milliseconds; the payload of a message is its stored text.
use Prim.Native.String.{String}
use plastic_wan.Base.{ℕ, Bool, Option, List, Table}

pub record Header : Type 0 where
  pub id : ℕ
  pub conversation_id : ℕ
  pub head_seq : ℕ
  pub next_seq : ℕ
  pub send_count_total : ℕ
  pub system_prompt_hash : String
  pub last_gc_at : Option ℕ

-- The row of `conversation_contexts` under its id.
pub record ContextRow : Type 0 where
  pub conversation_id : ℕ
  pub head_seq : ℕ
  pub next_seq : ℕ
  pub send_count_total : ℕ
  pub system_prompt_hash : String
  pub active_invocation_id : Option ℕ
  pub last_active_at : ℕ
  pub last_gc_at : Option ℕ
  pub created_at : ℕ
  pub updated_at : ℕ

pub record MessageRow : Type 0 where
  pub context_id : ℕ
  pub seq : ℕ
  pub role : String
  pub payload_json : String
  pub invocation_id : Option ℕ
  pub is_checkpoint : Bool
  pub send_seq : Option ℕ
  pub est_tokens : ℕ
  pub evicted_at : Option ℕ
  pub created_at : ℕ

pub data RefKind : Type 0 where
  media sticker reply : RefKind

pub record RefRow : Type 0 where
  pub context_id : ℕ
  pub ref : String
  pub kind : RefKind
  pub source_seq : ℕ
  pub media_id : Option ℕ
  pub sticker_file_id : Option String
  pub target_conversation_id : Option ℕ
  pub target_thread_id : Option ℕ
  pub expires_at : ℕ
  pub created_at : ℕ

pub record Store : Type 0 where
  pub contexts : Table ContextRow
  pub messages : List MessageRow
  pub refs : List RefRow

pub record MessageInput : Type 0 where
  pub invocation_id : Option ℕ
  pub is_checkpoint : Bool
  pub est_tokens : ℕ
  pub json : String
  pub role : String
  pub counted_send : Bool

pub data StoreError : Type 0 where
  -- `#requireHeader`
  no_context_row : StoreError
  -- SQLite's refusal of a second row under (context_id, seq)
  message_key_conflict : StoreError
  refusing_to_advance : StoreError

pub record ContextStats : Type 0 where
  pub head_seq : ℕ
  pub next_seq : ℕ
  pub message_count : ℕ
  pub retained_sends : ℕ
  pub retained_tokens : ℕ
  pub last_gc_at : Option ℕ
