-- ===== src/Context/Refs.antt =====
-- References of a Conversation Context (src/context/context-refs.ts). A fresh token, made from a
-- random UUID, is an argument; so is the decimal text of a message id.
use Prim.Native.String.{String, ◌++◌ as str_append}
use text.Mathlib.Text.{◌==◌ as str_eq}
use plastic_wan.Base.{
  ℕ, ◌+◌, ◌*◌, Bool, true, false, ◌&&◌, ◌||◌, Option, none, some, List, ◌∷◌, ltb, leb, ◌==◌, ◌-◌,
  if◌then◌else◌, filter, find?, any, length, sort, update_where,
}
use plastic_wan.Context.Tables.{Header, RefKind, media, sticker, reply, RefRow, Store}

unfoldable pub same_kind : RefKind → RefKind → Bool
same_kind media media = true
same_kind sticker sticker = true
same_kind reply reply = true
same_kind _ _ = false

pub record RefValues : Type 0 where
  pub ref : String
  pub kind : RefKind
  pub source_seq : ℕ
  pub media_id : Option ℕ
  pub sticker_file_id : Option String
  pub target_conversation_id : Option ℕ
  pub target_thread_id : Option ℕ

unfoldable pub expiry : (ttl_hours : ℕ) → ℕ → ℕ
expiry ttl_hours now = now + ttl_hours * 3600000

unfoldable pub is_ref : Header → String → RefRow → Bool
is_ref h ref r = r.context_id == h.id && str_eq r.ref ref

unfoldable pub new_ref : Header → RefValues → (expires_at : ℕ) → ℕ → RefRow
new_ref h values expires_at now = record {
  context_id = h.id;
  ref = values.ref;
  kind = values.kind;
  source_seq = values.source_seq;
  media_id = values.media_id;
  sticker_file_id = values.sticker_file_id;
  target_conversation_id = values.target_conversation_id;
  target_thread_id = values.target_thread_id;
  expires_at = expires_at;
  created_at = now;
}

-- `INSERT ... ON CONFLICT (context_id, ref) DO UPDATE`
unfoldable pub upsert :
    Header → RefValues → (RefRow → RefRow) → (expires_at : ℕ) → ℕ → List RefRow → List RefRow
unfolding is_ref new_ref
upsert h values set expires_at now refs =
    if any (is_ref h values.ref) refs
    then update_where (is_ref h values.ref) set refs
    else new_ref h values expires_at now ∷ refs

unfoldable pub insert_ref : (ttl_hours : ℕ) → Header → RefValues → ℕ → Store → Store
unfolding upsert expiry
insert_ref ttl_hours h values now s = record s {
  refs =
      upsert h values
        (λ r. record r { source_seq = values.source_seq; expires_at = expiry ttl_hours now })
        (expiry ttl_hours now) now s.refs;
}

unfoldable pub is_media : Option ℕ → ℕ → Bool
is_media none media_id = false
is_media (some m) media_id = m == media_id

-- The condition of the select in `mediaRef`.
unfoldable pub reusable : Header → ℕ → ℕ → RefRow → Bool
unfolding same_kind is_media
reusable h media_id now r =
    r.context_id == h.id
    && same_kind r.kind media
    && is_media r.media_id media_id
    && ltb now r.expires_at

-- The order of `ref`, by the database's order of text.
unfoldable pub by_ref : (String → String → Bool) → RefRow → RefRow → Bool
by_ref text_le r q = text_le r.ref q.ref

unfoldable pub media_values : String → ℕ → ℕ → RefValues
media_values ref media_id source_seq = record {
  ref = ref;
  kind = media;
  source_seq = source_seq;
  media_id = some media_id;
  sticker_file_id = none;
  target_conversation_id = none;
  target_thread_id = none;
}

unfoldable pub media_ref :
    (text_le : String → String → Bool)
    → (ttl_hours : ℕ) → (fresh : String) → Header
    → (media_id source_seq : ℕ) → ℕ
    → Store
    → Store × String
unfolding reusable by_ref insert_ref media_values
media_ref text_le ttl_hours fresh h media_id source_seq now s =
    elim (find? (reusable h media_id now) (sort (by_ref text_le) s.refs)) [
      | some existing ↦ (s, existing.ref)
      | none ↦ (insert_ref ttl_hours h (media_values fresh media_id source_seq) now s, fresh)
    ]

unfoldable pub sticker_values : String → String → ℕ → RefValues
sticker_values ref sticker_file_id source_seq = record {
  ref = ref;
  kind = sticker;
  source_seq = source_seq;
  media_id = none;
  sticker_file_id = some sticker_file_id;
  target_conversation_id = none;
  target_thread_id = none;
}

unfoldable pub sticker_ref :
    (ttl_hours : ℕ)
    → (fresh : String) → Header
    → String
    → (source_seq : ℕ) → ℕ
    → Store
    → Store × String
unfolding insert_ref sticker_values
sticker_ref ttl_hours fresh h file_id source_seq now s =
    (insert_ref ttl_hours h (sticker_values fresh file_id source_seq) now s, fresh)

-- `decimal` is the text of the Telegram message id.
abbrev pub reply_ref_for : (decimal : String) → String
reply_ref_for decimal = str_append "reply:" decimal

unfoldable pub reply_values : String → (conversation_id thread_id source_seq : ℕ) → RefValues
reply_values ref conversation_id thread_id source_seq = record {
  ref = ref;
  kind = reply;
  source_seq = source_seq;
  media_id = none;
  sticker_file_id = none;
  target_conversation_id = some conversation_id;
  target_thread_id = some thread_id;
}

unfoldable pub reply_ref :
    (ttl_hours : ℕ)
    → Header
    → (decimal : String) → (conversation_id thread_id source_seq : ℕ) → ℕ
    → Store
    → Store × String
unfolding upsert expiry reply_values
reply_ref ttl_hours h decimal conversation_id thread_id source_seq now s = (
  record s {
    refs =
        upsert h (reply_values (reply_ref_for decimal) conversation_id thread_id source_seq)
          (λ r. record r {
            source_seq = source_seq;
            target_conversation_id = some conversation_id;
            target_thread_id = some thread_id;
            expires_at = expiry ttl_hours now;
          })
          (expiry ttl_hours now) now s.refs;
  },
  reply_ref_for decimal,
)

-- The row that `resolve` returns: its visible fields are those of `ResolvedContextRef`.
unfoldable pub resolve : Header → String → RefKind → ℕ → Store → Option RefRow
unfolding is_ref same_kind
resolve h ref kind now s = elim (find? (λ r. is_ref h ref r && same_kind r.kind kind) s.refs) [
  | none ↦ none
  | some r ↦ if ltb r.source_seq h.head_seq || leb r.expires_at now then none else some r
]

unfoldable pub count_refs : Header → Store → ℕ
count_refs h s = length (filter (λ r. r.context_id == h.id) s.refs)

unfoldable pub newest_seq : Header → ℕ
newest_seq h = if ltb h.head_seq h.next_seq then h.next_seq - 1 else h.head_seq

unfoldable pub resolve_media : Header → String → ℕ → Store → Option ℕ
unfolding resolve
resolve_media h ref now s = elim (resolve h ref media now s) [ none ↦ none | some r ↦ r.media_id ]

unfoldable pub resolve_sticker_ref : Header → String → ℕ → Store → Option String
unfolding resolve
resolve_sticker_ref h ref now s = elim (resolve h ref sticker now s) [
  | none ↦ none
  | some r ↦ r.sticker_file_id
]

unfoldable pub both : Option ℕ → Option ℕ → Option (ℕ × ℕ)
both (some c) (some t) = some (c, t)
both _ _ = none

unfoldable pub resolve_reply_target : Header → (decimal : String) → ℕ → Store → Option (ℕ × ℕ)
unfolding resolve both
resolve_reply_target h decimal now s = elim (resolve h (reply_ref_for decimal) reply now s) [
  | none ↦ none
  | some r ↦ both r.target_conversation_id r.target_thread_id
]

unfoldable pub register_sticker_ref :
    (ttl_hours : ℕ) → (fresh : String) → Header → String → ℕ → Store → Store × String
unfolding sticker_ref newest_seq
register_sticker_ref ttl_hours fresh h file_id now s =
    sticker_ref ttl_hours fresh h file_id (newest_seq h) now s
