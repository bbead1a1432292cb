-- ===== src/Context/Store.antt =====
-- The store of Conversation Contexts (src/context/context-store.ts). A header is a live handle that
-- its operations change, so they return the new one; a caller may hold an old one.
use Prim.Native.String.{String}
use text.Mathlib.Text.{◌==◌ as str_eq}
use plastic_wan.Base.{
  ℕ, ◌+◌, Bool, true, false, not, ◌&&◌, ◌||◌, Option, none, some, List, ◌∷◌, map, ltb, leb, ◌==◌,
  ◌>>=◌, if◌then◌else◌, is_some, filter, find?, any, length, count, sum_by, sort, update_where,
  modify, insert, Result, ok, err,
}
use plastic_wan.Context.Gc.{WindowRow}
use plastic_wan.Context.Tables.{
  Header, ContextRow, MessageRow, Store, MessageInput, StoreError, no_context_row,
  message_key_conflict, refusing_to_advance, ContextStats,
}

unfoldable pub header_of : ℕ × ContextRow → Header
header_of (id, row) = record {
  id = id;
  conversation_id = row.conversation_id;
  head_seq = row.head_seq;
  next_seq = row.next_seq;
  send_count_total = row.send_count_total;
  system_prompt_hash = row.system_prompt_hash;
  last_gc_at = row.last_gc_at;
}

unfoldable pub select_header : ℕ → Store → Option Header
unfolding header_of
select_header conversation s =
    elim (find? (λ row. row.1.conversation_id == conversation) s.contexts) [
      | none ↦ none
      | some row ↦ some (header_of row)
    ]

unfoldable pub require_header : ℕ → Store → Result StoreError Header
unfolding select_header
require_header conversation s = elim (select_header conversation s) [
  | none ↦ err no_context_row
  | some h ↦ ok h
]

unfoldable pub rebuild : ℕ → String → ℕ → Store → Store
unfolding modify
rebuild id hash now s = record {
  contexts =
      modify id
        (λ row. record row {
          head_seq = 1;
          next_seq = 1;
          send_count_total = 0;
          system_prompt_hash = hash;
          active_invocation_id = none;
          last_gc_at = none;
          updated_at = now;
        })
        s.contexts;
  messages = filter (λ m. not (m.context_id == id)) s.messages;
  refs = filter (λ r. not (r.context_id == id)) s.refs;
}

-- `new_id` is the id that SQLite gives a new row.
unfoldable pub open_context :
    (new_id : ℕ) → ℕ → String → ℕ → Store → Result StoreError (Store × Header × Bool)
unfolding require_header rebuild
open_context new_id conversation hash now s = elim (select_header conversation s) [
  | none ↦
      let created : ContextRow = record {
        conversation_id = conversation;
        head_seq = 1;
        next_seq = 1;
        send_count_total = 0;
        system_prompt_hash = hash;
        active_invocation_id = none;
        last_active_at = now;
        last_gc_at = none;
        created_at = now;
        updated_at = now;
      } in
      let s' = record s { contexts = insert new_id created s.contexts } in
      do header ← require_header conversation s'; ok (s', header, false)
  | some existing ↦
      let s' = rebuild existing.id hash now s in
      if str_eq existing.system_prompt_hash hash
      then ok (s, existing, false)
      else (do header ← require_header conversation s'; ok (s', header, true))
]

unfoldable pub is_at : ℕ → ℕ → MessageRow → Bool
is_at id seq m = m.context_id == id && m.seq == seq

unfoldable pub new_message : Header → MessageInput → ℕ → MessageRow
new_message h input now = record {
  context_id = h.id;
  seq = h.next_seq;
  role = input.role;
  payload_json = input.json;
  invocation_id = input.invocation_id;
  is_checkpoint = input.is_checkpoint;
  send_seq = if input.counted_send then some (h.send_count_total + 1) else none;
  est_tokens = input.est_tokens;
  evicted_at = none;
  created_at = now;
}

unfoldable pub append : Header → MessageInput → ℕ → Store → Result StoreError (Store × Header × ℕ)
unfolding is_at new_message modify
append h input now s =
    let sends = if input.counted_send then h.send_count_total + 1 else h.send_count_total in
    if any (is_at h.id h.next_seq) s.messages
    then err message_key_conflict
    else ok (
      record s {
        messages = new_message h input now ∷ s.messages;
        contexts =
            modify h.id
              (λ row. record row {
                next_seq = h.next_seq + 1;
                send_count_total =
                    if input.counted_send then h.send_count_total + 1 else row.send_count_total;
                last_active_at = now;
                updated_at = now;
              })
              s.contexts;
      },
      record h { next_seq = h.next_seq + 1; send_count_total = sends },
      h.next_seq,
    )

-- `#retainedRange`
unfoldable pub in_retained_range : Header → MessageRow → Bool
in_retained_range h m = m.context_id == h.id && leb h.head_seq m.seq && not (is_some m.evicted_at)

unfoldable pub by_seq : MessageRow → MessageRow → Bool
by_seq m n = leb m.seq n.seq

unfoldable pub retained_rows : Header → Store → List MessageRow
unfolding in_retained_range by_seq
retained_rows h s = sort by_seq (filter (in_retained_range h) s.messages)

unfoldable pub retained : Header → Store → List (ℕ × String)
unfolding retained_rows
retained h s = map (λ m. (m.seq, m.payload_json)) (retained_rows h s)

unfoldable pub window_row : MessageRow → WindowRow
window_row m = record {
  seq = m.seq;
  role = m.role;
  est_tokens = m.est_tokens;
  is_checkpoint = m.is_checkpoint;
  send_seq = m.send_seq;
}

unfoldable pub window : Header → Store → List WindowRow
unfolding retained_rows window_row
window h s = map window_row (retained_rows h s)

unfoldable pub evict : ℕ → MessageRow → MessageRow
evict now m = record m { evicted_at = some now }

unfoldable pub advance_head : Header → ℕ → ℕ → Store → Result StoreError (Store × Header)
unfolding evict modify
advance_head h target now s =
    if leb target h.head_seq || leb h.next_seq target
    then err refusing_to_advance
    else ok (
      record {
        messages =
            update_where (λ m. m.context_id == h.id && ltb m.seq target) (evict now) s.messages;
        refs = filter (λ r. not (r.context_id == h.id && ltb r.source_seq target)) s.refs;
        contexts =
            modify h.id
              (λ row. record row { head_seq = target; last_gc_at = some now; updated_at = now })
              s.contexts;
      },
      record h { head_seq = target; last_gc_at = some now },
    )

-- `/cut_topic`
unfoldable pub clear : Header → ℕ → Store → Store × Header
unfolding evict modify
clear h now s = (
  record {
    messages =
        update_where (λ m. m.context_id == h.id && leb h.head_seq m.seq) (evict now) s.messages;
    refs = filter (λ r. not (r.context_id == h.id)) s.refs;
    contexts =
        modify h.id (λ row. record row { head_seq = h.next_seq; updated_at = now }) s.contexts;
  },
  record h { head_seq = h.next_seq },
)

unfoldable pub touch : Header → Option ℕ → ℕ → Store → Store
unfolding modify
touch h active now s = record s {
  contexts =
      modify h.id
        (λ row. record row {
          active_invocation_id = active;
          last_active_at = now;
          updated_at = now;
        })
        s.contexts;
}

unfoldable pub is_active : ℕ → Option ℕ → Bool
is_active invocation none = false
is_active invocation (some i) = i == invocation

unfoldable pub clear_active_invocation : ℕ → ℕ → Store → Store
unfolding is_active
clear_active_invocation invocation now s = record s {
  contexts =
      update_where (λ row. is_active invocation row.1.active_invocation_id)
        (λ row. (row.0, record (row.1) { active_invocation_id = none; updated_at = now }))
        s.contexts;
}

unfoldable pub stats : Header → Store → ContextStats
unfolding in_retained_range
stats h s =
    let rows = filter (in_retained_range h) s.messages in
    record {
      head_seq = h.head_seq;
      next_seq = h.next_seq;
      message_count = length rows;
      retained_sends = count (λ m. is_some m.send_seq) rows;
      retained_tokens = sum_by (λ m. m.est_tokens) rows;
      last_gc_at = h.last_gc_at;
    }
