-- ===== src/Context/StoreTests.antt =====
-- A context of two turns in the store: its second turn is kept by a collection, and then cut.
use Prim.Native.String.{String}
use text.Mathlib.Text.{◌==◌ as str_eq}
use plastic_wan.Base.{
  ℕ, ◌≤◌, ◌<◌, ◌≡◌, refl, ◌&&◌, Bool, true, false, Option, none, some, [], ◌∷◌, All, any, Memᴰ, ltb,
  leb, ◌==◌, ok, sort, arith,
}
use plastic_wan.Context.Tables.{Header, MessageRow, media, RefRow, Store}
use plastic_wan.Context.Store.{
  advance_head, clear, window, retained_rows, in_retained_range, by_seq, window_row, is_at, evict,
}
use plastic_wan.Context.Refs.{resolve, count_refs, is_ref, same_kind}
use plastic_wan.Context.Eviction.{advances, clears, run, is_evicted, is_live, shows, run-evicted}
use plastic_wan.Context.Authorization.{resolve-authorized, clear-cuts, advance_head-cuts}
use plastic_wan.Context.Applying.{advance_head-plan}
use plastic_wan.Context.Tests.{options, second_turn, planned}

abbrev message : ℕ → String → Bool → Option ℕ → MessageRow
message seq role checkpoint send = record {
  context_id = 5;
  seq = seq;
  role = role;
  payload_json = "{}";
  invocation_id = some 3;
  is_checkpoint = checkpoint;
  send_seq = send;
  est_tokens = 10;
  evicted_at = none;
  created_at = 0;
}

abbrev picture : RefRow
picture = record {
  context_id = 5;
  ref = "img_1";
  kind = media;
  source_seq = 4;
  media_id = some 8;
  sticker_file_id = none;
  target_conversation_id = none;
  target_thread_id = none;
  expires_at = 1000;
  created_at = 0;
}

abbrev header : Header
header = record {
  id = 5;
  conversation_id = 7;
  head_seq = 1;
  next_seq = 7;
  send_count_total = 2;
  system_prompt_hash = "hash";
  last_gc_at = none;
}

abbrev store : Store
store = record {
  contexts =
      (
        5,
        record {
          conversation_id = 7;
          head_seq = 1;
          next_seq = 7;
          send_count_total = 2;
          system_prompt_hash = "hash";
          active_invocation_id = none;
          last_active_at = 0;
          last_gc_at = none;
          created_at = 0;
          updated_at = 0;
        },
      )
      ∷ [];
  messages =
      message 6 "toolResult" false (some 2)
      ∷ message 5 "assistant" false none
      ∷ message 4 "user" true none
      ∷ message 3 "toolResult" false (some 1)
      ∷ message 2 "assistant" false none
      ∷ message 1 "user" true none
      ∷ [];
  refs = picture ∷ [];
}

abbrev cut_store : Store
cut_store = (clear header 50 store).0

evicted : is_evicted 5 4 cut_store.messages ≡ true
unfolding is_at is_live clear evict
evicted = refl

-- The stale header comes back with an append and a head advance.
run-evicted_example :
    shows 4 (window header (run ((60, advances header 3) ∷ (61, clears header) ∷ []) cut_store))
    ≡ false
run-evicted_example =
    run-evicted header 4 ((60, advances header 3) ∷ (61, clears header) ∷ []) cut_store evicted

resolved : resolve header "img_1" media 10 store ≡ some picture
unfolding resolve is_ref same_kind
resolved = refl

resolve-authorized_example :
    Memᴰ picture store.refs
    × (picture.context_id ≡ header.id)
    × (str_eq "img_1" "img_1" ≡ true)
    × (same_kind media media ≡ true)
    × (1 ≤ 4)
    × (10 < 1000)
resolve-authorized_example = resolve-authorized header "img_1" media 10 store resolved

clear-cuts_example :
    (shows 4 (window header ((clear header 50 store).0))
      ≡ (ltb 4 1 && shows 4 (window header store)))
    × (count_refs header ((clear header 50 store).0) ≡ 0)
clear-cuts_example = clear-cuts header header 50 4 store refl

abbrev advanced_header : Header
advanced_header = record header { head_seq = 4; last_gc_at = some 40 }

abbrev advanced : Store
advanced = record {
  contexts =
      (
        5,
        record {
          conversation_id = 7;
          head_seq = 4;
          next_seq = 7;
          send_count_total = 2;
          system_prompt_hash = "hash";
          active_invocation_id = none;
          last_active_at = 0;
          last_gc_at = some 40;
          created_at = 0;
          updated_at = 40;
        },
      )
      ∷ [];
  messages =
      message 6 "toolResult" false (some 2)
      ∷ message 5 "assistant" false none
      ∷ message 4 "user" true none
      ∷ evict 40 (message 3 "toolResult" false (some 1))
      ∷ evict 40 (message 2 "assistant" false none)
      ∷ evict 40 (message 1 "user" true none)
      ∷ [];
  refs = picture ∷ [];
}

advances_to : advance_head header 4 40 store ≡ ok (advanced, advanced_header)
unfolding advance_head evict
advances_to = refl

advance_head-cuts_example :
    (1 < 4)
    × (4 < 7)
    × (shows 2 (window header advanced) ≡ (leb 4 2 && shows 2 (window header store)))
    × (any (λ r. r.context_id == 5 && ltb r.source_seq 4) advanced.refs ≡ false)
advance_head-cuts_example = advance_head-cuts header header 4 40 2 store advanced refl advances_to

same_window : options.window ≡ window header store
unfolding window retained_rows in_retained_range by_seq window_row sort
same_window = refl

below_next : All (λ r. r.seq < 7) (window header store)
below_next = rw (← same_window) (ground arith)

advance_head-plan_example :
    (s' : Store) × (h' : Header) × (advance_head header 4 40 store ≡ ok (s', h'))
    × (h'.head_seq ≡ 4)
advance_head-plan_example =
    advance_head-plan options second_turn header 40 store same_window refl below_next planned
