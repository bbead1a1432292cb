-- ===== src/Context/Eviction.antt =====
-- Eviction in the store of Conversation Contexts (src/context/context-store.ts) is final: no
-- operation but a rebuild shows an evicted message again, whatever header the caller holds.
use plastic_wan.Base.{
  ℕ, ◌≡◌, refl, ◌∙◌, Bool, true, false, not, ◌&&◌, Option, List, [], ◌∷◌, map, ltb, leb, ◌==◌,
  is_some, filter, any, any-sort, update_where, ok, err, ==_iff, arith,
}
use plastic_wan.Context.Gc.{WindowRow}
use plastic_wan.Context.Tables.{Header, MessageRow, Store, MessageInput}
use plastic_wan.Context.Store.{
  is_at, new_message, append, evict, advance_head, clear, touch, clear_active_invocation,
  in_retained_range, by_seq, retained_rows, window_row, window,
}

-- A call of the store, by any header.
pub data Action : Type 0 where
  appends : Header → MessageInput → Action
  advances : Header → (target : ℕ) → Action
  clears : Header → Action
  touches : Header → Option ℕ → Action
  clears_active : (invocation : ℕ) → Action

-- A transaction that throws leaves the tables as they were.
unfoldable pub step : ℕ → Action → Store → Store
step now (appends h input) s = elim (append h input now s) [ ok (s', h', seq) ↦ s' | err e ↦ s ]
step now (advances h target) s = elim (advance_head h target now s) [ ok (s', h') ↦ s' | err e ↦ s ]
step now (clears h) s = (clear h now s).0
step now (touches h active) s = touch h active now s
step now (clears_active invocation) s = clear_active_invocation invocation now s

unfoldable pub run : List (ℕ × Action) → Store → Store
run [] s = s
run ((now, a) ∷ rest) s = run rest (step now a s)

unfoldable pub is_live : ℕ → ℕ → MessageRow → Bool
unfolding is_at
is_live id seq m = is_at id seq m && not (is_some m.evicted_at)

-- A message is evicted: its row is there, and is not live.
abbrev pub is_evicted : ℕ → ℕ → List MessageRow → Bool
is_evicted id seq ms = any (is_at id seq) ms && not (any (is_live id seq) ms)

is_evicted-update_where :
    (id seq now : ℕ) (p : MessageRow → Bool) (ms : List MessageRow)
    → is_evicted id seq ms ≡ true
    → is_evicted id seq (update_where p (evict now) ms) ≡ true
unfolding is_at is_live evict
is_evicted-update_where id seq now p ms h =
    ground (arith, any-is_at id seq now p ms, any-is_live id seq now p ms)
  where
    any-is_at :
        (id seq now : ℕ) (p : MessageRow → Bool) (ms : List MessageRow)
        → any (is_at id seq) (update_where p (evict now) ms) ≡ any (is_at id seq) ms
    any-is_at id seq now p [] = refl
    any-is_at id seq now p (m ∷ ms) = ground (arith, any-is_at id seq now p ms)

    any-is_live :
        (id seq now : ℕ) (p : MessageRow → Bool) (ms : List MessageRow)
        → any (is_live id seq) ms ≡ false
        → any (is_live id seq) (update_where p (evict now) ms) ≡ false
    any-is_live id seq now p [] e = refl
    any-is_live id seq now p (m ∷ ms) e = ground (arith, any-is_live id seq now p ms)

append-is_evicted :
    (id seq now : ℕ) (h : Header) (input : MessageInput) (s : Store)
    → is_evicted id seq s.messages ≡ true
    → is_evicted id seq (step now (appends h input) s).messages ≡ true
unfolding step append new_message is_live is_at
append-is_evicted id seq now h input s e =
    ground (arith, any_same (is_at h.id h.next_seq) (is_at id seq) s.messages)
  where
    any_same :
        (p q : MessageRow → Bool) (ms : List MessageRow)
        → ((m : MessageRow) → p m ≡ q m)
        → any p ms ≡ any q ms
    any_same p q [] f = refl
    any_same p q (m ∷ ms) f = cc (f m, any_same p q ms f)

pub step-is_evicted :
    (id seq now : ℕ) (a : Action) (s : Store)
    → is_evicted id seq s.messages ≡ true
    → is_evicted id seq (step now a s).messages ≡ true
unfolding step advance_head clear touch clear_active_invocation
step-is_evicted id seq now (appends h input) s e = append-is_evicted id seq now h input s e
step-is_evicted id seq now (advances h target) s e = ground (
  arith,
  is_evicted-update_where id seq now (λ m. m.context_id == h.id && ltb m.seq target) s.messages e,
)
step-is_evicted id seq now (clears h) s e =
    is_evicted-update_where id seq now (λ m. m.context_id == h.id && leb h.head_seq m.seq)
      s.messages e
step-is_evicted id seq now (touches h active) s e = e
step-is_evicted id seq now (clears_active invocation) s e = e

run-is_evicted :
    (id seq : ℕ) (as' : List (ℕ × Action)) (s : Store)
    → is_evicted id seq s.messages ≡ true
    → is_evicted id seq (run as' s).messages ≡ true
unfolding run
run-is_evicted id seq [] s e = e
run-is_evicted id seq ((now, a) ∷ rest) s e =
    run-is_evicted id seq rest (step now a s) (step-is_evicted id seq now a s e)

-- Whether a header's window shows a row with a sequence number.
abbrev pub shows : ℕ → List WindowRow → Bool
shows seq rows = any (λ r. r.seq == seq) rows

any-window :
    (p : WindowRow → Bool) (h : Header) (s : Store)
    → any p (window h s) ≡ any (λ m. p (window_row m)) (filter (in_retained_range h) s.messages)
unfolding window retained_rows
any-window p h s =
    any-map (retained_rows h s)
    ∙ any-sort by_seq (λ m. p (window_row m)) (filter (in_retained_range h) s.messages)
  where
    any-map : (ms : List MessageRow) → any p (map window_row ms) ≡ any (λ m. p (window_row m)) ms
    any-map [] = refl
    any-map (m ∷ ms) = cc (any-map ms)

pub shows-window :
    (seq : ℕ) (h : Header) (s : Store)
    → shows seq (window h s) ≡ any (λ m. is_live h.id seq m && leb h.head_seq seq) s.messages
unfolding is_live is_at in_retained_range window_row
shows-window seq h s = any-window (λ r. r.seq == seq) h s ∙ live s.messages
  where
    live :
        (ms : List MessageRow)
        → any (λ m. m.seq == seq) (filter (in_retained_range h) ms)
          ≡ any (λ m. is_live h.id seq m && leb h.head_seq seq) ms
    live [] = refl
    live (m ∷ ms) = ground (arith, live ms, ==_iff m.seq seq)

-- A message that is evicted in the store stays out of sight: after any sequence of appends, head
-- advances, clears, touches and ends of invocations, by any headers, no header's window of its
-- context shows its sequence number.
pub run-evicted :
    (h : Header) (seq : ℕ) (as' : List (ℕ × Action)) (s : Store)
    → is_evicted h.id seq s.messages ≡ true
    → shows seq (window h (run as' s)) ≡ false
run-evicted h seq as' s e =
    shows-window seq h (run as' s)
    ∙ ground (arith, run-is_evicted h.id seq as' s e, not_live (run as' s).messages)
  where
    not_live :
        (ms : List MessageRow)
        → any (is_live h.id seq) ms ≡ false
        → any (λ m. is_live h.id seq m && leb h.head_seq seq) ms ≡ false
    not_live [] f = refl
    not_live (m ∷ ms) f = ground (arith, not_live ms)
