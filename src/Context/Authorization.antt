-- ===== src/Context/Authorization.antt =====
-- What references and windows show after a cut of the Conversation Context
-- (src/context/context-store.ts and src/context/context-refs.ts).
use Prim.Native.String.{String}
use text.Mathlib.Text.{◌==◌ as str_eq}
use plastic_wan.Base.{
  ℕ, ◌≤◌, ◌<◌, ◌≡◌, refl, Bool, true, false, not, ◌&&◌, some, List, [], ◌∷◌, ltb, leb, ◌==◌, filter,
  find?, find?-All, any, length, update_where, ok, Option-cases, Memᴰ, ==_iff, All-Memᴰ, and_true,
  arith, inl, inr,
}
use plastic_wan.Context.Tables.{Header, RefKind, RefRow, MessageRow, Store}
use plastic_wan.Context.Store.{advance_head, clear, evict, window}
use plastic_wan.Context.Refs.{is_ref, same_kind, resolve, count_refs}
use plastic_wan.Context.Eviction.{shows, shows-window, is_live}
use plastic_wan.Context.Store.{is_at}

is_ref-kind :
    (h : Header) (ref : String) (kind : RefKind) (q : RefRow)
    → (is_ref h ref q && same_kind q.kind kind) ≡ true
    → (q.context_id ≡ h.id) × (str_eq q.ref ref ≡ true) × (same_kind q.kind kind ≡ true)
unfolding is_ref
is_ref-kind h ref kind q e =
    let (stored, kinds) = and_true (is_ref h ref q) (same_kind q.kind kind) e in
    let (context, token) = and_true (q.context_id == h.id) (str_eq q.ref ref) stored in
    ((==_iff q.context_id h.id).0 context, token, kinds)

-- Resolving a reference authorizes only a stored row of the header's own context, with the wanted
-- token and kind, whose source is not below the head of that header and which has not expired.
pub resolve-authorized :
    (h : Header) (ref : String) (kind : RefKind) (now : ℕ) (s : Store) {r : RefRow}
    → resolve h ref kind now s ≡ some r
    → Memᴰ r s.refs
      × (r.context_id ≡ h.id)
      × (str_eq r.ref ref ≡ true)
      × (same_kind r.kind kind ≡ true)
      × (h.head_seq ≤ r.source_seq)
      × (now < r.expires_at)
unfolding resolve is_ref
resolve-authorized h ref kind now s {r} e =
    elim (Option-cases (find? (λ q. is_ref h ref q && same_kind q.kind kind) s.refs)) [
      | inl missing ↦ ground arith
      | inr (q, found) ↦
          let (member, matched) =
            find?-All (λ q. Memᴰ q s.refs) (λ q. is_ref h ref q && same_kind q.kind kind) s.refs
              (All-Memᴰ s.refs) found in
          let same : q ≡ r = ground arith in
          let (context, token, kinds) = is_ref-kind h ref kind q matched in
          rw (← same) (member, context, token, kinds, ground arith, ground arith)
    ]

live-update_where :
    (id seq head now : ℕ) (b : Bool) (p : MessageRow → Bool) (ms : List MessageRow)
    → ((m : MessageRow) → is_live id seq m ≡ true → p m ≡ not b)
    → any (λ m. is_live id seq m && leb head seq) (update_where p (evict now) ms)
      ≡ (b && any (λ m. is_live id seq m && leb head seq) ms)
unfolding is_live is_at evict
live-update_where id seq head now b p [] f = ground arith
live-update_where id seq head now b p (m ∷ ms) f =
    ground (arith, f m, live-update_where id seq head now b p ms f)

shows-evict :
    (h' : Header) (seq now : ℕ) (b : Bool) (p : MessageRow → Bool) (s s' : Store)
    → s'.messages ≡ update_where p (evict now) s.messages
    → ((m : MessageRow) → is_live h'.id seq m ≡ true → p m ≡ not b)
    → shows seq (window h' s') ≡ (b && shows seq (window h' s))
shows-evict h' seq now b p s s' same f = ground (
  arith,
  shows-window seq h' s,
  shows-window seq h' s',
  same,
  live-update_where h'.id seq h'.head_seq now b p s.messages f,
)

-- After `/cut_topic` by a header, any header of the context shows a row exactly when it did before
-- and the row stands below the first one that the cutting header retained; no reference of the
-- context is left.
pub clear-cuts :
    (h h' : Header) (now seq : ℕ) (s : Store)
    → h'.id ≡ h.id
    → (shows seq (window h' ((clear h now s).0)) ≡ (ltb seq h.head_seq && shows seq (window h' s)))
      × (count_refs h' ((clear h now s).0) ≡ 0)
unfolding clear count_refs is_live is_at
clear-cuts h h' now seq s same = (
  shows-evict h' seq now (ltb seq h.head_seq) (λ m. m.context_id == h.id && leb h.head_seq m.seq) s
      ((clear h now s).0) refl (live_at h h' seq same),
  none_left s.refs,
)
  where
    live_at :
        (h h' : Header) (seq : ℕ)
        → h'.id ≡ h.id
        → (m : MessageRow) → is_live h'.id seq m ≡ true
        → (m.context_id == h.id && leb h.head_seq m.seq) ≡ not (ltb seq h.head_seq)
    live_at h h' seq same m e = ground arith

    none_left :
        (refs : List RefRow)
        → length
            (filter (λ r. r.context_id == h'.id) (filter (λ r. not (r.context_id == h.id)) refs))
          ≡ 0
    none_left [] = refl
    none_left (r ∷ refs) = ground (arith, none_left refs)

-- A head advance that is not refused lies strictly between the header's head and its next number.
-- Any header of the context then shows a row exactly when it did before and the row is not below
-- the target, and no reference is left in the context whose source is below it.
pub advance_head-cuts :
    (h h' : Header) (target now seq : ℕ) (s s' : Store) {h2 : Header}
    → h'.id ≡ h.id
    → advance_head h target now s ≡ ok (s', h2)
    → (h.head_seq < target)
      × (target < h.next_seq)
      × (shows seq (window h' s') ≡ (leb target seq && shows seq (window h' s)))
      × (any (λ r. r.context_id == h.id && ltb r.source_seq target) s'.refs ≡ false)
unfolding advance_head is_live is_at
advance_head-cuts h h' target now seq s s' same e = (
  ground arith,
  ground arith,
  shows-evict h' seq now (leb target seq) (λ m. m.context_id == h.id && ltb m.seq target) s s'
      (ground arith) (live_at h h' seq target same),
  ground (arith, none_left s.refs),
)
  where
    live_at :
        (h h' : Header) (seq target : ℕ)
        → h'.id ≡ h.id
        → (m : MessageRow) → is_live h'.id seq m ≡ true
        → (m.context_id == h.id && ltb m.seq target) ≡ not (leb target seq)
    live_at h h' seq target same m e = ground arith

    none_left :
        (refs : List RefRow)
        → any
            (λ r. r.context_id == h.id && ltb r.source_seq target)
            (filter (λ r. not (r.context_id == h.id && ltb r.source_seq target)) refs)
          ≡ false
    none_left [] = refl
    none_left (r ∷ refs) = ground (arith, none_left refs)
