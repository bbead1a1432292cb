-- ===== src/Conversation/Cache.antt =====
-- The cached agents of the conversation runtime (src/orchestration/conversation-runtime.ts): the
-- table stays well formed, and what the search for a victim finds.
use plastic_wan.Base.{
  ℕ, suc, ◌≤◌, ◌≡◌, ◌≢◌, refl, Bool, true, false, ◌⊎◌, inl, inr, Option, none, some, [], ◌∷◌, ◌++◌,
  ◌==◌, if◌then◌else◌, is_some, All, All-append, Table, lookup, modify, modify-HasDistinctKeys,
  HasDistinctKeys, count_rows, matches, Bool-cases, Option-cases, ==_iff, ==_refl, arith,
}
use plastic_wan.Conversation.Runtime.{
  CachedAgent, ConversationState, empty_state, with_state, set_agent, has_agent, older_of,
  find_victim,
}

-- A cached agent stands under its own conversation.
unfoldable pub is_own : ℕ → Option CachedAgent → Bool
is_own c none = true
is_own c (some a) = a.conversation_id == c

abbrev pub IsOwn : ℕ × ConversationState → Type 0
IsOwn row = is_own row.0 row.1.agent ≡ true

pub record IsValid (states : Table ConversationState) : Type 0 where
  pub distinct : HasDistinctKeys states
  pub own : All IsOwn states

pub set_agent-IsValid :
    (c : ℕ) (agent : Option CachedAgent) (states : Table ConversationState)
    → is_own c agent ≡ true
    → IsValid states
    → IsValid (modify c (set_agent agent) states)
unfolding modify set_agent
set_agent-IsValid c agent states h v = record {
  distinct = modify-HasDistinctKeys c (set_agent agent) states v.distinct;
  own = owned c agent states h v.own;
}
  where
    owned :
        (c : ℕ) (agent : Option CachedAgent) (states : Table ConversationState)
        → is_own c agent ≡ true
        → All IsOwn states
        → All IsOwn (modify c (set_agent agent) states)
    owned c agent [] h o = tt
    owned c agent ((d, st) ∷ states) h (o, os) = elim (Bool-cases (d == c)) [
      | inl e ↦ rw e (ground (arith, ==_iff d c), os)
      | inr e ↦ rw e (o, owned c agent states h os)
    ]

pub lookup-append :
    (j : ℕ) (states : Table ConversationState) (st : ConversationState) (c : ℕ)
    → lookup j (states ++ (c, st) ∷ [])
      ≡ (if is_some (lookup j states) then lookup j states else if c == j then some st else none)
lookup-append j [] st c = refl
lookup-append j ((d, q) ∷ states) st c = ground (arith, lookup-append j states st c)

pub with_state-IsValid :
    (c : ℕ) (states : Table ConversationState) → IsValid states → IsValid (with_state c states)
unfolding with_state is_own
with_state-IsValid c states v = elim (Bool-cases (is_some (lookup c states))) [
  | inl e ↦ rw e v
  | inr e ↦ rw e (record {
    distinct = distinct c states e v.distinct;
    own = All-append IsOwn states ((c, empty_state) ∷ []) v.own (refl, tt);
  })
]
  where
    distinct :
        (c : ℕ) (states : Table ConversationState)
        → is_some (lookup c states) ≡ false
        → HasDistinctKeys states
        → HasDistinctKeys (states ++ (c, empty_state) ∷ [])
    distinct c [] e h = (refl, tt)
    distinct c ((d, q) ∷ states) e (h, hs) = (
      ground (arith, lookup-append d states empty_state c, ==_iff c d, ==_iff d c),
      distinct c states (ground arith) hs,
    )

-- Forgetting a conversation with an agent lowers the count by one.
pub count-forget :
    (c : ℕ) (states : Table ConversationState)
    → HasDistinctKeys states
    → matches has_agent c states ≡ true
    → count_rows has_agent states ≡ suc (count_rows has_agent (modify c (set_agent none) states))
unfolding modify set_agent has_agent matches
count-forget c [] h e = cc
count-forget c ((d, st) ∷ states) (h, hs) e = ground (arith, count-forget c states hs)

older_of-eq :
    (protected d : ℕ) (victim agent : Option CachedAgent) {v : CachedAgent}
    → is_own d agent ≡ true
    → older_of protected victim agent ≡ some v
    → (victim ≡ some v)
      ⊎ ((agent ≡ some v) × (v.conversation_id ≢ protected) × (v.conversation_id ≡ d))
unfolding older_of is_own
older_of-eq protected d victim none o e = inl e
older_of-eq protected d none (some a) o e =
    ground (arith, ==_iff a.conversation_id protected, ==_iff a.conversation_id d)
older_of-eq protected d (some u) (some a) o e =
    ground (arith, ==_iff a.conversation_id protected, ==_iff a.conversation_id d)

matches-later :
    (c d : ℕ) (st : ConversationState) (states : Table ConversationState)
    → lookup d states ≡ none
    → matches has_agent c states ≡ true
    → matches has_agent c ((d, st) ∷ states) ≡ true
unfolding matches
matches-later c d st states fresh e = ground (arith, ==_iff d c)

matches-first :
    (d : ℕ) (st : ConversationState) (states : Table ConversationState) {a : CachedAgent}
    → st.agent ≡ some a
    → matches has_agent d ((d, st) ∷ states) ≡ true
unfolding matches has_agent
matches-first d st states e = ground (arith, ==_refl d)

-- A victim is never protected, and stands in the table unless it was found before.
pub find_victim-cached :
    (protected : ℕ) (victim : Option CachedAgent) (states : Table ConversationState)
    {v : CachedAgent}
    → IsValid states
    → find_victim protected victim states ≡ some v
    → (victim ≡ some v)
      ⊎ ((v.conversation_id ≢ protected) × (matches has_agent v.conversation_id states ≡ true))
unfolding find_victim
find_victim-cached protected victim [] h e = inl e
find_victim-cached protected victim ((d, st) ∷ states) {v = v} h e =
    let rest =
      find_victim-cached protected (older_of protected victim st.agent) states {v = v}
        (record { distinct = h.distinct.1; own = h.own.1 }) e in
    elim rest [
      | inr (other, cached) ↦
          inr (other, matches-later v.conversation_id d st states h.distinct.0 cached)
      | inl chosen ↦ elim (older_of-eq protected d victim st.agent h.own.0 chosen) [
        | inl before ↦ inl before
        | inr (mine, other, here) ↦ inr (other, rw here (matches-first d st states mine))
      ]
    ]

older_of-some :
    (protected : ℕ) (v : CachedAgent) (agent : Option CachedAgent)
    → (w : CachedAgent) × (older_of protected (some v) agent ≡ some w)
unfolding older_of
older_of-some protected v none = (v, refl)
older_of-some protected v (some a) = elim (Option-cases (older_of protected (some v) (some a))) [
  | inl e ↦ absurd (ground arith)
  | inr found ↦ found
]

find_victim-some :
    (protected : ℕ) (v : CachedAgent) (states : Table ConversationState)
    → find_victim protected (some v) states ≢ none
unfolding find_victim
find_victim-some protected v [] = λ e. cc
find_victim-some protected v ((d, st) ∷ states) =
    let (w, e) = older_of-some protected v st.agent in rw e (find_victim-some protected w states)

-- Without a victim only the protected conversation can have an agent.
pub find_victim-none :
    (protected : ℕ) (states : Table ConversationState)
    → IsValid states
    → find_victim protected none states ≡ none
    → (count_rows has_agent states ≤ 1)
      × ((count_rows has_agent states ≡ 0) ⊎ (is_some (lookup protected states) ≡ true))
unfolding find_victim older_of has_agent is_own
find_victim-none protected [] h e = (omega arith, inl refl)
find_victim-none protected ((d, st) ∷ states) h e =
    let rest =
      find_victim-none protected states (record { distinct = h.distinct.1; own = h.own.1 }) in
    elim (Option-cases st.agent) [
      | inl idle ↦ ground (arith, rest)
      | inr (a, e') ↦ elim (Bool-cases (a.conversation_id == protected)) [
        | inl mine ↦ ground (
          arith,
          rest,
          h.own.0,
          h.distinct.0,
          ==_iff a.conversation_id protected,
          ==_iff a.conversation_id d,
          ==_refl d,
        )
        | inr other ↦ absurd (find_victim-some protected a states (ground arith))
      ]
    ]
