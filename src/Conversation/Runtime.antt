-- ===== src/Conversation/Runtime.antt =====
-- `ConversationRuntime` (src/orchestration/conversation-runtime.ts). The map of states keeps the
-- order in which conversations were first seen. An agent object and a waiting promise are numbers:
-- only their identity matters. The clock is an argument.
use Prim.Native.String.{String}
use plastic_wan.Base.{
  ℕ, zero, suc, ◌+◌, Bool, true, false, not, ◌||◌, Option, none, some, List, [], ◌∷◌, ◌++◌, map,
  ltb, leb, ◌==◌, if◌then◌else◌, is_some, is_empty, filter, Table, lookup, modify, count_rows,
  matches,
}
use plastic_wan.Context.Tables.{Header}

pub record CachedAgent : Type 0 where
  pub conversation_id : ℕ
  pub agent : ℕ
  pub header : Header
  pub transcript_seqs : List (Option ℕ)
  pub system_prompt_hash : String
  pub last_used_at : ℕ

pub data BucketKind : Type 0 where
  messages completion : BucketKind

pub record PendingBucket : Type 0 where
  pub bucket_id : ℕ
  pub kind : BucketKind

pub record ConversationState : Type 0 where
  pub agent : Option CachedAgent
  pub pending_buckets : List PendingBucket
  pub wake : Option ℕ
  pub closing : Bool
  pub round_in_progress : Bool

pub record Runtime : Type 0 where
  pub states : Table ConversationState
  pub cache_size : ℕ
  pub evicted : ℕ

abbrev pub empty_state : ConversationState
empty_state = record {
  agent = none;
  pending_buckets = [];
  wake = none;
  closing = false;
  round_in_progress = false;
}

-- `#state`: the map with a state for the conversation.
unfoldable pub with_state : ℕ → Table ConversationState → Table ConversationState
with_state c states = if is_some (lookup c states) then states else states ++ (c, empty_state) ∷ []

unfoldable pub update : ℕ → (ConversationState → ConversationState) → Runtime → Runtime
unfolding with_state modify
update c f rt = record rt { states = modify c f (with_state c rt.states) }

-- `this.#states.get(...)` with an assignment when it is there.
unfoldable pub update_known : ℕ → (ConversationState → ConversationState) → Runtime → Runtime
unfolding modify
update_known c f rt = record rt { states = modify c f rt.states }

unfoldable pub set_agent : Option CachedAgent → ConversationState → ConversationState
set_agent agent st = record st { agent = agent }

abbrev pub stamp : ℕ → CachedAgent → CachedAgent
stamp now a = record a { last_used_at = now }

unfoldable pub stamp_state : ℕ → ConversationState → ConversationState
stamp_state now st = record st {
  agent = elim st.agent [ none ↦ none | some a ↦ some (stamp now a) ];
}

unfoldable pub agent_of : ℕ → Table ConversationState → Option CachedAgent
agent_of c states = elim (lookup c states) [ none ↦ none | some st ↦ st.agent ]

unfoldable pub cached_agent : ℕ → ℕ → Runtime → Runtime × Option CachedAgent
unfolding update stamp_state agent_of
cached_agent c now rt = let rt' = update c (stamp_state now) rt in (rt', agent_of c rt'.states)

unfoldable pub forget : ℕ → Runtime → Runtime
unfolding update_known set_agent
forget c rt = update_known c (set_agent none) rt

unfoldable pub has_agent : ConversationState → Bool
has_agent st = is_some st.agent

unfoldable pub cached_agent_count : Runtime → ℕ
unfolding has_agent
cached_agent_count rt = count_rows has_agent rt.states

-- One round of the search for a victim.
unfoldable pub older_of :
    (protected : ℕ) → Option CachedAgent → Option CachedAgent → Option CachedAgent
older_of protected victim none = victim
older_of protected none (some a) = if a.conversation_id == protected then none else some a
older_of protected (some v) (some a) =
    if a.conversation_id == protected
    then some v
    else if ltb a.last_used_at v.last_used_at
    then some a
    else some v

unfoldable pub find_victim :
    (protected : ℕ) → Option CachedAgent → Table ConversationState → Option CachedAgent
unfolding older_of
find_victim protected victim [] = victim
find_victim protected victim ((c, st) ∷ states) =
    find_victim protected (older_of protected victim st.agent) states

-- The loop of `#evictOverflow`, with fuel for its rounds.
unfoldable pub evict_loop : (fuel : ℕ) → (protected : ℕ) → Runtime → Runtime
unfolding cached_agent_count find_victim forget
evict_loop zero protected rt = rt
evict_loop (suc fuel) protected rt =
    if ltb rt.cache_size (cached_agent_count rt)
    then (elim (find_victim protected none rt.states) [
      | none ↦ rt
      | some v ↦
          evict_loop fuel protected
            (record (forget v.conversation_id rt) { evicted = rt.evicted + 1 })
    ])
    else rt

-- Each round takes one cached agent away, so their number is enough fuel.
unfoldable pub evict_overflow : ℕ → Runtime → Runtime
unfolding evict_loop
evict_overflow protected rt = evict_loop (cached_agent_count rt) protected rt

unfoldable pub remember : CachedAgent → ℕ → Runtime → Runtime
unfolding update set_agent evict_overflow
remember entry now rt =
    evict_overflow entry.conversation_id
      (update entry.conversation_id (set_agent (some (stamp now entry))) rt)

unfoldable pub begin_closing : ℕ → Runtime → Runtime
unfolding update
begin_closing c rt = update c (λ st. record st { closing = true }) rt

unfoldable pub end_closing : ℕ → Runtime → Runtime
unfolding update_known
end_closing c rt = update_known c (λ st. record st { closing = false }) rt

unfoldable pub is_closing : ℕ → Runtime → Bool
unfolding matches
is_closing c rt = matches (λ st. st.closing) c rt.states

unfoldable pub begin_round : ℕ → Runtime → Runtime
unfolding update
begin_round c rt = update c (λ st. record st { round_in_progress = true }) rt

unfoldable pub end_round : ℕ → Runtime → Runtime
unfolding update_known
end_round c rt = update_known c (λ st. record st { round_in_progress = false }) rt

unfoldable pub is_round_in_progress : ℕ → Runtime → Bool
unfolding matches
is_round_in_progress c rt = matches (λ st. st.round_in_progress) c rt.states

unfoldable pub is_messages : PendingBucket → Bool
is_messages b = test b.kind
  where
    test : BucketKind → Bool
    test messages = true
    test completion = false

unfoldable pub pending_of : ℕ → Table ConversationState → List PendingBucket
pending_of c states = elim (lookup c states) [ none ↦ [] | some st ↦ st.pending_buckets ]

unfoldable pub wake_of : ℕ → Table ConversationState → Option ℕ
wake_of c states = elim (lookup c states) [ none ↦ none | some st ↦ st.wake ]

-- The waiter that is woken, if one waits.
unfoldable pub queue_injection : ℕ → PendingBucket → Runtime → Runtime × Option ℕ
unfolding update wake_of
queue_injection c bucket rt = (
  update c (λ st. record st { pending_buckets = st.pending_buckets ++ bucket ∷ []; wake = none })
      rt,
  wake_of c rt.states,
)

unfoldable pub set_pending : ℕ → List PendingBucket → Runtime → Runtime
unfolding update_known
set_pending c pending rt = update_known c (λ st. record st { pending_buckets = pending }) rt

abbrev pub ids : List PendingBucket → List ℕ
ids buckets = map (λ b. b.bucket_id) buckets

unfoldable pub take_injections : ℕ → Runtime → Runtime × List ℕ
unfolding set_pending pending_of
take_injections c rt = (set_pending c [] rt, ids (pending_of c rt.states))

-- The completion that `shift` takes from the front.
unfoldable pub shift : ℕ → List PendingBucket → Runtime → Runtime × List ℕ
unfolding set_pending
shift c [] rt = (rt, [])
shift c (b ∷ rest) rt = (set_pending c rest rt, b.bucket_id ∷ [])

unfoldable pub take_next_injections : ℕ → (include_completion : Bool) → Runtime → Runtime × List ℕ
unfolding pending_of is_messages set_pending shift
take_next_injections c include_completion rt =
    let pending = pending_of c rt.states in
    let batch = filter is_messages pending in
    if not (is_empty batch)
    then (set_pending c (filter (λ b. not (is_messages b)) pending) rt, ids batch)
    else if not include_completion
    then (rt, [])
    else shift c pending rt

pub data WaitResult : Type 0 where
  pending timeout aborted : WaitResult

-- The synchronous part of `waitForInjection`: its result, or none when the waiter is left waiting.
unfoldable pub wait_for_injection :
    ℕ
    → (timeout_milliseconds : ℕ) → (signal_aborted : Bool) → (waiter : ℕ) → Runtime
    → Runtime × Option WaitResult
unfolding update pending_of
wait_for_injection c timeout_milliseconds signal_aborted waiter rt =
    if not (is_empty (pending_of c rt.states))
    then (rt, some pending)
    else if leb timeout_milliseconds 0 || signal_aborted
    then (rt, some (if signal_aborted then aborted else timeout))
    else (update c (λ st. record st { wake = some waiter }) rt, none)

unfoldable pub is_waiter : ℕ → Option ℕ → Bool
is_waiter waiter none = false
is_waiter waiter (some w) = w == waiter

-- The end of a wait by its timer or its signal: the waiter takes itself off, unless a later one
-- stands there.
unfoldable pub finish_wait : ℕ → (waiter : ℕ) → Runtime → Runtime
unfolding update_known is_waiter
finish_wait c waiter rt =
    update_known c (λ st. if is_waiter waiter st.wake then record st { wake = none } else st) rt
