-- ===== src/Conversation/Eviction.antt =====
-- The bound on cached agents (`#evictOverflow` and `remember` of
-- src/orchestration/conversation-runtime.ts): eviction ends and spares the protected conversation.
use plastic_wan.Base.{
  ℕ, zero, suc, ◌+◌, ◌≤◌, ◌≡◌, refl, ◌∙◌, max, true, false, inl, inr, none, some, ltb, Table,
  lookup-modify, modify, Bool-cases, Option-cases, ==_iff, ==_refl, arith,
}
use plastic_wan.Conversation.Runtime.{
  CachedAgent, ConversationState, Runtime, empty_state, with_state, update, update_known, set_agent,
  stamp, agent_of, forget, cached_agent_count, find_victim, evict_loop, evict_overflow, remember,
}
use plastic_wan.Conversation.Cache.{
  is_own, IsValid, set_agent-IsValid, lookup-append, with_state-IsValid, count-forget,
  find_victim-cached, find_victim-none,
}

-- One round of the loop that found a victim.
drop_victim : CachedAgent → Runtime → Runtime
drop_victim v rt = record (forget v.conversation_id rt) { evicted = rt.evicted + 1 }

module _ (fuel protected : ℕ) (rt : Runtime) where
  evict_loop-fits :
      ltb rt.cache_size (cached_agent_count rt) ≡ false → evict_loop (suc fuel) protected rt ≡ rt
  unfolding evict_loop
  evict_loop-fits e = ground arith

  evict_loop-none :
      find_victim protected none rt.states ≡ none → evict_loop (suc fuel) protected rt ≡ rt
  unfolding evict_loop
  evict_loop-none e = ground arith

  evict_loop-some :
      {v : CachedAgent}
      → ltb rt.cache_size (cached_agent_count rt) ≡ true
      → find_victim protected none rt.states ≡ some v
      → evict_loop (suc fuel) protected rt ≡ evict_loop fuel protected (drop_victim v rt)
  unfolding evict_loop drop_victim
  evict_loop-some over e = ground arith

-- What eviction does to the cache: the bound holds, the protected conversation keeps its agent.
record IsEvicted (protected : ℕ) (rt rt' : Runtime) : Type 0 where
  bounded : cached_agent_count rt' ≤ max rt.cache_size 1
  valid : IsValid rt'.states
  keeps : agent_of protected rt'.states ≡ agent_of protected rt.states

drop_victim-lem :
    (protected : ℕ) (v : CachedAgent) (rt : Runtime)
    → IsValid rt.states
    → find_victim protected none rt.states ≡ some v
    → IsValid ((drop_victim v rt).states)
      × (cached_agent_count rt ≡ suc (cached_agent_count (drop_victim v rt)))
      × (agent_of protected ((drop_victim v rt).states) ≡ agent_of protected rt.states)
unfolding drop_victim forget update_known cached_agent_count agent_of is_own
drop_victim-lem protected v rt h e = elim (find_victim-cached protected none rt.states h e) [
  | inl impossible ↦ cc
  | inr (other, cached) ↦ (
    set_agent-IsValid v.conversation_id none rt.states refl h,
    count-forget v.conversation_id rt.states h.distinct cached,
    ground (
      arith,
      lookup-modify protected v.conversation_id (set_agent none) rt.states,
      ==_iff v.conversation_id protected,
    ),
  )
]

alone :
    (protected : ℕ) (rt : Runtime)
    → IsValid rt.states
    → find_victim protected none rt.states ≡ none
    → cached_agent_count rt ≤ max rt.cache_size 1
unfolding cached_agent_count
alone protected rt h e =
    let one = (find_victim-none protected rt.states h e).0 in omega (arith, one)

same_size : (v : CachedAgent) (rt : Runtime) → (drop_victim v rt).cache_size ≡ rt.cache_size
unfolding drop_victim forget update_known
same_size v rt = refl

agent_of-stored :
    (c : ℕ) (a : CachedAgent) (states : Table ConversationState)
    → agent_of c (modify c (set_agent (some a)) (with_state c states)) ≡ some a
unfolding agent_of set_agent with_state
agent_of-stored c a states = ground (
  arith,
  lookup-modify c c (set_agent (some a)) (with_state c states),
  lookup-append c states empty_state c,
  ==_refl c,
)

evict_loop-IsEvicted :
    (fuel protected : ℕ) (rt : Runtime)
    → IsValid rt.states
    → cached_agent_count rt ≤ fuel
    → IsEvicted protected rt (evict_loop fuel protected rt)
unfolding evict_loop
evict_loop-IsEvicted zero protected rt h enough = record {
  bounded = omega (arith, enough);
  valid = h;
  keeps = refl;
}
evict_loop-IsEvicted (suc fuel) protected rt h enough =
    elim (Bool-cases (ltb rt.cache_size (cached_agent_count rt))) [
      | inr fits ↦
          rw (evict_loop-fits fuel protected rt fits)
            (record { bounded = ground arith; valid = h; keeps = refl })
      | inl over ↦ elim (Option-cases (find_victim protected none rt.states)) [
        | inl none_left ↦
            rw (evict_loop-none fuel protected rt none_left)
              (record { bounded = alone protected rt h none_left; valid = h; keeps = refl })
        | inr (v, found) ↦
            let (valid, fewer, keeps) = drop_victim-lem protected v rt h found in
            let rest =
              evict_loop-IsEvicted fuel protected (drop_victim v rt) valid
                (omega (arith, fewer, enough)) in
            rw (evict_loop-some fuel protected rt over found) (record {
              bounded = omega (arith, rest.bounded, same_size v rt);
              valid = rest.valid;
              keeps = rest.keeps ∙ keeps;
            })
      ]
    ]

-- Storing an agent in a valid runtime keeps it valid, leaves at most as many cached agents as the
-- cache size, or one if that is zero, and the stored agent, stamped with the time, among them.
pub remember-bounded :
    (entry : CachedAgent) (now : ℕ) (rt : Runtime)
    → IsValid rt.states
    → (cached_agent_count (remember entry now rt) ≤ max rt.cache_size 1)
      × IsValid ((remember entry now rt).states)
      × (agent_of entry.conversation_id ((remember entry now rt).states) ≡ some (stamp now entry))
unfolding remember evict_overflow update is_own
remember-bounded entry now rt h =
    let c = entry.conversation_id in
    let stored = update c (set_agent (some (stamp now entry))) rt in
    let valid =
      set_agent-IsValid c (some (stamp now entry)) (with_state c rt.states) (==_refl c)
        (with_state-IsValid c rt.states h) in
    let done = evict_loop-IsEvicted (cached_agent_count stored) c stored valid (omega arith) in
    (done.bounded, done.valid, done.keeps ∙ agent_of-stored c (stamp now entry) rt.states)
