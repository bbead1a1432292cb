-- ===== src/Conversation/Tests.antt =====
-- Two conversations and a cache for one agent.
use plastic_wan.Base.{
  ℕ, ◌+◌, ◌≤◌, ◌<◌, ◌≡◌, refl, max, ◌⊎◌, true, none, some, [], ◌∷◌, count, filter, length, ◌==◌,
}
use plastic_wan.Conversation.Runtime.{
  CachedAgent, BucketKind, messages, completion, PendingBucket, Runtime, empty_state, stamp,
  agent_of, cached_agent_count, remember, pending_of, is_messages, ids, take_next_injections,
}
use plastic_wan.Conversation.Cache.{is_own, IsValid}
use plastic_wan.Conversation.Eviction.{remember-bounded}
use plastic_wan.Conversation.Injections.{
  occurrences, take_next_injections-conserves, take_next_injections-alone,
}

abbrev agent : ℕ → CachedAgent
agent c = record {
  conversation_id = c;
  agent = c;
  header = record {
    id = c;
    conversation_id = c;
    head_seq = 1;
    next_seq = 1;
    send_count_total = 0;
    system_prompt_hash = "hash";
    last_gc_at = none;
  };
  transcript_seqs = [];
  system_prompt_hash = "hash";
  last_used_at = 10;
}

abbrev bucket : ℕ → BucketKind → PendingBucket
bucket id kind = record { bucket_id = id; kind = kind }

abbrev busy : Runtime
busy = record {
  states =
      (1, record empty_state { agent = some (agent 1) })
      ∷ (
        2,
        record empty_state {
          pending_buckets = bucket 20 completion ∷ bucket 21 messages ∷ bucket 22 messages ∷ [];
        },
      )
      ∷ [];
  cache_size = 1;
  evicted = 0;
}

busy-IsValid : IsValid busy.states
unfolding is_own
busy-IsValid = record { distinct = (refl, (refl, tt)); own = (refl, (refl, tt)) }

remember-bounded_example :
    (cached_agent_count (remember (agent 2) 30 busy) ≤ max 1 1)
    × IsValid ((remember (agent 2) 30 busy).states)
    × (agent_of 2 ((remember (agent 2) 30 busy).states) ≡ some (stamp 30 (agent 2)))
remember-bounded_example = remember-bounded (agent 2) 30 busy busy-IsValid

take_next_injections-conserves_example :
    occurrences 20 (pending_of 2 busy.states)
    ≡ count (λ j. j == 20) ((take_next_injections 2 true busy).1)
      + occurrences 20 (pending_of 2 ((take_next_injections 2 true busy).0.states))
take_next_injections-conserves_example = take_next_injections-conserves 2 20 true busy

take_next_injections-alone_example :
    ((0 < length (filter is_messages (pending_of 2 busy.states)))
      × ((take_next_injections 2 true busy).1
          ≡ ids (filter is_messages (pending_of 2 busy.states))))
    ⊎ ((filter is_messages (pending_of 2 busy.states) ≡ [])
        × (true ≡ true)
        × (length ((take_next_injections 2 true busy).1) ≤ 1))
    ⊎ ((filter is_messages (pending_of 2 busy.states) ≡ [])
        × ((take_next_injections 2 true busy).1 ≡ []))
take_next_injections-alone_example = take_next_injections-alone 2 true busy

-- The two message buckets come first, before the completion that was queued earlier.
messages_first : (take_next_injections 2 true busy).1 ≡ 21 ∷ 22 ∷ []
unfolding take_next_injections pending_of is_messages
messages_first = refl
