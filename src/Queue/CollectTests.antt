-- ===== src/Queue/CollectTests.antt =====
-- The collection of a message that opens a bucket, after the batch before it has been queued.
use plastic_wan.Base.{ℕ, ◌≡◌, refl, true, false, ◌&&◌, some, List, ◌∷◌, ◌==◌, leb, any, matches, ok}
use plastic_wan.Queue.Tables.{Bucket, BucketMessage, State}
use plastic_wan.Queue.Insert.{is_collecting, is_chat_paused}
use plastic_wan.Queue.Collect.{conversation_under, append_to_bucket}
use plastic_wan.Queue.Collected.{append_to_bucket-collects}
use plastic_wan.Queue.Samples.{small, taken, waiting_state, waiting_state-Sound}

append_to_bucket-collects_example :
    (b : ℕ) × (t : State) × (append_to_bucket small 5 0 taken 330 true waiting_state
      ≡ ok (t, some b))
    × (matches (λ (r : Bucket). r.conversation_id == 1 && is_collecting r.state) b t.buckets ≡ true)
    × (number : ℕ) × (rest : List BucketMessage) × (t.bucket_messages
        ≡ record { bucket_id = b; message_id = 7; sequence_no = number; source_bucket_id = some b }
          ∷ rest)
    × (any (λ (r : BucketMessage). r.bucket_id == b && leb number r.sequence_no) rest ≡ false)
unfolding is_chat_paused conversation_under
append_to_bucket-collects_example =
    append_to_bucket-collects small 5 0 1 taken 330 waiting_state waiting_state-Sound refl refl refl
      refl refl refl
