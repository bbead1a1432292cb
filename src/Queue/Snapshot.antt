-- ===== src/Queue/Snapshot.antt =====
-- `snapshotInvocation` (src/store/invocation-snapshot.ts): the frozen input of an invocation. The
-- JSON text of a message is a parameter.
use mathlib.Core.List.{reverse}
use plastic_wan.Base.{
  ℕ, zero, suc, ◌+◌, max, Bool, true, not, ◌&&◌, ◌||◌, Option, none, some, List, [], ◌∷◌, ◌++◌, ltb,
  leb, ◌==◌, if◌then◌else◌, any, filter, sort, lookup,
}
use plastic_wan.Queue.Tables.{
  Message, BucketMessage, Section, history, new, InvocationMessage, State, Environment,
}

abbrev pub take_first {ℓ} : {A : Type ℓ} → ℕ → List A → List A
take_first zero xs = []
take_first (suc n) [] = []
take_first (suc n) (x ∷ xs) = x ∷ take_first n xs

-- A message of the snapshot: its id, its current revision, and the bucket it came from.
pub record SnapshotRow : Type 0 where
  pub message_id : ℕ
  pub revision_id : ℕ
  pub source_bucket_id : Option ℕ

abbrev pub in_bucket : ℕ → ℕ → BucketMessage → Bool
in_bucket bucket_id message_id b = b.bucket_id == bucket_id && b.message_id == message_id

unfoldable pub above_cutoff : Option ℕ → ℕ → Bool
above_cutoff none telegram_message_id = true
above_cutoff (some cutoff) telegram_message_id = ltb cutoff telegram_message_id

unfoldable pub is_history : State → ℕ → ℕ → ℕ × Message → Bool
unfolding above_cutoff
is_history s conversation_id bucket_id (id, m) =
    m.conversation_id == conversation_id
    && m.visible
    && above_cutoff (lookup conversation_id s.cutoffs) m.telegram_message_id
    && not (any (in_bucket bucket_id id) s.bucket_messages)

-- `ORDER BY telegram_date DESC, telegram_message_id DESC`
unfoldable pub newest_first : ℕ × Message → ℕ × Message → Bool
newest_first (i, m) (j, n) =
    ltb n.telegram_date m.telegram_date
    || (n.telegram_date == m.telegram_date && leb n.telegram_message_id m.telegram_message_id)

-- A message without a current revision is in no row of the join.
unfoldable pub revised : List (ℕ × Message) → List SnapshotRow
revised [] = []
revised ((id, m) ∷ rows) =
    let rest = revised rows in
    elim m.current_revision_id [
      | none ↦ rest
      | some revision ↦
          record { message_id = id; revision_id = revision; source_bucket_id = none } ∷ rest
    ]

unfoldable pub history_rows : Environment → ℕ → ℕ → State → List SnapshotRow
unfolding is_history newest_first revised
history_rows env conversation_id bucket_id s = reverse (
    take_first env.history_messages
      (revised (sort newest_first (filter (is_history s conversation_id bucket_id) s.messages))))

unfoldable pub current_row : State → BucketMessage → List SnapshotRow
current_row s b = elim (lookup b.message_id s.messages) [
  | none ↦ []
  | some m ↦ elim m.current_revision_id [
    | none ↦ []
    | some revision ↦
        record {
          message_id = b.message_id;
          revision_id = revision;
          source_bucket_id = b.source_bucket_id;
        }
        ∷ []
  ]
]

unfoldable pub current_of : State → List BucketMessage → List SnapshotRow
unfolding current_row
current_of s [] = []
current_of s (b ∷ rows) = current_row s b ++ current_of s rows

unfoldable pub by_sequence : BucketMessage → BucketMessage → Bool
by_sequence b c = leb b.sequence_no c.sequence_no

unfoldable pub current_rows : ℕ → State → List SnapshotRow
unfolding current_of by_sequence
current_rows bucket_id s =
    current_of s (sort by_sequence (filter (λ b. b.bucket_id == bucket_id) s.bucket_messages))

-- `COALESCE(MAX(sequence_no), 0) + 1`
unfoldable pub next_sequence : ℕ → List InvocationMessage → ℕ
next_sequence invocation_id [] = 1
next_sequence invocation_id (m ∷ ms) =
    let rest = next_sequence invocation_id ms in
    if m.invocation_id == invocation_id then max (m.sequence_no + 1) rest else rest

unfoldable pub insert_snapshots :
    Environment
    → ℕ
    → Section
    → ℕ
    → List SnapshotRow
    → List InvocationMessage
    → List InvocationMessage
insert_snapshots env invocation_id section sequence [] ms = ms
insert_snapshots env invocation_id section sequence (row ∷ rows) ms =
    insert_snapshots env invocation_id section (sequence + 1) rows (
      record {
        invocation_id = invocation_id;
        message_id = row.message_id;
        revision_id = row.revision_id;
        section = section;
        sequence_no = sequence;
        source_bucket_id = row.source_bucket_id;
        snapshot_json = env.snapshot_text row.revision_id;
      }
      ∷ ms)

abbrev pub count_from {ℓ} : {A : Type ℓ} → ℕ → List A → ℕ
count_from n [] = n
count_from n (x ∷ xs) = count_from (n + 1) xs

unfoldable pub snapshot_invocation :
    Environment
    → (invocation_id bucket_id conversation_id : ℕ) → (include_history append : Bool) → State
    → State
unfolding history_rows current_rows next_sequence insert_snapshots
snapshot_invocation env invocation_id bucket_id conversation_id include_history append s =
    let past = if include_history then history_rows env conversation_id bucket_id s else [] in
    let current = current_rows bucket_id s in
    let first = if append then next_sequence invocation_id s.invocation_messages else 1 in
    record s {
      invocation_messages =
          insert_snapshots env invocation_id new (count_from first past) current
            (insert_snapshots env invocation_id history first past s.invocation_messages);
    }
