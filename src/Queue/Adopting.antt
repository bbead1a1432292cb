-- ===== src/Queue/Adopting.antt =====
-- The messages that `#adoptPendingBotMessages` (src/ingress/telegram-ingestion.ts) adopts.
use plastic_wan.Base.{
  ℕ, zero, suc, ◌+◌, ◌≡◌, refl, false, ◌&&◌, inl, inr, List, [], ◌∷◌, ◌==◌, any, filter, All,
  All-sort, All-reverse, Bool-cases, arith,
}
use plastic_wan.Queue.Tables.{Message, BucketMessage, State, Environment}
use plastic_wan.Queue.Snapshot.{in_bucket, newest_first, take_first}
use plastic_wan.Queue.Collect.{holds_message, is_adoptable, insert_messages, adopt_pending}

All-take_first {ℓ κ} :
    {A : Type ℓ} (P : A → Type κ) (n : ℕ) (xs : List A) → All P xs → All P (take_first n xs)
All-take_first P zero xs h = tt
All-take_first P (suc n) [] h = tt
All-take_first P (suc n) (x ∷ xs) (h, hs) = (h, All-take_first P n xs hs)

abbrev IsOther : ℕ → ℕ × Message → Type 0
IsOther id row = (row.0 == id) ≡ false

module _ (id c b : ℕ) where
  All-adoptable :
      (s : State) (rows : List (ℕ × Message))
      → any (λ row. row.0 == id && row.1.is_bot) rows ≡ false
      → All (IsOther id) (filter (is_adoptable c b s) rows)
  unfolding is_adoptable
  All-adoptable s [] h = tt
  All-adoptable s (row ∷ rows) h = elim (Bool-cases (is_adoptable c b s row)) [
    | inl e ↦ rw e (ground arith, All-adoptable s rows (ground arith))
    | inr e ↦ rw e (All-adoptable s rows (ground arith))
  ]

  any-insert_messages :
      (n : ℕ) (rows : List (ℕ × Message)) (xs : List BucketMessage)
      → All (IsOther id) rows
      → any (holds_message id) xs ≡ false
      → any (holds_message id) (insert_messages b n rows xs) ≡ false
  unfolding insert_messages
  any-insert_messages n [] xs h e = e
  any-insert_messages n (row ∷ rows) xs (h, hs) e =
      any-insert_messages (n + 1) rows _ hs (ground arith)

  pub any-in_bucket :
      (xs : List BucketMessage)
      → any (holds_message id) xs ≡ false
      → any (in_bucket b id) xs ≡ false
  any-in_bucket [] e = refl
  any-in_bucket (x ∷ xs) e = ground (arith, any-in_bucket xs)

  pub any-adopt_pending :
      (env : Environment) (s : State)
      → any (holds_message id) s.bucket_messages ≡ false
      → any (λ row. row.0 == id && row.1.is_bot) s.messages ≡ false
      → any (in_bucket b id) (adopt_pending env c b s).bucket_messages ≡ false
  unfolding adopt_pending
  any-adopt_pending env s free human = any-in_bucket _ (
      any-insert_messages 1 _ s.bucket_messages
        (All-reverse (IsOther id) _ (
          All-take_first (IsOther id) env.history_messages _
            (All-sort newest_first (IsOther id) _ (All-adoptable s s.messages human))))
        free)
