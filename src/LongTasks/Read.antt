-- ===== src/LongTasks/Read.antt =====
-- The reads of a task scope, `#get` and `#list` (src/store/long-tasks.ts). That a stored state is
-- one of the four holds by its type, as by the table's check.
use plastic_wan.Base.{
  ℕ, ◌≡◌, refl, Bool, true, false, ◌&&◌, ◌||◌, Option, none, some, List, [], ◌∷◌, ◌==◌,
  if◌then◌else◌, any, filter, sort, any-sort, Table, lookup, matches, any-eq-matches, Result, ok,
  err, ◌>>=◌, ◌∙◌, Result-cases, Bool-cases, sym, ==_iff, ==_refl, inl, inr, arith,
}
use plastic_wan.LongTasks.Rows.{
  Task, TaskState, Service, Scope, TaskError, invalid_in_database, task_payload, CancelOptions,
  Platform,
}
use plastic_wan.LongTasks.Write.{in_scope, owned, no_caller, is_waiting, has_pending, cancel}
use plastic_wan.LongTasks.Due.{schedule_order}
use plastic_wan.LongTasks.Invariant.{IsConsistent, linked}

-- The conjunct on the state, for a restricted scope.
unfoldable pub is_visible : Scope → Service → ℕ × Task → Bool
unfolding is_waiting has_pending in_scope owned
is_visible sc s (id, t) =
    in_scope sc t
    && owned sc t
    && (if sc.restricted then is_waiting t.state || has_pending id s.receipts else true)

-- The rows that `#list` selects.
unfoldable pub list_rows : Scope → Service → List (ℕ × Task)
unfolding is_visible no_caller
list_rows sc s = if no_caller sc then [] else sort schedule_order (filter (is_visible sc s) s.tasks)

module _ (p : Platform) where
  open p use {Value, parse_json}

  pub record ListedTask : Type 0 where
    pub id : ℕ
    pub payload : Value
    pub state : TaskState
    pub scheduled_at : Option ℕ
    pub created_at : ℕ

  unfoldable pub listed : ℕ × Task → Result TaskError ListedTask
  listed (id, t) = elim (parse_json t.payload_json) [
    | none ↦ err (invalid_in_database task_payload)
    | some payload ↦ ok (record {
      id = id;
      payload = payload;
      state = t.state;
      scheduled_at = t.scheduled_at;
      created_at = t.created_at;
    })
  ]

  unfoldable pub listed_all : List (ℕ × Task) → Result TaskError (List ListedTask)
  unfolding listed
  listed_all [] = ok []
  listed_all (row ∷ rows) = listed row >>= λ first. listed_all rows >>= λ rest. ok (first ∷ rest)

  unfoldable pub list : Scope → Service → Result TaskError (List ListedTask)
  unfolding list_rows listed_all
  list sc s = listed_all (list_rows sc s)

  unfoldable pub get : Scope → ℕ → Service → Result TaskError (Option ListedTask)
  unfolding listed in_scope owned no_caller
  get sc id s =
      let found : Option Task = elim (lookup id s.tasks) [
        | none ↦ none
        | some t ↦ if in_scope sc t && owned sc t then some t else none
      ] in
      if no_caller sc
      then ok none
      else elim found [ none ↦ ok none | some t ↦ listed (id, t) >>= λ task. ok (some task) ]

any-list_rows :
    (sc : Scope) (id : ℕ) (s : Service)
    → IsConsistent s
    → any (λ row. row.0 == id) (list_rows sc s) ≡ true
    → matches (λ t. is_visible sc s (id, t)) id s.tasks ≡ true
unfolding list_rows
any-list_rows sc id s h e =
    sym (any-eq-matches (λ t. is_visible sc s (id, t)) id s.tasks h.distinct)
    ∙ (sym (same s.tasks) ∙ selected)
  where
    same :
        (rows : Table Task)
        → any (λ row. row.0 == id) (filter (is_visible sc s) rows)
          ≡ any (λ row. row.0 == id && is_visible sc s (id, row.1)) rows
    same [] = refl
    same ((j, t) ∷ rows) = elim (Bool-cases (j == id)) [
      | inl e1 ↦ let key = (==_iff j id).0 e1 in rw key (ground (arith, same rows, ==_refl id))
      | inr e0 ↦ ground (arith, same rows)
    ]

    selected : any (λ row. row.0 == id) (filter (is_visible sc s) s.tasks) ≡ true
    selected =
        ground
          (arith, any-sort schedule_order (λ row. row.0 == id) (filter (is_visible sc s) s.tasks))

-- In a consistent state, a task whose row the list of a restricted scope selects can be cancelled
-- in that scope: the cancel returns true.
pub cancel-listed :
    (sc : Scope) (id : ℕ) (o : CancelOptions) (at : ℕ) (s : Service)
    → IsConsistent s
    → sc.restricted ≡ true
    → any (λ row. row.0 == id) (list_rows sc s) ≡ true
    → (s' : Service) × (cancel sc id o at s ≡ ok (s', true))
unfolding cancel linked list_rows
cancel-listed sc id o at s h restricted e =
    let seen = any-list_rows sc id s h e in
    let link = h.links id in
    elim (Result-cases (cancel sc id o at s)) [
      | inl ((s', true), done) ↦ (s', done)
      | inl ((s', false), done) ↦ absurd (ground arith)
      | inr (x, done) ↦ absurd (ground arith)
    ]
