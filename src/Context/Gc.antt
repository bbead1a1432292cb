-- ===== src/Context/Gc.antt =====
-- Discard-only collection of a Conversation Context (src/context/context-gc.ts). Identifiers of tool
-- calls are only compared, and are numbers here; the ratio is a fraction, and its comparisons are
-- multiplied out, where the source rounds floating-point products.
use Prim.Native.String.{String}
use mathlib.Core.List.{reverse}
use plastic_wan.Base.{
  ℕ, zero, suc, ◌+◌, ◌*◌, Bool, true, false, not, ◌&&◌, ◌||◌, Option, none, some, List, [], ◌∷◌,
  ltb, leb, ◌==◌, if◌then◌else◌, is_some, filter, find?, sum_by, length, drop, is_empty,
}

pub data Block : Type 0 where
  text thinking : Block
  tool_call : (id : ℕ) → Block

-- The roles of an agent message; `custom` is any other.
pub data Message : Type 0 where
  user custom : Message
  assistant : List Block → Message
  tool_result : (tool_call_id : ℕ) → Message

-- A `Set` of call identifiers.
unfoldable pub has : ℕ → List ℕ → Bool
has c [] = false
has c (d ∷ ds) = d == c || has c ds

unfoldable pub add : ℕ → List ℕ → List ℕ
unfolding has
add c ds = if has c ds then ds else c ∷ ds

unfoldable pub delete : ℕ → List ℕ → List ℕ
delete c [] = []
delete c (d ∷ ds) = let rest = delete c ds in if d == c then rest else d ∷ rest

unfoldable pub add_calls : List Block → List ℕ → List ℕ
unfolding add
add_calls [] pending = pending
add_calls (tool_call id ∷ blocks) pending = add_calls blocks (add id pending)
add_calls (_ ∷ blocks) pending = add_calls blocks pending

-- The loop of `isRenderable`.
unfoldable pub answers_follow : List ℕ → List Message → Bool
answers_follow pending [] = true
answers_follow pending (assistant blocks ∷ ms) = answers_follow (add_calls blocks pending) ms
answers_follow pending (tool_result id ∷ ms) =
    let rest = answers_follow (delete id pending) ms in if has id pending then rest else false
answers_follow pending (_ ∷ ms) = answers_follow pending ms

unfoldable pub is_renderable : List Message → Bool
is_renderable (user ∷ ms) = answers_follow [] (user ∷ ms)
is_renderable _ = false

-- A row of the window, from `context_messages`.
pub record WindowRow : Type 0 where
  pub seq : ℕ
  pub role : String
  pub est_tokens : ℕ
  pub is_checkpoint : Bool
  pub send_seq : Option ℕ

-- The options; `ratio_num / ratio_den` is the hard token ratio.
pub record Options : Type 0 where
  pub retained_sends_target : ℕ
  pub retained_sends_max : ℕ
  pub ratio_num : ℕ
  pub ratio_den : ℕ
  pub context_window : ℕ
  pub max_output_tokens : ℕ
  pub estimated_input_tokens : ℕ
  pub head_seq : ℕ
  pub transcript_seqs : List (Option ℕ)
  pub window : List WindowRow
  pub messages : List Message

pub record GcPlan : Type 0 where
  pub target_seq : ℕ
  pub retained_index : ℕ
  pub before_tokens : ℕ
  pub after_tokens : ℕ
  pub before_sends : ℕ
  pub after_sends : ℕ
  pub before_messages : ℕ
  pub after_messages : ℕ

unfoldable pub is_send_from : ℕ → WindowRow → Bool
is_send_from from r = leb from r.seq && is_some r.send_seq

unfoldable pub count_sends : List WindowRow → ℕ → ℕ
unfolding is_send_from
count_sends rows from = length (filter (is_send_from from) rows)

unfoldable pub tokens_from : List WindowRow → ℕ → ℕ
tokens_from rows from = sum_by (λ r. r.est_tokens) (filter (λ r. leb from r.seq) rows)

unfoldable pub sum_tokens : List WindowRow → ℕ
sum_tokens rows = sum_by (λ r. r.est_tokens) rows

-- `estimatedInputTokens + maxOutputTokens >= contextWindow * hardTokenRatio`
unfoldable pub token_pressure : Options → Bool
token_pressure o =
    leb (o.context_window * o.ratio_num)
      ((o.estimated_input_tokens + o.max_output_tokens) * o.ratio_den)

-- `tokens <= tokenBudget(options)`, the budget being 0.8 of the hard limit.
unfoldable pub within_budget : Options → ℕ → Bool
within_budget o tokens = leb (tokens * o.ratio_den * 10) (o.context_window * o.ratio_num * 8)

unfoldable pub is_candidate : ℕ → WindowRow → Bool
is_candidate head r = r.is_checkpoint && ltb head r.seq

unfoldable pub fits_tokens : Options → ℕ → Bool
fits_tokens o seq = not (token_pressure o) || within_budget o (tokens_from o.window seq)

-- The first criterion: enough sends stay, and under token pressure the cut relieves it.
unfoldable pub keeps_sends : Options → WindowRow → Bool
keeps_sends o r = leb o.retained_sends_target (count_sends o.window r.seq) && fits_tokens o r.seq

unfoldable pub under_budget : Options → WindowRow → Bool
under_budget o r = within_budget o (tokens_from o.window r.seq)

unfoldable pub or_else : Option WindowRow → Option WindowRow → Option WindowRow
or_else (some r) later = some r
or_else none later = later

unfoldable pub choose_target : Options → List WindowRow → Option WindowRow
unfolding or_else
choose_target o checkpoints =
    or_else (find? (keeps_sends o) (reverse checkpoints))
      (find? (under_budget o) (reverse checkpoints))

-- `transcriptSeqs.indexOf(seq)`, none for -1.
unfoldable pub index_of : ℕ → List (Option ℕ) → Option ℕ
index_of seq [] = none
index_of seq (none ∷ seqs) = elim (index_of seq seqs) [ none ↦ none | some i ↦ some (suc i) ]
index_of seq (some s ∷ seqs) =
    let later : Option ℕ = elim (index_of seq seqs) [ none ↦ none | some i ↦ some (suc i) ] in
    if s == seq then some 0 else later

unfoldable pub make_plan : Options → WindowRow → ℕ → GcPlan
make_plan o target index = record {
  target_seq = target.seq;
  retained_index = index;
  before_tokens = sum_tokens o.window;
  after_tokens = tokens_from o.window target.seq;
  before_sends = count_sends o.window o.head_seq;
  after_sends = count_sends o.window target.seq;
  before_messages = length o.window;
  after_messages = length (filter (λ r. leb target.seq r.seq) o.window);
}

-- The end of `planContextGc`, for a target at a place of the transcript.
unfoldable pub cut_at : Options → WindowRow → Option ℕ → Option GcPlan
unfolding make_plan
cut_at o target none = none
cut_at o target (some zero) = none
cut_at o target (some (suc i)) =
    if is_renderable (drop (suc i) o.messages) then some (make_plan o target (suc i)) else none

unfoldable pub cut_to : Options → Option WindowRow → Option GcPlan
unfolding cut_at
cut_to o none = none
cut_to o (some target) = cut_at o target (index_of target.seq o.transcript_seqs)

unfoldable pub plan_context_gc : Options → Option GcPlan
unfolding cut_to
plan_context_gc o =
    let checkpoints = filter (is_candidate o.head_seq) o.window in
    if is_empty o.window
    then none
    else if leb (count_sends o.window o.head_seq) o.retained_sends_max && not (token_pressure o)
    then none
    else if is_empty checkpoints
    then none
    else cut_to o (choose_target o checkpoints)
