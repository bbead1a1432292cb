-- ===== src/Context/Tests.antt =====
-- A conversation of two turns, of which a collection keeps the second.
use Prim.Native.String.{String}
use plastic_wan.Base.{
  ℕ, ◌≤◌, ◌≡◌, refl, Bool, true, false, ◌⊎◌, ◌↔◌, Option, none, some, List, [], ◌∷◌, ◌++◌, All,
  filter, Memᴰ, IsOrdered, arith,
}
use plastic_wan.Context.Gc.{
  Message, user, assistant, tool_result, tool_call, text, WindowRow, Options, GcPlan, is_renderable,
  count_sends, is_candidate, keeps_sends, under_budget, token_pressure, plan_context_gc,
  choose_target, answers_follow, add_calls, tokens_from, sum_tokens, fits_tokens, index_of, has,
}
use plastic_wan.Context.Collecting.{IsSafeCut, plan_context_gc-IsSafeCut}
use plastic_wan.Context.Newest.{older, plan_context_gc_newest}
use plastic_wan.Context.Renderable.{starts_with_user, is_open, is_renderable_iff}

abbrev row : ℕ → String → Bool → Option ℕ → WindowRow
row seq role checkpoint send = record {
  seq = seq;
  role = role;
  est_tokens = 10;
  is_checkpoint = checkpoint;
  send_seq = send;
}

abbrev turn : List Message
turn = user ∷ assistant (tool_call 1 ∷ text ∷ []) ∷ tool_result 1 ∷ []

abbrev pub options : Options
options = record {
  retained_sends_target = 1;
  retained_sends_max = 1;
  ratio_num = 4;
  ratio_den = 5;
  context_window = 1000;
  max_output_tokens = 100;
  estimated_input_tokens = 60;
  head_seq = 1;
  transcript_seqs = some 1 ∷ some 2 ∷ some 3 ∷ some 4 ∷ some 5 ∷ some 6 ∷ [];
  window =
      row 1 "user" true none
      ∷ row 2 "assistant" false none
      ∷ row 3 "toolResult" false (some 1)
      ∷ row 4 "user" true none
      ∷ row 5 "assistant" false none
      ∷ row 6 "toolResult" false (some 2)
      ∷ [];
  messages = turn ++ turn;
}

abbrev pub second_turn : GcPlan
second_turn = record {
  target_seq = 4;
  retained_index = 3;
  before_tokens = 60;
  after_tokens = 30;
  before_sends = 2;
  after_sends = 1;
  before_messages = 6;
  after_messages = 3;
}

ordered : IsOrdered older options.window
ordered = ground arith

pub planned : plan_context_gc options ≡ some second_turn
unfolding plan_context_gc count_sends is_candidate choose_target keeps_sends fits_tokens
    token_pressure index_of is_renderable answers_follow has add_calls sum_tokens tokens_from
planned = refl

plan_context_gc-IsSafeCut_example : IsSafeCut options second_turn
plan_context_gc-IsSafeCut_example = plan_context_gc-IsSafeCut options second_turn planned

plan_context_gc_newest_example :
    All
      (λ r. (r.seq ≤ 4) ⊎ (keeps_sends options r ≡ false))
      (filter (is_candidate 1) options.window)
    × (target : WindowRow) × (target.seq ≡ 4)
    × Memᴰ target (filter (is_candidate 1) options.window)
    × ((keeps_sends options target ≡ true)
        ⊎ (All (λ r. keeps_sends options r ≡ false) (filter (is_candidate 1) options.window)
            × (under_budget options target ≡ true)
            × All
                (λ r. (r.seq ≤ 4) ⊎ (under_budget options r ≡ false))
                (filter (is_candidate 1) options.window)))
plan_context_gc_newest_example = plan_context_gc_newest options second_turn ordered planned

is_renderable_iff_example : (is_renderable turn ≡ true) ↔ (
    (starts_with_user turn ≡ true)
    × ((c : ℕ) (before after : List Message)
        → turn ≡ before ++ tool_result c ∷ after
        → is_open c before ≡ true))
is_renderable_iff_example = is_renderable_iff turn

-- An orphan result does not render.
orphan : is_renderable (user ∷ tool_result 1 ∷ []) ≡ false
unfolding is_renderable answers_follow has
orphan = refl
