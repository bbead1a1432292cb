-- ===== src/Context/Renderable.antt =====
-- What `isRenderable` decides (src/context/context-gc.ts): a segment starts with a user message and
-- every tool result answers an open call.
use plastic_wan.Base.{
  ℕ, ◌≡◌, ◌↔◌, refl, Bool, true, false, not, ◌&&◌, ◌||◌, List, [], ◌∷◌, ◌++◌, ◌==◌, ==_iff, ap,
  arith,
}
use plastic_wan.Context.Gc.{
  Block, text, thinking, tool_call, Message, user, custom, assistant, tool_result, has, add, delete,
  add_calls, answers_follow, is_renderable,
}

-- Whether a message calls a tool under an identifier, and whether it answers it.
abbrev pub calls_in : ℕ → List Block → Bool
calls_in c [] = false
calls_in c (tool_call id ∷ blocks) = id == c || calls_in c blocks
calls_in c (_ ∷ blocks) = calls_in c blocks

abbrev pub calls : ℕ → Message → Bool
calls c (assistant blocks) = calls_in c blocks
calls c _ = false

abbrev pub answers : ℕ → Message → Bool
answers c (tool_result id) = id == c
answers c _ = false

abbrev pub answered : ℕ → List Message → Bool
answered c [] = false
answered c (m ∷ ms) = answers c m || answered c ms

-- Some message calls it and no later one answers it.
abbrev pub is_open : ℕ → List Message → Bool
is_open c [] = false
is_open c (m ∷ ms) = is_open c ms || (calls c m && not (answered c ms))

has-add : (c d : ℕ) (s : List ℕ) → has c (add d s) ≡ (d == c || has c s)
unfolding has add
has-add c d s = ground (arith, ==_iff d c)

has-delete : (c d : ℕ) (s : List ℕ) → has c (delete d s) ≡ (has c s && not (d == c))
unfolding has delete
has-delete c d [] = refl
has-delete c d (e ∷ s) = ground (arith, has-delete c d s)

has-add_calls :
    (c : ℕ) (blocks : List Block) (s : List ℕ)
    → has c (add_calls blocks s) ≡ (calls_in c blocks || has c s)
unfolding add_calls
has-add_calls c [] s = refl
has-add_calls c (tool_call id ∷ blocks) s =
    ground (arith, has-add_calls c blocks (add id s), has-add c id s)
has-add_calls c (text ∷ blocks) s = has-add_calls c blocks s
has-add_calls c (thinking ∷ blocks) s = has-add_calls c blocks s

-- Each tool result of a segment answers a call that is open before it, or one of `pending`.
abbrev AllAnswer : List ℕ → List Message → Type 0
AllAnswer pending ms =
    (c : ℕ) (before after : List Message)
    → ms ≡ before ++ tool_result c ∷ after
    → (is_open c before || (has c pending && not (answered c before))) ≡ true

answers_follow_sound :
    (pending : List ℕ) (ms : List Message) → answers_follow pending ms ≡ true → AllAnswer pending ms
unfolding answers_follow
answers_follow_sound pending [] h c [] after e = cc
answers_follow_sound pending [] h c (b ∷ before) after e = cc
answers_follow_sound pending (assistant blocks ∷ ms) h c [] after e = cc
answers_follow_sound pending (assistant blocks ∷ ms) h c (b ∷ before) after e =
    let same : assistant blocks ≡ b = ground arith in
    let ih = answers_follow_sound (add_calls blocks pending) ms h c before after (ground arith) in
    rw (← same) (ground (arith, ih, has-add_calls c blocks pending))
answers_follow_sound pending (tool_result id ∷ ms) h c [] after e =
    let same : id ≡ c = ground arith in rw (← same) (ground arith)
answers_follow_sound pending (tool_result id ∷ ms) h c (b ∷ before) after e =
    let same : tool_result id ≡ b = ground arith in
    let ih =
      answers_follow_sound (delete id pending) ms (ground arith) c before after (ground arith) in
    rw (← same) (ground (arith, ih, has-delete c id pending))
answers_follow_sound pending (user ∷ ms) h c [] after e = cc
answers_follow_sound pending (user ∷ ms) h c (b ∷ before) after e =
    let same : user ≡ b = ground arith in
    let ih = answers_follow_sound pending ms h c before after (ground arith) in
    rw (← same) (ground (arith, ih))
answers_follow_sound pending (custom ∷ ms) h c [] after e = cc
answers_follow_sound pending (custom ∷ ms) h c (b ∷ before) after e =
    let same : custom ≡ b = ground arith in
    let ih = answers_follow_sound pending ms h c before after (ground arith) in
    rw (← same) (ground (arith, ih))

answers_follow_complete :
    (pending : List ℕ) (ms : List Message) → AllAnswer pending ms → answers_follow pending ms ≡ true
unfolding answers_follow
answers_follow_complete pending [] h = refl
answers_follow_complete pending (assistant blocks ∷ ms) h =
    answers_follow_complete (add_calls blocks pending) ms λ c before after e.
      let now = h c (assistant blocks ∷ before) after (ap (λ l. assistant blocks ∷ l) e) in
      ground (arith, now, has-add_calls c blocks pending)
answers_follow_complete pending (tool_result id ∷ ms) h =
    let here = h id [] ms refl in
    let later : answers_follow (delete id pending) ms ≡ true =
      answers_follow_complete (delete id pending) ms λ c before after e.
        let now = h c (tool_result id ∷ before) after (ap (λ l. tool_result id ∷ l) e) in
        ground (arith, now, has-delete c id pending) in
    ground arith
answers_follow_complete pending (user ∷ ms) h =
    answers_follow_complete pending ms λ c before after e.
      let now = h c (user ∷ before) after (ap (λ l. user ∷ l) e) in ground (arith, now)
answers_follow_complete pending (custom ∷ ms) h =
    answers_follow_complete pending ms λ c before after e.
      let now = h c (custom ∷ before) after (ap (λ l. custom ∷ l) e) in ground (arith, now)

abbrev pub starts_with_user : List Message → Bool
starts_with_user (user ∷ ms) = true
starts_with_user _ = false

-- A segment is renderable exactly when it starts with a user message and each tool result in it
-- answers a call that is open there: an earlier assistant message of the segment makes the call
-- and no tool result in between answers it.
pub is_renderable_iff :
    (ms : List Message)
    → (is_renderable ms ≡ true) ↔ (
        (starts_with_user ms ≡ true)
        × ((c : ℕ) (before after : List Message)
            → ms ≡ before ++ tool_result c ∷ after
            → is_open c before ≡ true))
unfolding is_renderable has
is_renderable_iff [] = (λ h. cc, λ h. cc (h.0))
is_renderable_iff (user ∷ ms) = (
  λ h. (
    refl,
    λ c before after e. ground (arith, answers_follow_sound [] (user ∷ ms) h c before after e),
  ),
  λ h.
      answers_follow_complete [] (user ∷ ms)
        λ c before after e. ground (arith, h.1 c before after e),
)
is_renderable_iff (custom ∷ ms) = (λ h. cc, λ h. cc (h.0))
is_renderable_iff (assistant blocks ∷ ms) = (λ h. cc, λ h. cc (h.0))
is_renderable_iff (tool_result id ∷ ms) = (λ h. cc, λ h. cc (h.0))
