-- ===== src/Participation/Triggers.antt =====
-- What triggers the bot: `matchTriggerKind` of src/platform/participation.ts.
use plastic_wan.Base.{
  ℕ, zero, suc, Bool, true, false, ◌&&◌, ◌||◌, Option, none, some, List, [], ◌∷◌, any, drop, ◌==◌,
  if◌then◌else◌,
}
use plastic_wan.Participation.Rules.{Text, same_text, Script, or_else}

pub data TriggerKind : Type 0 where
  mention reply_to_bot keyword : TriggerKind

pub record BotIdentity : Type 0 where
  pub id : ℕ
  pub username : Option Text

pub data EntityKind : Type 0 where
  text_mention : (user_id : ℕ) → EntityKind
  mention_entity other_entity : EntityKind

-- An entity of a text; its place counts UTF-16 code units.
pub record Entity : Type 0 where
  pub kind : EntityKind
  pub offset : ℕ
  pub length : ℕ

-- A Telegram message, as far as a trigger reads it; `reply_from` is the sender of the message that it
-- replies to.
pub record Message : Type 0 where
  pub message_id : ℕ
  pub text : Option Text
  pub entities : Option (List Entity)
  pub caption : Option Text
  pub caption_entities : Option (List Entity)
  pub reply_from : Option ℕ

abbrev pub take {ℓ} : {A : Type ℓ} → ℕ → List A → List A
take zero xs = []
take (suc n) [] = []
take (suc n) (x ∷ xs) = x ∷ take n xs

-- Whether an entity of a content mentions the bot.
unfoldable pub mentions : Script → BotIdentity → (content : Option Text) → Entity → Bool
mentions js bot content e = by_kind e.kind content bot.username
  where
    by_kind : EntityKind → Option Text → Option Text → Bool
    by_kind (text_mention user_id) content username = user_id == bot.id
    by_kind mention_entity (some text) (some username) =
        same_text (js.lower_case (drop 1 (take e.length (drop e.offset text))))
          (js.lower_case username)
    by_kind mention_entity _ _ = false
    by_kind other_entity _ _ = false

unfoldable pub mentions_bot : Script → Message → BotIdentity → Bool
unfolding mentions
mentions_bot js m bot =
    any (mentions js bot m.text) (or_else m.entities [])
    || any (mentions js bot m.caption) (or_else m.caption_entities [])

unfoldable pub replies_to_bot : Message → BotIdentity → Bool
replies_to_bot m bot = elim m.reply_from [ none ↦ false | some id ↦ id == bot.id ]

abbrev pub is_prefix : (prefix text : Text) → Bool
is_prefix [] s = true
is_prefix (c ∷ p) [] = false
is_prefix (c ∷ p) (d ∷ s) = c == d && is_prefix p s

-- `String.prototype.includes`
abbrev pub includes : (text part : Text) → Bool
includes [] p = is_prefix p []
includes (c ∷ s) p = is_prefix p (c ∷ s) || includes s p

unfoldable pub holds_keyword : Script → List Text → Option Text → Bool
holds_keyword js keywords content = elim content [
  | none ↦ false
  | some text ↦ any (includes (js.lower_case text)) keywords
]

unfoldable pub contains_keyword : Script → Message → List Text → Bool
unfolding holds_keyword
contains_keyword js m keywords =
    holds_keyword js keywords m.text || holds_keyword js keywords m.caption

unfoldable pub match_trigger_kind :
    Script → Message → BotIdentity → (keywords : List Text) → Option TriggerKind
unfolding mentions_bot replies_to_bot contains_keyword
match_trigger_kind js m bot keywords =
    if mentions_bot js m bot
    then some mention
    else if replies_to_bot m bot
    then some reply_to_bot
    else if contains_keyword js m keywords
    then some keyword
    else none
