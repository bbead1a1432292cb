-- ===== src/Codec/Blocks.antt =====
-- The values that the codec (src/context/context-codec.ts) stores are of their schemas.
use Prim.Native.String.{String}
use plastic_wan.Base.{◌≡◌, refl, true, Option, none, some, List, [], ◌∷◌}
use plastic_wan.Codec.Json.{Value, array}
use plastic_wan.Codec.Schemas.{
  conforms, every, text_block_schema, assistant_block_schema, usage_schema, user_message_schema,
  assistant_message_schema, tool_result_message_schema,
}
use plastic_wan.Codec.Encode.{
  AssistantContentBlock, text_block, thinking_block, tool_call, AssistantMessage, ToolResultMessage,
  text_blocks_only, text_values, block_value, block_values, user_value, assistant_value,
  tool_result_value,
}

pub text_values-conform :
    (N : Type 0) (texts : List String)
    → every (conforms text_block_schema) (text_values {N = N} texts) ≡ true
text_values-conform N [] = refl
text_values-conform N (s ∷ texts) = text_values-conform N texts

module _ {N : Type 0} where
  block_value-conforms :
      (b : AssistantContentBlock N) → conforms assistant_block_schema (block_value b) ≡ true
  block_value-conforms (text_block s none) = refl
  block_value-conforms (text_block s (some t)) = refl
  block_value-conforms (thinking_block s none none) = refl
  block_value-conforms (thinking_block s none (some r)) = refl
  block_value-conforms (thinking_block s (some t) none) = refl
  block_value-conforms (thinking_block s (some t) (some r)) = refl
  block_value-conforms (tool_call id name arguments none none) = refl
  block_value-conforms (tool_call id name arguments none (some n)) = refl
  block_value-conforms (tool_call id name arguments (some t) none) = refl
  block_value-conforms (tool_call id name arguments (some t) (some n)) = refl

  block_values-conform :
      (content : List (AssistantContentBlock N))
      → every (conforms assistant_block_schema) (block_values content) ≡ true
  block_values-conform [] = refl
  block_values-conform (b ∷ content) = rw (block_value-conforms b) (block_values-conform content)

  pub assistant_value-conforms :
      (m : AssistantMessage N)
      → conforms usage_schema m.usage ≡ true
      → conforms assistant_message_schema (assistant_value m) ≡ true
  assistant_value-conforms m valid = go m.response_model m.response_id m.error_message
    where
      content : every (conforms assistant_block_schema) (block_values m.content) ≡ true
      content = block_values-conform m.content

      go :
          (a b c : Option String)
          → conforms assistant_message_schema (
              assistant_value (record m { response_model = a; response_id = b; error_message = c }))
            ≡ true
      go none none none = rw (content, valid) refl
      go none none (some c) = rw (content, valid) refl
      go none (some b) none = rw (content, valid) refl
      go none (some b) (some c) = rw (content, valid) refl
      go (some a) none none = rw (content, valid) refl
      go (some a) none (some c) = rw (content, valid) refl
      go (some a) (some b) none = rw (content, valid) refl
      go (some a) (some b) (some c) = rw (content, valid) refl

  pub tool_result_value-conforms :
      (m : ToolResultMessage N) → conforms tool_result_message_schema (tool_result_value m) ≡ true
  tool_result_value-conforms m = go m.details
    where
      content :
          every (conforms text_block_schema) (text_values {N = N} (text_blocks_only m.content))
          ≡ true
      content = text_values-conform N (text_blocks_only m.content)

      go :
          (d : Option (Value N))
          → conforms tool_result_message_schema (tool_result_value (record m { details = d }))
            ≡ true
      go none = rw content refl
      go (some d) = rw content refl

  pub user_texts-conform :
      (texts : List String) (timestamp : N)
      → conforms user_message_schema (user_value (array (text_values texts)) timestamp) ≡ true
  user_texts-conform texts timestamp = rw (text_values-conform N texts) refl
