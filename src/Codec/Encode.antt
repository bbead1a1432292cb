-- ===== src/Codec/Encode.antt =====
-- `encodeContextMessage` and `textBlocksOnly` (src/context/context-codec.ts).
use Prim.Native.String.{String}
use text.Mathlib.Text.{◌==◌ as str_eq}
use plastic_wan.Base.{Bool, true, not, ◌||◌, if◌then◌else◌, Option, none, some, List, [], ◌∷◌, any}
use plastic_wan.Codec.Json.{
  Value, boolean, number, string, array, object, Values, nil, cons, Fields, end, field, optional,
}

pub data Role : Type 0 where
  user assistant tool_result : Role

-- A block of a user message or of a tool result: its text, or an image or anything else.
pub data ContentBlock : Type 0 where
  text_content : String → ContentBlock
  other_content : ContentBlock

pub data AssistantContentBlock (N : Type 0) : Type 0 where
  text_block : (body : String) → (text_signature : Option String) → AssistantContentBlock N
  thinking_block :
      (thinking : String)
      → (thinking_signature : Option String) → (redacted : Option Bool) → AssistantContentBlock N
  tool_call :
      (id name : String)
      → (arguments : Fields N) → (thought_signature namespace : Option String)
      → AssistantContentBlock N

pub data UserContent : Type 0 where
  plain : String → UserContent
  blocks : List ContentBlock → UserContent

pub record UserMessage (N : Type 0) : Type 0 where
  pub content : UserContent
  pub timestamp : N

-- The messages of the agent library as the store keeps them: a stop reason is its text, and a usage
-- its JSON value, which `Codec.View` reads into counters and a cost.
pub record AssistantMessage (N : Type 0) : Type 0 where
  pub content : List (AssistantContentBlock N)
  pub api : String
  pub provider : String
  pub model : String
  pub response_model : Option String
  pub response_id : Option String
  pub usage : Value N
  pub stop_reason : String
  pub error_message : Option String
  pub timestamp : N

pub record ToolResultMessage (N : Type 0) : Type 0 where
  pub tool_call_id : String
  pub tool_name : String
  pub content : List ContentBlock
  pub details : Option (Value N)
  pub is_error : Bool
  pub timestamp : N

-- A message of an agent; a custom one has another role.
pub data AgentMessage (N : Type 0) : Type 0 where
  user_message : UserMessage N → AgentMessage N
  assistant_message : AssistantMessage N → AgentMessage N
  tool_result_message : ToolResultMessage N → AgentMessage N
  custom_message : AgentMessage N

abbrev pub text_blocks_only : List ContentBlock → List String
text_blocks_only [] = []
text_blocks_only (text_content s ∷ content) = s ∷ text_blocks_only content
text_blocks_only (other_content ∷ content) = text_blocks_only content

abbrev pub discarded_stop_reasons : List String
discarded_stop_reasons = "error" ∷ "aborted" ∷ []

module _ {N : Type 0} where
  abbrev pub text_values : List String → Values N
  text_values [] = nil
  text_values (s ∷ texts) =
      cons (object (field "type" (string "text") (field "text" (string s) end))) (text_values texts)

  abbrev pub block_value : AssistantContentBlock N → Value N
  block_value (text_block s signature) = object (
      field "type" (string "text")
        (field "text" (string s) (optional "textSignature" string signature end)))
  block_value (thinking_block s signature redacted) = object (
      field "type" (string "thinking") (
        field "thinking" (string s) (
          optional "thinkingSignature" string signature
            (optional "redacted" boolean redacted end))))
  block_value (tool_call id name arguments signature namespace) = object (
      field "type" (string "toolCall") (
        field "id" (string id) (
          field "name" (string name) (
            field "arguments" (object arguments) (
              optional "thoughtSignature" string signature
                (optional "namespace" string namespace end))))))

  abbrev pub block_values : List (AssistantContentBlock N) → Values N
  block_values [] = nil
  block_values (b ∷ content) = cons (block_value b) (block_values content)

  abbrev pub user_value : Value N → N → Value N
  user_value content timestamp = object (
      field "role" (string "user")
        (field "content" content (field "timestamp" (number timestamp) end)))

  abbrev pub assistant_value : AssistantMessage N → Value N
  assistant_value m = object (
      field "role" (string "assistant") (
        field "content" (array (block_values m.content)) (
          field "api" (string m.api) (
            field "provider" (string m.provider) (
              field "model" (string m.model) (
                optional "responseModel" string m.response_model (
                  optional "responseId" string m.response_id (
                    field "usage" m.usage (
                      field "stopReason" (string m.stop_reason) (
                        optional "errorMessage" string m.error_message
                          (field "timestamp" (number m.timestamp) end)))))))))))

  abbrev pub tool_result_value : ToolResultMessage N → Value N
  tool_result_value m = object (
      field "role" (string "toolResult") (
        field "toolCallId" (string m.tool_call_id) (
          field "toolName" (string m.tool_name) (
            field "content" (array (text_values (text_blocks_only m.content))) (
              optional "details" (λ v. v) m.details
                (field "isError" (boolean m.is_error)
                  (field "timestamp" (number m.timestamp) end)))))))

  -- Whether a block is visible to the model; `is_blank` says that a text is empty once trimmed.
  abbrev pub is_model_visible : (is_blank : String → Bool) → AssistantContentBlock N → Bool
  is_model_visible is_blank (text_block s signature) = not (is_blank s)
  is_model_visible is_blank (thinking_block s signature redacted) = not (is_blank s)
  is_model_visible is_blank (tool_call id name arguments signature namespace) = true

  unfoldable pub encode_user : (String → Bool) → UserContent → N → Option (Role × Value N)
  encode_user is_blank (plain s) timestamp = some (user, user_value (string s) timestamp)
  encode_user is_blank (blocks content) timestamp =
      let texts = text_blocks_only content in
      if not (any (λ s. not (is_blank s)) texts)
      then none
      else some (user, user_value (array (text_values texts)) timestamp)

  unfoldable pub encode_assistant : (String → Bool) → AssistantMessage N → Option (Role × Value N)
  encode_assistant is_blank m =
      if any (str_eq m.stop_reason) discarded_stop_reasons
        || not (any (is_model_visible is_blank) m.content)
      then none
      else some (assistant, assistant_value m)

  -- What is stored of a message, before it is text.
  unfoldable pub encode_value : (String → Bool) → AgentMessage N → Option (Role × Value N)
  unfolding encode_user encode_assistant
  encode_value is_blank (user_message m) = encode_user is_blank m.content m.timestamp
  encode_value is_blank (assistant_message m) = encode_assistant is_blank m
  encode_value is_blank (tool_result_message m) = some (tool_result, tool_result_value m)
  encode_value is_blank custom_message = none
