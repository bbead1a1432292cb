-- ===== src/Codec/RoundTrip.antt =====
-- A message that is stored by the codec (src/context/context-codec.ts) is read back.
use Prim.Native.String.{String}
use plastic_wan.Base.{
  ◌≡◌, refl, sym, ◌∙◌, subst, true, not, any, Option, none, some, Bool-cases, Option-cases, inl,
  inr, List, [], ◌∷◌, ok, arith,
}
use plastic_wan.Codec.Json.{Value, string, array}
use plastic_wan.Codec.Schemas.{
  usage_schema, user_message_schema, assistant_message_schema, tool_result_message_schema,
}
use plastic_wan.Codec.Encode.{
  ContentBlock, Role, user, assistant, tool_result, AssistantContentBlock, text_block,
  thinking_block, tool_call, UserContent, plain, blocks, UserMessage, AssistantMessage,
  ToolResultMessage, AgentMessage, user_message, assistant_message, tool_result_message,
  custom_message, text_blocks_only, text_values, block_value, block_values, user_value,
  assistant_value, tool_result_value, encode_user, encode_assistant, encode_value,
}
use plastic_wan.Codec.Blocks.{
  assistant_value-conforms, tool_result_value-conforms, user_texts-conform,
}
use plastic_wan.Codec.Decode.{
  Libraries, encode_context_message, check_message, decode_context_message,
}
use plastic_wan.Codec.Usage.{as_usage-conforms}
use plastic_wan.Codec.Schemas.{conforms}
use plastic_wan.Codec.View.{
  as_usage, read_texts, read_block, read_blocks, read_assistant, read_message, without_images,
}

read_texts-text_values :
    (N : Type 0) (texts : List String) → read_texts (text_values {N = N} texts) ≡ ok texts
read_texts-text_values N [] = refl
read_texts-text_values N (s ∷ texts) = rw (read_texts-text_values N texts) refl

module _ {N : Type 0} where
  read_block-block_value : (b : AssistantContentBlock N) → read_block (block_value b) ≡ ok b
  read_block-block_value (text_block s none) = refl
  read_block-block_value (text_block s (some t)) = refl
  read_block-block_value (thinking_block s none none) = refl
  read_block-block_value (thinking_block s none (some r)) = refl
  read_block-block_value (thinking_block s (some t) none) = refl
  read_block-block_value (thinking_block s (some t) (some r)) = refl
  read_block-block_value (tool_call id name arguments none none) = refl
  read_block-block_value (tool_call id name arguments none (some n)) = refl
  read_block-block_value (tool_call id name arguments (some t) none) = refl
  read_block-block_value (tool_call id name arguments (some t) (some n)) = refl

  read_blocks-block_values :
      (content : List (AssistantContentBlock N)) → read_blocks (block_values content) ≡ ok content
  read_blocks-block_values [] = refl
  read_blocks-block_values (b ∷ content) =
      rw (read_block-block_value b, read_blocks-block_values content) refl

  read_assistant-assistant_value :
      (m : AssistantMessage N)
      → conforms usage_schema m.usage ≡ true
      → read_assistant (assistant_value m) ≡ ok m
  read_assistant-assistant_value m valid = go m.response_model m.response_id m.error_message
    where
      content : read_blocks (block_values m.content) ≡ ok m.content
      content = read_blocks-block_values m.content

      usage : as_usage m.usage ≡ ok m.usage
      usage = as_usage-conforms m.usage valid

      go :
          (a b c : Option String)
          → let n : AssistantMessage N = record m {
            response_model = a;
            response_id = b;
            error_message = c;
          } in
            read_assistant (assistant_value n) ≡ ok n
      go none none none = rw (content, usage) refl
      go none none (some c) = rw (content, usage) refl
      go none (some b) none = rw (content, usage) refl
      go none (some b) (some c) = rw (content, usage) refl
      go (some a) none none = rw (content, usage) refl
      go (some a) none (some c) = rw (content, usage) refl
      go (some a) (some b) none = rw (content, usage) refl
      go (some a) (some b) (some c) = rw (content, usage) refl

  read_message-tool_result :
      (m : ToolResultMessage N)
      → read_message tool_result (tool_result_value m) ≡ ok (without_images (tool_result_message m))
  unfolding read_message without_images
  read_message-tool_result m = go m.details
    where
      go :
          (d : Option (Value N))
          → let n : ToolResultMessage N = record m { details = d } in
            read_message tool_result (tool_result_value n)
            ≡ ok (without_images (tool_result_message n))
      go none = rw (read_texts-text_values N (text_blocks_only m.content)) refl
      go (some d) = rw (read_texts-text_values N (text_blocks_only m.content)) refl

-- What a provider has reported is of the schema of a usage.
abbrev pub IsReported : {N : Type 0} → Libraries N → AgentMessage N → Type 0
IsReported lib (assistant_message m) = lib.check usage_schema m.usage ≡ true
IsReported lib _ = Unit

module _ {N : Type 0} (lib : Libraries N) where
  -- A value that is found to be the message that it was made of.
  IsStored : AgentMessage N → Role → Value N → Type 0
  IsStored m role v =
      (check_message lib v ≡ ok (role, v)) × (read_message role v ≡ ok (without_images m))

  texts-IsStored :
      (m : UserMessage N) (content : List ContentBlock)
      → m.content ≡ blocks content
      → IsStored
          (user_message m)
          user
          (user_value (array (text_values (text_blocks_only content))) m.timestamp)
  unfolding IsStored check_message read_message without_images
  texts-IsStored m content e = (
    rw (lib.check-conforms, user_texts-conform (text_blocks_only content) m.timestamp) refl,
    rw (read_texts-text_values N (text_blocks_only content), e) refl,
  )

  plain-IsStored :
      (m : UserMessage N) (s : String)
      → m.content ≡ plain s
      → IsStored (user_message m) user (user_value (string s) m.timestamp)
  unfolding IsStored check_message read_message without_images
  plain-IsStored m s e = (rw lib.check-conforms refl, rw e refl)

  assistant-IsStored :
      (m : AssistantMessage N)
      → lib.check usage_schema m.usage ≡ true
      → IsStored (assistant_message m) assistant (assistant_value m)
  unfolding IsStored check_message read_message without_images
  assistant-IsStored m reported =
      let v = assistant_value m in
      let usage = sym (lib.check-conforms usage_schema m.usage) ∙ reported in
      let valid = assistant_value-conforms m usage in
      (
        rw
            (
              lib.check-conforms user_message_schema v,
              lib.check-conforms assistant_message_schema v,
              valid,
            )
            refl,
        rw (read_assistant-assistant_value m usage) refl,
      )

  tool_result-IsStored :
      (m : ToolResultMessage N) → IsStored (tool_result_message m) tool_result (tool_result_value m)
  unfolding IsStored check_message
  tool_result-IsStored m =
      let v = tool_result_value m in
      (
        rw
            (
              lib.check-conforms user_message_schema v,
              lib.check-conforms assistant_message_schema v,
              lib.check-conforms tool_result_message_schema v,
              tool_result_value-conforms m,
            )
            refl,
        read_message-tool_result m,
      )

  -- What is stored, where something is.
  stored :
      (m : AgentMessage N) (r : Role) (w : Value N) (role : Role) (v : Value N)
      → IsStored m r w
      → ◌≡◌ {A = Option (Role × Value N)} (some (r, w)) (some (role, v))
      → IsStored m role v
  stored m r w role v h e =
      let same : ◌≡◌ {A = Role × Value N} (r, w) (role, v) = cc in
      subst (λ x. IsStored m x.0 x.1) same h

  user-IsStored :
      (m : UserMessage N) (content : UserContent) (role : Role) (v : Value N)
      → m.content ≡ content
      → encode_user lib.is_blank content m.timestamp ≡ some (role, v)
      → IsStored (user_message m) role v
  unfolding encode_user
  user-IsStored m (plain s) role v same e =
      stored (user_message m) user (user_value (string s) m.timestamp) role v
        (plain-IsStored m s same) e
  user-IsStored m (blocks content) role v same e =
      let texts = text_blocks_only content in
      elim (Bool-cases (any (λ s. not (lib.is_blank s)) texts)) [
        | inl seen ↦
            stored (user_message m) user (user_value (array (text_values texts)) m.timestamp) role v
              (texts-IsStored m content same) (ground arith)
        | inr blank ↦ ground arith
      ]

  encode_value-IsStored :
      (m : AgentMessage N) (role : Role) (v : Value N)
      → IsReported lib m
      → encode_value lib.is_blank m ≡ some (role, v)
      → IsStored m role v
  unfolding encode_value encode_assistant
  encode_value-IsStored (user_message m) role v reported e = user-IsStored m m.content role v refl e
  encode_value-IsStored (assistant_message m) role v reported e =
      stored (assistant_message m) assistant (assistant_value m) role v
        (assistant-IsStored m reported) (ground arith)
  encode_value-IsStored (tool_result_message m) role v reported e =
      stored (tool_result_message m) tool_result (tool_result_value m) role v
        (tool_result-IsStored m) e
  encode_value-IsStored custom_message role v reported e = cc

  -- Where the schema of a usage takes what a provider has reported: a message that is stored is
  -- decoded under its role to a value that reads as the message itself, but for what the blocks of
  -- a user's message or of a tool's result have besides their texts.
  pub decode-encode :
      (m : AgentMessage N) (role : Role) (json : String)
      → IsReported lib m
      → encode_context_message lib m ≡ some (role, json)
      → (v : Value N) × (decode_context_message lib json ≡ ok (role, v))
        × (read_message role v ≡ ok (without_images m))
  unfolding encode_context_message decode_context_message IsStored
  decode-encode m role json reported e = elim (Option-cases (encode_value lib.is_blank m)) [
    | inl nothing ↦ ground arith
    | inr ((r, v), found) ↦
        let h = encode_value-IsStored m r v reported found in
        let role_is : r ≡ role = ground arith in
        let json_is : lib.stringify v ≡ json = ground arith in
        subst
          (λ x.
            (w : Value N) × (decode_context_message lib json ≡ ok (x, w))
            × (read_message x w ≡ ok (without_images m)))
          role_is (v, rw (← json_is, lib.parse-stringify v, decode_context_message) h.0, h.1)
  ]
