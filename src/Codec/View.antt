-- ===== src/Codec/View.antt =====
-- A stored value read as the message that it is: what the casts of `decodeContextMessage`
-- (src/context/context-codec.ts) take a checked value for.
use Prim.Native.String.{String}
use text.Mathlib.Text.{◌==◌ as str_eq}
use plastic_wan.Base.{
  Bool, if◌then◌else◌, Option, none, some, List, [], ◌∷◌, map, Result, ok, err, ◌>>=◌,
}
use plastic_wan.Codec.Json.{
  Value, boolean, number, string, array, object, Values, nil, cons, Fields, get,
}
use plastic_wan.Codec.Encode.{
  Role, user, assistant, tool_result, ContentBlock, text_content, AssistantContentBlock, text_block,
  thinking_block, tool_call, UserContent, plain, blocks, UserMessage, AssistantMessage,
  ToolResultMessage, AgentMessage, user_message, assistant_message, tool_result_message,
  custom_message, text_blocks_only,
}

pub data Mismatch : Type 0 where
  mismatch : Mismatch

-- The texts among the blocks of a message.
abbrev pub only_texts : List ContentBlock → List ContentBlock
only_texts content = map text_content (text_blocks_only content)

module _ {N : Type 0} where
  abbrev pub as_string : Value N → Result Mismatch String
  as_string (string s) = ok s
  as_string _ = err mismatch

  abbrev pub as_boolean : Value N → Result Mismatch Bool
  as_boolean (boolean b) = ok b
  as_boolean _ = err mismatch

  abbrev pub as_number : Value N → Result Mismatch N
  as_number (number n) = ok n
  as_number _ = err mismatch

  abbrev pub as_record : Value N → Result Mismatch (Fields N)
  as_record (object fs) = ok fs
  as_record _ = err mismatch

  abbrev pub as_items : Value N → Result Mismatch (Values N)
  as_items (array vs) = ok vs
  as_items _ = err mismatch

  abbrev pub as_any : Value N → Result Mismatch (Value N)
  as_any v = ok v

  -- The property of a key, which must be there.
  abbrev pub required :
      {A : Type 0} → String → (Value N → Result Mismatch A) → Fields N → Result Mismatch A
  required key read fs = elim (get key fs) [ none ↦ err mismatch | some v ↦ read v ]

  -- The property of a key, if it is there.
  abbrev pub possible :
      {A : Type 0} → String → (Value N → Result Mismatch A) → Fields N → Result Mismatch (Option A)
  possible key read fs = elim (get key fs) [ none ↦ ok none | some v ↦ read v >>= λ a. ok (some a) ]

  abbrev pub expect : String → String → Result Mismatch (Fields N) → Result Mismatch (Fields N)
  expect key s r = do
    fs ← r
    found ← required key as_string fs
    if str_eq found s then ok fs else err mismatch

  abbrev pub read_text : Value N → Result Mismatch String
  read_text v = do fs ← expect "type" "text" (as_record v); required "text" as_string fs

  abbrev pub read_texts : Values N → Result Mismatch (List String)
  read_texts nil = ok []
  read_texts (cons v vs) = do s ← read_text v; texts ← read_texts vs; ok (s ∷ texts)

  abbrev pub read_typed : String → Fields N → Result Mismatch (AssistantContentBlock N)
  read_typed type fs =
      if str_eq type "text"
      then (do
        s ← required "text" as_string fs
        signature ← possible "textSignature" as_string fs
        ok (text_block s signature))
      else if str_eq type "thinking"
      then (do
        s ← required "thinking" as_string fs
        signature ← possible "thinkingSignature" as_string fs
        redacted ← possible "redacted" as_boolean fs
        ok (thinking_block s signature redacted))
      else if str_eq type "toolCall"
      then (do
        id ← required "id" as_string fs
        name ← required "name" as_string fs
        arguments ← required "arguments" as_record fs
        signature ← possible "thoughtSignature" as_string fs
        namespace ← possible "namespace" as_string fs
        ok (tool_call id name arguments signature namespace))
      else err mismatch

  abbrev pub read_block : Value N → Result Mismatch (AssistantContentBlock N)
  read_block v = do fs ← as_record v; type ← required "type" as_string fs; read_typed type fs

  abbrev pub read_blocks : Values N → Result Mismatch (List (AssistantContentBlock N))
  read_blocks nil = ok []
  read_blocks (cons v vs) = do b ← read_block v; content ← read_blocks vs; ok (b ∷ content)

  abbrev pub read_user_content : Value N → Result Mismatch UserContent
  read_user_content (string s) = ok (plain s)
  read_user_content (array vs) = read_texts vs >>= λ texts. ok (blocks (map text_content texts))
  read_user_content _ = err mismatch

  abbrev pub read_user : Value N → Result Mismatch (UserMessage N)
  read_user v = do
    fs ← expect "role" "user" (as_record v)
    content ← required "content" read_user_content fs
    timestamp ← required "timestamp" as_number fs
    ok (record { content = content; timestamp = timestamp })

  -- A cost with its five numbers, and a usage with its counters and cost; other keys may stand there.
  abbrev pub as_cost : Value N → Result Mismatch (Value N)
  as_cost v = do
    fs ← as_record v
    input ← required "input" as_number fs
    output ← required "output" as_number fs
    cache_read ← required "cacheRead" as_number fs
    cache_write ← required "cacheWrite" as_number fs
    total ← required "total" as_number fs
    ok v

  abbrev pub as_usage : Value N → Result Mismatch (Value N)
  as_usage v = do
    fs ← as_record v
    input ← required "input" as_number fs
    output ← required "output" as_number fs
    cache_read ← required "cacheRead" as_number fs
    cache_write ← required "cacheWrite" as_number fs
    cache_write_1h ← possible "cacheWrite1h" as_number fs
    reasoning ← possible "reasoning" as_number fs
    total_tokens ← required "totalTokens" as_number fs
    cost ← required "cost" as_cost fs
    ok v

  abbrev pub read_assistant : Value N → Result Mismatch (AssistantMessage N)
  read_assistant v = do
    fs ← expect "role" "assistant" (as_record v)
    items ← required "content" as_items fs
    content ← read_blocks items
    api ← required "api" as_string fs
    provider ← required "provider" as_string fs
    model ← required "model" as_string fs
    response_model ← possible "responseModel" as_string fs
    response_id ← possible "responseId" as_string fs
    usage ← required "usage" as_usage fs
    stop_reason ← required "stopReason" as_string fs
    error_message ← possible "errorMessage" as_string fs
    timestamp ← required "timestamp" as_number fs
    ok (record {
      content = content;
      api = api;
      provider = provider;
      model = model;
      response_model = response_model;
      response_id = response_id;
      usage = usage;
      stop_reason = stop_reason;
      error_message = error_message;
      timestamp = timestamp;
    })

  abbrev pub read_tool_result : Value N → Result Mismatch (ToolResultMessage N)
  read_tool_result v = do
    fs ← expect "role" "toolResult" (as_record v)
    tool_call_id ← required "toolCallId" as_string fs
    tool_name ← required "toolName" as_string fs
    items ← required "content" as_items fs
    texts ← read_texts items
    details ← possible "details" as_any fs
    is_error ← required "isError" as_boolean fs
    timestamp ← required "timestamp" as_number fs
    ok (record {
      tool_call_id = tool_call_id;
      tool_name = tool_name;
      content = map text_content texts;
      details = details;
      is_error = is_error;
      timestamp = timestamp;
    })

  unfoldable pub read_message : Role → Value N → Result Mismatch (AgentMessage N)
  read_message user v = read_user v >>= λ m. ok (user_message m)
  read_message assistant v = read_assistant v >>= λ m. ok (assistant_message m)
  read_message tool_result v = read_tool_result v >>= λ m. ok (tool_result_message m)

  -- A message without what its user's and tools' blocks have besides texts.
  unfoldable pub without_images : AgentMessage N → AgentMessage N
  without_images (user_message m) = user_message (record m { content = kept m.content })
    where
      kept : UserContent → UserContent
      kept (plain s) = plain s
      kept (blocks content) = blocks (only_texts content)
  without_images (assistant_message m) = assistant_message m
  without_images (tool_result_message m) =
      tool_result_message (record m { content = only_texts m.content })
  without_images custom_message = custom_message
