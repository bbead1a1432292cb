-- ===== src/Codec/Schemas.antt =====
-- The schemas of stored messages (src/context/context-codec.ts), and what the documentation of the
-- schema library says of them.
use Prim.Native.String.{String}
use text.Mathlib.Text.{◌==◌ as str_eq}
use plastic_wan.Base.{Bool, true, false, ◌&&◌, ◌||◌, none, some}
use plastic_wan.Codec.Json.{
  Value, boolean, number, string, array, object, Values, nil, cons, Fields, end, field, get,
}

-- The constructors of `Type` that the schemas use. An object takes keys of no property only where
-- `additional` is set.
mutual
  pub data Schema : Type 0 where
    literal : String → Schema
    any_string any_number any_boolean unknown any_record : Schema
    array_of : Schema → Schema
    either : Schema → Schema → Schema
    object_of : (additional : Bool) → Properties → Schema

  pub data Properties : Type 0 where
    no_more : Properties
    property : (name : String) → (is_optional : Bool) → Schema → Properties → Properties

abbrev pub has_property : String → Properties → Bool
has_property key no_more = false
has_property key (property name o s rest) = str_eq name key || has_property key rest

abbrev pub has_only : {N : Type 0} → Properties → Fields N → Bool
has_only ps end = true
has_only ps (field key v rest) = has_property key ps && has_only ps rest

abbrev pub every : {N : Type 0} → (Value N → Bool) → Values N → Bool
every p nil = true
every p (cons v vs) = p v && every p vs

abbrev mutual
  -- Whether a value is of a schema.
  pub conforms : {N : Type 0} → Schema → Value N → Bool
  conforms (literal k) (string s) = str_eq s k
  conforms (literal k) _ = false
  conforms any_string (string s) = true
  conforms any_string _ = false
  conforms any_number (number n) = true
  conforms any_number _ = false
  conforms any_boolean (boolean b) = true
  conforms any_boolean _ = false
  conforms unknown v = true
  conforms any_record (object fs) = true
  conforms any_record _ = false
  conforms (array_of s) (array vs) = every (λ v. conforms s v) vs
  conforms (array_of s) _ = false
  conforms (either s t) v = conforms s v || conforms t v
  conforms (object_of additional ps) (object fs) =
      properties_conform ps fs && (additional || has_only ps fs)
  conforms (object_of additional ps) _ = false

  pub properties_conform : {N : Type 0} → Properties → Fields N → Bool
  properties_conform no_more fs = true
  properties_conform (property name o s rest) fs =
      elim (get name fs) [ none ↦ o | some v ↦ conforms s v ] && properties_conform rest fs

abbrev required : String → Schema → Properties → Properties
required name s rest = property name false s rest

abbrev possible : String → Schema → Properties → Properties
possible name s rest = property name true s rest

abbrev pub text_block_schema : Schema
text_block_schema = object_of false (
    required "type" (literal "text")
      (required "text" any_string (possible "textSignature" any_string no_more)))

abbrev pub thinking_block_schema : Schema
thinking_block_schema = object_of false (
    required "type" (literal "thinking") (
      required "thinking" any_string
        (possible "thinkingSignature" any_string (possible "redacted" any_boolean no_more))))

abbrev pub tool_call_block_schema : Schema
tool_call_block_schema = object_of false (
    required "type" (literal "toolCall") (
      required "id" any_string (
        required "name" any_string (
          required "arguments" any_record
            (possible "thoughtSignature" any_string (possible "namespace" any_string no_more))))))

abbrev pub cost_schema : Schema
cost_schema = object_of true (
    required "input" any_number (
      required "output" any_number (
        required "cacheRead" any_number
          (required "cacheWrite" any_number (required "total" any_number no_more)))))

abbrev pub usage_schema : Schema
usage_schema = object_of true (
    required "input" any_number (
      required "output" any_number (
        required "cacheRead" any_number (
          required "cacheWrite" any_number (
            possible "cacheWrite1h" any_number (
              possible "reasoning" any_number
                (required "totalTokens" any_number (required "cost" cost_schema no_more))))))))

abbrev pub user_message_schema : Schema
user_message_schema = object_of false (
    required "role" (literal "user") (
      required "content" (either any_string (array_of text_block_schema))
        (required "timestamp" any_number no_more)))

abbrev pub assistant_block_schema : Schema
assistant_block_schema =
    either text_block_schema (either thinking_block_schema tool_call_block_schema)

abbrev pub assistant_message_schema : Schema
assistant_message_schema = object_of false (
    required "role" (literal "assistant") (
      required "content" (array_of assistant_block_schema) (
        required "api" any_string (
          required "provider" any_string (
            required "model" any_string (
              possible "responseModel" any_string (
                possible "responseId" any_string (
                  required "usage" usage_schema (
                    required "stopReason" any_string (
                      possible "errorMessage" any_string
                        (required "timestamp" any_number no_more)))))))))))

abbrev pub tool_result_message_schema : Schema
tool_result_message_schema = object_of false (
    required "role" (literal "toolResult") (
      required "toolCallId" any_string (
        required "toolName" any_string (
          required "content" (array_of text_block_schema) (
            possible "details" unknown
              (required "isError" any_boolean (required "timestamp" any_number no_more)))))))
