-- ===== src/Codec/Decode.antt =====
-- The codec (src/context/context-codec.ts) over JavaScript's JSON and the schema library.
use Prim.Native.String.{String}
use plastic_wan.Base.{◌≡◌, Bool, if◌then◌else◌, Option, none, some, Result, ok, err}
use mathlib.Core.Option
use plastic_wan.Codec.Json.{Value}
use plastic_wan.Codec.Schemas.{
  Schema, conforms, user_message_schema, assistant_message_schema, tool_result_message_schema,
}
use plastic_wan.Codec.Encode.{Role, user, assistant, tool_result, AgentMessage, encode_value}

-- `JSON.stringify`, `JSON.parse`, the length of a text and whether it is blank, and the compiled
-- checks of the schema library.
pub record Libraries (N : Type 0) : Type 0 where
  pub stringify : Value N → String
  pub parse : String → Option (Value N)
  pub parse-stringify : (v : Value N) → parse (stringify v) ≡ some v
  pub is_blank : String → Bool
  pub check : Schema → Value N → Bool
  pub check-conforms : (s : Schema) (v : Value N) → check s v ≡ conforms s v

pub data DecodeError : Type 0 where
  invalid_json schema_mismatch : DecodeError

module _ {N : Type 0} (lib : Libraries N) where
  unfoldable pub encode_context_message : AgentMessage N → Option (Role × String)
  unfolding encode_value
  encode_context_message m =
      Option.map (λ (role, v). (role, lib.stringify v)) (encode_value lib.is_blank m)

  -- The message that a value is, with its role.
  unfoldable pub check_message : Value N → Result DecodeError (Role × Value N)
  check_message v =
      if lib.check user_message_schema v
      then ok (user, v)
      else if lib.check assistant_message_schema v
      then ok (assistant, v)
      else if lib.check tool_result_message_schema v
      then ok (tool_result, v)
      else err schema_mismatch

  unfoldable pub decode_context_message : String → Result DecodeError (Role × Value N)
  unfolding check_message
  decode_context_message json = elim (lib.parse json) [
    | none ↦ err invalid_json
    | some v ↦ check_message v
  ]
