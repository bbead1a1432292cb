-- ===== src/Codec/Typed.antt =====
-- Every text that `decodeContextMessage` (src/context/context-codec.ts) accepts is a message.
use Prim.Native.String.{String}
use plastic_wan.Base.{
  ◌≡◌, refl, sym, ◌∙◌, subst, and_true, Bool-cases, Option-cases, inl, inr, ok, arith,
}
use plastic_wan.Codec.Json.{Value, object}
use plastic_wan.Codec.Schemas.{
  any_string, any_number, any_boolean, unknown, text_block_schema, assistant_block_schema,
  usage_schema, user_message_schema, assistant_message_schema, tool_result_message_schema,
}
use plastic_wan.Codec.Encode.{Role, user, assistant, tool_result, AgentMessage}
use plastic_wan.Codec.Decode.{Libraries, check_message, decode_context_message}
use plastic_wan.Codec.View.{
  as_string, as_boolean, as_number, as_any, as_usage, read_texts, read_blocks, read_assistant,
  read_tool_result, read_message,
}
use plastic_wan.Codec.Readers.{
  IsRead, Reads, string-Reads, number-Reads, boolean-Reads, any-Reads, required-Reads,
  possible-Reads, items-IsRead, expect-Reads,
}
use plastic_wan.Codec.Usage.{usage-Reads}
use plastic_wan.Codec.Casts.{texts-IsRead, blocks-IsRead, user-Reads}

module _ {N : Type 0} where
  tool_result-Reads : Reads {N = N} tool_result_message_schema read_tool_result
  tool_result-Reads (object fs) h =
      let a = and_true _ _ (and_true _ _ h).0 in
      let b = and_true _ _ a.1 in
      let c = and_true _ _ b.1 in
      let d = and_true _ _ c.1 in
      let e = and_true _ _ d.1 in
      let f = and_true _ _ e.1 in
      let g = and_true _ _ f.1 in
      let id = required-Reads "toolCallId" any_string as_string string-Reads fs b.0 in
      let name = required-Reads "toolName" any_string as_string string-Reads fs c.0 in
      let items = items-IsRead "content" text_block_schema read_texts texts-IsRead fs d.0 in
      let details = possible-Reads "details" unknown as_any (any-Reads unknown) fs e.0 in
      let failed = required-Reads "isError" any_boolean as_boolean boolean-Reads fs f.0 in
      let timestamp = required-Reads "timestamp" any_number as_number number-Reads fs g.0 in
      rw
        (
          expect-Reads "role" "toolResult" fs a.0,
          id.1,
          name.1,
          items.1,
          items.2.1,
          details.1,
          failed.1,
          timestamp.1,
        )
        (_, refl)
  tool_result-Reads v h = ground arith

  assistant-Reads : Reads {N = N} assistant_message_schema read_assistant
  assistant-Reads (object fs) h =
      let a = and_true _ _ (and_true _ _ h).0 in
      let b = and_true _ _ a.1 in
      let c = and_true _ _ b.1 in
      let d = and_true _ _ c.1 in
      let e = and_true _ _ d.1 in
      let f = and_true _ _ e.1 in
      let g = and_true _ _ f.1 in
      let i = and_true _ _ g.1 in
      let j = and_true _ _ i.1 in
      let k = and_true _ _ j.1 in
      let l = and_true _ _ k.1 in
      let items = items-IsRead "content" assistant_block_schema read_blocks blocks-IsRead fs b.0 in
      let api = required-Reads "api" any_string as_string string-Reads fs c.0 in
      let provider = required-Reads "provider" any_string as_string string-Reads fs d.0 in
      let model = required-Reads "model" any_string as_string string-Reads fs e.0 in
      let response_model =
        possible-Reads "responseModel" any_string as_string string-Reads fs f.0 in
      let response_id = possible-Reads "responseId" any_string as_string string-Reads fs g.0 in
      let usage = required-Reads "usage" usage_schema as_usage usage-Reads fs i.0 in
      let stop = required-Reads "stopReason" any_string as_string string-Reads fs j.0 in
      let error = possible-Reads "errorMessage" any_string as_string string-Reads fs k.0 in
      let timestamp = required-Reads "timestamp" any_number as_number number-Reads fs l.0 in
      rw
        (
          expect-Reads "role" "assistant" fs a.0,
          items.1,
          items.2.1,
          api.1,
          provider.1,
          model.1,
          response_model.1,
          response_id.1,
          usage.1,
          stop.1,
          error.1,
          timestamp.1,
        )
        (_, refl)
  assistant-Reads v h = ground arith

  check_message-reads :
      (lib : Libraries N) (v w : Value N) (role : Role)
      → check_message lib v ≡ ok (role, w)
      → IsRead (read_message role w)
  unfolding check_message read_message
  check_message-reads lib v w role e = elim (Bool-cases (lib.check user_message_schema v)) [
    | inl is_user ↦
        let m = user-Reads v (sym (lib.check-conforms user_message_schema v) ∙ is_user) in
        accepted user role (rw m.1 (_, refl)) (ground arith)
    | inr not_user ↦ elim (Bool-cases (lib.check assistant_message_schema v)) [
      | inl is_assistant ↦
          let m =
            assistant-Reads v
              (sym (lib.check-conforms assistant_message_schema v) ∙ is_assistant) in
          accepted assistant role (rw m.1 (_, refl)) (ground arith)
      | inr not_assistant ↦ elim (Bool-cases (lib.check tool_result_message_schema v)) [
        | inl is_result ↦
            let m =
              tool_result-Reads v
                (sym (lib.check-conforms tool_result_message_schema v) ∙ is_result) in
            accepted tool_result role (rw m.1 (_, refl)) (ground arith)
        | inr none_of_them ↦ ground arith
      ]
    ]
  ]
    where
      accepted :
          (r role : Role)
          → IsRead (read_message r v)
          → ◌≡◌ {A = Role × Value N} (r, v) (role, w)
          → IsRead (read_message role w)
      accepted r role h same = subst (λ x. IsRead (read_message x.0 x.1)) same h

-- What is decoded under a role, from any text, reads as a message of that role: it has each
-- property that the type of the message has, the counters and the cost of a usage among them, and
-- its optional ones are of their types, but for the stop reason, which may be any text.
pub decode-reads :
    {N : Type 0} (lib : Libraries N) (json : String) (role : Role) (v : Value N)
    → decode_context_message lib json ≡ ok (role, v)
    → (m : AgentMessage N) × (read_message role v ≡ ok m)
unfolding decode_context_message
decode-reads lib json role v e = elim (Option-cases (lib.parse json)) [
  | inl broken ↦ ground arith
  | inr (parsed, found) ↦ check_message-reads lib parsed v role (ground arith)
]
