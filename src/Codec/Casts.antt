-- ===== src/Codec/Casts.antt =====
-- What the checks of `decodeContextMessage` (src/context/context-codec.ts) accept reads as the
-- message that its cast takes it for.
use Prim.Native.String.{String}
use plastic_wan.Base.{
  ◌≡◌, refl, true, false, and_true, Bool-cases, Option-cases, inl, inr, [], ◌∷◌, map, ok, arith,
}
use plastic_wan.Codec.Json.{string, array, object, Values, nil, cons, Fields, get}
use plastic_wan.Codec.Schemas.{
  literal, any_string, any_number, any_boolean, any_record, array_of, either, conforms, every,
  text_block_schema, thinking_block_schema, tool_call_block_schema, assistant_block_schema,
  user_message_schema,
}
use plastic_wan.Codec.Encode.{plain, blocks, text_content}
use plastic_wan.Codec.View.{
  as_string, as_boolean, as_number, as_record, required, read_text, read_texts, read_block,
  read_blocks, read_user_content, read_user,
}
use plastic_wan.Codec.Readers.{
  IsRead, Reads, has, string-Reads, number-Reads, boolean-Reads, record-Reads, required-Reads,
  possible-Reads, literal-string, expect-Reads,
}

module _ {N : Type 0} where
  text-Reads : Reads {N = N} text_block_schema read_text
  text-Reads (object fs) h =
      let t = and_true _ _ (and_true _ _ h).0 in
      let u = and_true _ _ t.1 in
      rw (expect-Reads "type" "text" fs t.0)
        (required-Reads "text" any_string as_string string-Reads fs u.0)
  text-Reads v h = ground arith

  pub texts-IsRead :
      (vs : Values N) → every (conforms text_block_schema) vs ≡ true → IsRead (read_texts vs)
  texts-IsRead nil h = ([], refl)
  texts-IsRead (cons v vs) h =
      let t = and_true _ _ h in
      let s = text-Reads v t.0 in
      let texts = texts-IsRead vs t.1 in (s.0 ∷ texts.0, rw (s.1, texts.1) refl)

  user_content-Reads :
      Reads {N = N} (either any_string (array_of text_block_schema)) read_user_content
  user_content-Reads (string s) h = (plain s, refl)
  user_content-Reads (array vs) h =
      let t = texts-IsRead vs h in (blocks (map text_content t.0), rw t.1 refl)
  user_content-Reads v h = ground arith

  pub user-Reads : Reads {N = N} user_message_schema read_user
  user-Reads (object fs) h =
      let t = and_true _ _ (and_true _ _ h).0 in
      let u = and_true _ _ t.1 in
      let content =
        required-Reads "content" (either any_string (array_of text_block_schema)) read_user_content
          user_content-Reads fs u.0 in
      let timestamp =
        required-Reads "timestamp" any_number as_number number-Reads fs (and_true _ _ u.1).0 in
      rw (expect-Reads "role" "user" fs t.0, content.1, timestamp.1) (_, refl)
  user-Reads v h = ground arith

  assistant_block-Reads : Reads {N = N} assistant_block_schema read_block
  assistant_block-Reads (object fs) h = elim (Bool-cases (conforms text_block_schema (object fs))) [
    | inl text ↦ typed_text fs text
    | inr other ↦ elim (Bool-cases (conforms thinking_block_schema (object fs))) [
      | inl thinking ↦ typed_thinking fs thinking
      | inr call ↦ typed_tool_call fs (ground arith)
    ]
  ]
    where
      type_is :
          (k : String) (fs : Fields N)
          → has false "type" (literal k) fs ≡ true
          → required "type" as_string fs ≡ ok k
      type_is k fs h = elim (Option-cases (get "type" fs)) [
        | inl e ↦ ground arith
        | inr (v, e) ↦ rw (e, required) (literal-string k v (ground arith))
      ]

      typed_text :
          (fs : Fields N)
          → conforms text_block_schema (object fs) ≡ true
          → IsRead (read_block (object fs))
      typed_text fs h =
          let t = and_true _ _ (and_true _ _ h).0 in
          let u = and_true _ _ t.1 in
          let s = required-Reads "text" any_string as_string string-Reads fs u.0 in
          let signature =
            possible-Reads "textSignature" any_string as_string string-Reads fs
              (and_true _ _ u.1).0 in
          rw (type_is "text" fs t.0, s.1, signature.1) (_, refl)

      typed_thinking :
          (fs : Fields N)
          → conforms thinking_block_schema (object fs) ≡ true
          → IsRead (read_block (object fs))
      typed_thinking fs h =
          let t = and_true _ _ (and_true _ _ h).0 in
          let u = and_true _ _ t.1 in
          let v = and_true _ _ u.1 in
          let s = required-Reads "thinking" any_string as_string string-Reads fs u.0 in
          let signature =
            possible-Reads "thinkingSignature" any_string as_string string-Reads fs v.0 in
          let redacted =
            possible-Reads "redacted" any_boolean as_boolean boolean-Reads fs
              (and_true _ _ v.1).0 in
          rw (type_is "thinking" fs t.0, s.1, signature.1, redacted.1) (_, refl)

      typed_tool_call :
          (fs : Fields N)
          → conforms tool_call_block_schema (object fs) ≡ true
          → IsRead (read_block (object fs))
      typed_tool_call fs h =
          let t = and_true _ _ (and_true _ _ h).0 in
          let u = and_true _ _ t.1 in
          let v = and_true _ _ u.1 in
          let w = and_true _ _ v.1 in
          let x = and_true _ _ w.1 in
          let id = required-Reads "id" any_string as_string string-Reads fs u.0 in
          let name = required-Reads "name" any_string as_string string-Reads fs v.0 in
          let arguments = required-Reads "arguments" any_record as_record record-Reads fs w.0 in
          let signature =
            possible-Reads "thoughtSignature" any_string as_string string-Reads fs x.0 in
          let namespace =
            possible-Reads "namespace" any_string as_string string-Reads fs (and_true _ _ x.1).0 in
          rw (type_is "toolCall" fs t.0, id.1, name.1, arguments.1, signature.1, namespace.1)
            (_, refl)
  assistant_block-Reads v h = ground arith

  pub blocks-IsRead :
      (vs : Values N) → every (conforms assistant_block_schema) vs ≡ true → IsRead (read_blocks vs)
  blocks-IsRead nil h = ([], refl)
  blocks-IsRead (cons v vs) h =
      let t = and_true _ _ h in
      let b = assistant_block-Reads v t.0 in
      let content = blocks-IsRead vs t.1 in (b.0 ∷ content.0, rw (b.1, content.1) refl)
