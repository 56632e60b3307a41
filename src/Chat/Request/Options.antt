-- ===== src/Chat/Request/Options.antt =====
-- chat_completions.go, the options of a chat: the fields that are copied, reasoning, text and tools.
use codex_auth_broker.Chat.Request.{
  ChatError, Tried, chain, chat_error, copy_keys, got, has_fields, object_from,
}
use codex_auth_broker.Body.{get_field, set_field, string_field, value_or}
use codex_auth_broker.Usage.{object_field}
use codex_auth_broker.Prelude.Json.{Fields, Value, end, obj, str}
use codex_auth_broker.Prelude.{List, Option, [], if◌then◌else◌, none, some, ◌++◌, ◌||◌, ◌∷◌}
use codex_auth_broker.Prelude.Text.{Bytes, beq, codes}

abbrev pub copied_keys : List Bytes
copied_keys =
    codes "metadata"
    ∷ codes "parallel_tool_calls"
    ∷ codes "service_tier"
    ∷ codes "store"
    ∷ codes "temperature"
    ∷ codes "top_p"
    ∷ codes "truncation"
    ∷ codes "prompt_cache_key"
    ∷ codes "prompt_cache_retention"
    ∷ codes "prompt_cache_options"
    ∷ codes "session_id"
    ∷ codes "conversation_id"
    ∷ codes "max_tokens"
    ∷ codes "max_completion_tokens"
    ∷ codes "logprobs"
    ∷ codes "top_logprobs"
    ∷ []

-- The other spelling of a field, and the one that it gets.
abbrev pub camel_keys : List (Bytes × Bytes)
camel_keys =
    (codes "parallelToolCalls", codes "parallel_tool_calls")
    ∷ (codes "serviceTier", codes "service_tier")
    ∷ (codes "topP", codes "top_p")
    ∷ (codes "promptCacheKey", codes "prompt_cache_key")
    ∷ (codes "promptCacheRetention", codes "prompt_cache_retention")
    ∷ (codes "promptCacheOptions", codes "prompt_cache_options")
    ∷ (codes "sessionId", codes "session_id")
    ∷ (codes "conversationId", codes "conversation_id")
    ∷ (codes "maxTokens", codes "max_tokens")
    ∷ (codes "maxCompletionTokens", codes "max_completion_tokens")
    ∷ (codes "topLogprobs", codes "top_logprobs")
    ∷ []

-- One field under its other spelling, if neither spelling was copied.
unfoldable pub copy_camel_key : Bytes → Bytes → Fields → Fields → Fields
copy_camel_key camel snake from to = elim (get_field snake to) [
  | some _ ↦ to
  | none ↦ elim (get_field camel from) [ some v ↦ set_field snake v to | none ↦ to ]
]

unfoldable pub copy_camel_keys : List (Bytes × Bytes) → Fields → Fields → Fields
copy_camel_keys [] from to = to
copy_camel_keys ((camel, snake) ∷ keys) from to =
    copy_camel_keys keys from (copy_camel_key camel snake from to)

unfoldable pub copy_chat_request_fields : Fields → Fields → Fields
copy_chat_request_fields from to = copy_camel_keys camel_keys from (copy_keys copied_keys from to)

-- `chat_body[key]` as an object, which it must be if it is there.
unfoldable pub object_option : Bytes → Bytes → Option Value → Tried ChatError Fields
object_option key message none = got end
object_option key message (some (obj fs)) = got fs
object_option key message (some _) = chat_error key message

abbrev pub set_object : Bytes → Fields → Fields → Fields
set_object key fs body = if has_fields fs then set_field key (obj fs) body else body

unfoldable pub translate_reasoning : Fields → Fields → Tried ChatError Fields
translate_reasoning chat_body body =
    let effort =
      value_or (string_field chat_body (codes "reasoning_effort"))
        (string_field chat_body (codes "reasoningEffort")) in
    chain
      (object_option (codes "reasoning") (codes "reasoning must be an object")
        (get_field (codes "reasoning") chat_body))
      λ reasoning.
        let told =
          if beq effort [] then reasoning else set_field (codes "effort") (str effort) reasoning in
        got (set_object (codes "reasoning") told body)

unfoldable pub schema_format : Option Fields → Tried ChatError Fields
schema_format none =
    chat_error (codes "response_format.json_schema")
      (codes "response_format.json_schema must be an object")
schema_format (some schema) =
    let format =
      copy_keys (codes "name" ∷ codes "description" ∷ codes "schema" ∷ codes "strict" ∷ []) schema
        (object_from ((codes "type", str (codes "json_schema")) ∷ [])) in
    if beq (string_field format (codes "name")) []
    then chat_error (codes "response_format.json_schema.name")
        (codes "response_format.json_schema.name is required")
    else got format

unfoldable pub translate_response_format : (Bytes → Bytes) → Fields → Tried ChatError Fields
translate_response_format quote format =
    let type = string_field format (codes "type") in
    if beq type (codes "text") || beq type (codes "json_object")
    then got (object_from ((codes "type", str type) ∷ []))
    else if beq type (codes "json_schema")
    then schema_format (object_field format (codes "json_schema"))
    else chat_error (codes "response_format.type")
        (codes "unsupported response_format type " ++ quote type)

-- `text` with the format that the body asks for.
unfoldable pub with_format : (Bytes → Bytes) → Option Value → Fields → Tried ChatError Fields
with_format quote none text = got text
with_format quote (some (obj format)) text =
    chain (translate_response_format quote format)
      λ translated. got (set_field (codes "format") (obj translated) text)
with_format quote (some _) text =
    chat_error (codes "response_format") (codes "response_format must be an object")

unfoldable pub translate_text_options : (Bytes → Bytes) → Fields → Fields → Tried ChatError Fields
translate_text_options quote chat_body body =
    let verbosity = string_field chat_body (codes "verbosity") in
    chain
      (object_option (codes "text") (codes "text must be an object")
        (get_field (codes "text") chat_body))
      λ text.
        chain
          (with_format quote (get_field (codes "response_format") chat_body)
            (if beq verbosity [] then text else set_field (codes "verbosity") (str verbosity) text))
          λ formatted. got (set_object (codes "text") formatted body)
