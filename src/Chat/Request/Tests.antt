-- ===== src/Chat/Request/Tests.antt =====
-- chat_completions.go, the translation of requests on concrete inputs: a chat with a system's
-- message, a user's image and a call, one that is refused, and the theorems at these inputs.
use codex_auth_broker.Chat.Request.Accepted.{IsRequest, translate_chat_completions_body-IsRequest}
use codex_auth_broker.Chat.Request.Errors.{FirstRefused, translate_messages-FirstRefused}
use codex_auth_broker.Chat.Request.Content.{
  image_part, part_as, part_kind, text_part, translate_content, translate_part, translate_parts,
}
use codex_auth_broker.Chat.Request.Messages.{
  assistant_calls, assistant_content, at_message, call_item, call_of_function, legacy_call,
  message_as, message_item, role_of, translate_assistant, translate_call, translate_calls,
  translate_message, translate_messages,
}
use codex_auth_broker.Chat.Request.Options.{
  copy_camel_key, copy_camel_keys, copy_chat_request_fields, object_option, translate_reasoning,
  translate_text_options, with_format,
}
use codex_auth_broker.Chat.Request.Tools.{set_choice, set_tools, translate_tools}
use codex_auth_broker.Chat.Request.Translate.{
  ChatInfo, base_body, input_of, stream_of, translate_chat_completions_body, translate_options,
  usage_flag,
}
use codex_auth_broker.Chat.Request.{
  ChatError, array_from, chain, copy_keys, got, object_from, refused,
}
use codex_auth_broker.Chat.{chat_payload_string, digits_before, itoa}
use codex_auth_broker.Body.{get_field, set_field, string_field, value_or}
use codex_auth_broker.Usage.{numeric_field, object_field}
use codex_auth_broker.Prelude.Json.{Fields, Items, Value, arr, bool, cons, nil, obj, str}
use codex_auth_broker.Prelude.{List, [], false, refl, true, ℕ, ◌∷◌, ◌≡◌}
use codex_auth_broker.Prelude.Text.{Bytes, beq, codes, is_space, trim_left, trim_space}

abbrev unquoted : Bytes → Bytes
unquoted s = s

abbrev says : Bytes → Value → Value
says role content = obj (object_from ((codes "role", str role) ∷ (codes "content", content) ∷ []))

abbrev image : Value
image = obj (
    object_from (
      (codes "type", str (codes "image_url"))
      ∷ (codes "image_url", obj (object_from ((codes "url", str (codes "u")) ∷ [])))
      ∷ []))

abbrev call : Value
call = obj (
    object_from (
      (codes "id", str (codes "c1"))
      ∷ (codes "function", obj (object_from ((codes "name", str (codes "f")) ∷ [])))
      ∷ []))

abbrev calling : Value
calling = obj (
    object_from
      ((codes "role", str (codes "assistant")) ∷ (codes "tool_calls", arr (cons call nil)) ∷ []))

abbrev messages : Items
messages =
    cons (says (codes "system") (str (codes "be brief")))
      (cons (says (codes "user") (arr (cons image nil))) (cons calling nil))

abbrev chat : Fields
chat = object_from (
    (codes "model", str (codes " gpt-6 "))
    ∷ (codes "stream", bool true)
    ∷ (codes "topP", str (codes "x"))
    ∷ (codes "messages", arr messages)
    ∷ [])

abbrev image_item : Fields
image_item =
    object_from
      ((codes "type", str (codes "input_image")) ∷ (codes "image_url", str (codes "u")) ∷ [])

abbrev input : List Fields
input =
    message_item (codes "developer")
      (array_from (text_part (codes "input_text") (codes "be brief") ∷ []))
    ∷ message_item (codes "user") (array_from (image_item ∷ []))
    ∷ call_item (codes "c1") (codes "f") []
    ∷ []

abbrev body : Fields
body = set_field (codes "top_p") (str (codes "x")) (base_body (codes "gpt-6") input true)

abbrev streaming : ChatInfo
streaming = record { stream = true; include_usage = false }

chat_translated : translate_chat_completions_body unquoted chat ≡ got (body, streaming)
unfolding translate_chat_completions_body string_field get_field beq trim_space trim_left is_space
    numeric_field stream_of input_of translate_messages translate_message message_as role_of chain
    translate_content translate_parts translate_part part_as part_kind image_part object_field
    translate_assistant assistant_content assistant_calls translate_calls translate_call
    call_of_function chat_payload_string value_or legacy_call translate_options
    copy_chat_request_fields copy_keys copy_camel_keys copy_camel_key set_field translate_reasoning
    object_option translate_text_options with_format translate_tools set_tools set_choice usage_flag
chat_translated = refl

translate_chat_completions_body-IsRequest_example : IsRequest chat body streaming
translate_chat_completions_body-IsRequest_example =
    translate_chat_completions_body-IsRequest unquoted chat body streaming chat_translated

-- The second message has no role that is known.
abbrev strange : Items
strange =
    cons (says (codes "user") (str (codes "hi")))
      (cons (says (codes "robot") (str (codes "hi"))) nil)

abbrev no_role : ChatError
no_role = record {
  param = codes "messages.1.role";
  message = codes "unsupported message role robot";
}

strange_refused : translate_messages unquoted 0 strange ≡ refused no_role
unfolding translate_messages translate_message message_as role_of chain string_field get_field beq
    trim_space trim_left is_space translate_content itoa digits_before
strange_refused = refl

translate_messages-FirstRefused_example :
    (i : ℕ) × (rest : Bytes) × FirstRefused unquoted no_role 0 strange i
    × (no_role.param ≡ at_message i rest)
translate_messages-FirstRefused_example =
    translate_messages-FirstRefused unquoted strange no_role strange_refused
