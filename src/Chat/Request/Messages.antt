-- ===== src/Chat/Request/Messages.antt =====
-- chat_completions.go, `translateChatMessages` and `translateChatAssistantMessage`: the messages of
-- a chat as the input items of a response.
use codex_auth_broker.Chat.Request.Content.{chat_text_only_content, translate_content}
use codex_auth_broker.Chat.Request.{
  ChatError, Tried, array_from, chain, chat_error, got, object_from, refused, with_param,
}
use codex_auth_broker.Chat.{chat_payload_string, itoa}
use codex_auth_broker.Body.{get_field, string_field, value_or}
use codex_auth_broker.Usage.{object_field}
use codex_auth_broker.Prelude.Json.{Fields, Items, Value, arr, cons, nil, null, obj, str}
use codex_auth_broker.Prelude.{
  Bool, List, Option, [], false, if◌then◌else◌, none, not, some, suc, true, ℕ, ◌&&◌, ◌++◌, ◌||◌,
  ◌∷◌,
}
use codex_auth_broker.Prelude.Int.{pos}
use codex_auth_broker.Prelude.Text.{Bytes, beq, codes}

pub data Role : Type 0 where
  instructing user assistant tool unknown : Role

unfoldable pub role_of : Bytes → Role
role_of role =
    if beq role (codes "system") || beq role (codes "developer")
    then instructing
    else if beq role (codes "user")
    then user
    else if beq role (codes "assistant")
    then assistant
    else if beq role (codes "tool")
    then tool
    else unknown

-- The nil slice is encoded as null.
abbrev pub content_value : Option (List Fields) → Value
content_value none = null
content_value (some parts) = array_from parts

abbrev pub message_item : Bytes → Value → Fields
message_item role content = object_from ((codes "role", str role) ∷ (codes "content", content) ∷ [])

abbrev pub call_item : Bytes → Bytes → Bytes → Fields
call_item call_id name arguments = object_from (
    (codes "type", str (codes "function_call"))
    ∷ (codes "call_id", str call_id)
    ∷ (codes "name", str name)
    ∷ (codes "arguments", str (value_or arguments (codes "{}")))
    ∷ [])

abbrev pub output_item : Bytes → Bytes → Fields
output_item call_id output = object_from (
    (codes "type", str (codes "function_call_output"))
    ∷ (codes "call_id", str call_id)
    ∷ (codes "output", str output)
    ∷ [])

-- The content of an assistant's message, if it has any.
unfoldable pub assistant_content : (Bytes → Bytes) → Option Value → Tried Bytes (List Fields)
assistant_content quote content =
    chain (translate_content quote (codes "output_text") false content) λ translated.
      got (elim translated [
        | some (part ∷ parts) ↦ message_item (codes "assistant") (array_from (part ∷ parts)) ∷ []
        | _ ↦ []
      ])

-- `fmt.Errorf("tool_calls.%d...", index)`
abbrev pub call_error : {A : Type 0} → ℕ → Bytes → Tried Bytes A
call_error n rest = refused (codes "tool_calls." ++ (itoa (pos n) ++ rest))

unfoldable pub call_of_function : ℕ → Bytes → Option Fields → Tried Bytes Fields
call_of_function n call_id none = call_error n (codes ".function must be an object")
call_of_function n call_id (some function) =
    let name = string_field function (codes "name") in
    if beq call_id [] || beq name []
    then call_error n (codes " requires id and function.name")
    else got (call_item call_id name (chat_payload_string function (codes "arguments")))

unfoldable pub translate_call : (Bytes → Bytes) → ℕ → Value → Tried Bytes Fields
translate_call quote n (obj call) =
    let type = string_field call (codes "type") in
    if not (beq type []) && not (beq type (codes "function"))
    then refused (codes "unsupported tool call type " ++ quote type)
    else call_of_function n (string_field call (codes "id")) (object_field call (codes "function"))
translate_call quote n _ = call_error n (codes " must be an object")

unfoldable pub translate_calls : (Bytes → Bytes) → ℕ → Items → Tried Bytes (List Fields)
translate_calls quote n nil = got []
translate_calls quote n (cons v vs) =
    let rest = translate_calls quote (suc n) vs in
    chain (translate_call quote n v) λ call. chain rest λ calls. got (call ∷ calls)

-- `message["tool_calls"]`
unfoldable pub assistant_calls : (Bytes → Bytes) → Option Value → Tried Bytes (List Fields)
assistant_calls quote none = got []
assistant_calls quote (some (arr calls)) = translate_calls quote 0 calls
assistant_calls quote (some _) = refused (codes "tool_calls must be an array")

-- `message["function_call"]`
unfoldable pub legacy_call : Option Fields → Tried Bytes (List Fields)
legacy_call none = got []
legacy_call (some call) =
    let name = string_field call (codes "name") in
    if beq name []
    then refused (codes "function_call.name is required")
    else got
        (call_item (codes "call_" ++ name) name (chat_payload_string call (codes "arguments")) ∷ [])

abbrev pub some_item : List Fields → Tried Bytes (List Fields)
some_item [] = refused (codes "assistant message requires content or tool_calls")
some_item (item ∷ items) = got (item ∷ items)

unfoldable pub translate_assistant : (Bytes → Bytes) → Fields → Tried Bytes (List Fields)
translate_assistant quote message =
    chain (assistant_content quote (get_field (codes "content") message)) λ texts.
      chain (assistant_calls quote (get_field (codes "tool_calls") message)) λ calls.
        chain (legacy_call (object_field message (codes "function_call")))
          λ legacy. some_item (texts ++ (calls ++ legacy))

-- `fmt.Sprintf("messages.%d...", index)`
abbrev pub at_message : ℕ → Bytes → Bytes
at_message n rest = codes "messages." ++ (itoa (pos n) ++ rest)

abbrev pub message_of : (Bytes → Bytes) → Bytes → Bool → ℕ → Fields → Tried ChatError (List Fields)
message_of quote role allow_media n message =
    chain
      (with_param (at_message n (codes ".content")) (
        translate_content quote (codes "input_text") allow_media
          (get_field (codes "content") message)))
      λ content. got (message_item role (content_value content) ∷ [])

-- The items of one message, by its role.
unfoldable pub message_as : (Bytes → Bytes) → ℕ → Role → Fields → Tried ChatError (List Fields)
message_as quote n instructing message = message_of quote (codes "developer") false n message
message_as quote n user message = message_of quote (codes "user") true n message
message_as quote n assistant message =
    with_param (at_message n []) (translate_assistant quote message)
message_as quote n tool message =
    let call_id = string_field message (codes "tool_call_id") in
    if beq call_id []
    then chat_error (at_message n (codes ".tool_call_id")) (codes "tool_call_id is required")
    else chain
        (with_param (at_message n (codes ".content"))
          (chat_text_only_content (get_field (codes "content") message)))
        λ output. got (output_item call_id output ∷ [])
message_as quote n unknown message =
    chat_error (at_message n (codes ".role"))
      (codes "unsupported message role " ++ quote (string_field message (codes "role")))

unfoldable pub translate_message : (Bytes → Bytes) → ℕ → Value → Tried ChatError (List Fields)
translate_message quote n (obj message) =
    message_as quote n (role_of (string_field message (codes "role"))) message
translate_message quote n _ =
    chat_error (at_message n []) (codes "message " ++ (itoa (pos n) ++ codes " must be an object"))

unfoldable pub translate_messages : (Bytes → Bytes) → ℕ → Items → Tried ChatError (List Fields)
translate_messages quote n nil = got []
translate_messages quote n (cons v vs) =
    let rest = translate_messages quote (suc n) vs in
    chain (translate_message quote n v) λ items. chain rest λ more. got (items ++ more)
