-- ===== src/Chat/Request/Translate.antt =====
-- chat_completions.go, `translateChatCompletionsBody`: the checks of a chat's body in their order,
-- and the body for Responses that is made of it.
use codex_auth_broker.Chat.Request.Messages.{translate_messages}
use codex_auth_broker.Chat.Request.Options.{
  copy_chat_request_fields, translate_reasoning, translate_text_options,
}
use codex_auth_broker.Chat.Request.Tools.{translate_tools}
use codex_auth_broker.Chat.Request.{
  ChatError, Tried, array_from, chain, chat_error, got, object_from,
}
use codex_auth_broker.Body.{get_field, string_field}
use codex_auth_broker.Usage.{numeric_field, object_field}
use codex_auth_broker.Prelude.Json.{Fields, Float64, Value, arr, bool, cons, fin, inf, nan, str}
use codex_auth_broker.Prelude.{
  Bool, List, Option, [], false, if◌then◌else◌, none, not, some, true, ◌&&◌, ◌*◌, ◌==◌, ◌^◌, ◌∷◌,
}
use codex_auth_broker.Prelude.Text.{Bytes, beq, codes}

-- `chatCompletionRequestInfo`
pub record ChatInfo : Type 0 where
  pub stream : Bool
  pub include_usage : Bool

-- n == 1
unfoldable pub is_one : Float64 → Bool
is_one nan = false
is_one (inf minus) = false
is_one (fin minus m e) = not minus && m * 2 ^ e == 2 ^ 1074

abbrev pub asks_for_one : Option Float64 → Bool
asks_for_one none = true
asks_for_one (some n) = is_one n

unfoldable pub stream_of : Option Value → Tried ChatError Bool
stream_of none = got false
stream_of (some (bool b)) = got b
stream_of (some _) = chat_error (codes "stream") (codes "stream must be a boolean")

-- The flag under a key, if there is an object to read it from.
unfoldable pub usage_flag : Option Fields → Bytes → Bool → Bool
usage_flag none key before = before
usage_flag (some options) key before = elim (get_field key options) [
  | some (bool b) ↦ b
  | _ ↦ false
]

abbrev pub include_usage_of : Fields → Bool
include_usage_of chat_body =
    usage_flag (object_field chat_body (codes "streamOptions")) (codes "includeUsage")
      (usage_flag (object_field chat_body (codes "stream_options")) (codes "include_usage") false)

unfoldable pub input_of : (Bytes → Bytes) → Option Value → Tried ChatError (List Fields)
input_of quote (some (arr (cons v vs))) = translate_messages quote 0 (cons v vs)
input_of quote _ = chat_error (codes "messages") (codes "messages must be a non-empty array")

-- The fields that every body has.
abbrev pub base_body : Bytes → List Fields → Bool → Fields
base_body model input stream = object_from (
    (codes "model", str model)
    ∷ (codes "input", array_from input)
    ∷ (codes "stream", bool stream)
    ∷ [])

unfoldable pub translate_options : (Bytes → Bytes) → Fields → Fields → Tried ChatError Fields
translate_options quote chat_body body =
    chain (translate_reasoning chat_body (copy_chat_request_fields chat_body body)) λ b1.
      chain (translate_text_options quote chat_body b1) λ b2. translate_tools quote chat_body b2

unfoldable pub translate_chat_completions_body :
    (Bytes → Bytes) → Fields → Tried ChatError (Fields × ChatInfo)
translate_chat_completions_body quote chat_body =
    let model = string_field chat_body (codes "model") in
    if beq model []
    then chat_error (codes "model") (codes "model is required")
    else if not (asks_for_one (numeric_field chat_body (codes "n")))
    then chat_error (codes "n")
        (codes "n must be 1; the Codex Responses backend returns one choice")
    else chain (stream_of (get_field (codes "stream") chat_body)) λ stream.
      chain (input_of quote (get_field (codes "messages") chat_body)) λ input.
        chain (translate_options quote chat_body (base_body model input stream))
          λ body. got (body, record { stream = stream; include_usage = include_usage_of chat_body })
