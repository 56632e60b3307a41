-- ===== src/Chat/Request/Content.antt =====
-- chat_completions.go, `translateChatMessageContent` and `chatTextOnlyContent`: the content of one
-- message.
use codex_auth_broker.Chat.Request.{Tried, chain, copy_keys, got, object_from, refused}
use codex_auth_broker.Chat.{chat_payload_string, itoa}
use codex_auth_broker.Body.{set_field, string_field}
use codex_auth_broker.Usage.{object_field}
use codex_auth_broker.Prelude.Json.{Fields, Items, Value, arr, cons, nil, null, obj, str}
use codex_auth_broker.Prelude.{
  Bool, List, Option, [], if◌then◌else◌, none, not, some, suc, ℕ, ◌++◌, ◌∷◌,
}
use codex_auth_broker.Prelude.Int.{pos}
use codex_auth_broker.Prelude.Text.{Bytes, beq, codes}

pub data PartKind : Type 0 where
  text refusal image_url file input_audio other : PartKind

unfoldable pub part_kind : Bytes → PartKind
part_kind type =
    if beq type (codes "text")
    then text
    else if beq type (codes "refusal")
    then refusal
    else if beq type (codes "image_url")
    then image_url
    else if beq type (codes "file")
    then file
    else if beq type (codes "input_audio")
    then input_audio
    else other

abbrev pub text_part : Bytes → Bytes → Fields
text_part text_type s = object_from ((codes "type", str text_type) ∷ (codes "text", str s) ∷ [])

-- `fmt.Errorf("content part %d ...", index)`
abbrev pub part_error : {A : Type 0} → ℕ → Bytes → Tried Bytes A
part_error n rest = refused (codes "content part " ++ (itoa (pos n) ++ rest))

unfoldable pub image_part : ℕ → Option Fields → Tried Bytes Fields
image_part n none = part_error n (codes " image_url.url is required")
image_part n (some image) =
    let url = string_field image (codes "url") in
    let detail = string_field image (codes "detail") in
    let translated =
      object_from ((codes "type", str (codes "input_image")) ∷ (codes "image_url", str url) ∷ []) in
    if beq url []
    then part_error n (codes " image_url.url is required")
    else got
        (if beq detail [] then translated else set_field (codes "detail") (str detail) translated)

unfoldable pub file_part : ℕ → Option Fields → Tried Bytes Fields
file_part n none = part_error n (codes " file must be an object")
file_part n (some source) = got (
    copy_keys (codes "file_data" ∷ codes "file_id" ∷ codes "filename" ∷ []) source
      (object_from ((codes "type", str (codes "input_file")) ∷ [])))

-- One part, by its kind; the two arguments in front are `textType` and `allowMedia`.
unfoldable pub part_as : (Bytes → Bytes) → Bytes → Bool → ℕ → PartKind → Fields → Tried Bytes Fields
part_as quote text_type allow_media n text part =
    got (text_part text_type (chat_payload_string part (codes "text")))
part_as quote text_type allow_media n refusal part =
    got (text_part text_type (chat_payload_string part (codes "refusal")))
part_as quote text_type allow_media n image_url part =
    if not allow_media
    then refused (codes "image content is only supported on user messages")
    else image_part n (object_field part (codes "image_url"))
part_as quote text_type allow_media n file part =
    if not allow_media
    then refused (codes "file content is only supported on user messages")
    else file_part n (object_field part (codes "file"))
part_as quote text_type allow_media n input_audio part =
    refused (codes "audio input is not supported by the Codex Responses backend")
part_as quote text_type allow_media n other part =
    refused (codes "unsupported content part type " ++ quote (string_field part (codes "type")))

unfoldable pub translate_part : (Bytes → Bytes) → Bytes → Bool → ℕ → Value → Tried Bytes Fields
translate_part quote text_type allow_media n (obj part) =
    part_as quote text_type allow_media n (part_kind (string_field part (codes "type"))) part
translate_part quote text_type allow_media n _ = part_error n (codes " must be an object")

unfoldable pub translate_parts :
    (Bytes → Bytes) → Bytes → Bool → ℕ → Items → Tried Bytes (List Fields)
translate_parts quote text_type allow_media n nil = got []
translate_parts quote text_type allow_media n (cons v vs) =
    let rest = translate_parts quote text_type allow_media (suc n) vs in
    chain (translate_part quote text_type allow_media n v)
      λ part. chain rest λ parts. got (part ∷ parts)

-- The content of a message; none is the nil slice, which is encoded as null.
unfoldable pub translate_content :
    (Bytes → Bytes) → Bytes → Bool → Option Value → Tried Bytes (Option (List Fields))
translate_content quote text_type allow_media none = got none
translate_content quote text_type allow_media (some null) = got none
translate_content quote text_type allow_media (some (str s)) =
    got (some (text_part text_type s ∷ []))
translate_content quote text_type allow_media (some (arr parts)) =
    chain (translate_parts quote text_type allow_media 0 parts) λ translated. got (some translated)
translate_content quote text_type allow_media (some _) =
    refused (codes "content must be a string or an array")

-- The texts of the parts, which all must be of the type text, one after the other.
unfoldable pub text_only_parts : ℕ → Items → Tried Bytes Bytes
text_only_parts n nil = got []
text_only_parts n (cons (obj part) vs) =
    let rest = text_only_parts (suc n) vs in
    if not (beq (string_field part (codes "type")) (codes "text"))
    then part_error n (codes " must be text")
    else chain rest λ s. got (chat_payload_string part (codes "text") ++ s)
text_only_parts n (cons _ vs) = part_error n (codes " must be text")

unfoldable pub chat_text_only_content : Option Value → Tried Bytes Bytes
chat_text_only_content none = got []
chat_text_only_content (some null) = got []
chat_text_only_content (some (str s)) = got s
chat_text_only_content (some (arr parts)) = text_only_parts 0 parts
chat_text_only_content (some _) = refused (codes "content must be text")
