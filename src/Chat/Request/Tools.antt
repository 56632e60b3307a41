-- ===== src/Chat/Request/Tools.antt =====
-- chat_completions.go, `translateChatTools` and what it calls: the tools of a chat and the choice
-- among them, in today's form and in the older one of functions.
use codex_auth_broker.Chat.Request.{
  ChatError, Tried, array_from, chain, chat_error, copy_keys, got, object_from,
}
use codex_auth_broker.Chat.{itoa}
use codex_auth_broker.Body.{get_field, set_field, string_field}
use codex_auth_broker.Usage.{object_field}
use codex_auth_broker.Prelude.Json.{Fields, Items, Value, arr, cons, nil, obj, str}
use codex_auth_broker.Prelude.{
  Bool, List, Option, [], if◌then◌else◌, none, not, some, suc, ℕ, ◌++◌, ◌||◌, ◌∷◌,
}
use codex_auth_broker.Prelude.Int.{pos}
use codex_auth_broker.Prelude.Text.{Bytes, beq, codes, is_some}

abbrev pub function_type : Bytes × Value
function_type = (codes "type", str (codes "function"))

unfoldable pub tool_of : Fields → Tried ChatError Fields
tool_of definition =
    let name = string_field definition (codes "name") in
    if beq name []
    then chat_error (codes "tools.function.name") (codes "function tool name is required")
    else got (
        copy_keys (codes "description" ∷ codes "parameters" ∷ codes "strict" ∷ []) definition
          (object_from (function_type ∷ (codes "name", str name) ∷ [])))

abbrev pub tool_of_some : Option Fields → Tried ChatError Fields
tool_of_some none =
    chat_error (codes "tools.function") (codes "function tool definition must be an object")
tool_of_some (some definition) = tool_of definition

unfoldable pub translate_tool : (Bytes → Bytes) → Fields → Bool → Tried ChatError Fields
translate_tool quote tool legacy =
    let type = string_field tool (codes "type") in
    if legacy
    then tool_of tool
    else if not (beq type (codes "function"))
    then chat_error (codes "tools") (
        codes "unsupported tool type "
        ++ (quote type ++ codes "; only function tools are supported"))
    else tool_of_some (object_field tool (codes "function"))

unfoldable pub translate_tool_at : (Bytes → Bytes) → Bool → ℕ → Value → Tried ChatError Fields
translate_tool_at quote legacy n (obj tool) = translate_tool quote tool legacy
translate_tool_at quote legacy n _ =
    chat_error (codes "tools." ++ itoa (pos n))
      (codes "tool " ++ (itoa (pos n) ++ codes " must be an object"))

unfoldable pub translate_tool_list :
    (Bytes → Bytes) → Bool → ℕ → Items → Tried ChatError (List Fields)
translate_tool_list quote legacy n nil = got []
translate_tool_list quote legacy n (cons v vs) =
    let rest = translate_tool_list quote legacy (suc n) vs in
    chain (translate_tool_at quote legacy n v) λ tool. chain rest λ tools. got (tool ∷ tools)

-- `body["tools"] = translated`, if there are tools.
unfoldable pub set_tools : (Bytes → Bytes) → Bool → Option Value → Fields → Tried ChatError Fields
set_tools quote legacy none body = got body
set_tools quote legacy (some (arr tools)) body =
    chain (translate_tool_list quote legacy 0 tools)
      λ translated. got (set_field (codes "tools") (array_from translated) body)
set_tools quote legacy (some _) body = chat_error (codes "tools") (codes "tools must be an array")

abbrev pub choice_of : Bytes → Value
choice_of name = obj (object_from (function_type ∷ (codes "name", str name) ∷ []))

abbrev pub no_choice_name : Tried ChatError Value
no_choice_name =
    chat_error (codes "tool_choice.function.name") (codes "tool_choice.function.name is required")

unfoldable pub choice_function : Option Fields → Tried ChatError Value
choice_function none = no_choice_name
choice_function (some function) =
    let name = string_field function (codes "name") in
    if beq name [] then no_choice_name else got (choice_of name)

abbrev pub no_choice : Tried ChatError Value
no_choice =
    chat_error (codes "tool_choice")
      (codes "tool_choice must be none, auto, required, or a function choice")

unfoldable pub translate_tool_choice : (Bytes → Bytes) → Value → Tried ChatError Value
translate_tool_choice quote (str value) =
    if beq value (codes "none") || beq value (codes "auto") || beq value (codes "required")
    then got (str value)
    else chat_error (codes "tool_choice") (codes "unsupported tool_choice " ++ quote value)
translate_tool_choice quote (obj choice) =
    if not (beq (string_field choice (codes "type")) (codes "function"))
    then no_choice
    else choice_function (object_field choice (codes "function"))
translate_tool_choice quote _ = no_choice

abbrev pub no_legacy_name : Tried ChatError Value
no_legacy_name = chat_error (codes "function_call.name") (codes "function_call.name is required")

unfoldable pub translate_legacy_choice : (Bytes → Bytes) → Value → Tried ChatError Value
translate_legacy_choice quote (str value) =
    if beq value (codes "none") || beq value (codes "auto")
    then got (str value)
    else chat_error (codes "function_call") (codes "unsupported function_call " ++ quote value)
translate_legacy_choice quote (obj choice) =
    let name = string_field choice (codes "name") in
    if beq name [] then no_legacy_name else got (choice_of name)
translate_legacy_choice quote _ = no_legacy_name

-- The choice, or the older field for it.
unfoldable pub set_choice :
    (Bytes → Bytes) → Option Value → Option Value → Fields → Tried ChatError Fields
set_choice quote (some choice) legacy body =
    chain (translate_tool_choice quote choice) λ v. got (set_field (codes "tool_choice") v body)
set_choice quote none (some choice) body =
    chain (translate_legacy_choice quote choice) λ v. got (set_field (codes "tool_choice") v body)
set_choice quote none none body = got body

-- `tools`, or `functions` if there is no such field.
abbrev pub tools_of : Fields → Option Value
tools_of chat_body = elim (get_field (codes "tools") chat_body) [
  | some v ↦ some v
  | none ↦ get_field (codes "functions") chat_body
]

unfoldable pub translate_tools : (Bytes → Bytes) → Fields → Fields → Tried ChatError Fields
translate_tools quote chat_body body =
    let legacy = not (is_some (get_field (codes "tools") chat_body)) in
    chain (set_tools quote legacy (tools_of chat_body) body) λ with_tools.
      set_choice quote (get_field (codes "tool_choice") chat_body)
        (get_field (codes "function_call") chat_body) with_tools
