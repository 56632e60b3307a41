-- ===== src/Chat/Request/Input.antt =====
-- chat_completions.go: what the input items are that the messages of a chat are translated to.
use codex_auth_broker.Chat.Request.Parts.{
  AreParts, Gives, Gives-chain, Gives-if, Gives-with_param, IsPart, ne_of_beq,
  translate_content-AreParts,
}
use codex_auth_broker.Chat.Request.Content.{chat_text_only_content, translate_content}
use codex_auth_broker.Chat.Request.Messages.{
  Role, assistant, assistant_calls, assistant_content, at_message, call_error, call_item,
  call_of_function, content_value, instructing, legacy_call, message_as, message_item, output_item,
  role_of, some_item, tool, translate_assistant, translate_call, translate_calls, translate_message,
  translate_messages, unknown, user,
}
use codex_auth_broker.Chat.Request.{Tried, array_from, chat_error, got, refused, with_param}
use codex_auth_broker.Chat.{chat_payload_string}
use codex_auth_broker.Body.{get_field, string_field}
use codex_auth_broker.Usage.{object_field}
use codex_auth_broker.Prelude.Json.{Fields, Items, Value, arr, bool, cons, nil, null, num, obj, str}
use codex_auth_broker.Prelude.{
  All, All-append, List, Option, [], arith, false, length, length-append, none, not, some, suc,
  true, ℕ, ◌&&◌, ◌++◌, ◌||◌, ◌∷◌, ◌≢◌, ◌≤◌,
}
use codex_auth_broker.Prelude.Text.{Bytes, beq, codes}

-- An item of the input: no role is `system`, only users send images and files, and calls and their
-- outputs are named.
pub data IsItem : Fields → Type 0 where
  instructs :
      (content : Option (List Fields))
      → AreParts (codes "input_text") false content
      → IsItem (message_item (codes "developer") (content_value content))
  asks :
      (content : Option (List Fields))
      → AreParts (codes "input_text") true content
      → IsItem (message_item (codes "user") (content_value content))
  answers :
      (part : Fields) (parts : List Fields)
      → All (IsPart (codes "output_text") false) (part ∷ parts)
      → IsItem (message_item (codes "assistant") (array_from (part ∷ parts)))
  calls : (id name arguments : Bytes) → id ≢ [] → name ≢ [] → IsItem (call_item id name arguments)
  outputs : (id output : Bytes) → id ≢ [] → IsItem (output_item id output)

-- The items of one message: there is at least one.
abbrev pub AreItems : List Fields → Type 0
AreItems items = (1 ≤ length items) × All IsItem items

abbrev pub AllItems : List Fields → Type 0
AllItems items = All IsItem items

assistant_content-Gives :
    (quote : Bytes → Bytes) (o : Option Value) → Gives AllItems (assistant_content quote o)
unfolding assistant_content
assistant_content-Gives quote o =
    Gives-chain (AreParts (codes "output_text") false) AllItems
      (translate_content quote (codes "output_text") false o) _
      (translate_content-AreParts quote (codes "output_text") false o) said
  where
    said :
        (parts : Option (List Fields))
        → AreParts (codes "output_text") false parts
        → AllItems (elim parts [
          | some (part ∷ parts) ↦ message_item (codes "assistant") (array_from (part ∷ parts)) ∷ []
          | _ ↦ []
        ])
    said none h = tt
    said (some []) h = tt
    said (some (part ∷ parts)) h = (IsItem.answers part parts h, tt)

call_of_function-IsItem :
    (n : ℕ) (call_id : Bytes) (o : Option Fields) → Gives IsItem (call_of_function n call_id o)
unfolding call_of_function
call_of_function-IsItem n call_id none = tt
call_of_function-IsItem n call_id (some function) =
    let name = string_field function (codes "name") in
    Gives-if IsItem (beq call_id [] || beq name [])
      (call_error n (codes " requires id and function.name")) _ (λ e. tt)
      (λ e.
        IsItem.calls call_id name (chat_payload_string function (codes "arguments"))
          (ne_of_beq call_id (ground arith)) (ne_of_beq name (ground arith)))

translate_call-IsItem :
    (quote : Bytes → Bytes) (n : ℕ) (v : Value) → Gives IsItem (translate_call quote n v)
unfolding translate_call
translate_call-IsItem quote n (obj call) =
    let type = string_field call (codes "type") in
    Gives-if IsItem (not (beq type []) && not (beq type (codes "function")))
      (refused (codes "unsupported tool call type " ++ quote type)) _ (λ e. tt)
      (λ e.
        call_of_function-IsItem n (string_field call (codes "id"))
          (object_field call (codes "function")))
translate_call-IsItem quote n null = tt
translate_call-IsItem quote n (bool _) = tt
translate_call-IsItem quote n (num _) = tt
translate_call-IsItem quote n (str _) = tt
translate_call-IsItem quote n (arr _) = tt

translate_calls-Gives :
    (quote : Bytes → Bytes) (n : ℕ) (vs : Items) → Gives AllItems (translate_calls quote n vs)
unfolding translate_calls
translate_calls-Gives quote n nil = tt
translate_calls-Gives quote n (cons v vs) =
    Gives-chain IsItem AllItems (translate_call quote n v) _ (translate_call-IsItem quote n v)
      (λ call h.
        Gives-chain AllItems AllItems (translate_calls quote (suc n) vs) _
          (translate_calls-Gives quote (suc n) vs) (λ more hs. (h, hs)))

assistant_calls-Gives :
    (quote : Bytes → Bytes) (o : Option Value) → Gives AllItems (assistant_calls quote o)
unfolding assistant_calls
assistant_calls-Gives quote none = tt
assistant_calls-Gives quote (some (arr vs)) = translate_calls-Gives quote 0 vs
assistant_calls-Gives quote (some null) = tt
assistant_calls-Gives quote (some (bool _)) = tt
assistant_calls-Gives quote (some (num _)) = tt
assistant_calls-Gives quote (some (str _)) = tt
assistant_calls-Gives quote (some (obj _)) = tt

legacy_call-Gives : (o : Option Fields) → Gives AllItems (legacy_call o)
unfolding legacy_call
legacy_call-Gives none = tt
legacy_call-Gives (some call) =
    let name = string_field call (codes "name") in
    Gives-if AllItems (beq name []) (refused (codes "function_call.name is required")) _ (λ e. tt)
      (λ e. (
        IsItem.calls (codes "call_" ++ name) name (chat_payload_string call (codes "arguments"))
            (λ none_of. cc none_of) (ne_of_beq name e),
        tt,
      ))

some_item-AreItems : (items : List Fields) → AllItems items → Gives AreItems (some_item items)
some_item-AreItems [] h = tt
some_item-AreItems (item ∷ items) h = (omega arith, h)

translate_assistant-AreItems :
    (quote : Bytes → Bytes) (message : Fields) → Gives AreItems (translate_assistant quote message)
unfolding translate_assistant
translate_assistant-AreItems quote message =
    let content = get_field (codes "content") message in
    let tool_calls = get_field (codes "tool_calls") message in
    let function_call = object_field message (codes "function_call") in
    Gives-chain AllItems AreItems (assistant_content quote content) _
      (assistant_content-Gives quote content)
      (λ said h1.
        Gives-chain AllItems AreItems (assistant_calls quote tool_calls) _
          (assistant_calls-Gives quote tool_calls)
          (λ made h2.
            Gives-chain AllItems AreItems (legacy_call function_call) _
              (legacy_call-Gives function_call)
              (λ legacy h3. some_item-AreItems (said ++ (made ++ legacy)) (
                All-append IsItem said (made ++ legacy) h1 (All-append IsItem made legacy h2 h3)))))

Gives-any : {E A : Type 0} (r : Tried E A) → Gives (λ a. Unit {0}) r
Gives-any (got a) = tt
Gives-any (refused e) = tt

message_as-AreItems :
    (quote : Bytes → Bytes) (n : ℕ) (role : Role) (message : Fields)
    → Gives AreItems (message_as quote n role message)
unfolding message_as
message_as-AreItems quote n instructing message =
    let content = get_field (codes "content") message in
    let param = at_message n (codes ".content") in
    Gives-chain (AreParts (codes "input_text") false) AreItems
      (with_param param (translate_content quote (codes "input_text") false content)) _
      (Gives-with_param (AreParts (codes "input_text") false) param _
        (translate_content-AreParts quote (codes "input_text") false content))
      (λ parts h. (omega arith, (IsItem.instructs parts h, tt)))
message_as-AreItems quote n user message =
    let content = get_field (codes "content") message in
    let param = at_message n (codes ".content") in
    Gives-chain (AreParts (codes "input_text") true) AreItems
      (with_param param (translate_content quote (codes "input_text") true content)) _
      (Gives-with_param (AreParts (codes "input_text") true) param _
        (translate_content-AreParts quote (codes "input_text") true content))
      (λ parts h. (omega arith, (IsItem.asks parts h, tt)))
message_as-AreItems quote n assistant message =
    Gives-with_param AreItems (at_message n []) _ (translate_assistant-AreItems quote message)
message_as-AreItems quote n tool message =
    let call_id = string_field message (codes "tool_call_id") in
    let content = get_field (codes "content") message in
    Gives-if AreItems (beq call_id [])
      (chat_error (at_message n (codes ".tool_call_id")) (codes "tool_call_id is required")) _
      (λ e. tt)
      (λ e.
        Gives-chain (λ s. Unit {0}) AreItems
          (with_param (at_message n (codes ".content")) (chat_text_only_content content)) _
          (Gives-any _)
          (λ output h. (omega arith, (IsItem.outputs call_id output (ne_of_beq call_id e), tt))))
message_as-AreItems quote n unknown message = tt

translate_message-AreItems :
    (quote : Bytes → Bytes) (n : ℕ) (v : Value) → Gives AreItems (translate_message quote n v)
unfolding translate_message
translate_message-AreItems quote n (obj message) =
    message_as-AreItems quote n (role_of (string_field message (codes "role"))) message
translate_message-AreItems quote n null = tt
translate_message-AreItems quote n (bool _) = tt
translate_message-AreItems quote n (num _) = tt
translate_message-AreItems quote n (str _) = tt
translate_message-AreItems quote n (arr _) = tt

-- len(messages)
abbrev pub message_count : Items → ℕ
message_count nil = 0
message_count (cons v vs) = suc (message_count vs)

-- The input that messages are translated to has only such items, and one for each message at least.
pub translate_messages-Gives :
    (quote : Bytes → Bytes) (n : ℕ) (vs : Items)
    → Gives
        (λ items. (message_count vs ≤ length items) × All IsItem items)
        (translate_messages quote n vs)
unfolding translate_messages
translate_messages-Gives quote n nil = (omega arith, tt)
translate_messages-Gives quote n (cons v vs) =
    Gives-chain AreItems (λ items. (suc (message_count vs) ≤ length items) × All IsItem items)
      (translate_message quote n v) _ (translate_message-AreItems quote n v)
      (λ items h.
        Gives-chain (λ items. (message_count vs ≤ length items) × All IsItem items) _
          (translate_messages quote (suc n) vs) _ (translate_messages-Gives quote (suc n) vs)
          (λ more hs. (
            omega (arith, h.0, hs.0, length-append items more),
            All-append IsItem items more h.1 hs.1,
          )))
