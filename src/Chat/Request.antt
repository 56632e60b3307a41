-- ===== src/Chat/Request.antt =====
-- chat_completions.go, `translateChatCompletionsBody`: the body of a chat completion as one for
-- Responses. Its messages are in Request/Messages, its options in Request/Options. Go's quoting
-- verb `%q` is an argument.
pub mod Content
pub mod Messages
pub mod Options
pub mod Tools
pub mod Translate
pub mod Parts
pub mod Input
pub mod Kept
pub mod Accepted
pub mod Errors
mod Tests
use codex_auth_broker.Body.{get_field, set_field}
use codex_auth_broker.Prelude.Json.{Fields, Items, Value, arr, cons, end, field, nil, obj}
use codex_auth_broker.Prelude.{Bool, List, [], false, none, some, true, ◌∷◌}
use codex_auth_broker.Prelude.Text.{Bytes}

-- A result, or the reason for which there is none.
pub data Tried (E A : Type 0) : Type 0 where
  got : A → Tried E A
  refused : E → Tried E A

unfoldable pub chain : {E A B : Type 0} → Tried E A → (A → Tried E B) → Tried E B
chain (got a) next = next a
chain (refused e) next = refused e

-- `chatRequestError`
pub record ChatError : Type 0 where
  pub param : Bytes
  pub message : Bytes

-- An error that was only a text gets its parameter.
abbrev pub with_param : {A : Type 0} → Bytes → Tried Bytes A → Tried ChatError A
with_param param (got a) = got a
with_param param (refused message) = refused (record { param = param; message = message })

abbrev pub chat_error : {A : Type 0} → Bytes → Bytes → Tried ChatError A
chat_error param message = refused (record { param = param; message = message })

-- JSON objects in an array.
abbrev pub items_from : List Fields → Items
items_from [] = nil
items_from (fs ∷ rest) = cons (obj fs) (items_from rest)

abbrev pub array_from : List Fields → Value
array_from fss = arr (items_from fss)

-- `map[string]any{key: value, ...}`
abbrev pub object_from : List (Bytes × Value) → Fields
object_from [] = Fields.end
object_from ((key, value) ∷ rest) = field key value (object_from rest)

-- `if value, ok := from[key]; ok { to[key] = value }` for each of the keys.
unfoldable pub copy_keys : List Bytes → Fields → Fields → Fields
copy_keys [] from to = to
copy_keys (key ∷ keys) from to =
    copy_keys keys from (elim (get_field key from) [ some v ↦ set_field key v to | none ↦ to ])

-- `len(m) > 0`
abbrev pub has_fields : Fields → Bool
has_fields Fields.end = false
has_fields (field _ _ _) = true
