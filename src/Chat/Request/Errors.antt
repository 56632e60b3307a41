-- ===== src/Chat/Request/Errors.antt =====
-- chat_completions.go: which message the error of a chat's messages is about.
use mathlib.Core.Path.{subst}
use codex_auth_broker.Chat.Request.Messages.{
  Role, assistant, at_message, instructing, message_as, role_of, tool, translate_message,
  translate_messages, unknown, user,
}
use codex_auth_broker.Chat.Request.{ChatError, Tried, chain, chat_error, got, refused, with_param}
use codex_auth_broker.Body.{string_field}
use codex_auth_broker.Prelude.Json.{Fields, Items, Value, arr, bool, cons, nil, null, num, obj, str}
use codex_auth_broker.Prelude.{Bool, List, [], false, if◌then◌else◌, refl, suc, true, ℕ, ◌++◌, ◌≡◌}
use codex_auth_broker.Prelude.Text.{Bytes, beq, codes}

-- The parameter of an error begins with the place of the message.
abbrev pub Names : {A : Type 0} → ℕ → Tried ChatError A → Type 0
Names n (got a) = Unit {0}
Names n (refused e) = (rest : Bytes) × (e.param ≡ at_message n rest)

Names-chain :
    {A B : Type 0} (n : ℕ) (r : Tried ChatError A) (next : A → Tried ChatError B)
    → Names n r
    → ((a : A) → Names n (next a))
    → Names n (chain r next)
unfolding chain
Names-chain n (got a) next h on = on a
Names-chain n (refused e) next h on = h

Names-with_param :
    {A : Type 0} (n : ℕ) (rest : Bytes) (r : Tried Bytes A)
    → Names n (with_param (at_message n rest) r)
Names-with_param n rest (got a) = tt
Names-with_param n rest (refused e) = (rest, refl)

Names-if :
    {A : Type 0} (n : ℕ) (b : Bool) (x y : Tried ChatError A)
    → Names n x
    → Names n y
    → Names n (if b then x else y)
Names-if n true x y hx hy = hx
Names-if n false x y hx hy = hy

message_as-Names :
    (quote : Bytes → Bytes) (n : ℕ) (role : Role) (message : Fields)
    → Names n (message_as quote n role message)
unfolding message_as
message_as-Names quote n instructing message =
    Names-chain n _ _ (Names-with_param n (codes ".content") _) (λ content. tt)
message_as-Names quote n user message =
    Names-chain n _ _ (Names-with_param n (codes ".content") _) (λ content. tt)
message_as-Names quote n assistant message = Names-with_param n [] _
message_as-Names quote n tool message =
    let call_id = string_field message (codes "tool_call_id") in
    Names-if n (beq call_id [])
      (chat_error (at_message n (codes ".tool_call_id")) (codes "tool_call_id is required")) _
      (codes ".tool_call_id", refl)
      (Names-chain n _ _ (Names-with_param n (codes ".content") _) (λ output. tt))
message_as-Names quote n unknown message = (codes ".role", refl)

translate_message-Names :
    (quote : Bytes → Bytes) (n : ℕ) (v : Value) → Names n (translate_message quote n v)
unfolding translate_message
translate_message-Names quote n (obj message) =
    message_as-Names quote n (role_of (string_field message (codes "role"))) message
translate_message-Names quote n null = ([], refl)
translate_message-Names quote n (bool _) = ([], refl)
translate_message-Names quote n (num _) = ([], refl)
translate_message-Names quote n (str _) = ([], refl)
translate_message-Names quote n (arr _) = ([], refl)

-- The message at the place `i` is the first one that is refused, with this error; the places are
-- counted from `n` on.
pub data FirstRefused (quote : Bytes → Bytes) (e : ChatError) : ℕ → Items → ℕ → Type 0 where
  here :
      (n : ℕ) (v : Value) (vs : Items)
      → translate_message quote n v ≡ refused e
      → FirstRefused quote e n (cons v vs) n
  later :
      (n i : ℕ) (v : Value) (vs : Items) (items : List Fields)
      → translate_message quote n v ≡ got items
      → FirstRefused quote e (suc n) vs i
      → FirstRefused quote e n (cons v vs) i

-- What the error of messages tells.
abbrev Told : (Bytes → Bytes) → ℕ → Items → Tried ChatError (List Fields) → Type 0
Told quote n vs (got items) = Unit {0}
Told quote n vs (refused e) =
    (i : ℕ) × (rest : Bytes) × FirstRefused quote e n vs i × (e.param ≡ at_message i rest)

Told-next :
    (quote : Bytes → Bytes) (n : ℕ) (v : Value) (vs : Items) (r : Tried ChatError (List Fields))
    (others : Tried ChatError (List Fields))
    → translate_message quote n v ≡ r
    → Names n r
    → Told quote (suc n) vs others
    → Told quote n (cons v vs) (chain r λ items. chain others λ more. got (items ++ more))
unfolding chain
Told-next quote n v vs (refused e) others same names told =
    (n, names.0, FirstRefused.here n v vs same, names.1)
Told-next quote n v vs (got items) (got more) same names told = tt
Told-next quote n v vs (got items) (refused e) same names told =
    (told.0, told.1, FirstRefused.later n told.0 v vs items same told.2, told.3)

translate_messages-Told :
    (quote : Bytes → Bytes) (n : ℕ) (vs : Items) → Told quote n vs (translate_messages quote n vs)
unfolding translate_messages
translate_messages-Told quote n nil = tt
translate_messages-Told quote n (cons v vs) =
    Told-next quote n v vs (translate_message quote n v) (translate_messages quote (suc n) vs) refl
      (translate_message-Names quote n v) (translate_messages-Told quote (suc n) vs)

-- If the messages of a chat are refused, the error is that of the first message that is refused,
-- and its parameter begins with `messages.` and the place of that message.
pub translate_messages-FirstRefused :
    (quote : Bytes → Bytes) (vs : Items) (e : ChatError)
    → translate_messages quote 0 vs ≡ refused e
    → (i : ℕ) × (rest : Bytes) × FirstRefused quote e 0 vs i × (e.param ≡ at_message i rest)
translate_messages-FirstRefused quote vs e h =
    subst (Told quote 0 vs) h (translate_messages-Told quote 0 vs)
