-- ===== src/Chat/Request/Accepted.antt =====
-- chat_completions.go: what a chat's body is translated to, if it is accepted.
use codex_auth_broker.Prelude.Json.{Fields, Items, Value, arr, bool, cons, nil, null, num, obj, str}
use codex_auth_broker.Chat.Request.{ChatError, Tried, array_from, chat_error, got, refused}
use codex_auth_broker.Usage.{numeric_field}
use codex_auth_broker.Body.{get_field, string_field}
use codex_auth_broker.Chat.Request.Translate.{
  ChatInfo, asks_for_one, base_body, include_usage_of, input_of, stream_of,
  translate_chat_completions_body, translate_options,
}
use codex_auth_broker.Chat.Request.Kept.{
  IsOther, IsOther-of, Kept, differs, differs_second, of_Gives, translate_options-Kept,
}
use codex_auth_broker.Chat.Request.Parts.{Gives, Gives-chain, Gives-if, ne_of_beq}
use codex_auth_broker.Chat.Request.Input.{IsItem, message_count, translate_messages-Gives}
use codex_auth_broker.Chat.Request.Messages.{translate_messages}
use codex_auth_broker.Prelude.{
  All, Bool, List, Option, [], arith, false, length, none, not, refl, some, ◌≡◌, ◌≢◌, ◌≤◌,
}
use codex_auth_broker.Prelude.Text.{Bytes, beq, codes}

-- What a chat's `stream` asks for: not to stream if it is missing, and what it says if it is a flag;
-- nothing else is accepted.
abbrev pub Asks : Option Value → Bool → Type 0
Asks none stream = stream ≡ false
Asks (some (bool b)) stream = stream ≡ b
Asks (some _) stream = ⊥

stream_of-Asks : (o : Option Value) → Gives (Asks o) (stream_of o)
unfolding stream_of
stream_of-Asks none = refl
stream_of-Asks (some (bool b)) = refl
stream_of-Asks (some null) = tt
stream_of-Asks (some (num _)) = tt
stream_of-Asks (some (str _)) = tt
stream_of-Asks (some (arr _)) = tt
stream_of-Asks (some (obj _)) = tt

-- The body names the model, streams as the client asked, and has an input of well-formed items, one
-- for each message at least; the messages themselves are left behind.
pub record IsRequest (chat_body body : Fields) (info : ChatInfo) : Type 0 where
  pub model_named : string_field chat_body (codes "model") ≢ []
  pub model_kept :
      get_field (codes "model") body ≡ some (str (string_field chat_body (codes "model")))
  pub streamed : get_field (codes "stream") body ≡ some (bool info.stream)
  pub as_asked : Asks (get_field (codes "stream") chat_body) info.stream
  pub messages_gone : get_field (codes "messages") body ≡ none
  pub input :
      (vs : Items) × (items : List Fields) × (get_field (codes "messages") chat_body
        ≡ some (arr vs))
      × (get_field (codes "input") body ≡ some (array_from items))
      × (1 ≤ message_count vs)
      × (message_count vs ≤ length items)
      × All IsItem items

-- What an accepted list of messages gives.
abbrev IsInput : Option Value → List Fields → Type 0
IsInput o items =
    (vs : Items) × (o ≡ some (arr vs))
    × (1 ≤ message_count vs)
    × (message_count vs ≤ length items)
    × All IsItem items

input_of-IsInput : (quote : Bytes → Bytes) (o : Option Value) → Gives (IsInput o) (input_of quote o)
unfolding input_of
input_of-IsInput quote (some (arr (cons v vs))) =
    given (translate_messages quote 0 (cons v vs)) (translate_messages-Gives quote 0 (cons v vs))
  where
    given :
        (r : Tried ChatError (List Fields))
        → Gives (λ items. (message_count (cons v vs) ≤ length items) × All IsItem items) r
        → Gives (IsInput (some (arr (cons v vs)))) r
    given (got items) h = (cons v vs, refl, omega arith, h.0, h.1)
    given (refused e) h = tt
input_of-IsInput quote (some (arr nil)) = tt
input_of-IsInput quote none = tt
input_of-IsInput quote (some null) = tt
input_of-IsInput quote (some (bool _)) = tt
input_of-IsInput quote (some (num _)) = tt
input_of-IsInput quote (some (str _)) = tt
input_of-IsInput quote (some (obj _)) = tt

-- The options keep the fields of the base.
options_keep :
    (quote : Bytes → Bytes) (key : Bytes) (chat_body body after : Fields)
    → IsOther key
    → translate_options quote chat_body body ≡ got after
    → Kept key body after
options_keep quote key chat_body body after h e =
    of_Gives (Kept key body) (translate_options quote chat_body body) after
      (translate_options-Kept quote key chat_body body h) e

Gives-self : {E A : Type 0} (r : Tried E A) → Gives (λ a. r ≡ got a) r
Gives-self (got a) = refl
Gives-self (refused e) = tt

-- The four fields, after the options.
base_lem :
    (quote : Bytes → Bytes) (chat_body : Fields) (model : Bytes) (items : List Fields)
    (stream : Bool) (body : Fields)
    → translate_options quote chat_body (base_body model items stream) ≡ got body
    → (get_field (codes "model") body ≡ some (str model))
      × (get_field (codes "stream") body ≡ some (bool stream))
      × (get_field (codes "messages") body ≡ none)
      × (get_field (codes "input") body ≡ some (array_from items))
unfolding get_field beq differs differs_second
base_lem quote chat_body model items stream body e =
    let base = base_body model items stream in
    (
      options_keep quote (codes "model") chat_body base body
          (IsOther-of (codes "model") refl refl refl) e,
      options_keep quote (codes "stream") chat_body base body
          (IsOther-of (codes "stream") refl refl refl) e,
      options_keep quote (codes "messages") chat_body base body
          (IsOther-of (codes "messages") refl refl refl) e,
      options_keep quote (codes "input") chat_body base body
          (IsOther-of (codes "input") refl refl refl) e,
    )

abbrev IsResult : Fields → Fields × ChatInfo → Type 0
IsResult chat_body (body, info) = IsRequest chat_body body info

body-IsResult :
    (quote : Bytes → Bytes) (chat_body : Fields)
    → Gives (IsResult chat_body) (translate_chat_completions_body quote chat_body)
unfolding translate_chat_completions_body
body-IsResult quote chat_body =
    let model = string_field chat_body (codes "model") in
    Gives-if (IsResult chat_body) (beq model [])
      (chat_error (codes "model") (codes "model is required")) _ (λ e. tt)
      λ named.
        Gives-if (IsResult chat_body) (not (asks_for_one (numeric_field chat_body (codes "n"))))
          (chat_error (codes "n")
            (codes "n must be 1; the Codex Responses backend returns one choice"))
          _ (λ e. tt)
          λ one.
            Gives-chain (Asks (get_field (codes "stream") chat_body)) (IsResult chat_body)
              (stream_of (get_field (codes "stream") chat_body)) _
              (stream_of-Asks (get_field (codes "stream") chat_body))
              λ stream asked.
                Gives-chain (IsInput (get_field (codes "messages") chat_body)) (IsResult chat_body)
                  (input_of quote (get_field (codes "messages") chat_body)) _
                  (input_of-IsInput quote (get_field (codes "messages") chat_body))
                  λ items h.
                    Gives-chain
                      (λ b.
                        translate_options quote chat_body (base_body model items stream) ≡ got b)
                      (IsResult chat_body)
                      (translate_options quote chat_body (base_body model items stream)) _
                      (Gives-self _)
                      (λ body e.
                        result_of body stream items named asked h
                          (base_lem quote chat_body model items stream body e))
  where
    result_of :
        (body : Fields) (stream : Bool) (items : List Fields)
        → beq (string_field chat_body (codes "model")) [] ≡ false
        → Asks (get_field (codes "stream") chat_body) stream
        → IsInput (get_field (codes "messages") chat_body) items
        → (get_field (codes "model") body ≡ some (str (string_field chat_body (codes "model"))))
          × (get_field (codes "stream") body ≡ some (bool stream))
          × (get_field (codes "messages") body ≡ none)
          × (get_field (codes "input") body ≡ some (array_from items))
        → IsRequest chat_body body
            (record { stream = stream; include_usage = include_usage_of chat_body })
    result_of body stream items named asked h (m, s, g, i) = record {
      model_named = ne_of_beq _ named;
      model_kept = m;
      streamed = s;
      as_asked = asked;
      messages_gone = g;
      input = (h.0, items, h.1, i, h.2, h.3, h.4);
    }

-- An accepted chat names a model and has messages. The body that it is translated to has the model
-- and the streaming that the client asked for (none if it did not say), no messages, and an input of at least one item for
-- each message: developers' and users' messages (never a system's), assistants' messages with
-- content, calls with an id and a name, and outputs with the id of a call; images and files stand
-- in users' messages only.
pub translate_chat_completions_body-IsRequest :
    (quote : Bytes → Bytes) (chat_body body : Fields) (info : ChatInfo)
    → translate_chat_completions_body quote chat_body ≡ got (body, info)
    → IsRequest chat_body body info
translate_chat_completions_body-IsRequest quote chat_body body info e =
    of_Gives (IsResult chat_body) (translate_chat_completions_body quote chat_body) (body, info)
      (body-IsResult quote chat_body) e
