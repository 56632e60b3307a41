-- ===== src/Chat/Stream.antt =====
-- chat_completions.go, `chatStreamTranslator`: upstream's events as the chunks of a chat completion.
-- A method returns the translator and its error. What is written is a list of frames, the JSON
-- objects of the source as data; `delivers` tells whether the n-th write succeeds.
pub mod Methods
pub mod Events
pub mod Protocol
mod Writes
mod Calls
mod Fallback
mod Ending
pub mod Refines
pub mod Complete
use codex_auth_broker.Chat.{
  Moment, UsageObject, chat_completion_created, chat_completion_id, chat_payload_string, itoa,
}
use codex_auth_broker.Usage.{
  TokenUsage, extract_service_tier, extract_token_usage, has_any, numeric_field,
}
use codex_auth_broker.Body.{get_field, string_field}
use codex_auth_broker.Prelude.Json.{Fields, Items, Value, arr, nil, obj, to_int_64}
use codex_auth_broker.Prelude.{
  Bool, List, Option, [], false, if◌then◌else◌, none, not, some, true, ℕ, ◌&&◌, ◌++◌, ◌||◌, ◌∷◌,
}
use codex_auth_broker.Prelude.Int.{leb_ℤ, pos, ℤ}
use codex_auth_broker.Prelude.Text.{Bytes, beq, codes}

pub data ContentKind : Type 0 where
  text refusal : ContentKind

-- What a chunk adds: the objects that `writeChoice` is called with.
pub data Delta : Type 0 where
  role : Delta
  content : ContentKind → Bytes → Delta
  call : (index : ℕ) (id name arguments : Bytes) → Delta
  call_arguments : (index : ℕ) (arguments : Bytes) → Delta
  nothing : Delta

-- A choice with its finish reason and whether it has a null usage, or no choice and the usage.
pub data Payload : Type 0 where
  choice : Delta → Option Bytes → Bool → Payload
  usage_only : UsageObject → Payload

pub record Identity : Type 0 where
  pub id : Bytes
  pub created : ℤ
  pub model : Bytes

pub data Frame : Type 0 where
  chunk : Identity → (service_tier : Bytes) → Payload → Frame
  failure : Bytes → Frame
  done : Frame

pub record StreamTool : Type 0 where
  pub key : Bytes
  pub index : ℕ
  pub arguments_emitted : Bool

pub record ContentKey : Type 0 where
  pub output_index : ℤ
  pub content_index : ℤ
  pub kind : ContentKind

pub record Translator : Type 0 where
  pub fallback : Bytes
  pub include_usage : Bool
  pub id : Bytes
  pub created : ℤ
  pub model : Bytes
  pub service_tier : Bytes
  pub role_sent : Bool
  pub tool_seen : Bool
  pub terminal : Bool
  pub usage : TokenUsage
  pub tools : List StreamTool
  pub content_seen : List ContentKey
  pub sent : List Frame

abbrev pub Step : Type 0
Step = Translator × Option Bytes

abbrev pub on_success : Step → (Translator → Step) → Step
on_success (t, none) next = next t
on_success (t, some e) next = (t, some e)

abbrev pub int_field : Fields → Bytes → ℤ
int_field m key = elim (numeric_field m key) [ some f ↦ to_int_64 f | none ↦ pos 0 ]

unfoldable pub chat_stream_tool_key : Bytes → ℤ → Bytes
chat_stream_tool_key item_id output_index =
    if not (beq item_id []) then item_id else codes "output:" ++ itoa output_index

-- t.tools[key]
unfoldable pub find_tool : Bytes → List StreamTool → Option StreamTool
find_tool key [] = none
find_tool key (tool ∷ tools) =
    let rest = find_tool key tools in if beq tool.key key then some tool else rest

-- `tool.argumentsEmitted = true`
unfoldable pub set_emitted : Bytes → List StreamTool → List StreamTool
set_emitted key [] = []
set_emitted key (tool ∷ tools) =
    let rest = set_emitted key tools in
    if beq tool.key key then record tool { arguments_emitted = true } ∷ rest else tool ∷ rest

abbrev pub emitted : Bytes → Translator → Translator
emitted key t = record t { tools = set_emitted key t.tools }

abbrev same_kind : ContentKind → ContentKind → Bool
same_kind text text = true
same_kind refusal refusal = true
same_kind _ _ = false

abbrev same_key : ContentKey → ContentKey → Bool
same_key a b =
    leb_ℤ a.output_index b.output_index
    && leb_ℤ b.output_index a.output_index
    && leb_ℤ a.content_index b.content_index
    && leb_ℤ b.content_index a.content_index
    && same_kind a.kind b.kind

-- t.contentSeen[key]
unfoldable pub seen : ContentKey → List ContentKey → Bool
seen key [] = false
seen key (k ∷ ks) = same_key key k || seen key ks

abbrev pub mark_seen : ContentKey → Translator → Translator
mark_seen key t = record t { content_seen = key ∷ t.content_seen }

-- The first chunk has the identity that was told before it, and so have all others.
unfoldable pub capture_identity : Moment → Fields → Translator → Translator
capture_identity now response t =
    let upstream_id = string_field response (codes "id") in
    let model = string_field response (codes "model") in
    if t.role_sent then t else record t {
      id = if beq upstream_id [] then t.id else chat_completion_id now upstream_id;
      model = if beq model [] then t.model else model;
      created = chat_completion_created now response;
    }

abbrev pub capture_usage : TokenUsage → Translator → Translator
capture_usage usage t = if has_any usage then record t { usage = usage } else t

abbrev pub capture_tier : Bytes → Translator → Translator
capture_tier tier t = if beq tier [] then t else record t { service_tier = tier }

unfoldable pub capture_response : Moment → Fields → Translator → Translator
capture_response now response t =
    capture_tier (extract_service_tier response)
      (capture_usage (extract_token_usage response) (capture_identity now response t))

-- What `baseChunk` sets.
unfoldable pub settle : Moment → Translator → Translator
settle now t = record t {
  id = if beq t.id [] then chat_completion_id now [] else t.id;
  model = if beq t.model [] then t.fallback else t.model;
}

abbrev pub identity : Translator → Identity
identity t = record { id = t.id; created = t.created; model = t.model }

abbrev pub write_failed : Bytes
write_failed = codes "write downstream stream failed"

-- The part of a message's content that is sent if no delta of it was: its kind and text.
unfoldable pub part_of : Value → Option (ContentKind × Bytes)
part_of (obj part) =
    let type = string_field part (codes "type") in
    if beq type (codes "output_text") || beq type (codes "text")
    then some (text, chat_payload_string part (codes "text"))
    else if beq type (codes "refusal")
    then some (refusal, chat_payload_string part (codes "refusal"))
    else none
part_of _ = none

-- `m[key].([]any)`, or none.
unfoldable pub array_field : Fields → Bytes → Items
array_field m key = elim (get_field key m) [ some (arr xs) ↦ xs | _ ↦ nil ]
