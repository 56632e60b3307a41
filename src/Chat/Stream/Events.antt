-- ===== src/Chat/Stream/Events.antt =====
-- chat_completions.go, `consume` and `copyChatCompletionsStream`: what each kind of upstream event
-- does, and how a stream as a whole is answered. JSON decoding, the printing of numbers and the
-- clock, read once for each event, are arguments.
use codex_auth_broker.Chat.Stream.Methods.{
  emit_message_fallback, ensure_role, ensure_tool, fail, fail_both, finish, finish_call,
  send_arguments, write_choice,
}
use codex_auth_broker.Sse.{ConsumeError, SseError, complete, read_error, read_sse, rejected}
use codex_auth_broker.Chat.{Moment, chat_payload_string}
use codex_auth_broker.Chat.Stream.{
  ContentKey, ContentKind, Step, Translator, capture_response, chat_stream_tool_key, content,
  find_tool, int_field, mark_seen, on_success, refusal, text,
}
use codex_auth_broker.Relay.{safe_error_attributes}
use codex_auth_broker.Body.{string_field, value_or}
use codex_auth_broker.Usage.{no_usage, object_field}
use codex_auth_broker.Prelude.Json.{Fields, Float64, end, field, str}
use codex_auth_broker.Prelude.{
  Bool, List, Option, [], false, if◌then◌else◌, none, not, some, suc, ℕ, ◌++◌, ◌||◌, ◌∷◌,
}
use codex_auth_broker.Prelude.Int.{ℤ}
use codex_auth_broker.Prelude.Text.{Bytes, beq, codes, is_some, trim_space}

-- The types of events that `consume` tells apart.
pub data EventKind : Type 0 where
  created item_added item_done arguments_delta completed failed error other : EventKind
  content_delta : ContentKind → EventKind

unfoldable pub event_kind : Bytes → EventKind
event_kind type =
    if beq type (codes "response.created") || beq type (codes "response.in_progress")
    then created
    else if beq type (codes "response.output_item.added")
    then item_added
    else if beq type (codes "response.output_item.done")
    then item_done
    else if beq type (codes "response.output_text.delta")
    then content_delta text
    else if beq type (codes "response.refusal.delta")
    then content_delta refusal
    else if beq type (codes "response.function_call_arguments.delta")
    then arguments_delta
    else if beq type (codes "response.completed")
        || beq type (codes "response.done")
        || beq type (codes "response.incomplete")
    then completed
    else if beq type (codes "response.failed")
    then failed
    else if beq type (codes "error")
    then error
    else other

-- Types of the items of a response.
pub data ItemKind : Type 0 where
  message function_call other_item : ItemKind

unfoldable pub item_kind : Bytes → ItemKind
item_kind type =
    if beq type (codes "function_call")
    then function_call
    else if beq type (codes "message")
    then message
    else other_item

abbrev pub output_index : Fields → ℤ
output_index event = int_field event (codes "output_index")

abbrev pub capture_some : Moment → Option Fields → Translator → Translator
capture_some now none t = t
capture_some now (some response) t = capture_response now response t

-- The message for the client, and the error's attributes for the log.
unfoldable pub error_message : Fields → Bytes
error_message event =
    let event_message = string_field event (codes "message") in
    let default = codes "upstream streaming error" in
    elim (object_field event (codes "error")) [
      | some upstream ↦ value_or (string_field upstream (codes "message")) default
      | none ↦ if beq event_message [] then default else event_message
    ]

-- The object that an error is described in.
abbrev pub error_body : Fields → Fields
error_body event = elim (object_field event (codes "error")) [ some fs ↦ fs | none ↦ event ]

unfoldable pub error_summary : (Float64 → Bytes) → Fields → Bytes
error_summary print event =
    let attributes = safe_error_attributes print (error_body event) in
    if beq attributes []
    then codes "upstream streaming error"
    else codes "upstream streaming error (" ++ (attributes ++ codes ")")

abbrev pub no_terminal : Bytes
no_terminal = codes "upstream stream ended without a terminal response event"

-- The consumer of `readSSE` with its state: the translator, `eventErr`, and how many events there
-- were so far.
pub record Copying : Type 0 where
  pub translator : Translator
  pub event_error : Option Bytes
  pub events : ℕ

abbrev pub after_event : ℕ → Step → Copying × Option ConsumeError
after_event n (t, none) = (
  record { translator = t; event_error = none; events = suc n },
  if t.terminal then some complete else none,
)
after_event n (t, some e) =
    (record { translator = t; event_error = some e; events = suc n }, some (rejected e))

module _ (delivers : ℕ → Bool) (print : Float64 → Bytes) where
  abbrev write_content : Moment → ContentKind → Fields → Translator → Step
  write_content now kind event t =
      let delta = chat_payload_string event (codes "delta") in
      let key : ContentKey = record {
        output_index = output_index event;
        content_index = int_field event (codes "content_index");
        kind = kind;
      } in
      write_choice delivers now (content kind delta) none
        (if beq delta [] then t else mark_seen key t)

  unfoldable pub item_added_step : Moment → ItemKind → Fields → ℤ → Translator → Step
  item_added_step now function_call item index t = ensure_tool delivers now item index t
  item_added_step now message item index t = ensure_role delivers now t
  item_added_step now other_item item index t = (t, none)

  unfoldable pub item_done_step : Moment → ItemKind → Fields → ℤ → Translator → Step
  item_done_step now message item index t = emit_message_fallback delivers now item index t
  item_done_step now function_call item index t = finish_call delivers now item index t
  item_done_step now other_item item index t = (t, none)

  -- The item that the first delta of an unknown call makes up.
  abbrev pub item_of : Fields → Fields
  item_of event =
      let id = str (string_field event (codes "item_id")) in
      field (codes "id") id
        (field (codes "call_id") id (field (codes "type") (str (codes "function_call")) end))

  -- Arguments of a call, which is announced first if it is not known.
  unfoldable pub arguments_step : Moment → Fields → Translator → Step
  arguments_step now event t =
      let key = chat_stream_tool_key (string_field event (codes "item_id")) (output_index event) in
      let known = is_some (find_tool key t.tools) in
      on_success
        (if known
          then (t, none)
          else ensure_tool delivers now (item_of event) (output_index event) t)
        λ t1.
          send_arguments delivers now key (chat_payload_string event (codes "delta"))
            (find_tool key t1.tools) t1

  unfoldable pub event_step : Moment → EventKind → Fields → Translator → Step
  event_step now created event t =
      ensure_role delivers now (capture_some now (object_field event (codes "response")) t)
  event_step now item_added event t = elim (object_field event (codes "item")) [
    | none ↦ (t, none)
    | some item ↦
        item_added_step now (item_kind (string_field item (codes "type"))) item (output_index event)
          t
  ]
  event_step now item_done event t = elim (object_field event (codes "item")) [
    | none ↦ (t, none)
    | some item ↦
        item_done_step now (item_kind (string_field item (codes "type"))) item (output_index event)
          t
  ]
  event_step now (content_delta kind) event t =
      on_success (ensure_role delivers now t) (write_content now kind event)
  event_step now arguments_delta event t = arguments_step now event t
  event_step now completed event t = finish delivers now (object_field event (codes "response")) t
  event_step now failed event t =
      fail_both delivers (codes "upstream response failed")
        (capture_some now (object_field event (codes "response")) t)
  event_step now error event t = fail delivers (error_message event) (error_summary print event) t
  event_step now other event t = (t, none)

  unfoldable pub consume : Moment → Fields → Translator → Step
  consume now event t = event_step now (event_kind (string_field event (codes "type"))) event t

  -- One event's data, of which blanks were trimmed.
  unfoldable pub data_step : (Bytes → Option Fields) → Moment → Bytes → Translator → Step
  data_step parse now [] t = (t, none)
  data_step parse now (b ∷ rest) t =
      if beq (b ∷ rest) (codes "[DONE]")
      then fail_both delivers no_terminal t
      else elim (parse (b ∷ rest)) [
        | none ↦ fail_both delivers (codes "upstream stream contained an invalid JSON event") t
        | some event ↦ consume now event t
      ]

  unfoldable pub copy_event :
      (Bytes → Option Fields) → (ℕ → Moment) → Copying → Bytes → Copying × Option ConsumeError
  copy_event parse clock c bytes =
      after_event c.events (data_step parse (clock c.events) (trim_space bytes) c.translator)

  -- What follows once `readSSE` has returned.
  unfoldable pub copy_end : Copying × Option SseError → Step
  copy_end (c, some e) = elim c.event_error [
    | some shown ↦ (c.translator, some (read_error e))
    | none ↦ fail_both delivers (read_error e) c.translator
  ]
  copy_end (c, none) =
      if not c.translator.terminal
      then fail_both delivers no_terminal c.translator
      else (c.translator, none)

unfoldable pub start_translator : Bytes → Bool → ℤ → Translator
start_translator fallback include_usage now = record {
  fallback = fallback;
  include_usage = include_usage;
  id = [];
  created = now;
  model = fallback;
  service_tier = [];
  role_sent = false;
  tool_seen = false;
  terminal = false;
  usage = no_usage;
  tools = [];
  content_seen = [];
  sent = [];
}

-- The stream as a whole: upstream's chunks, and whether they end by EOF.
unfoldable pub copy_chat_completions_stream :
    (delivers : ℕ → Bool) (print : Float64 → Bytes) (parse : Bytes → Option Fields)
    (clock : ℕ → Moment) (limit : ℕ) (chunks : List Bytes) (eof : Bool) (t : Translator)
    → Step
copy_chat_completions_stream delivers print parse clock limit chunks eof t =
    copy_end delivers print (
      read_sse (copy_event delivers print parse clock) limit chunks eof
        (record { translator = t; event_error = none; events = 0 }))
