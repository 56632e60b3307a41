-- ===== src/Chat/Tests.antt =====
-- chat_completions.go on concrete inputs: a stream with text and a call, one that is cut off, and
-- the theorems at these inputs.
use codex_auth_broker.Chat.Stream.Protocol.{IsCompletion, Phase, Transcript, closed}
use codex_auth_broker.Sse.{
  feed, feed_from, finish, flush_event, flush_line, flush_text, read_from, read_sse, trim_blank,
  trim_cr,
}
use codex_auth_broker.Chat.Stream.Methods.{
  add_tool, emit_items, ensure_role, ensure_tool, fail, finish_response, send_arguments,
  write_choice, write_end, write_frame, write_usage,
}
use codex_auth_broker.Usage.{
  extract_service_tier, extract_token_usage, has_any, numeric_field, object_field,
}
use codex_auth_broker.Body.{get_field, string_field, value_or}
use codex_auth_broker.Models.{trim_prefix}
use codex_auth_broker.Redact.{redact_token_like_text}
use codex_auth_broker.Chat.Stream.Complete.{
  copy_chat_completions_stream_ends, copy_chat_completions_stream_error_IsLoggable,
  copy_chat_completions_stream_speaks, streamed,
}
use codex_auth_broker.Chat.Stream.Events.{
  arguments_step, consume, copy_chat_completions_stream, copy_end, copy_event, event_kind,
  event_step, item_added_step, item_done_step, no_terminal, start_translator, data_step,
}
use codex_auth_broker.Chat.Stream.{
  Delta, Frame, Identity, Step, array_field, call, call_arguments, capture_identity,
  capture_response, chat_stream_tool_key, choice, chunk, content, done, failure, find_tool, nothing,
  role, set_emitted, settle, text,
}
use codex_auth_broker.Chat.{
  Moment, chat_completion_created, chat_completion_id, chat_finish_reason, chat_payload_string,
}
use codex_auth_broker.Relay.Loggable.{IsLoggable}
use codex_auth_broker.Prelude.Json.{Fields, Float64, end, field, obj, str}
use codex_auth_broker.Prelude.{
  Bool, List, Option, [], false, if◌then◌else◌, none, refl, some, true, ℕ, ◌∷◌, ◌≡◌,
}
use codex_auth_broker.Prelude.Int.{pos}
use codex_auth_broker.Prelude.Text.{
  Bytes, beq, codes, cut_prefix, is_space, lower_byte, to_lower, trim_left, trim_space,
}

abbrev at_seven : ℕ → Moment
at_seven n = record { seconds = pos 7; nanos_36 = codes "zz" }

abbrev no_print : Float64 → Bytes
no_print f = []

abbrev all_delivered : ℕ → Bool
all_delivered n = true

abbrev typed : Bytes → Fields → Fields
typed type rest = field (codes "type") (str type) rest

abbrev response : Fields
response =
    field (codes "id") (str (codes "resp_1")) (field (codes "model") (str (codes "gpt-6")) end)

-- Each event is written as one letter.
unfoldable parse : Bytes → Option Fields
parse bytes =
    if beq bytes (codes "c")
    then some (typed (codes "response.created") (field (codes "response") (obj response) end))
    else if beq bytes (codes "t")
    then some
        (typed (codes "response.output_text.delta") (field (codes "delta") (str (codes "hi")) end))
    else if beq bytes (codes "a")
    then some (
        typed (codes "response.function_call_arguments.delta") (
          field (codes "item_id") (str (codes "fc"))
            (field (codes "delta") (str (codes "{}")) end)))
    else if beq bytes (codes "d")
    then some (typed (codes "response.completed") (field (codes "response") (obj response) end))
    else none

abbrev whole_stream : List Bytes
whole_stream =
    codes "data: c"
    ∷ (b'\n' ∷ b'\n' ∷ [])
    ∷ codes "data: t"
    ∷ (b'\n' ∷ b'\n' ∷ [])
    ∷ codes "data: a"
    ∷ (b'\n' ∷ b'\n' ∷ [])
    ∷ codes "data: d"
    ∷ (b'\n' ∷ b'\n' ∷ [])
    ∷ []

abbrev cut_stream : List Bytes
cut_stream = codes "data: c" ∷ (b'\n' ∷ b'\n' ∷ []) ∷ []

abbrev whole : Step
whole =
    streamed all_delivered no_print parse at_seven 100 whole_stream true (codes "m") false (pos 7)

abbrev cut : Step
cut = streamed all_delivered no_print parse at_seven 100 cut_stream true (codes "m") false (pos 7)

abbrev who : Identity
who = record { id = codes "chatcmpl-1"; created = pos 7; model = codes "gpt-6" }

abbrev says_delta : Delta → Frame
says_delta d = chunk who [] (choice d none false)

whole_stream_frames :
    whole.0.sent
    ≡ says_delta role
      ∷ says_delta (content text (codes "hi"))
      ∷ says_delta (call 0 (codes "fc") [] [])
      ∷ says_delta (call_arguments 0 (codes "{}"))
      ∷ chunk who [] (choice nothing (some (codes "tool_calls")) false)
      ∷ done
      ∷ []
unfolding copy_chat_completions_stream copy_end read_sse read_from feed feed_from flush_line
    flush_text trim_cr cut_prefix trim_blank flush_event codex_auth_broker.Sse.finish copy_event
    data_step trim_space trim_left is_space beq parse consume event_kind event_step string_field
    get_field object_field capture_response capture_identity chat_completion_id
    chat_completion_created trim_prefix numeric_field extract_token_usage extract_service_tier
    to_lower lower_byte has_any settle ensure_role write_choice write_frame arguments_step find_tool
    chat_stream_tool_key chat_payload_string ensure_tool add_tool send_arguments set_emitted
    codex_auth_broker.Chat.Stream.Methods.finish finish_response emit_items array_field
    chat_finish_reason write_end write_usage fail start_translator value_or item_added_step
    item_done_step
whole_stream_frames = refl

cut_stream_frames :
    cut.0.sent ≡ says_delta role ∷ failure (redact_token_like_text no_terminal) ∷ done ∷ []
unfolding copy_chat_completions_stream copy_end read_sse read_from feed feed_from flush_line
    flush_text trim_cr cut_prefix trim_blank flush_event codex_auth_broker.Sse.finish copy_event
    data_step trim_space trim_left is_space beq parse consume event_kind event_step string_field
    get_field object_field capture_response capture_identity chat_completion_id
    chat_completion_created trim_prefix numeric_field extract_token_usage extract_service_tier
    to_lower lower_byte has_any settle ensure_role write_choice write_frame arguments_step find_tool
    chat_stream_tool_key chat_payload_string ensure_tool add_tool send_arguments set_emitted
    codex_auth_broker.Chat.Stream.Methods.finish finish_response emit_items array_field
    chat_finish_reason write_end write_usage fail start_translator value_or item_added_step
    item_done_step
cut_stream_frames = refl

copy_chat_completions_stream_speaks_example :
    (p : Phase) × Transcript whole.0.sent p
    × (whole.1 ≡ none → (p ≡ closed) × IsCompletion whole.0.sent)
copy_chat_completions_stream_speaks_example =
    copy_chat_completions_stream_speaks all_delivered no_print parse at_seven 100 whole_stream true
      (codes "m") false (pos 7)

copy_chat_completions_stream_ends_example : Transcript cut.0.sent closed
copy_chat_completions_stream_ends_example =
    copy_chat_completions_stream_ends all_delivered no_print parse at_seven 100 cut_stream true
      (codes "m") false (pos 7) (λ n. refl)

cut_error : cut.1 ≡ some no_terminal
unfolding copy_chat_completions_stream copy_end read_sse read_from feed feed_from flush_line
    flush_text trim_cr cut_prefix trim_blank flush_event codex_auth_broker.Sse.finish copy_event
    data_step trim_space trim_left is_space beq parse consume event_kind event_step string_field
    get_field object_field capture_response capture_identity chat_completion_id
    chat_completion_created trim_prefix numeric_field extract_token_usage extract_service_tier
    to_lower lower_byte has_any settle ensure_role write_choice write_frame arguments_step find_tool
    chat_stream_tool_key chat_payload_string ensure_tool add_tool send_arguments set_emitted
    codex_auth_broker.Chat.Stream.Methods.finish finish_response emit_items array_field
    chat_finish_reason write_end write_usage fail start_translator value_or item_added_step
    item_done_step
cut_error = refl

copy_chat_completions_stream_error_IsLoggable_example : IsLoggable no_terminal
copy_chat_completions_stream_error_IsLoggable_example =
    copy_chat_completions_stream_error_IsLoggable all_delivered no_print parse at_seven 100
      cut_stream true (codes "m") false (pos 7) no_terminal cut_error
