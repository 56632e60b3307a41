-- ===== src/Chat/Stream/Methods.antt =====
-- chat_completions.go, the methods of `chatStreamTranslator` that write: each returns the
-- translator and its error.
use codex_auth_broker.Chat.{
  Moment, chat_finish_reason, chat_payload_string, chat_usage_object, has_failed,
}
use codex_auth_broker.Usage.{has_any}
use codex_auth_broker.Body.{string_field, value_or}
use codex_auth_broker.Redact.{redact_token_like_text}
use codex_auth_broker.Prelude.Json.{Fields, Items, Value, cons, nil, obj}
use codex_auth_broker.Prelude.{
  Bool, Option, [], if◌then◌else◌, length, none, not, some, suc, true, ℕ, ◌&&◌, ◌++◌, ◌∷◌,
}
use codex_auth_broker.Prelude.Int.{pos, ℤ}
use codex_auth_broker.Prelude.Text.{Bytes, beq, codes}
use codex_auth_broker.Chat.Stream.{
  ContentKey, ContentKind, Delta, Frame, Step, StreamTool, Translator, array_field, call,
  call_arguments, capture_response, chat_stream_tool_key, choice, chunk, content, done, emitted,
  failure, find_tool, identity, mark_seen, nothing, on_success, part_of, role, seen, settle,
  usage_only, write_failed,
}

module _ (delivers : ℕ → Bool) where
  unfoldable pub write_frame : Frame → Translator → Step
  write_frame f t =
      if delivers (length t.sent)
      then (record t { sent = t.sent ++ (f ∷ []) }, none)
      else (t, some write_failed)

  unfoldable pub write_choice : Moment → Delta → Option Bytes → Translator → Step
  write_choice now delta reason t =
      let t' = settle now t in
      write_frame (chunk (identity t') t'.service_tier (choice delta reason t'.include_usage)) t'

  unfoldable pub ensure_role : Moment → Translator → Step
  ensure_role now t =
      if t.role_sent then (t, none) else write_choice now role none (record t { role_sent = true })

  -- The tool under the key, or a new one with the next index.
  unfoldable pub add_tool : Moment → Bytes → Fields → Option StreamTool → Translator → Step
  add_tool now key item (some existing) t = (t, none)
  add_tool now key item none t =
      let arguments = chat_payload_string item (codes "arguments") in
      let tool : StreamTool = record {
        key = key;
        index = length t.tools;
        arguments_emitted = not (beq arguments []);
      } in
      let call_id =
        value_or (string_field item (codes "call_id")) (string_field item (codes "id")) in
      write_choice now (call (length t.tools) call_id (string_field item (codes "name")) arguments)
        none (record t { tools = t.tools ++ (tool ∷ []); tool_seen = true })

  abbrev pub key_of : Fields → ℤ → Bytes
  key_of item output_index = chat_stream_tool_key (string_field item (codes "id")) output_index

  unfoldable pub ensure_tool : Moment → Fields → ℤ → Translator → Step
  ensure_tool now item output_index t =
      on_success (ensure_role now t) λ t1.
        let key = key_of item output_index in add_tool now key item (find_tool key t1.tools) t1

  -- Arguments for the tool, which is then marked; without a tool the source would fail.
  unfoldable pub send_arguments : Moment → Bytes → Bytes → Option StreamTool → Translator → Step
  send_arguments now key arguments none t = (t, none)
  send_arguments now key arguments (some tool) t =
      write_choice now (call_arguments tool.index arguments) none (emitted key t)

  -- The arguments of a finished call, if none of them was sent.
  unfoldable pub send_rest : Moment → Bytes → Bytes → Option StreamTool → Translator → Step
  send_rest now key arguments none t = (t, none)
  send_rest now key arguments (some tool) t =
      if not (beq arguments []) && not tool.arguments_emitted
      then send_arguments now key arguments (some tool) t
      else (t, none)

  -- A call as a whole: its tool, and the arguments that were not sent.
  unfoldable pub finish_call : Moment → Fields → ℤ → Translator → Step
  finish_call now item output_index t = on_success (ensure_tool now item output_index t) λ t1.
      let key = key_of item output_index in
      send_rest now key (chat_payload_string item (codes "arguments")) (find_tool key t1.tools) t1

  unfoldable pub emit_part : Moment → ℤ → ℤ → Option (ContentKind × Bytes) → Translator → Step
  emit_part now output_index content_index none t = (t, none)
  emit_part now output_index content_index (some (kind, value)) t =
      let key : ContentKey = record {
        output_index = output_index;
        content_index = content_index;
        kind = kind;
      } in
      if seen key t.content_seen
      then (t, none)
      else on_success (ensure_role now (mark_seen key t))
          (write_choice now (content kind value) none)

  unfoldable pub emit_parts : Moment → ℤ → ℕ → Items → Translator → Step
  emit_parts now output_index n nil t = (t, none)
  emit_parts now output_index n (cons v vs) t =
      on_success (emit_part now output_index (pos n) (part_of v) t)
        (emit_parts now output_index (suc n) vs)

  unfoldable pub emit_message_fallback : Moment → Fields → ℤ → Translator → Step
  emit_message_fallback now item output_index t =
      emit_parts now output_index 0 (array_field item (codes "content")) t

  unfoldable pub emit_item : Moment → ℤ → Value → Translator → Step
  emit_item now index (obj item) t =
      let type = string_field item (codes "type") in
      if beq type (codes "message")
      then emit_message_fallback now item index t
      else if beq type (codes "function_call")
      then finish_call now item index t
      else (t, none)
  emit_item now index _ t = (t, none)

  unfoldable pub emit_items : Moment → ℕ → Items → Translator → Step
  emit_items now n nil t = (t, none)
  emit_items now n (cons v vs) t =
      on_success (emit_item now (pos n) v t) (emit_items now (suc n) vs)

  -- emitResponseOutputFallback
  abbrev pub emit_output : Moment → Fields → Translator → Step
  emit_output now response t = emit_items now 0 (array_field response (codes "output")) t

  unfoldable pub fail : Bytes → Bytes → Translator → Step
  fail message summary t =
      if t.terminal
      then (t, none)
      else on_success
          (write_frame (failure (redact_token_like_text message)) (record t { terminal = true }))
          λ t1. on_success (write_frame done t1) λ t2. (t2, some summary)

  abbrev pub fail_both : Bytes → Translator → Step
  fail_both message t = fail message message t

  unfoldable pub write_usage : Moment → Translator → Step
  write_usage now t =
      let t' = settle now t in
      if t.include_usage && has_any t.usage
      then write_frame
          (chunk (identity t') t'.service_tier (usage_only (chat_usage_object t'.usage))) t'
      else (t, none)

  -- The last chunk with a choice, the usage, and the end.
  unfoldable pub write_end : Moment → Bytes → Translator → Step
  write_end now reason t =
      on_success (write_choice now nothing (some reason) t)
        λ t1. on_success (write_usage now t1) λ t2. write_frame done (record t2 { terminal = true })

  unfoldable pub finish_response : Moment → Fields → Translator → Step
  finish_response now response t =
      if has_failed response
      then fail_both (codes "upstream response failed") t
      else on_success (emit_output now response (capture_response now response t)) λ t1.
        on_success (ensure_role now t1)
          λ t2. write_end now (chat_finish_reason response t2.tool_seen) t2

  unfoldable pub finish : Moment → Option Fields → Translator → Step
  finish now none t =
      if t.terminal
      then (t, none)
      else fail_both (codes "terminal event is missing its response object") t
  finish now (some response) t = if t.terminal then (t, none) else finish_response now response t
