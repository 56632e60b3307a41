-- ===== src/Chat/Stream/Refines.antt =====
-- chat_completions.go, `consume`: every event goes on in the protocol of chunks, or ends it.
use codex_auth_broker.Chat.Stream.Fallback.{
  capture_response-Runs, content-Goes, mark_seen-IsOpen, message-Goes,
}
use codex_auth_broker.Chat.Stream.Events.{
  EventKind, ItemKind, arguments_delta, arguments_step, capture_some, completed, consume,
  content_delta, created, error, error_body, error_message, error_summary, event_kind, event_step,
  failed, function_call, item_added, item_added_step, item_done, item_done_step, item_kind, item_of,
  message, no_terminal, other, other_item, output_index, data_step,
}
use codex_auth_broker.Relay.{is_attribute_char, safe_error_attributes}
use codex_auth_broker.Relay.Loggable.{
  IsLoggable, every-append, is_log_char, safe_error_attributes-IsBrief,
}
use codex_auth_broker.Chat.Stream.Writes.{
  Goes, Goes-else, Goes-if, Goes-on_success, IsOpen, IsOver, Runs,
}
use codex_auth_broker.Chat.Stream.Calls.{
  ensure_role-Goes, ensure_tool-Goes, finish_call-Goes, found-Goes,
}
use codex_auth_broker.Chat.Stream.Ending.{fail-Goes, finish-Goes}
use codex_auth_broker.Chat.Stream.{
  ContentKey, Step, Translator, chat_stream_tool_key, find_tool, mark_seen,
}
use codex_auth_broker.Chat.Stream.Methods.{ensure_role, ensure_tool, fail_both}
use codex_auth_broker.Chat.{Moment, chat_payload_string, string_field}
use codex_auth_broker.Usage.{object_field}
use codex_auth_broker.Redact.{elem, every}
use codex_auth_broker.Prelude.Json.{Fields, Float64}
use codex_auth_broker.Prelude.{
  Bool, Bool-cases, Option, [], arith, false, if◌then◌else◌, inl, inr, length, length-append, none,
  refl, some, true, ℕ, ◌++◌, ◌∷◌, ◌≡◌, ◌≢◌, ◌≤◌, ◌⊎◌,
}
use codex_auth_broker.Prelude.Int.{ℤ}
use codex_auth_broker.Prelude.Text.{Bytes, beq, codes, is_some}

-- The translator runs on, or the stream is over.
abbrev pub Ran : Translator → Type 0
Ran t = Runs t ⊎ IsOver t

capture_some-Runs :
    (now : Moment) (o : Option Fields) (t : Translator) → Runs t → Runs (capture_some now o t)
capture_some-Runs now none t h = h
capture_some-Runs now (some response) t h = capture_response-Runs now response t h

Runs-choice : (b : Bool) (t u : Translator) → Runs t → Runs u → Runs (if b then t else u)
Runs-choice true t u ht hu = ht
Runs-choice false t u ht hu = hu

error_summary-IsLoggable :
    (print : Float64 → Bytes) (event : Fields) → IsLoggable (error_summary print event)
unfolding error_summary
error_summary-IsLoggable print event =
    summary_of (safe_error_attributes print (error_body event))
      (safe_error_attributes-IsBrief print (error_body event))
  where
    summary_of :
        (attributes : Bytes)
        → (every is_log_char attributes ≡ true) × (length attributes ≤ 139)
        → IsLoggable (
            if beq attributes []
            then codes "upstream streaming error"
            else codes "upstream streaming error (" ++ (attributes ++ codes ")"))
    summary_of attributes h = elim (Bool-cases (beq attributes [])) [
      | inl e ↦ rw e (unfold every is_attribute_char elem in (refl, omega arith))
      | inr e ↦ rw e (
        unfold every is_attribute_char elem in
            every-append is_log_char attributes (codes ")") h.0 refl,
        omega (arith, h.1, length-append attributes (codes ")")),
      )
    ]

marked-IsOpen :
    (b : Bool) (key : ContentKey) (t : Translator)
    → IsOpen t
    → IsOpen (if b then t else mark_seen key t)
marked-IsOpen true key t h = h
marked-IsOpen false key t h = mark_seen-IsOpen key t h

-- A tool is known only once the stream is open.
known-IsOpen :
    (key : Bytes) (t : Translator) → Runs t → is_some (find_tool key t.tools) ≡ true → IsOpen t
unfolding find_tool
known-IsOpen key t (inl h) known = absurd (false_ne (rw h.no_tools at known))
  where
    false_ne : false ≢ true
    false_ne e = cc e
known-IsOpen key t (inr h) known = h

abbrev invalid : Bytes
invalid = codes "upstream stream contained an invalid JSON event"

module _ (delivers : ℕ → Bool) (print : Float64 → Bytes) where
  opened-Ran : (s : Step) → Goes delivers IsOpen s → Goes delivers Ran s
  opened-Ran (t, none) h = inl (inr h)
  opened-Ran (t, some e) h = h

  running-Ran : (s : Step) → Goes delivers Runs s → Goes delivers Ran s
  running-Ran (t, none) h = inl h
  running-Ran (t, some e) h = h

  over-Ran : (s : Step) → Goes delivers IsOver s → Goes delivers Ran s
  over-Ran (t, none) h = inr h
  over-Ran (t, some e) h = h

  item_added-Goes :
      (now : Moment) (kind : ItemKind) (item : Fields) (i : ℤ) (t : Translator)
      → Runs t
      → Goes delivers Ran (item_added_step delivers print now kind item i t)
  unfolding item_added_step
  item_added-Goes now function_call item i t h =
      opened-Ran _ (ensure_tool-Goes delivers now item i t h)
  item_added-Goes now message item i t h = opened-Ran _ (ensure_role-Goes delivers now t h)
  item_added-Goes now other_item item i t h = inl h

  item_done-Goes :
      (now : Moment) (kind : ItemKind) (item : Fields) (i : ℤ) (t : Translator)
      → Runs t
      → Goes delivers Ran (item_done_step delivers print now kind item i t)
  unfolding item_done_step
  item_done-Goes now message item i t h = running-Ran _ (message-Goes delivers now item i t h)
  item_done-Goes now function_call item i t h =
      opened-Ran _ (finish_call-Goes delivers now item i t h)
  item_done-Goes now other_item item i t h = inl h

  -- An item, if the event has one.
  item-Goes :
      (step : Fields → Step) (t : Translator) (o : Option Fields)
      → Runs t
      → ((item : Fields) → Goes delivers Ran (step item))
      → Goes delivers Ran (elim o [ none ↦ (t, none) | some item ↦ step item ])
  item-Goes step t none h goes = inl h
  item-Goes step t (some item) h goes = goes item

  arguments-Goes :
      (now : Moment) (event : Fields) (t : Translator)
      → Runs t
      → Goes delivers Ran (arguments_step delivers print now event t)
  unfolding arguments_step
  arguments-Goes now event t h =
      let index = output_index event in
      let key = chat_stream_tool_key (string_field event (codes "item_id")) index in
      let item = item_of delivers print event in
      Goes-on_success delivers IsOpen Ran
        (if is_some (find_tool key t.tools)
          then (t, none)
          else ensure_tool delivers now item index t)
        _ (opened key item index (Bool-cases (is_some (find_tool key t.tools))))
        (λ t1 h1.
          opened-Ran _
            (found-Goes delivers now key (chat_payload_string event (codes "delta")) t1 h1))
    where
      opened :
          (key : Bytes) (item : Fields) (index : ℤ)
          → (is_some (find_tool key t.tools) ≡ true) ⊎ (is_some (find_tool key t.tools) ≡ false)
          → Goes delivers IsOpen (
              if is_some (find_tool key t.tools)
              then (t, none)
              else ensure_tool delivers now item index t)
      opened key item index (inl known) = rw known (known-IsOpen key t h known)
      opened key item index (inr unknown) =
          Goes-else delivers IsOpen (is_some (find_tool key t.tools)) (t, none) _ unknown
            (ensure_tool-Goes delivers now item index t h)

  event-Goes :
      (now : Moment) (kind : EventKind) (event : Fields) (t : Translator)
      → Runs t
      → Goes delivers Ran (event_step delivers print now kind event t)
  unfolding event_step
  event-Goes now created event t h = opened-Ran _ (
      ensure_role-Goes delivers now _
        (capture_some-Runs now (object_field event (codes "response")) t h))
  event-Goes now item_added event t h = item-Goes _ t (object_field event (codes "item")) h (λ item.
      item_added-Goes now (item_kind (string_field item (codes "type"))) item (output_index event) t
        h)
  event-Goes now item_done event t h = item-Goes _ t (object_field event (codes "item")) h (λ item.
      item_done-Goes now (item_kind (string_field item (codes "type"))) item (output_index event) t
        h)
  event-Goes now (content_delta kind) event t h =
      Goes-on_success delivers IsOpen Ran (ensure_role delivers now t) _
        (ensure_role-Goes delivers now t h)
        (λ t1 h1.
          let delta = chat_payload_string event (codes "delta") in
          opened-Ran _
            (content-Goes delivers now kind delta _ (marked-IsOpen (beq delta []) _ t1 h1)))
  event-Goes now arguments_delta event t h = arguments-Goes now event t h
  event-Goes now completed event t h =
      over-Ran _ (finish-Goes delivers now (object_field event (codes "response")) t h)
  event-Goes now failed event t h =
      fail-Goes delivers Ran (codes "upstream response failed") (codes "upstream response failed") _
        (capture_some-Runs now (object_field event (codes "response")) t h)
        (unfold every is_attribute_char elem in (refl, omega arith))
  event-Goes now error event t h =
      fail-Goes delivers Ran (error_message event) (error_summary print event) t h
        (error_summary-IsLoggable print event)
  event-Goes now other event t h = inl h

  pub data-Goes :
      (parse : Bytes → Option Fields) (now : Moment) (bytes : Bytes) (t : Translator)
      → Runs t
      → Goes delivers Ran (data_step delivers print parse now bytes t)
  unfolding data_step consume
  data-Goes parse now [] t h = inl h
  data-Goes parse now (b ∷ rest) t h =
      Goes-if delivers Ran (beq (b ∷ rest) (codes "[DONE]")) (fail_both delivers no_terminal t) _
        (fail-Goes delivers Ran no_terminal no_terminal t h
          (unfold every is_attribute_char elem in (refl, omega arith)))
        (parsed (parse (b ∷ rest)))
    where
      parsed :
          (o : Option Fields)
          → Goes delivers Ran (elim o [
            | none ↦ fail_both delivers invalid t
            | some event ↦ consume delivers print now event t
          ])
      parsed none =
          fail-Goes delivers Ran invalid invalid t h
            (unfold every is_attribute_char elem in (refl, omega arith))
      parsed (some event) =
          event-Goes now (event_kind (string_field event (codes "type"))) event t h
