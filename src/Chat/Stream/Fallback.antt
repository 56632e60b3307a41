-- ===== src/Chat/Stream/Fallback.antt =====
-- chat_completions.go, output that no delta announced: `captureResponse`, `emitMessageFallback` and
-- `emitResponseOutputFallback` write what the protocol allows.
use codex_auth_broker.Chat.Stream.Protocol.{adds}
use codex_auth_broker.Chat.Stream.Writes.{
  Goes, Goes-if, Goes-on_success, IsOpen, Runs, write_choice-Goes,
}
use codex_auth_broker.Chat.Stream.Calls.{ensure_role-Goes, finish_call-Goes}
use codex_auth_broker.Chat.Stream.{
  ContentKey, ContentKind, Step, Translator, array_field, capture_identity, capture_response,
  capture_usage, content, mark_seen, on_success, part_of, seen, settle, extract_token_usage,
  extract_service_tier, has_any,
}
use codex_auth_broker.Chat.Stream.Methods.{
  emit_item, emit_items, emit_message_fallback, emit_part, emit_parts, ensure_role, finish_call,
  write_choice,
}
use codex_auth_broker.Chat.{Moment, string_field, TokenUsage}
use codex_auth_broker.Prelude.Json.{Fields, Items, Value, arr, bool, cons, nil, null, num, obj, str}
use codex_auth_broker.Prelude.{
  Bool, Option, [], false, if◌then◌else◌, inl, inr, length, none, some, suc, true, ℕ,
}
use codex_auth_broker.Prelude.Int.{pos, ℤ}
use codex_auth_broker.Prelude.Text.{Bytes, beq, codes}

pub mark_seen-IsOpen : (key : ContentKey) (t : Translator) → IsOpen t → IsOpen (mark_seen key t)
unfolding settle
mark_seen-IsOpen key t h = record {
  running = h.running;
  is_open = h.is_open;
  settled = h.settled;
  numbered = h.numbered;
  noticed = h.noticed;
  spoken = h.spoken;
}

mark_seen-Runs : (key : ContentKey) (t : Translator) → Runs t → Runs (mark_seen key t)
mark_seen-Runs key t (inl h) = inl (record {
  running = h.running;
  unopened = h.unopened;
  unsent = h.unsent;
  no_tools = h.no_tools;
  none_seen = h.none_seen;
})
mark_seen-Runs key t (inr h) = inr (mark_seen-IsOpen key t h)

Runs-if : (b : Bool) (t u : Translator) → Runs t → Runs u → Runs (if b then t else u)
Runs-if true t u ht hu = ht
Runs-if false t u ht hu = hu

capture_usage-Runs :
    (usage : TokenUsage) (t : Translator) → Runs t → Runs (record t { usage = usage })
unfolding settle
capture_usage-Runs usage t (inl h) = inl (record {
  running = h.running;
  unopened = h.unopened;
  unsent = h.unsent;
  no_tools = h.no_tools;
  none_seen = h.none_seen;
})
capture_usage-Runs usage t (inr h) = inr (record {
  running = h.running;
  is_open = h.is_open;
  settled = h.settled;
  numbered = h.numbered;
  noticed = h.noticed;
  spoken = h.spoken;
})

capture_tier-Runs :
    (tier : Bytes) (t : Translator) → Runs t → Runs (record t { service_tier = tier })
unfolding settle
capture_tier-Runs tier t (inl h) = inl (record {
  running = h.running;
  unopened = h.unopened;
  unsent = h.unsent;
  no_tools = h.no_tools;
  none_seen = h.none_seen;
})
capture_tier-Runs tier t (inr h) = inr (record {
  running = h.running;
  is_open = h.is_open;
  settled = h.settled;
  numbered = h.numbered;
  noticed = h.noticed;
  spoken = h.spoken;
})

capture_identity-Runs :
    (now : Moment) (response : Fields) (t : Translator)
    → Runs t
    → Runs (capture_identity now response t)
unfolding capture_identity
capture_identity-Runs now response t (inl h) = Runs-if t.role_sent t _ (inl h) (
    inl (record {
      running = h.running;
      unopened = h.unopened;
      unsent = h.unsent;
      no_tools = h.no_tools;
      none_seen = h.none_seen;
    }))
capture_identity-Runs now response t (inr h) = simp h.is_open (inr h)

-- What a response tells is taken over without a change of what was said.
pub capture_response-Runs :
    (now : Moment) (response : Fields) (t : Translator)
    → Runs t
    → Runs (capture_response now response t)
unfolding capture_response
capture_response-Runs now response t h =
    let told = capture_identity now response t in
    let usage = extract_token_usage response in
    let tier = extract_service_tier response in
    let used =
      Runs-if (has_any usage) (record told { usage = usage }) told
        (capture_usage-Runs usage told (capture_identity-Runs now response t h))
        (capture_identity-Runs now response t h) in
    Runs-if (beq tier []) (capture_usage usage told)
      (record (capture_usage usage told) { service_tier = tier }) used
      (capture_tier-Runs tier (capture_usage usage told) used)

-- A piece of text in an open stream.
pub content-Goes :
    (delivers : ℕ → Bool) (now : Moment) (kind : ContentKind) (s : Bytes) (t : Translator)
    → IsOpen t
    → Goes delivers IsOpen (write_choice delivers now (content kind s) none t)
content-Goes delivers now kind s t h =
    write_choice-Goes delivers now (content kind s) (length t.tools) t h
      (λ i tier u. adds i (length t.tools) tier kind s u)

module _ (delivers : ℕ → Bool) where
  abbrev GoesOn : Step → Type 0
  GoesOn s = Goes delivers Runs s

  open-GoesOn : (s : Step) → Goes delivers IsOpen s → GoesOn s
  open-GoesOn (t, none) h = inr h
  open-GoesOn (t, some e) h = h

  emit_part-Goes :
      (now : Moment) (out at : ℤ) (part : Option (ContentKind × Bytes)) (t : Translator)
      → Runs t
      → GoesOn (emit_part delivers now out at part t)
  unfolding emit_part
  emit_part-Goes now out at none t h = h
  emit_part-Goes now out at (some (kind, value)) t h =
      let key : ContentKey = record { output_index = out; content_index = at; kind = kind } in
      Goes-if delivers Runs (seen key t.content_seen) (t, none)
        (on_success (ensure_role delivers now (mark_seen key t))
          (write_choice delivers now (content kind value) none))
        h
        (Goes-on_success delivers IsOpen Runs (ensure_role delivers now (mark_seen key t)) _
          (ensure_role-Goes delivers now (mark_seen key t) (mark_seen-Runs key t h))
          (λ t1 h1. open-GoesOn _ (content-Goes delivers now kind value t1 h1)))

  emit_parts-Goes :
      (now : Moment) (out : ℤ) (n : ℕ) (parts : Items) (t : Translator)
      → Runs t
      → GoesOn (emit_parts delivers now out n parts t)
  unfolding emit_parts
  emit_parts-Goes now out n nil t h = h
  emit_parts-Goes now out n (cons v vs) t h =
      Goes-on_success delivers Runs Runs (emit_part delivers now out (pos n) (part_of v) t) _
        (emit_part-Goes now out (pos n) (part_of v) t h)
        (λ t1 h1. emit_parts-Goes now out (suc n) vs t1 h1)

  pub message-Goes :
      (now : Moment) (item : Fields) (out : ℤ) (t : Translator)
      → Runs t
      → GoesOn (emit_message_fallback delivers now item out t)
  unfolding emit_message_fallback
  message-Goes now item out t h = emit_parts-Goes now out 0 (array_field item (codes "content")) t h

  emit_item-Goes :
      (now : Moment) (index : ℤ) (v : Value) (t : Translator)
      → Runs t
      → GoesOn (emit_item delivers now index v t)
  unfolding emit_item
  emit_item-Goes now index (obj item) t h =
      let type = string_field item (codes "type") in
      Goes-if delivers Runs (beq type (codes "message"))
        (emit_message_fallback delivers now item index t)
        (if beq type (codes "function_call")
          then finish_call delivers now item index t
          else (t, none))
        (message-Goes now item index t h)
        (Goes-if delivers Runs (beq type (codes "function_call"))
          (finish_call delivers now item index t) (t, none)
          (open-GoesOn _ (finish_call-Goes delivers now item index t h)) h)
  emit_item-Goes now index null t h = h
  emit_item-Goes now index (bool _) t h = h
  emit_item-Goes now index (num _) t h = h
  emit_item-Goes now index (str _) t h = h
  emit_item-Goes now index (arr _) t h = h

  pub emit_items-Goes :
      (now : Moment) (n : ℕ) (items : Items) (t : Translator)
      → Runs t
      → GoesOn (emit_items delivers now n items t)
  unfolding emit_items
  emit_items-Goes now n nil t h = h
  emit_items-Goes now n (cons v vs) t h =
      Goes-on_success delivers Runs Runs (emit_item delivers now (pos n) v t) _
        (emit_item-Goes now (pos n) v t h) (λ t1 h1. emit_items-Goes now (suc n) vs t1 h1)
