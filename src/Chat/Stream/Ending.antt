-- ===== src/Chat/Stream/Ending.antt =====
-- chat_completions.go, how a stream ends: `fail` and `finish` write what the protocol allows.
use codex_auth_broker.Relay.{is_attribute_char}
use codex_auth_broker.Relay.Loggable.{IsLoggable}
use codex_auth_broker.Chat.Stream.Protocol.{
  Follows, IsReason, Phase, Transcript, breaks, breaks_fresh, broken, closed, counted, counts, ends,
  ends_broken, ends_counted, finished, finishes, fresh, opened,
}
use codex_auth_broker.Chat.Stream.Writes.{
  Goes, Goes-else, Goes-if, Goes-on_success, Goes-write_frame, IsOpen, IsOver, IsSettled, Runs,
  identity-settle, settle-IsSettled,
}
use codex_auth_broker.Chat.Stream.Calls.{ensure_role-Goes}
use codex_auth_broker.Chat.Stream.Fallback.{capture_response-Runs, emit_items-Goes}
use codex_auth_broker.Chat.Stream.{
  Translator, array_field, capture_response, choice, chunk, done, failure, identity, nothing,
  settle, usage_only,
}
use codex_auth_broker.Chat.Stream.Methods.{
  emit_output, ensure_role, fail, fail_both, finish, finish_response, write_choice, write_end,
  write_frame, write_usage,
}
use codex_auth_broker.Chat.{Moment, chat_finish_reason, chat_usage_object, has_failed, Fields}
use codex_auth_broker.Usage.{has_any}
use codex_auth_broker.Redact.{elem, every, redact_token_like_text}
use codex_auth_broker.Prelude.{
  Bool, Option, arith, false, inl, inr, length, ltb, none, refl, some, true, ℕ, ◌&&◌, ◌≡◌, ◌⊎◌,
}
use codex_auth_broker.Prelude.Text.{Bytes, codes}

-- Where an error may be told.
pub data Breaks : Phase → Type 0 where
  at_start : Breaks fresh
  midway : (i : _) (n : ℕ) → Breaks (opened i n)

Breaks-with : (p : Phase) (m : Bytes) → Breaks p → Follows p (failure m) broken
Breaks-with p m at_start = breaks_fresh m
Breaks-with p m (midway i n) = breaks i n m

-- The phase of a translator that runs.
phase_of : (t : Translator) → Runs t → (p : Phase) × Breaks p × Transcript t.sent p
phase_of t (inl h) = (fresh, at_start, rw h.unsent Transcript.silent)
phase_of t (inr h) = (opened (identity t) (length t.tools), midway _ _, h.spoken)

pub running_of : (t : Translator) → Runs t → t.terminal ≡ false
running_of t (inl h) = h.running
running_of t (inr h) = h.running

module _ (delivers : ℕ → Bool) where
  -- What was written so far leads to the phase.
  abbrev IsAt : Phase → Translator → Type 0
  IsAt p t = Transcript t.sent p

  -- Nothing of a failure is left to send.
  pub fail-Goes :
      (R : Translator → Type 0) (message summary : Bytes) (t : Translator)
      → Runs t
      → IsLoggable summary
      → Goes delivers R (fail delivers message summary t)
  unfolding fail
  fail-Goes R message summary t h safe =
      let (p, breaking, said) = phase_of t h in
      let told = failure (redact_token_like_text message) in
      let t1 = record t { terminal = true } in
      Goes-else delivers R t.terminal (t, none) _ (running_of t h)
        (Goes-on_success delivers (IsAt broken) R (write_frame delivers told t1) _
          (Goes-write_frame delivers (IsAt broken) told t1 p broken said (Breaks-with p _ breaking)
            (λ s. s))
          (λ t2 h2.
            Goes-on_success delivers (IsAt closed) R (write_frame delivers done t2) _
              (Goes-write_frame delivers (IsAt closed) done t2 broken closed h2 ends_broken
                (λ s. s))
              (λ t3 h3. ((closed, h3, λ _. refl), safe))))

  -- The last chunks.
  abbrev IsFinished : Translator → Type 0
  IsFinished t = IsSettled t × Transcript t.sent (finished (identity t))

  abbrev IsCounted : Translator → Type 0
  IsCounted t = Transcript t.sent (finished (identity t)) ⊎ Transcript t.sent (counted (identity t))

  write_usage-Goes :
      (now : Moment) (t : Translator)
      → IsFinished t
      → Goes delivers IsCounted (write_usage delivers now t)
  unfolding write_usage settle
  write_usage-Goes now t h =
      let t' = settle now t in
      let frame = chunk (identity t') t'.service_tier (usage_only (chat_usage_object t.usage)) in
      Goes-if delivers IsCounted (t.include_usage && has_any t.usage)
        (write_frame delivers frame t') (t, none)
        (Goes-write_frame delivers IsCounted frame t' (finished (identity t'))
          (counted (identity t')) (rw (identity-settle now t h.0) h.1) (counts _ _ _) inr)
        (inl h.1)

  -- `done` after the last chunk.
  done-Goes :
      (t : Translator)
      → IsCounted t
      → Goes delivers IsOver (write_frame delivers done (record t { terminal = true }))
  done-Goes t (inl said) =
      Goes-write_frame delivers IsOver done (record t { terminal = true }) _ closed said
        (ends (identity t)) (λ s. (refl, s, (t.sent, identity t, refl, inl said)))
  done-Goes t (inr said) =
      Goes-write_frame delivers IsOver done (record t { terminal = true }) _ closed said
        (ends_counted (identity t)) (λ s. (refl, s, (t.sent, identity t, refl, inr said)))

  write_end-Goes :
      (now : Moment) (reason : Bytes) (t : Translator)
      → IsOpen t
      → IsReason (length t.tools) reason
      → Goes delivers IsOver (write_end delivers now reason t)
  unfolding write_end write_choice settle
  write_end-Goes now reason t h r =
      let t' = settle now t in
      let frame =
        chunk (identity t') t'.service_tier (choice nothing (some reason) t.include_usage) in
      Goes-on_success delivers IsFinished IsOver (write_frame delivers frame t') _
        (Goes-write_frame delivers IsFinished frame t' (opened (identity t') (length t.tools))
          (finished (identity t')) (rw (identity-settle now t h.settled) h.spoken)
          (finishes _ _ _ reason _ r) (λ said. (settle-IsSettled now t, said)))
        (λ t1 h1.
          Goes-on_success delivers IsCounted IsOver (write_usage delivers now t1) _
            (write_usage-Goes now t1 h1) done-Goes)

  IsReason-holds : (response : Fields) (n : ℕ) → IsReason n (chat_finish_reason response (ltb 0 n))
  unfolding chat_finish_reason
  IsReason-holds response n = ground arith

  finish_response-Goes :
      (now : Moment) (response : Fields) (t : Translator)
      → Runs t
      → Goes delivers IsOver (finish_response delivers now response t)
  unfolding finish_response
  finish_response-Goes now response t h =
      let failed = fail_both delivers (codes "upstream response failed") t in
      let captured = capture_response now response t in
      Goes-if delivers IsOver (has_failed response) failed _
        (fail-Goes IsOver _ (codes "upstream response failed") t h
          (unfold every is_attribute_char elem in (refl, omega arith)))
        (Goes-on_success delivers Runs IsOver (emit_output delivers now response captured) _
          (emit_items-Goes delivers now 0 (array_field response (codes "output")) captured
            (capture_response-Runs now response t h))
          (λ t1 h1.
            Goes-on_success delivers IsOpen IsOver (ensure_role delivers now t1) _
              (ensure_role-Goes delivers now t1 h1)
              (λ t2 h2.
                write_end-Goes now _ t2 h2
                  (rw h2.noticed (IsReason-holds response (length t2.tools))))))

  pub finish-Goes :
      (now : Moment) (o : Option Fields) (t : Translator)
      → Runs t
      → Goes delivers IsOver (finish delivers now o t)
  unfolding finish
  finish-Goes now none t h =
      Goes-else delivers IsOver t.terminal (t, none) _ (running_of t h)
        (fail-Goes IsOver _ (codes "terminal event is missing its response object") t h
          (unfold every is_attribute_char elem in (refl, omega arith)))
  finish-Goes now (some response) t h =
      Goes-else delivers IsOver t.terminal (t, none) _ (running_of t h)
        (finish_response-Goes now response t h)
