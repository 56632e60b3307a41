-- ===== src/Chat/Stream/Complete.antt =====
-- chat_completions.go, a stream as a whole: whatever upstream sends, and whichever writes fail, the
-- client reads a transcript of the protocol, and all of one if no write fails.
use codex_auth_broker.Chat.Stream.Protocol.{IsCompletion, Phase, Transcript, closed}
use codex_auth_broker.Sse.{
  ConsumeError, SseError, complete, consumer, exceeds_limit, read_error, read_failed, rejected,
}
use codex_auth_broker.Chat.Stream.Writes.{AllDelivered, Goes, IsFresh, IsOver, Runs, Stops}
use codex_auth_broker.Chat.Stream.Ending.{fail-Goes, running_of}
use codex_auth_broker.Chat.Stream.Refines.{Ran, data-Goes}
use codex_auth_broker.Chat.Stream.Events.{
  Copying, after_event, copy_chat_completions_stream, copy_end, copy_event, no_terminal,
  start_translator,
}
use codex_auth_broker.Chat.Stream.{Step, Translator}
use codex_auth_broker.Chat.{Moment}
use codex_auth_broker.Relay.Loggable.{IsLoggable}
use codex_auth_broker.Relay.{is_attribute_char}
use codex_auth_broker.Redact.{elem, every}
use codex_auth_broker.Sse.Consumers.{Answers, Returns, Returns-read_sse}
use codex_auth_broker.Prelude.Json.{Fields, Float64}
use codex_auth_broker.Prelude.{Bool, List, Option, arith, inl, inr, none, refl, some, ℕ, ◌≡◌}
use codex_auth_broker.Prelude.Int.{ℤ}
use codex_auth_broker.Prelude.Text.{Bytes, trim_space}
use mathlib.Core.Path.{subst}

module _ (delivers : ℕ → Bool) (print : Float64 → Bytes) where
  abbrev GoesOn : Copying → Type 0
  GoesOn c = Runs c.translator × (c.event_error ≡ none)

  abbrev Answered : Copying → ConsumeError → Type 0
  Answered c complete = IsOver c.translator
  Answered c (rejected e) = Stops delivers c.translator e × (c.event_error ≡ some e)

  answer_holds :
      (n : ℕ) (s : Step) → Goes delivers Ran s → Answers GoesOn Answered (after_event n s)
  answer_holds n (t, none) (inl h) = simp (running_of t h) (h, refl)
  answer_holds n (t, none) (inr h) = simp h.0 (refl, h.1, h.2)
  answer_holds n (t, some e) h = (h, refl)

  end-Goes :
      (c : Copying) (o : Option SseError)
      → Returns GoesOn Answered (c, o)
      → Goes delivers IsOver (copy_end delivers print (c, o))
  unfolding copy_end
  end-Goes c none (inl h) = simp (running_of c.translator h.0) (
      fail-Goes delivers IsOver no_terminal no_terminal c.translator h.0
        (unfold every is_attribute_char elem in (refl, omega arith)))
  end-Goes c none (inr h) = simp h.0 (refl, h.1, h.2)
  end-Goes c (some (consumer complete)) h = absurd h
  end-Goes c (some (consumer (rejected e))) h = rw h.1 h.0
  end-Goes c (some exceeds_limit) h = rw h.1 (
      fail-Goes delivers IsOver (read_error exceeds_limit) (read_error exceeds_limit) c.translator
        h.0 (unfold every is_attribute_char elem in (refl, omega arith)))
  end-Goes c (some read_failed) h = rw h.1 (
      fail-Goes delivers IsOver (read_error read_failed) (read_error read_failed) c.translator h.0
        (unfold every is_attribute_char elem in (refl, omega arith)))

stream-Goes :
    (delivers : ℕ → Bool) (print : Float64 → Bytes) (parse : Bytes → Option Fields)
    (clock : ℕ → Moment) (limit : ℕ) (chunks : List Bytes) (eof : Bool) (t : Translator)
    → IsFresh t
    → Goes delivers IsOver
        (copy_chat_completions_stream delivers print parse clock limit chunks eof t)
unfolding copy_chat_completions_stream copy_event
stream-Goes delivers print parse clock limit chunks eof t h = end-Goes delivers print _ _ (
    Returns-read_sse (copy_event delivers print parse clock) (GoesOn delivers print)
      (Answered delivers print)
      (λ c bytes g.
        answer_holds delivers print c.events _
          (data-Goes delivers print parse (clock c.events) (trim_space bytes) c.translator g.0))
      limit chunks eof (record { translator = t; event_error = none; events = 0 }) (inl h, refl))

start_IsFresh :
    (fallback : Bytes) (include_usage : Bool) (now : ℤ)
    → IsFresh (start_translator fallback include_usage now)
unfolding start_translator
start_IsFresh fallback include_usage now = record {
  running = refl;
  unopened = refl;
  unsent = refl;
  no_tools = refl;
  none_seen = refl;
}

-- What the client of a run reads.
Transcript-of :
    (delivers : ℕ → Bool) (s : Step)
    → Goes delivers IsOver s
    → (p : Phase) × Transcript s.0.sent p × (s.1 ≡ none → (p ≡ closed) × IsCompletion s.0.sent)
Transcript-of delivers (t, none) h = (closed, h.1, λ e. (refl, h.2))
Transcript-of delivers (t, some e) h = (h.0.0, h.0.1, λ none_of. cc none_of)

whole_of :
    (delivers : ℕ → Bool) (s : Step)
    → Goes delivers IsOver s
    → AllDelivered delivers
    → Transcript s.0.sent closed
whole_of delivers (t, none) h all = h.1
whole_of delivers (t, some e) h all = rw (← h.0.2 all) h.0.1

some_inj : (x y : Bytes) → some x ≡ some y → x ≡ y
some_inj x y e = cc e

logged_of :
    (delivers : ℕ → Bool) (s : Step) (e : Bytes)
    → Goes delivers IsOver s
    → s.1 ≡ some e
    → IsLoggable e
logged_of delivers (t, none) e h eq = cc eq
logged_of delivers (t, some x) e h eq = subst IsLoggable (some_inj x e eq) h.1

module _ (delivers : ℕ → Bool) (print : Float64 → Bytes) (parse : Bytes → Option Fields)
    (clock : ℕ → Moment) (limit : ℕ) (chunks : List Bytes) (eof : Bool) (fallback : Bytes)
    (include_usage : Bool) (now : ℤ) where
  -- The stream of a request.
  abbrev pub streamed : Step
  streamed =
      copy_chat_completions_stream delivers print parse clock limit chunks eof
        (start_translator fallback include_usage now)

  goes : Goes delivers IsOver streamed
  goes =
      stream-Goes delivers print parse clock limit chunks eof
        (start_translator fallback include_usage now) (start_IsFresh fallback include_usage now)

  -- Whatever upstream sends, and whichever writes fail, the client reads frames in the order of
  -- the protocol: the role first, one identity, calls numbered from 0 and arguments only for calls
  -- that were announced, one finish reason that agrees with the calls, at most one usage, and the
  -- end last; an error may take the place of what is left before the end. If the stream is copied
  -- without an error, no error was told: the end follows the finish reason, or the usage after it.
  pub copy_chat_completions_stream_speaks :
      (p : Phase) × Transcript streamed.0.sent p
      × (streamed.1 ≡ none → (p ≡ closed) × IsCompletion streamed.0.sent)
  copy_chat_completions_stream_speaks = Transcript-of delivers streamed goes

  -- If every write is delivered, the client of a stream reads to its end, with the finish reason or
  -- with an error: whatever upstream sends, and also where it stops in the middle.
  pub copy_chat_completions_stream_ends : AllDelivered delivers → Transcript streamed.0.sent closed
  copy_chat_completions_stream_ends = whole_of delivers streamed goes

  -- The error that a stream is logged with has at most 166 characters, all of which are ASCII
  -- letters, digits, blanks or one of the marks `-_.()=`, whatever upstream sends.
  pub copy_chat_completions_stream_error_IsLoggable :
      (e : Bytes) → streamed.1 ≡ some e → IsLoggable e
  copy_chat_completions_stream_error_IsLoggable e = logged_of delivers streamed e goes
