-- ===== src/Streaming/Noted.antt =====
-- proxy.go, `copyStreamingResponse`: a stream that is copied without an error had an event that
-- completes it, as another reader of the same bytes notes.
use codex_auth_broker.Prelude.{
  Bool, Bool-cases, List, Option, [], arith, false, if◌then◌else◌, inl, inr, none, not, refl, some,
  suc, sym, true, ℕ, ◌||◌, ◌∙◌, ◌∷◌, ◌≡◌,
}
use codex_auth_broker.Streaming.{
  Streamed, TrackKind, Tracked, Tracker, after, capture, completed, copy_streaming_response, failed,
  final_error, framer_of, incomplete, new_tracker, other, stream_end, stream_from, track,
  track_event, track_kind, track_parsed, tracker_feed, tracker_finish, tracker_of,
}
use codex_auth_broker.Sse.{
  ConsumeError, Fed, Framer, SseError, and_then, complete, consumer, exceeds_limit, fed, feed,
  feed_from, finish, fresh, outcome, read_failed, read_from, read_sse, rejected, stopped,
}
use codex_auth_broker.Sse.Consumers.{Answers, Holds, Holds-read_from}
use codex_auth_broker.Sse.Together.{BothGo, Together, Together-feed_from, Together-finish}
use codex_auth_broker.Aggregate.{max_request_body_bytes}
use codex_auth_broker.Body.{string_field}
use codex_auth_broker.Usage.{object_field}
use codex_auth_broker.Prelude.Json.{Fields}
use codex_auth_broker.Prelude.Text.{Bytes, beq, codes, is_some, trim_space}
use mathlib.Core.Path.{subst}

-- An event that completes a response.
abbrev pub completes : Option Fields → Bool
completes none = false
completes (some event) =
    let type = string_field event (codes "type") in
    beq type (codes "response.completed") || beq type (codes "response.done")

-- A reader that notes whether such an event came, and goes on in any case.
abbrev pub note : (Bytes → Option Fields) → Bool → Bytes → Bool × Option ConsumeError
note parse noted bytes = (noted || completes (parse (trim_space bytes)), none)

-- Whether the events of a stream complete it, as `readSSE` delivers them.
abbrev pub is_completed_by : (Bytes → Option Fields) → List Bytes → Bool
is_completed_by parse chunks = (read_sse (note parse) max_request_body_bytes chunks true false).0

abbrev Knows : Tracked → Bool → Type 0
Knows s noted = s.terminal ≡ true → noted ≡ true

abbrev Noted : Bool → Type 0
Noted noted = noted ≡ true

abbrev Never : Bool → ConsumeError → Type 0
Never noted e = ⊥

note-Answers :
    (parse : Bytes → Option Fields) (noted : Bool) (bytes : Bytes)
    → Noted noted
    → Answers Noted Never (note parse noted bytes)
note-Answers parse noted bytes h = rw h refl

abbrev state_of : Fed Bool → Bool
state_of (fed f noted) = noted
state_of (stopped e noted) = noted

outcome_state :
    (parse : Bytes → Option Fields) (r : Fed Bool) → (outcome (note parse) r).0 ≡ state_of r
outcome_state parse (fed f noted) = refl
outcome_state parse (stopped (consumer complete) noted) = refl
outcome_state parse (stopped (consumer (rejected e)) noted) = refl
outcome_state parse (stopped exceeds_limit noted) = refl
outcome_state parse (stopped read_failed noted) = refl

Noted-state : (r : Fed Bool) → Holds Noted Never r → Noted (state_of r)
Noted-state (fed f noted) h = h
Noted-state (stopped (consumer e) noted) h = absurd h
Noted-state (stopped exceeds_limit noted) h = h
Noted-state (stopped read_failed noted) h = h

or_true : (b : Bool) → (b || true) ≡ true
or_true true = refl
or_true false = refl

capture_terminal : (o : Option Fields) (s : Tracked) → (capture o s).terminal ≡ s.terminal
unfolding capture
capture_terminal none s = refl
capture_terminal (some response) s = refl

module _ (parse : Bytes → Option Fields) where
  kind_completes :
      (event : Fields)
      → track_kind (string_field event (codes "type")) ≡ completed
      → completes (some event) ≡ true
  unfolding track_kind
  kind_completes event h = ground (arith, h)

  track-BothGo :
      (s : Tracked) (noted : Bool) (bytes : Bytes)
      → Knows s noted
      → BothGo Knows (track parse s bytes) (note parse noted bytes)
  unfolding track track_event
  track-BothGo s noted bytes h =
      let blank = beq (trim_space bytes) [] || beq (trim_space bytes) (codes "[DONE]") in
      skipped (s.terminal || blank) _ (parsed (parse (trim_space bytes)))
    where
      -- What was noted stays noted.
      before : (b : Bool) → Knows s (noted || b)
      before b over = rw (h over) refl

      skipped :
          (b : Bool) (out : Tracked × Option ConsumeError)
          → BothGo Knows out (note parse noted bytes)
          → BothGo Knows (if b then (s, none) else out) (note parse noted bytes)
      skipped true out go = before _
      skipped false out go = go

      kind_of :
          (event : Fields) (kind : TrackKind)
          → track_kind (string_field event (codes "type")) ≡ kind
          → BothGo Knows
              (track_event kind (capture (object_field event (codes "response")) s))
              (noted || completes (some event), none)
      kind_of event completed e = λ over. rw (kind_completes event e) (or_true noted)
      kind_of event incomplete e = tt
      kind_of event failed e = tt
      kind_of event other e =
          λ over. before _ (sym (capture_terminal (object_field event (codes "response")) s) ∙ over)

      parsed : (o : Option Fields) → BothGo Knows (track_parsed o s) (noted || completes o, none)
      parsed none = tt
      parsed (some event) = kind_of event (track_kind (string_field event (codes "type"))) refl

  abbrev Finds : Streamed → Fed Bool → Type 0
  Finds r noted = r.error ≡ none → Noted (state_of noted)

  -- Once it is noted, it stays so.
  stays :
      (f : Framer) (chunks : List Bytes)
      → Noted (state_of (read_from (note parse) f true chunks true))
  stays f chunks =
      Noted-state _
        (Holds-read_from (note parse) Noted Never (note-Answers parse) f true chunks true refl)

  stays-Noted :
      (f : Framer) (noted : Bool) (chunks : List Bytes)
      → Noted noted
      → Noted (state_of (read_from (note parse) f noted chunks true))
  stays-Noted f true chunks h = stays f chunks
  stays-Noted f false chunks h = absurd (ground (arith, h))

  -- An error of the loop is one of the stream.
  ends_failed : (e : Bytes) (t : Tracker) → ¬ ((stream_end parse (some e) t).error ≡ none)
  unfolding stream_end
  ends_failed e t x = at (tracker_finish parse t).err x
    where
      at :
          (err : Option SseError)
          → ¬ (final_error err (some e) (tracker_finish parse t).seen.terminal ≡ none)
      at none x = ground (arith, x)
      at (some y) x = ground (arith, x)

  -- An error that the tracker met is the error of the stream.
  stopped_error :
      (e : SseError) (s : Tracked) (b : Fed Bool)
      → Finds (stream_end parse none (tracker_of (stopped e s))) b
  unfolding stream_end tracker_finish
  stopped_error e s b x = absurd (ground (arith, x))

  finished-Finds :
      (r : Fed Tracked) (q : Fed Bool)
      → Together Knows r q
      → final_error (tracker_of r).err none (tracker_of r).seen.terminal ≡ none
      → Noted (state_of q)
  finished-Finds (stopped e s) q h x = absurd (ground (arith, x))
  finished-Finds (fed f s) (stopped e noted) h x = absurd h
  finished-Finds (fed f s) (fed g noted) (same, h) x = h (ground (arith, x))

  -- A tracker without an error.
  abbrev going : Option Framer → Tracked → Tracker
  going o s = record { framer = o; seen = s; err = none }

  end-Finds :
      (o : Option Framer) (s : Tracked) (noted : Bool)
      → Knows s noted
      → s.terminal ≡ false
      → Finds (stream_end parse none (going o s)) (finish (note parse) (framer_of o) noted)
  unfolding stream_end tracker_finish
  end-Finds none s noted h on =
      subst
        (λ b.
          final_error none none b ≡ none
          → Noted (state_of (finish (note parse) (framer_of none) noted)))
        (sym on) (λ x. absurd (ground (arith, x)))
  end-Finds (some f) s noted h on =
      subst
        (λ b.
          let t = if b then going (some f) s else tracker_of (finish (track parse) f s) in
          final_error t.err none t.seen.terminal ≡ none
          → Noted (state_of (finish (note parse) f noted)))
        (sym on)
        (finished-Finds _ _
          (Together-finish (track parse) (note parse) Knows track-BothGo f s noted h))

  fed-Finds :
      (again : Tracker → Streamed) (chunks : List Bytes) (r : Fed Tracked) (q : Fed Bool)
      → Together Knows r q
      → ((f : Framer) (s : Tracked) (noted : Bool)
          → Knows s noted
          → s.terminal ≡ false
          → Finds (again (tracker_of (fed f s))) (read_from (note parse) f noted chunks true))
      → Finds
          (if is_some (tracker_of r).err || (tracker_of r).seen.terminal
            then stream_end parse none (tracker_of r)
            else again (tracker_of r))
          (and_then q (λ g d. read_from (note parse) g d chunks true))
  fed-Finds again chunks (stopped e s) q h next =
      stopped_error e s (and_then q (λ g d. read_from (note parse) g d chunks true))
  fed-Finds again chunks (fed f s) (stopped e noted) h next = absurd h
  fed-Finds again chunks (fed f s) (fed g noted) (same, h) next = elim (Bool-cases s.terminal) [
    | inl over ↦ λ x. stays-Noted g noted chunks (h over)
    | inr on ↦
        subst
          (λ b.
            Finds
              (if b
                then stream_end parse none (tracker_of (fed f s))
                else again (tracker_of (fed f s)))
              (read_from (note parse) g noted chunks true))
          (sym on)
          (subst
            (λ x. Finds (again (tracker_of (fed f s))) (read_from (note parse) x noted chunks true))
            same (next f s noted h on))
  ]

  Finds-delivered :
      (b : Bool) (x y : Streamed) (q : Fed Bool)
      → Finds x q
      → Finds y q
      → Finds (if b then x else y) q
  Finds-delivered true x y q hx hy = hx
  Finds-delivered false x y q hx hy = hy

  feed-nothing : (f : Framer) (noted : Bool) → feed (note parse) f noted [] ≡ fed f noted
  unfolding feed feed_from
  feed-nothing f noted = refl

  feed-Together :
      (f : Framer) (s : Tracked) (noted : Bool) (chunk : Bytes)
      → Knows s noted
      → Together Knows (feed (track parse) f s chunk) (feed (note parse) f noted chunk)
  unfolding feed
  feed-Together f s noted chunk h =
      Together-feed_from (track parse) (note parse) Knows track-BothGo f s noted [] chunk h

  stream_from-Finds :
      (delivers : ℕ → Bool) (eof : Bool) (n : ℕ) (chunks : List Bytes) (o : Option Framer)
      (s : Tracked) (noted : Bool)
      → Knows s noted
      → s.terminal ≡ false
      → Finds
          (stream_from parse delivers eof n chunks (going o s))
          (read_from (note parse) (framer_of o) noted chunks true)
  unfolding stream_from read_from tracker_feed feed_from
  stream_from-Finds delivers eof n [] o s noted h on =
      Finds-delivered eof _ _ (finish (note parse) (framer_of o) noted) (end-Finds o s noted h on)
        (λ x. absurd (ends_failed _ (going o s) x))
  stream_from-Finds delivers eof n ([] ∷ chunks) o s noted h on =
      subst
        (λ r.
          Finds (stream_from parse delivers eof n chunks (going o s))
            (and_then r (λ g d. read_from (note parse) g d chunks true)))
        (sym (feed-nothing (framer_of o) noted))
        (stream_from-Finds delivers eof n chunks o s noted h on)
  stream_from-Finds delivers eof n ((b ∷ piece) ∷ chunks) o s noted h on =
      Finds-delivered (not (delivers n)) _ _
        (and_then (feed (note parse) (framer_of o) noted (b ∷ piece))
          (λ g d. read_from (note parse) g d chunks true))
        (λ x. absurd (ends_failed _ (tracker_feed parse (b ∷ piece) (going o s)) x))
        (subst
          (λ known.
            let t =
              if known
              then going o s
              else tracker_of (feed (track parse) (framer_of o) s (b ∷ piece)) in
            Finds
              (after (b ∷ piece) (
                if is_some t.err || t.seen.terminal
                then stream_end parse none t
                else stream_from parse delivers eof (suc n) chunks t))
              (and_then (feed (note parse) (framer_of o) noted (b ∷ piece))
                (λ g d. read_from (note parse) g d chunks true)))
          (sym on)
          (fed-Finds (stream_from parse delivers eof (suc n) chunks) chunks _ _
            (feed-Together (framer_of o) s noted (b ∷ piece) h)
            (λ f s' noted' h' on'.
              stream_from-Finds delivers eof (suc n) chunks (some f) s' noted' h' on')))

  pub completed_of :
      (delivers : ℕ → Bool) (chunks : List Bytes) (eof : Bool)
      → (copy_streaming_response parse delivers chunks eof).error ≡ none
      → is_completed_by parse chunks ≡ true
  unfolding copy_streaming_response read_sse
  completed_of delivers chunks eof x =
      outcome_state parse
        (read_from (note parse) (fresh (note parse) max_request_body_bytes) false chunks true)
      ∙ stream_from-Finds delivers eof 0 chunks none new_tracker.seen false
          (λ over. absurd (ground (arith, over))) refl x
