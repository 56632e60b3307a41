-- ===== src/Streaming.antt =====
-- proxy.go, `copyStreamingResponse`: a stream is handed on to the client as it comes, and a tracker
-- reads its events on the side. JSON decoding is an argument. Whether a write succeeds is a function
-- of its number; of a write that fails nothing is counted.
pub mod Relayed
pub mod Noted
mod Tests
use codex_auth_broker.Aggregate.{max_request_body_bytes}
use codex_auth_broker.Sse.{
  ConsumeError, Fed, Framer, SseError, consumer, fed, feed, finish, read_error, rejected, stopped,
  fresh,
}
use codex_auth_broker.Body.{string_field}
use codex_auth_broker.Usage.{
  TokenUsage, extract_service_tier, extract_token_usage, has_any, no_usage, object_field,
}
use codex_auth_broker.Prelude.Json.{Fields}
use codex_auth_broker.Prelude.{
  Bool, List, Option, [], false, if◌then◌else◌, none, not, some, suc, true, ℕ, ◌++◌, ◌||◌, ◌∷◌,
}
use codex_auth_broker.Prelude.Text.{Bytes, beq, codes, is_some, trim_space}

-- What the events of a stream have told.
pub record Tracked : Type 0 where
  pub usage : TokenUsage
  pub service_tier : Bytes
  pub terminal : Bool

-- `sseUsageTracker`
pub record Tracker : Type 0 where
  pub framer : Option Framer
  pub seen : Tracked
  pub err : Option SseError

pub data TrackKind : Type 0 where
  completed incomplete failed other : TrackKind

unfoldable pub track_kind : Bytes → TrackKind
track_kind type =
    if beq type (codes "response.completed") || beq type (codes "response.done")
    then completed
    else if beq type (codes "response.incomplete")
    then incomplete
    else if beq type (codes "response.failed") || beq type (codes "error")
    then failed
    else other

unfoldable pub capture : Option Fields → Tracked → Tracked
capture none s = s
capture (some response) s =
    let usage = extract_token_usage response in
    let tier = extract_service_tier response in
    record s {
      usage = if has_any usage then usage else s.usage;
      service_tier = if beq tier [] then s.service_tier else tier;
    }

unfoldable pub track_event : TrackKind → Tracked → Tracked × Option ConsumeError
track_event completed s = (record s { terminal = true }, none)
track_event incomplete s =
    (record s { terminal = true }, some (rejected (codes "upstream response incomplete")))
track_event failed s =
    (record s { terminal = true }, some (rejected (codes "upstream stream failed")))
track_event other s = (s, none)

abbrev pub track_parsed : Option Fields → Tracked → Tracked × Option ConsumeError
track_parsed none s = (s, some (rejected (codes "malformed upstream SSE event")))
track_parsed (some event) s =
    track_event (track_kind (string_field event (codes "type")))
      (capture (object_field event (codes "response")) s)

-- The tracker's `consume`.
unfoldable pub track : (Bytes → Option Fields) → Tracked → Bytes → Tracked × Option ConsumeError
track parse s bytes =
    let data' = trim_space bytes in
    if s.terminal || (beq data' [] || beq data' (codes "[DONE]"))
    then (s, none)
    else track_parsed (parse data') s

abbrev pub tracker_of : Fed Tracked → Tracker
tracker_of (fed f s) = record { framer = some f; seen = s; err = none }
tracker_of (stopped e s) = record { framer = none; seen = s; err = some e }

abbrev pub framer_of : Option Framer → Framer
framer_of none = record { limit = max_request_body_bytes; line = []; event = []; has_data = false }
framer_of (some f) = f

-- The tracker's `feed` and `finish`; a framer that stopped is not used again.
unfoldable pub tracker_feed : (Bytes → Option Fields) → Bytes → Tracker → Tracker
tracker_feed parse chunk t =
    if is_some t.err || t.seen.terminal
    then t
    else tracker_of (feed (track parse) (framer_of t.framer) t.seen chunk)

unfoldable pub tracker_finish : (Bytes → Option Fields) → Tracker → Tracker
tracker_finish parse t = elim t.framer [
  | none ↦ t
  | some f ↦
      if is_some t.err || t.seen.terminal then t else tracker_of (finish (track parse) f t.seen)
]

-- What the client has read, what was learnt, and the error to log.
pub record Streamed : Type 0 where
  pub sent : Bytes
  pub seen : Tracked
  pub error : Option Bytes

abbrev pub no_terminal : Bytes
no_terminal = codes "upstream stream ended without a terminal response event"

-- The error, given the one that the loop ends with.
abbrev pub final_error : Option SseError → Option Bytes → Bool → Option Bytes
final_error (some e) err terminal = some (read_error e)
final_error none (some e) terminal = some e
final_error none none terminal = if terminal then none else some no_terminal

unfoldable pub stream_end : (Bytes → Option Fields) → Option Bytes → Tracker → Streamed
stream_end parse err t =
    let t' = tracker_finish parse t in
    record { sent = []; seen = t'.seen; error = final_error t'.err err t'.seen.terminal }

abbrev pub after : Bytes → Streamed → Streamed
after chunk r = record r { sent = chunk ++ r.sent }

-- The rounds of the loop: the chunks that the reader gives, and whether it ends by EOF.
unfoldable pub stream_from :
    (Bytes → Option Fields) → (ℕ → Bool) → Bool → ℕ → List Bytes → Tracker → Streamed
stream_from parse delivers eof n [] t =
    if eof
    then stream_end parse none t
    else stream_end parse (some (codes "upstream stream read failed")) t
stream_from parse delivers eof n ([] ∷ chunks) t = stream_from parse delivers eof n chunks t
stream_from parse delivers eof n ((b ∷ piece) ∷ chunks) t =
    let t' = tracker_feed parse (b ∷ piece) t in
    let rest = stream_from parse delivers eof (suc n) chunks t' in
    if not (delivers n)
    then stream_end parse (some (codes "client stream write failed")) t'
    else after (b ∷ piece)
        (if is_some t'.err || t'.seen.terminal then stream_end parse none t' else rest)

abbrev pub new_tracker : Tracker
new_tracker = record {
  framer = none;
  seen = record { usage = no_usage; service_tier = []; terminal = false };
  err = none;
}

unfoldable pub copy_streaming_response :
    (Bytes → Option Fields) → (ℕ → Bool) → List Bytes → Bool → Streamed
copy_streaming_response parse delivers chunks eof =
    stream_from parse delivers eof 0 chunks new_tracker
