-- ===== src/Streaming/Tests.antt =====
-- proxy.go, `copyStreamingResponse` on a concrete input: the terminal event comes in two chunks, and
-- another chunk behind it is not read any more.
use codex_auth_broker.Streaming.Noted.{is_completed_by}
use codex_auth_broker.Usage.{object_field}
use codex_auth_broker.Sse.{
  feed, feed_from, finish, flush_event, flush_line, flush_text, trim_blank, trim_cr,
}
use codex_auth_broker.Prelude.Text.{Bytes, beq, codes, cut_prefix, is_space, trim_left, trim_space}
use codex_auth_broker.Body.{get_field, string_field}
use codex_auth_broker.Streaming.Relayed.{IsRelayed, copy_streaming_response-IsRelayed}
use codex_auth_broker.Streaming.{
  Streamed, capture, copy_streaming_response, stream_end, stream_from, track, track_event,
  track_kind, tracker_feed, tracker_finish,
}
use codex_auth_broker.Sse.Chunks.{concat}
use codex_auth_broker.Prelude.Json.{Fields, end, field, str}
use codex_auth_broker.Prelude.{
  Bool, List, Option, [], if◌then◌else◌, ltb, none, refl, some, true, ℕ, ◌++◌, ◌∷◌, ◌≡◌,
}

-- Each event is written as one letter.
unfoldable parse : Bytes → Option Fields
parse bytes =
    if beq bytes (codes "z")
    then some (field (codes "type") (str (codes "response.completed")) end)
    else if beq bytes (codes "f")
    then some (field (codes "type") (str (codes "response.failed")) end)
    else none

abbrev chunks : Bytes → List Bytes
chunks letter = codes "data: " ∷ (letter ++ codes "\n\n") ∷ codes "rest" ∷ []

abbrev first_two : ℕ → Bool
first_two n = ltb n 2

abbrev whole : Streamed
whole = copy_streaming_response parse first_two (chunks (codes "z")) true

abbrev failing : Streamed
failing = copy_streaming_response parse first_two (chunks (codes "f")) true

whole_read : (whole.sent ≡ codes "data: z\n\n") × (whole.error ≡ none)
unfolding copy_streaming_response stream_from tracker_feed feed flush_line flush_text trim_cr
    cut_prefix trim_blank flush_event track beq trim_space parse track_event track_kind string_field
    get_field is_space trim_left feed_from finish capture stream_end tracker_finish object_field
whole_read = (refl, refl)

failing_error : failing.error ≡ some (codes "upstream stream failed")
unfolding copy_streaming_response stream_from tracker_feed feed flush_line flush_text trim_cr
    cut_prefix trim_blank flush_event track beq trim_space parse track_event track_kind string_field
    get_field is_space trim_left feed_from finish capture stream_end tracker_finish object_field
failing_error = refl

copy_streaming_response-IsRelayed_example :
    IsRelayed (concat (chunks (codes "z"))) whole
    × (whole.error ≡ none → is_completed_by parse (chunks (codes "z")) ≡ true)
copy_streaming_response-IsRelayed_example =
    copy_streaming_response-IsRelayed parse first_two (chunks (codes "z")) true
