-- ===== src/Streaming/Relayed.antt =====
-- proxy.go, `copyStreamingResponse`: what a client reads, and what a stream is logged with.
use codex_auth_broker.Streaming.Noted.{completed_of, is_completed_by}
use codex_auth_broker.Streaming.{
  Streamed, TrackKind, Tracked, Tracker, after, capture, completed, copy_streaming_response, failed,
  final_error, framer_of, incomplete, new_tracker, no_terminal, other, stream_end, stream_from,
  track, track_event, track_kind, track_parsed, tracker_feed, tracker_finish, tracker_of, Fields,
  string_field, object_field,
}
use codex_auth_broker.Sse.{
  ConsumeError, Fed, SseError, complete, consumer, exceeds_limit, fed, feed, read_error,
  read_failed, rejected, stopped,
}
use codex_auth_broker.Sse.Consumers.{Answers, Holds, Holds-feed_from, Holds-finish}
use codex_auth_broker.Sse.Chunks.{concat}
use codex_auth_broker.Prelude.{
  Bool, List, Option, Option-cases, [], append_assoc, arith, false, if◌then◌else◌, inl, inr, none,
  not, refl, some, suc, sym, true, ℕ, ◌++◌, ◌||◌, ◌∷◌, ◌≡◌,
}
use codex_auth_broker.Prelude.Text.{Bytes, beq, codes, is_some, trim_space}

-- The errors that a stream may be logged with: none of them has text that upstream chose.
pub data Fixed : Bytes → Type 0 where
  malformed : Fixed (codes "malformed upstream SSE event")
  too_long : Fixed (codes "upstream SSE event exceeds size limit")
  cut_short : Fixed (codes "upstream response incomplete")
  upstream_failed : Fixed (codes "upstream stream failed")
  not_terminated : Fixed no_terminal
  not_read : Fixed (codes "upstream stream read failed")
  not_written : Fixed (codes "client stream write failed")

abbrev FixedIf : Option Bytes → Type 0
FixedIf none = Unit {0}
FixedIf (some e) = Fixed e

abbrev Any : Tracked → Type 0
Any s = Unit {0}

abbrev Refused : Tracked → ConsumeError → Type 0
Refused s complete = ⊥
Refused s (rejected e) = Fixed e

abbrev Errs : Option SseError → Type 0
Errs none = Unit {0}
Errs (some e) = Fixed (read_error e)

track-Answers :
    (parse : Bytes → Option Fields) (s : Tracked) (bytes : Bytes)
    → Any s
    → Answers Any Refused (track parse s bytes)
unfolding track track_event
track-Answers parse s bytes p =
    Answers-if
      (s.terminal || (beq (trim_space bytes) [] || beq (trim_space bytes) (codes "[DONE]")))
      (s, none) (track_parsed (parse (trim_space bytes)) s) tt
      (at_parsed (parse (trim_space bytes)))
  where
    Answers-if :
        (b : Bool) (x y : Tracked × Option ConsumeError)
        → Answers Any Refused x
        → Answers Any Refused y
        → Answers Any Refused (if b then x else y)
    Answers-if true x y hx hy = hx
    Answers-if false x y hx hy = hy

    at_kind : (kind : TrackKind) (s : Tracked) → Answers Any Refused (track_event kind s)
    at_kind completed s = tt
    at_kind incomplete s = Fixed.cut_short
    at_kind failed s = Fixed.upstream_failed
    at_kind other s = tt

    at_parsed : (event : Option Fields) → Answers Any Refused (track_parsed event s)
    at_parsed none = Fixed.malformed
    at_parsed (some event) =
        at_kind (track_kind (string_field event (codes "type")))
          (capture (object_field event (codes "response")) s)

Errs-of : (r : Fed Tracked) → Holds Any Refused r → Errs (tracker_of r).err
Errs-of (fed f s) h = tt
Errs-of (stopped (consumer complete) s) h = absurd h
Errs-of (stopped (consumer (rejected e)) s) h = h
Errs-of (stopped exceeds_limit s) h = Fixed.too_long
Errs-of (stopped read_failed s) h = Fixed.not_read

Errs-if : (b : Bool) (t t' : Tracker) → Errs t.err → Errs t'.err → Errs (if b then t else t').err
Errs-if true t t' h h' = h
Errs-if false t t' h h' = h'

feed-Errs :
    (parse : Bytes → Option Fields) (chunk : Bytes) (t : Tracker)
    → Errs t.err
    → Errs (tracker_feed parse chunk t).err
unfolding tracker_feed feed
feed-Errs parse chunk t h = Errs-if (is_some t.err || t.seen.terminal) t _ h (
    Errs-of _ (
      Holds-feed_from (track parse) Any Refused (track-Answers parse) (framer_of t.framer) t.seen []
        chunk tt))

finish-Errs :
    (parse : Bytes → Option Fields) (t : Tracker) → Errs t.err → Errs (tracker_finish parse t).err
unfolding tracker_finish
finish-Errs parse t h = elim (Option-cases t.framer) [
  | inl e ↦ rw (e, tracker_finish) h
  | inr (f, e) ↦
      rw (e, tracker_finish)
        (Errs-if (is_some t.err || t.seen.terminal) t _ h
          (Errs-of _ (Holds-finish (track parse) Any Refused (track-Answers parse) f t.seen tt)))
]

-- The bytes that the client has read are the first of those that upstream sent; a stream without an
-- error is marked as terminated; and an error is one of the fixed ones.
abbrev pub IsRelayed : Bytes → Streamed → Type 0
IsRelayed upstream r =
    ((rest : Bytes) × (upstream ≡ r.sent ++ rest))
    × ((r.error ≡ none → r.seen.terminal ≡ true) × FixedIf r.error)

final_error-Fixed :
    (err : Option SseError) (e : Option Bytes) (terminal : Bool)
    → Errs err
    → FixedIf e
    → (final_error err e terminal ≡ none → terminal ≡ true) × FixedIf (final_error err e terminal)
final_error-Fixed (some x) e terminal h he = ((λ p. ground (arith, p)), h)
final_error-Fixed none (some x) terminal h he = ((λ p. ground (arith, p)), he)
final_error-Fixed none none true h he = ((λ p. refl), tt)
final_error-Fixed none none false h he = ((λ p. ground (arith, p)), Fixed.not_terminated)

end-IsRelayed :
    (parse : Bytes → Option Fields) (err : Option Bytes) (t : Tracker) (upstream : Bytes)
    → Errs t.err
    → FixedIf err
    → IsRelayed upstream (stream_end parse err t)
unfolding stream_end
end-IsRelayed parse err t upstream h he =
    let t' = tracker_finish parse t in
    ((upstream, refl), final_error-Fixed t'.err err t'.seen.terminal (finish-Errs parse t h) he)

IsRelayed-if :
    (b : Bool) (upstream : Bytes) (x y : Streamed)
    → IsRelayed upstream x
    → IsRelayed upstream y
    → IsRelayed upstream (if b then x else y)
IsRelayed-if true upstream x y hx hy = hx
IsRelayed-if false upstream x y hx hy = hy

after-IsRelayed :
    (chunk upstream : Bytes) (r : Streamed)
    → IsRelayed upstream r
    → IsRelayed (chunk ++ upstream) (after chunk r)
after-IsRelayed chunk upstream r ((rest, e), h) =
    ((rest, rw e (sym (append_assoc chunk r.sent rest))), h)

stream_from-IsRelayed :
    (parse : Bytes → Option Fields) (delivers : ℕ → Bool) (eof : Bool) (n : ℕ) (chunks : List Bytes)
    (t : Tracker)
    → Errs t.err
    → IsRelayed (concat chunks) (stream_from parse delivers eof n chunks t)
unfolding stream_from
stream_from-IsRelayed parse delivers eof n [] t h =
    IsRelayed-if eof [] _ _ (end-IsRelayed parse none t [] h tt)
      (end-IsRelayed parse (some (codes "upstream stream read failed")) t [] h Fixed.not_read)
stream_from-IsRelayed parse delivers eof n ([] ∷ chunks) t h =
    stream_from-IsRelayed parse delivers eof n chunks t h
stream_from-IsRelayed parse delivers eof n ((b ∷ piece) ∷ chunks) t h =
    let t' = tracker_feed parse (b ∷ piece) t in
    let h' = feed-Errs parse (b ∷ piece) t h in
    IsRelayed-if (not (delivers n)) ((b ∷ piece) ++ concat chunks) _ _
      (end-IsRelayed parse (some (codes "client stream write failed")) t' _ h' Fixed.not_written)
      (after-IsRelayed (b ∷ piece) (concat chunks)
        (if is_some t'.err || t'.seen.terminal
          then stream_end parse none t'
          else stream_from parse delivers eof (suc n) chunks t')
        (IsRelayed-if (is_some t'.err || t'.seen.terminal) (concat chunks) _ _
          (end-IsRelayed parse none t' _ h' tt)
          (stream_from-IsRelayed parse delivers eof (suc n) chunks t' h')))

-- Whatever upstream sends and whichever writes fail, the client of a streamed response reads the
-- first bytes that upstream sent, unchanged. A stream is copied without an error only if it has an
-- event of the type `response.completed` or `response.done`: a reader that gets the same bytes
-- through `readSSE`, and only notes whether such an event comes, notes one. The error is one of
-- seven fixed texts, so it has nothing that upstream chose.
pub copy_streaming_response-IsRelayed :
    (parse : Bytes → Option Fields) (delivers : ℕ → Bool) (chunks : List Bytes) (eof : Bool)
    → let r = copy_streaming_response parse delivers chunks eof in
      IsRelayed (concat chunks) r × (r.error ≡ none → is_completed_by parse chunks ≡ true)
unfolding copy_streaming_response
copy_streaming_response-IsRelayed parse delivers chunks eof = (
  stream_from-IsRelayed parse delivers eof 0 chunks new_tracker tt,
  unfold copy_streaming_response in completed_of parse delivers chunks eof,
)
