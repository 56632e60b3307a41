-- ===== src/Sse/Tests.antt =====
-- sse.go on a stream of two events cut inside a line, and the theorems at it.
use codex_auth_broker.Sse.{
  ConsumeError, SseError, complete, exceeds_limit, feed, finish, flush_event, flush_line,
  flush_text, read_sse, trim_blank, trim_cr,
}
use codex_auth_broker.Sse.Bounds.{Keeps, feed-Keeps}
use codex_auth_broker.Sse.Chunks.{concat, read_sse-chunks}
use codex_auth_broker.Sse.Events.{Event, deliver, read_sse-write_events, reported}
use codex_auth_broker.Prelude.{
  List, Option, [], arith, false, if◌then◌else◌, none, refl, some, true, ◌∷◌, ◌≡◌,
}
use codex_auth_broker.Prelude.Text.{Bytes, beq, codes, cut_prefix}

-- A consumer that keeps what it sees, and is done at `stop`.
abbrev collect : List Bytes → Bytes → List Bytes × Option ConsumeError
collect seen event = (event ∷ seen, if beq event (codes "stop") then some complete else none)

abbrev events : List Event
events =
    record { first = codes "a"; others = codes "b" ∷ [] }
    ∷ record { first = codes "stop"; others = [] }
    ∷ record { first = codes "late"; others = [] }
    ∷ []

abbrev chunks : List Bytes
chunks = codes "data: a\ndat" ∷ codes "a: b\n\ndata: st" ∷ codes "op\n\ndata: late\n\n" ∷ []

abbrev read_all : List Bytes × Option SseError
read_all = read_sse collect 64 chunks true []

-- Comments and a stray field are skipped; a carriage return before the newline is not data.
read_mixed :
    read_sse collect 64 (codes ": hi\r\nevent: x\r\ndata:1\r\n\r\ndata: 2" ∷ []) true []
    ≡ (codes "2" ∷ codes "1" ∷ [], none)
unfolding read_sse feed finish flush_line flush_text flush_event trim_cr trim_blank cut_prefix beq
read_mixed = refl

too_long : read_sse collect 8 (codes "data: 123" ∷ []) true [] ≡ ([], some exceeds_limit)
unfolding read_sse feed
too_long = refl

feed-Keeps_example :
    Keeps 8
      (feed collect (record { limit = 8; line = []; event = []; has_data = false }) [] (codes "da"))
feed-Keeps_example = feed-Keeps collect _ [] (codes "da") (omega arith)

read_sse-chunks_example : read_all ≡ read_sse collect 64 (concat chunks ∷ []) true []
read_sse-chunks_example = read_sse-chunks collect 64 chunks (concat chunks ∷ []) true [] refl

read_sse-write_events_example : read_all ≡ reported collect (deliver collect [] events)
unfolding trim_cr
read_sse-write_events_example =
    read_sse-write_events collect 64 events chunks [] (ground arith) refl

delivered : deliver collect [] events ≡ (codes "stop" ∷ codes "a\nb" ∷ [], some complete)
unfolding deliver beq
delivered = refl
