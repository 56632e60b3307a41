-- ===== src/Sse/Events.antt =====
-- sse.go against the wire format: the consumer sees exactly the events that a server wrote.
use codex_auth_broker.Sse.Chunks.{concat, read_sse-chunks}
use codex_auth_broker.Sse.Bounds.{length-add_line}
use codex_auth_broker.Sse.{
  ConsumeError, Fed, Framer, SseError, add_line, and_then, complete, consumer, extra, fed, feed,
  feed_from, finish, flush_event, flush_line, flush_text, read_from, read_sse, rejected, trim_blank,
  trim_cr, outcome,
}
use codex_auth_broker.Prelude.{
  All, Bool, List, Option, [], ap, append-nil, append_assoc, arith, false, length, length-append,
  ltb, none, refl, some, sym, true, ℕ, ◌++◌, ◌+◌, ◌==◌, ◌∙◌, ◌∷◌, ◌≡◌, ◌≤◌,
}
use codex_auth_broker.Prelude.Text.{Bytes, codes, cut_prefix}

-- An event has at least one line. It is written with a `data: ` field for each, and an empty line.
pub record Event : Type 0 where
  pub first : Bytes
  pub others : List Bytes

abbrev pub write_line : Bytes → Bytes → Bytes
write_line line rest = codes "data: " ++ (line ++ (b'\n' ∷ rest))

abbrev pub write_lines : List Bytes → Bytes → Bytes
write_lines [] rest = rest
write_lines (l ∷ ls) rest = write_line l (write_lines ls rest)

abbrev pub write_events : List Event → Bytes
write_events [] = []
write_events (e ∷ es) = write_line e.first (write_lines e.others (b'\n' ∷ write_events es))

-- The data of an event: its lines, with newlines between them.
abbrev pub lines_onto : Bytes → List Bytes → Bytes
lines_onto event [] = event
lines_onto event (l ∷ ls) = lines_onto (event ++ (b'\n' ∷ l)) ls

abbrev pub payload : Event → Bytes
payload e = lines_onto e.first e.others

-- A line that a field can carry: no newline in it, and no carriage return at its end.
abbrev pub NoNewline : Bytes → Type 0
NoNewline [] = Unit {0}
NoNewline (b ∷ bs) = ((b == b'\n') ≡ false) × NoNewline bs

abbrev pub IsLine : Bytes → Type 0
IsLine l = NoNewline l × (trim_cr l ≡ l)

-- An event that fits the limit: `data: ` in front of its last line included.
abbrev pub Fits : ℕ → Event → Type 0
Fits limit e = IsLine e.first × All IsLine e.others × (length (payload e) + 6 ≤ limit)

length-lines_onto : (event : Bytes) (ls : List Bytes) → length event ≤ length (lines_onto event ls)
length-lines_onto event [] = omega arith
length-lines_onto event (l ∷ ls) =
    omega (arith, length-lines_onto (event ++ (b'\n' ∷ l)) ls, length-append event (b'\n' ∷ l))

trim_cr-data : (l : Bytes) → trim_cr l ≡ l → trim_cr (codes "data: " ++ l) ≡ codes "data: " ++ l
unfolding trim_cr
trim_cr-data [] h = refl
trim_cr-data (b ∷ l) h = ap (◌++◌ (codes "data: ")) h

module _ {C : Type 0} (consume : C → Bytes → C × Option ConsumeError) where
  -- A run without a newline is one piece.
  feed_from-NoNewline :
      (l rest piece : Bytes) (f : Framer) (c : C)
      → NoNewline l
      → feed_from consume f c piece (l ++ rest) ≡ feed_from consume f c (piece ++ l) rest
  unfolding feed_from
  feed_from-NoNewline [] rest piece f c h = rw append-nil
  feed_from-NoNewline (b ∷ l) rest piece f c h =
      rw (h.0, feed_from)
        (feed_from-NoNewline l rest (piece ++ (b ∷ [])) f c h.1
          ∙ ap (λ p. feed_from consume f c p rest) (append_assoc piece (b ∷ []) l))

  abbrev at : ℕ → Bytes → Bool → Framer
  at limit event has_data = record { limit = limit; line = []; event = event; has_data = has_data }

  flush_line-data :
      (limit : ℕ) (event : Bytes) (has_data : Bool) (l : Bytes) (c : C)
      → trim_cr l ≡ l
      → length event + extra has_data l ≤ limit
      → flush_line consume (record (at limit event has_data) { line = codes "data: " ++ l }) c
        ≡ fed (at limit (add_line has_data event l) true) c
  unfolding flush_line flush_text cut_prefix trim_blank
  flush_line-data limit event has_data l c ok fits =
      let small : ltb limit (length event + extra has_data l) ≡ false = ground arith in
      rw (trim_cr-data l ok, flush_line) (rw small)

  -- One `data: ` line, read from the start of a line, is one more line of the event.
  feed-write_line :
      (limit : ℕ) (event : Bytes) (has_data : Bool) (l rest : Bytes) (c : C)
      → IsLine l
      → length (add_line has_data event l) + 6 ≤ limit
      → feed consume (at limit event has_data) c (write_line l rest)
        ≡ feed consume (at limit (add_line has_data event l) true) c rest
  unfolding feed feed_from
  feed-write_line limit event has_data l rest c ok fits =
      let grows = length-add_line has_data event l in
      let small : ltb limit (0 + length event + length (codes "data: " ++ l)) ≡ false =
        tight grows in
      feed_from-NoNewline l (b'\n' ∷ rest) (codes "data: ") (at limit event has_data) c ok.0
      ∙ rw small (rw (flush_line-data limit event has_data l c ok.1 (omega arith)))
    where
      tight :
          length (add_line has_data event l) ≡ length event + extra has_data l
          → ltb limit (0 + length event + length (codes "data: " ++ l)) ≡ false
      tight grows = ground arith

  -- The empty line ends the event.
  feed-newline :
      (limit : ℕ) (event rest : Bytes) (has_data : Bool) (c : C)
      → length event ≤ limit
      → feed consume (at limit event has_data) c (b'\n' ∷ rest)
        ≡ and_then (flush_event consume (at limit event has_data) c) (λ g d. feed consume g d rest)
  unfolding feed feed_from flush_line flush_text trim_cr
  feed-newline limit event rest has_data c fits =
      let small : ltb limit (0 + length event + 0) ≡ false = ground arith in rw small

  feed-write_lines :
      (limit : ℕ) (ls : List Bytes) (event rest : Bytes) (c : C)
      → All IsLine ls
      → length (lines_onto event ls) + 6 ≤ limit
      → feed consume (at limit event true) c (write_lines ls rest)
        ≡ feed consume (at limit (lines_onto event ls) true) c rest
  feed-write_lines limit [] event rest c ok fits = refl
  feed-write_lines limit (l ∷ ls) event rest c ok fits =
      let longer = length-lines_onto (event ++ (b'\n' ∷ l)) ls in
      feed-write_line limit event true l (write_lines ls rest) c ok.0 (omega arith)
      ∙ feed-write_lines limit ls (event ++ (b'\n' ∷ l)) rest c ok.1 fits

  -- What a consumer makes of a list of events: it sees them in order until it returns an error.
  unfoldable pub deliver : C → List Event → C × Option ConsumeError
  deliver c [] = (c, none)
  deliver c (e ∷ es) =
      let (c', err) = consume c (payload e) in
      elim err [ none ↦ deliver c' es | some x ↦ (c', some x) ]

  -- As `readSSE` reports it: the end that the consumer asked for is none.
  abbrev pub reported : C × Option ConsumeError → C × Option SseError
  reported (c, none) = (c, none)
  reported (c, some complete) = (c, none)
  reported (c, some (rejected e)) = (c, some (consumer (rejected e)))

  feed-write_events :
      (limit : ℕ) (es : List Event) (c : C)
      → All (Fits limit) es
      → outcome consume
          (and_then (feed consume (at limit [] false) c (write_events es)) (finish consume))
        ≡ reported (deliver c es)
  unfolding deliver
  feed-write_events limit [] c ok = unfold feed feed_from finish flush_event in refl
  feed-write_events limit (e ∷ es) c ((first, others, fits), ok) =
      let longer = length-lines_onto e.first e.others in
      let rest = write_events es in
      let read : feed consume (at limit [] false) c (write_events (e ∷ es))
          ≡ and_then (flush_event consume (at limit (payload e) true) c)
              (λ g d. feed consume g d rest) =
        feed-write_line limit [] false e.first (write_lines e.others (b'\n' ∷ rest)) c first
          (omega arith)
        ∙ feed-write_lines limit e.others e.first (b'\n' ∷ rest) c others fits
        ∙ feed-newline limit (payload e) rest true c (omega arith) in
      rw read (step (consume c (payload e)) refl (λ d. feed-write_events limit es d ok))
    where
      result : Fed C → C × Option SseError
      result r =
          outcome consume
            (and_then (and_then r (λ g d. feed consume g d (write_events es))) (finish consume))

      step :
          (r : C × Option ConsumeError)
          → consume c (payload e) ≡ r
          → ((d : C)
              → outcome consume
                  (and_then (feed consume (at limit [] false) d (write_events es)) (finish consume))
                ≡ reported (deliver d es))
          → result (flush_event consume (at limit (payload e) true) c)
            ≡ reported (deliver c (e ∷ es))
      step (d, none) q later =
          unfold flush_event in
          rw (ap (λ r. r.1) q, ap (λ r. r.0) q, flush_event, deliver) (later d)
      step (d, some complete) q later =
          unfold flush_event in rw (ap (λ r. r.1) q, ap (λ r. r.0) q, flush_event, deliver) refl
      step (d, some (rejected x)) q later =
          unfold flush_event in rw (ap (λ r. r.1) q, ap (λ r. r.0) q, flush_event, deliver) refl

  -- Reading what a server wrote delivers exactly its events, in order and up to the first error of
  -- the consumer, however the bytes come in chunks, if each event fits the limit; the stream then
  -- ends without an error unless the consumer returned one that is not its completion mark.
  pub read_sse-write_events :
      (limit : ℕ) (es : List Event) (chunks : List Bytes) (c : C)
      → All (Fits limit) es
      → concat chunks ≡ write_events es
      → read_sse consume limit chunks true c ≡ reported (deliver c es)
  read_sse-write_events limit es chunks c ok same =
      let one : concat chunks ≡ concat (write_events es ∷ []) =
        same ∙ sym (append-nil (write_events es)) in
      read_sse-chunks consume limit chunks (write_events es ∷ []) true c one
      ∙ unfold read_sse read_from in feed-write_events limit es c ok
