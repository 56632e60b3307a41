-- ===== src/Sse.antt =====
-- sse.go: the framer that cuts an upstream byte stream into server-sent events. A framer is a value
-- that each call returns anew; the consumer of events is a function on a state of its own, so an
-- error comes with the consumer's state. A framer that returned an error is not used again.
pub mod Chunks
pub mod Bounds
pub mod Events
pub mod Consumers
pub mod Together
mod Tests
use codex_auth_broker.Prelude.{
  Bool, List, Option, [], false, if◌then◌else◌, length, ltb, none, not, some, true, ℕ, ◌++◌, ◌+◌,
  ◌==◌, ◌∷◌,
}
use codex_auth_broker.Prelude.Text.{Bytes, codes, cut_prefix}

-- What a consumer may answer: `errSSEComplete`, or an error of its own.
pub data ConsumeError : Type 0 where
  complete : ConsumeError
  rejected : Bytes → ConsumeError

pub data SseError : Type 0 where
  exceeds_limit read_failed : SseError
  consumer : ConsumeError → SseError

-- The text of an error; the completion mark is none.
abbrev pub read_error : SseError → Bytes
read_error exceeds_limit = codes "upstream SSE event exceeds size limit"
read_error read_failed = codes "upstream stream read failed"
read_error (consumer complete) = []
read_error (consumer (rejected e)) = e

-- `hasData` tells an empty event from none.
pub record Framer : Type 0 where
  pub limit : ℕ
  pub line : Bytes
  pub event : Bytes
  pub has_data : Bool

pub data Fed (C : Type 0) : Type 0 where
  fed : Framer → C → Fed C
  stopped : SseError → C → Fed C

abbrev pub and_then : {C : Type 0} → Fed C → (Framer → C → Fed C) → Fed C
and_then (fed f c) k = k f c
and_then (stopped e c) k = stopped e c

-- bytes.TrimSuffix(line, "\r")
unfoldable pub trim_cr : Bytes → Bytes
trim_cr [] = []
trim_cr (c ∷ []) = if c == b'\r' then [] else c ∷ []
trim_cr (c ∷ d ∷ rest) = c ∷ trim_cr (d ∷ rest)

-- bytes.TrimPrefix(value, " ")
unfoldable pub trim_blank : Bytes → Bytes
trim_blank [] = []
trim_blank (c ∷ rest) = if c == b' ' then rest else c ∷ rest

abbrev pub data_field : Bytes
data_field = codes "data:"

abbrev pub extra : Bool → Bytes → ℕ
extra has_data value = if has_data then length value + 1 else length value

-- The event data with one more line.
abbrev pub add_line : Bool → Bytes → Bytes → Bytes
add_line has_data event value = if has_data then event ++ (b'\n' ∷ value) else event ++ value

module _ {C : Type 0} (consume : C → Bytes → C × Option ConsumeError) where
  -- What is left of a framer after an event.
  unfoldable pub flush_event : Framer → C → Fed C
  flush_event f c =
      if not f.has_data
      then fed f c
      else let (c', err) = consume c f.event in
        elim err [
          | none ↦ fed (record f { event = []; has_data = false }) c'
          | some e ↦ stopped (consumer e) c'
        ]

  -- The line is `line`, with its carriage return cut off; the framer's own line is emptied on every
  -- way out.
  unfoldable pub flush_text : Framer → Bytes → C → Fed C
  flush_text f [] c = flush_event (record f { line = [] }) c
  flush_text f (b ∷ line) c = elim (cut_prefix data_field (b ∷ line)) [
    | none ↦ fed (record f { line = [] }) c
    | some rest ↦
        let value = trim_blank rest in
        if ltb f.limit (length f.event + extra f.has_data value)
        then stopped exceeds_limit c
        else fed
            (record f { line = []; event = add_line f.has_data f.event value; has_data = true }) c
  ]

  unfoldable pub flush_line : Framer → C → Fed C
  flush_line f c = flush_text f (trim_cr f.line) c

  -- The piece of a chunk up to its next newline goes to the line, if the limit allows it.
  abbrev pub take_piece : Framer → C → Bytes → (Framer → C → Fed C) → Fed C
  take_piece f c piece next =
      if ltb f.limit (length f.line + length f.event + length piece)
      then stopped exceeds_limit c
      else next (record f { line = f.line ++ piece }) c

  -- The rounds of the loop of `feed`: `piece` is what stands before the byte in hand and behind the
  -- last newline of the chunk.
  unfoldable pub feed_from : Framer → C → Bytes → Bytes → Fed C
  feed_from f c [] [] = fed f c
  feed_from f c (p ∷ piece) [] = take_piece f c (p ∷ piece) fed
  feed_from f c piece (b ∷ chunk) = elim (b == b'\n') [
    | true ↦ take_piece f c piece λ g d. and_then (flush_line g d) (λ h e. feed_from h e [] chunk)
    | false ↦ feed_from f c (piece ++ (b ∷ [])) chunk
  ]

  unfoldable pub feed : Framer → C → Bytes → Fed C
  unfolding feed_from
  feed f c chunk = feed_from f c [] chunk

  unfoldable pub finish : Framer → C → Fed C
  finish f c = elim f.line [
    | [] ↦ flush_event f c
    | b ∷ rest ↦ and_then (flush_line f c) flush_event
  ]

  -- What `readSSE` returns, with the consumer's state: nil is `none`.
  abbrev pub outcome : Fed C → C × Option SseError
  outcome (fed f c) = (c, none)
  outcome (stopped (consumer complete) c) = (c, none)
  outcome (stopped e c) = (c, some e)

  -- The chunks that the reader gives, and whether it ends by EOF or by another error.
  unfoldable pub read_from : Framer → C → List Bytes → Bool → Fed C
  read_from f c [] eof = if eof then finish f c else stopped read_failed c
  read_from f c (chunk ∷ chunks) eof = and_then (feed f c chunk) (λ g d. read_from g d chunks eof)

  abbrev pub fresh : ℕ → Framer
  fresh limit = record { limit = limit; line = []; event = []; has_data = false }

  unfoldable pub read_sse : ℕ → List Bytes → Bool → C → C × Option SseError
  unfolding read_from
  read_sse limit chunks eof c = outcome (read_from (fresh limit) c chunks eof)
