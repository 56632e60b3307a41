-- ===== src/Aggregate.antt =====
-- proxy.go, `aggregateResponsesSSE`: a stream of events gathered into the one response that a client
-- asked for. JSON decoding is an argument.
pub mod Order
pub mod Written
mod Tests
use codex_auth_broker.Sse.{ConsumeError, SseError, complete, read_error, read_sse, rejected}
use codex_auth_broker.Body.{get_field, set_field, text_of}
use codex_auth_broker.Usage.{numeric_field, object_field}
use codex_auth_broker.Prelude.Json.{Fields, Items, arr, cons, nil, obj, to_int_64}
use codex_auth_broker.Prelude.{
  Bool, List, Option, [], false, if◌then◌else◌, length, ltb, none, some, true, ℕ, ◌*◌, ◌++◌, ◌+◌,
  ◌||◌, ◌∷◌,
}
use codex_auth_broker.Prelude.Int.{leb_ℤ, pos, ℤ}
use codex_auth_broker.Prelude.Text.{Bytes, beq, codes, trim_space}

abbrev pub max_request_body_bytes : ℕ
max_request_body_bytes = 128 * 1024 * 1024

pub record IndexedItem : Type 0 where
  pub index : ℤ
  pub item : Fields

-- The variables that the consumer of events sets.
pub record Gathering : Type 0 where
  pub final : Option Fields
  pub items : List IndexedItem
  pub retained_bytes : ℕ

pub data GatherKind : Type 0 where
  item_done terminal failed other : GatherKind

-- event["type"], which is compared as it stands.
unfoldable pub gather_kind : Bytes → GatherKind
gather_kind type =
    if beq type (codes "response.output_item.done")
    then item_done
    else if beq type (codes "response.completed")
        || beq type (codes "response.done")
        || beq type (codes "response.incomplete")
        || beq type (codes "response.failed")
    then terminal
    else if beq type (codes "error")
    then failed
    else other

abbrev pub index_of : Fields → ℤ
index_of event = elim (numeric_field event (codes "output_index")) [
  | some f ↦ to_int_64 f
  | none ↦ pos 0
]

abbrev pub add_item : ℤ → Option Fields → Gathering → Gathering
add_item index none g = g
add_item index (some item) g = record g {
  items = g.items ++ (record { index = index; item = item } ∷ []);
}

abbrev pub refuse : Bytes → Gathering → Gathering × Option ConsumeError
refuse message g = (g, some (rejected message))

abbrev pub set_final : Option Fields → Gathering → Gathering × Option ConsumeError
set_final none g = refuse (codes "upstream terminal event missing response") g
set_final (some response) g = (record g { final = some response }, some complete)

-- One event, whose data had this many bytes.
unfoldable pub gather_event : GatherKind → ℕ → Fields → Gathering → Gathering × Option ConsumeError
gather_event item_done bytes event g =
    let g' = record g { retained_bytes = g.retained_bytes + bytes } in
    if ltb max_request_body_bytes (g.retained_bytes + bytes)
    then refuse (codes "upstream response output exceeds size limit") g'
    else (add_item (index_of event) (object_field event (codes "item")) g', none)
gather_event terminal bytes event g = set_final (object_field event (codes "response")) g
gather_event failed bytes event g = refuse (codes "upstream stream failed") g
gather_event other bytes event g = (g, none)

abbrev pub gather_parsed : ℕ → Option Fields → Gathering → Gathering × Option ConsumeError
gather_parsed bytes none g = refuse (codes "malformed upstream SSE event") g
gather_parsed bytes (some event) g =
    gather_event (gather_kind (text_of (get_field (codes "type") event))) bytes event g

unfoldable pub gather :
    (Bytes → Option Fields) → Gathering → Bytes → Gathering × Option ConsumeError
gather parse g bytes =
    let data' = trim_space bytes in
    if beq data' [] || beq data' (codes "[DONE]")
    then (g, none)
    else gather_parsed (length data') (parse data') g

-- sort.SliceStable by the index: an item goes in front of those that are not before it.
unfoldable pub insert : IndexedItem → List IndexedItem → List IndexedItem
insert x [] = x ∷ []
insert x (y ∷ ys) = let rest = insert x ys in if leb_ℤ x.index y.index then x ∷ y ∷ ys else y ∷ rest

unfoldable pub sort_items : List IndexedItem → List IndexedItem
sort_items [] = []
sort_items (x ∷ xs) = insert x (sort_items xs)

abbrev pub items_of : List IndexedItem → Items
items_of [] = nil
items_of (x ∷ xs) = cons (obj x.item) (items_of xs)

-- `final["output"]` is not an array, or an empty one.
abbrev pub lacks_output : Fields → Bool
lacks_output final = elim (get_field (codes "output") final) [
  | some (arr (cons _ _)) ↦ false
  | _ ↦ true
]

unfoldable pub with_output : Fields → List IndexedItem → Fields
with_output final [] = final
with_output final (x ∷ xs) =
    if lacks_output final
    then set_field (codes "output") (arr (items_of (sort_items (x ∷ xs)))) final
    else final

pub data Aggregated : Type 0 where
  aggregated : Fields → Aggregated
  not_aggregated : Bytes → Aggregated

unfoldable pub aggregate_end : Gathering × Option SseError → Aggregated
aggregate_end (g, some e) = not_aggregated (read_error e)
aggregate_end (g, none) = elim g.final [
  | none ↦ not_aggregated (codes "upstream stream did not include a final response")
  | some final ↦ aggregated (with_output final g.items)
]

abbrev pub nothing_gathered : Gathering
nothing_gathered = record { final = none; items = []; retained_bytes = 0 }

unfoldable pub aggregate_responses_sse : (Bytes → Option Fields) → List Bytes → Bool → Aggregated
aggregate_responses_sse parse chunks eof =
    aggregate_end (read_sse (gather parse) max_request_body_bytes chunks eof nothing_gathered)
