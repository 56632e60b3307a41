-- ===== src/Aggregate/Written.antt =====
-- proxy.go, `aggregateResponsesSSE` against what upstream writes: its finished items, and then the
-- response.
use codex_auth_broker.Prelude.{
  All, List, Option, [], ap, append-nil, append_assoc, arith, false, inl, inr, length, ltb, none,
  refl, some, sym, true, ℕ, ◌++◌, ◌+◌, ◌||◌, ◌∙◌, ◌∷◌, ◌≡◌, ◌≢◌, ◌≤◌, ◌⊎◌,
}
use codex_auth_broker.Aggregate.{
  GatherKind, Gathering, IndexedItem, aggregate_end, aggregate_responses_sse, aggregated, failed,
  gather, gather_event, gather_kind, index_of, item_done, items_of, lacks_output,
  max_request_body_bytes, nothing_gathered, other, sort_items, terminal, with_output,
}
use codex_auth_broker.Prelude.Int.{pos, ℤ}
use codex_auth_broker.Usage.{numeric_field, object_field}
use codex_auth_broker.Prelude.Json.{
  Fields, Float64, Items, Value, arr, bool, cons, nil, null, num, obj, str, to_int_64,
}
use codex_auth_broker.Body.{get_field, get_field-set, get_field-set_other, text_of}
use codex_auth_broker.Aggregate.Order.{IsSorted, group, group-sort_items, sort_items-IsSorted}
use codex_auth_broker.Sse.Chunks.{concat}
use codex_auth_broker.Sse.Events.{
  Event, Fits, deliver, payload, read_sse-write_events, reported, write_events,
}
use codex_auth_broker.Sse.{ConsumeError, complete}
use codex_auth_broker.Prelude.Text.{Bytes, beq, codes, trim_space}

-- The types of events that finish an item or bring the response.
abbrev pub IsTyped : GatherKind → Bytes → Type 0
IsTyped item_done type = type ≡ codes "response.output_item.done"
IsTyped terminal type =
    (type ≡ codes "response.completed")
    ⊎ (type ≡ codes "response.done")
    ⊎ (type ≡ codes "response.incomplete")
    ⊎ (type ≡ codes "response.failed")
IsTyped failed type = type ≡ codes "error"
IsTyped other type = ⊥

IsTyped-kind : (kind : GatherKind) (type : Bytes) → IsTyped kind type → gather_kind type ≡ kind
unfolding gather_kind beq
IsTyped-kind item_done type h = rw h refl
IsTyped-kind terminal type (inl h) = rw h refl
IsTyped-kind terminal type (inr (inl h)) = rw h refl
IsTyped-kind terminal type (inr (inr (inl h))) = rw h refl
IsTyped-kind terminal type (inr (inr (inr h))) = rw h refl
IsTyped-kind failed type h = rw h refl
IsTyped-kind other type h = absurd h

-- An event's number is its place in the output; without one it is the first.
abbrev pub IsIndex : Option Float64 → ℤ → Type 0
IsIndex none index = index ≡ pos 0
IsIndex (some f) index = index ≡ to_int_64 f

IsIndex-index_of :
    (event : Fields) (index : ℤ)
    → IsIndex (numeric_field event (codes "output_index")) index
    → index_of event ≡ index
IsIndex-index_of event index h = at (numeric_field event (codes "output_index")) h
  where
    at :
        (o : Option Float64)
        → IsIndex o index
        → elim o [ some f ↦ to_int_64 f | none ↦ pos 0 ] ≡ index
    at none h = sym h
    at (some f) h = sym h

module _ (parse : Bytes → Option Fields) where
  -- The data of an event, which is an object of a kind.
  pub record IsWritten (kind : GatherKind) (bytes : Bytes) (event : Fields) : Type 0 where
    pub is_data : (beq (trim_space bytes) [] || beq (trim_space bytes) (codes "[DONE]")) ≡ false
    pub parsed : parse (trim_space bytes) ≡ some event
    pub typed : IsTyped kind (text_of (get_field (codes "type") event))

  -- The event of a finished item.
  pub record DoneEvent : Type 0 where
    pub wire : Event
    pub event : Fields
    pub item : Fields
    pub index : ℤ
    pub placed : IsIndex (numeric_field event (codes "output_index")) index
    pub written : IsWritten item_done (payload wire) event
    pub named : object_field event (codes "item") ≡ some item

  abbrev pub wires : List DoneEvent → List Event
  wires [] = []
  wires (d ∷ ds) = d.wire ∷ wires ds

  abbrev pub indexed : List DoneEvent → List IndexedItem
  indexed [] = []
  indexed (d ∷ ds) = record { index = d.index; item = d.item } ∷ indexed ds

  -- How many bytes the data of the events has.
  abbrev pub data_bytes : List DoneEvent → ℕ
  data_bytes [] = 0
  data_bytes (d ∷ ds) = length (trim_space (payload d.wire)) + data_bytes ds

  -- The event of the response.
  pub record IsFinal (e : Event) (response : Fields) : Type 0 where
    pub event : Fields
    pub written : IsWritten terminal (payload e) event
    pub responds : object_field event (codes "response") ≡ some response

  gather_written :
      (g : Gathering) (kind : GatherKind) (bytes : Bytes) (event : Fields)
      → IsWritten kind bytes event
      → gather parse g bytes ≡ gather_event kind (length (trim_space bytes)) event g
  unfolding gather
  gather_written g kind bytes event w =
      rw (w.is_data, w.parsed, IsTyped-kind kind (text_of (get_field (codes "type") event)) w.typed)
        refl

  same_gathering :
      (final : Option Fields) {a b : List IndexedItem} {m n : ℕ}
      → a ≡ b
      → m ≡ n
      → Path
          (Gathering × Option ConsumeError)
          (record { final = final; items = a; retained_bytes = m }, some complete)
          (record { final = final; items = b; retained_bytes = n }, some complete)
  same_gathering final p q =
      λ i. (record { final = final; items = p i; retained_bytes = q i }, some complete)

  -- The items are gathered, and then the response is.
  abbrev gathered : Gathering → List DoneEvent → Fields → Gathering
  gathered g ds response = record {
    final = some response;
    items = g.items ++ indexed ds;
    retained_bytes = g.retained_bytes + data_bytes ds;
  }

  gather-last :
      (g : Gathering) (last : Event) (response : Fields)
      → IsFinal last response
      → gather parse g (payload last) ≡ (record g { final = some response }, some complete)
  gather-last g last response f =
      gather_written g terminal (payload last) f.event f.written
      ∙ unfold gather_event in rw f.responds refl

  gather-done :
      (g : Gathering) (d : DoneEvent)
      → g.retained_bytes + length (trim_space (payload d.wire)) ≤ max_request_body_bytes
      → gather parse g (payload d.wire) ≡ (
        record g {
          items = g.items ++ (record { index = d.index; item = d.item } ∷ []);
          retained_bytes = g.retained_bytes + length (trim_space (payload d.wire));
        },
        none,
      )
  gather-done g d fits =
      gather_written g item_done (payload d.wire) d.event d.written
      ∙ unfold gather_event in
        let small : ltb max_request_body_bytes
              (g.retained_bytes + length (trim_space (payload d.wire)))
            ≡ false =
          ground arith in
        rw (small, d.named, IsIndex-index_of d.event d.index d.placed) refl

  deliver-wires :
      (ds : List DoneEvent) (g : Gathering) (last : Event) (response : Fields)
      → IsFinal last response
      → g.retained_bytes + data_bytes ds ≤ max_request_body_bytes
      → deliver (gather parse) g (wires ds ++ (last ∷ [])) ≡ (gathered g ds response, some complete)
  unfolding deliver
  deliver-wires [] g last response f fits =
      let q = gather-last g last response f in
      rw (ap (λ r. r.1) q, ap (λ r. r.0) q, deliver)
        (same_gathering (some response) (sym (append-nil g.items)) (omega arith))
  deliver-wires (d ∷ ds) g last response f fits =
      let q = gather-done g d (omega arith) in
      rw (ap (λ r. r.1) q, ap (λ r. r.0) q, deliver)
        (deliver-wires ds _ last response f (omega arith)
          ∙ same_gathering (some response) (append_assoc g.items (_ ∷ []) (indexed ds))
              (omega arith))

-- The response has an output that is not empty.
abbrev pub HasOutput : Fields → Type 0
HasOutput response =
    (v : Value) × (vs : Items) × (get_field (codes "output") response ≡ some (arr (cons v vs)))

-- Upstream's response with the finished items put into it, sorted by their index; items of one index
-- keep the order in which they came.
pub record IsGathered (response : Fields) (items : List IndexedItem) (result : Fields)
    : Type 0 where
  pub whole : HasOutput response → result ≡ response
  pub empty : items ≡ [] → result ≡ response
  pub filled :
      (x : IndexedItem) (xs : List IndexedItem)
      → items ≡ x ∷ xs
      → ¬ (HasOutput response)
      → (sorted : List IndexedItem) × (get_field (codes "output") result
          ≡ some (arr (items_of sorted)))
        × IsSorted sorted
        × ((k : ℤ) → group k sorted ≡ group k items)
        × ((key : Bytes) → key ≢ codes "output" → get_field key result ≡ get_field key response)

HasOutput-has : (response : Fields) → HasOutput response → lacks_output response ≡ false
HasOutput-has response (v, vs, e) = rw (e, lacks_output) refl

lacking : (response : Fields) → ¬ (HasOutput response) → lacks_output response ≡ true
lacking response no_output = at (get_field (codes "output") response) refl
  where
    at :
        (o : Option Value)
        → get_field (codes "output") response ≡ o
        → elim o [ some (arr (cons _ _)) ↦ false | _ ↦ true ] ≡ true
    at none e = refl
    at (some (arr (cons v vs))) e = absurd (no_output (v, vs, e))
    at (some (arr nil)) e = refl
    at (some null) e = refl
    at (some (bool _)) e = refl
    at (some (num _)) e = refl
    at (some (str _)) e = refl
    at (some (obj _)) e = refl

with_output-IsGathered :
    (response : Fields) (items : List IndexedItem)
    → IsGathered response items (with_output response items)
unfolding with_output
with_output-IsGathered response [] = record {
  whole = λ e. refl;
  empty = λ e. refl;
  filled = λ x xs e lacks. cc e;
}
with_output-IsGathered response (y ∷ ys) = record {
  whole = λ has. rw (HasOutput-has response has) refl;
  empty = λ e. cc e;
  filled = λ x xs e lacks. rw (lacking response lacks) (
    sort_items (y ∷ ys),
    get_field-set (codes "output") (arr (items_of (sort_items (y ∷ ys)))) response,
    sort_items-IsSorted (y ∷ ys),
    λ k. group-sort_items k (y ∷ ys),
    λ key ne.
        get_field-set_other key (codes "output") (arr (items_of (sort_items (y ∷ ys)))) response ne,
  );
}

-- If upstream writes the events of finished items, whose data has no more bytes than the limit, and
-- then an event with the response, the aggregate is that response: as it is if it has an output or
-- there were no items, and otherwise with the items as its output, sorted by their index and in the
-- order of their events where the index is the same, and with every other field as it was; however
-- the bytes come in chunks.
pub aggregate_responses_sse-IsGathered :
    (parse : Bytes → Option Fields) (ds : List (DoneEvent parse)) (last : Event) (response : Fields)
    (chunks : List Bytes)
    → IsFinal parse last response
    → All (Fits max_request_body_bytes) (wires parse ds ++ (last ∷ []))
    → data_bytes parse ds ≤ max_request_body_bytes
    → concat chunks ≡ write_events (wires parse ds ++ (last ∷ []))
    → (result : Fields) × (aggregate_responses_sse parse chunks true ≡ aggregated result)
      × IsGathered response (indexed parse ds) result
unfolding aggregate_responses_sse
aggregate_responses_sse-IsGathered parse ds last response chunks f fit small written =
    let read =
      read_sse-write_events (gather parse) max_request_body_bytes (wires parse ds ++ (last ∷ []))
        chunks nothing_gathered fit written in
    let delivered = deliver-wires parse ds nothing_gathered last response f (omega arith) in
    (
      with_output response (indexed parse ds),
      ap aggregate_end (read ∙ ap (reported (gather parse)) delivered)
          ∙ unfold aggregate_end in refl,
      with_output-IsGathered response (indexed parse ds),
    )
