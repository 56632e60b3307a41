-- ===== src/Aggregate/Tests.antt =====
-- proxy.go, the aggregation of a stream on a concrete input: two items that come in the wrong order,
-- and a response without output.
use codex_auth_broker.Prelude.Json.{Fields, end, field, fin, num, obj, str, to_int_64}
use codex_auth_broker.Usage.{numeric_field, object_field}
use codex_auth_broker.Prelude.{
  List, Option, [], arith, false, if◌then◌else◌, inl, none, refl, some, true, ◌∷◌, ◌≡◌,
}
use codex_auth_broker.Sse.{trim_cr}
use codex_auth_broker.Aggregate.Written.{
  DoneEvent, IsFinal, IsGathered, aggregate_responses_sse-IsGathered, indexed,
}
use codex_auth_broker.Aggregate.{aggregate_responses_sse, aggregated, gather_kind}
use codex_auth_broker.Sse.Events.{Event}
use codex_auth_broker.Body.{get_field}
use codex_auth_broker.Prelude.Text.{Bytes, beq, codes, is_space, trim_left, trim_space}
use codex_auth_broker.Prelude.Int.{pos}

abbrev typed : Bytes → Fields → Fields
typed type rest = field (codes "type") (str type) rest

abbrev item : Bytes → Fields
item id = field (codes "id") (str id) end

abbrev second_event : Fields
second_event = typed (codes "response.output_item.done") (
    field (codes "output_index") (num (fin false 1 1074))
      (field (codes "item") (obj (item (codes "b"))) end))

abbrev first_event : Fields
first_event =
    typed (codes "response.output_item.done") (field (codes "item") (obj (item (codes "a"))) end)

abbrev response : Fields
response = field (codes "id") (str (codes "r")) end

abbrev last_event : Fields
last_event = typed (codes "response.completed") (field (codes "response") (obj response) end)

-- Each event is written as one letter.
unfoldable parse : Bytes → Option Fields
parse bytes =
    if beq bytes (codes "b")
    then some second_event
    else if beq bytes (codes "a")
    then some first_event
    else if beq bytes (codes "z")
    then some last_event
    else none

abbrev line : Bytes → Event
line s = record { first = s; others = [] }

done_b : DoneEvent parse
unfolding parse beq trim_space trim_left is_space gather_kind get_field object_field numeric_field
    to_int_64
done_b = record {
  wire = line (codes "b");
  event = second_event;
  item = item (codes "b");
  index = pos 1;
  placed = refl;
  written = record { is_data = refl; parsed = refl; typed = refl };
  named = refl;
}

done_a : DoneEvent parse
unfolding parse beq trim_space trim_left is_space gather_kind get_field object_field numeric_field
done_a = record {
  wire = line (codes "a");
  event = first_event;
  item = item (codes "a");
  index = pos 0;
  placed = refl;
  written = record { is_data = refl; parsed = refl; typed = refl };
  named = refl;
}

IsFinal-z : IsFinal parse (line (codes "z")) response
unfolding parse beq trim_space trim_left is_space gather_kind get_field object_field
IsFinal-z = record {
  event = last_event;
  written = record { is_data = refl; parsed = refl; typed = inl refl };
  responds = refl;
}

abbrev chunks : List Bytes
chunks = codes "data: b\n\ndata: a\n" ∷ codes "\ndata: z\n\n" ∷ []

aggregate_responses_sse-IsGathered_example :
    (result : Fields) × (aggregate_responses_sse parse chunks true ≡ aggregated result)
    × IsGathered response (indexed parse (done_b ∷ done_a ∷ [])) result
unfolding done_a done_b trim_cr trim_space trim_left is_space
aggregate_responses_sse-IsGathered_example =
    aggregate_responses_sse-IsGathered parse (done_b ∷ done_a ∷ []) (line (codes "z")) response
      chunks IsFinal-z (ground arith) (omega arith) refl
