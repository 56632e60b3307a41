-- ===== src/Relay/Tests.antt =====
-- proxy.go, the relaying of error bodies on a concrete input: a body with a detail, and one with an
-- error of its own.
use codex_auth_broker.Chat.{itoa}
use codex_auth_broker.Relay.{
  attributes_of, is_attribute_char, safe_error_attribute, safe_error_attributes, sprint,
}
use codex_auth_broker.Redact.{every, join, redact_token_like_text}
use codex_auth_broker.Usage.{object_field}
use codex_auth_broker.Body.{get_field, set_field, string_field}
use codex_auth_broker.Prelude.Text.{Bytes, beq, codes, trim_space}
use codex_auth_broker.Relay.Envelope.{
  Envelops, envelope_of, error_key, error_object, normalize_upstream_error_body,
  normalize_upstream_error_body-Envelops, put_beside, summarize_upstream_error,
}
use codex_auth_broker.Prelude.Int.{pos}
use codex_auth_broker.Prelude.Json.{Fields, Float64, end, field, obj, str}
use codex_auth_broker.Prelude.{Option, [], if◌then◌else◌, none, refl, some, ◌≡◌}

abbrev detail : Fields
detail = field (codes "detail") (str (codes "no system messages")) end

abbrev quota : Fields
quota = field (codes "error") (obj (field (codes "code") (str (codes "quota")) end)) end

unfoldable parse : Bytes → Option Fields
parse bytes =
    if beq bytes (codes "d")
    then some detail
    else if beq bytes (codes "q")
    then some quota
    else none

abbrev marshal : Fields → Option Bytes
marshal fs = some (codes "encoded")

abbrev no_print : Float64 → Bytes
no_print f = []

detail_envelope :
    envelope_of detail 400
    ≡ field error_key (obj (error_object (codes "no system messages") 400)) detail
unfolding put_beside beq set_field string_field trim_space get_field
detail_envelope = refl

quota_summary :
    summarize_upstream_error no_print parse (codes "q") (pos 429)
    ≡ codes "upstream returned 429 (code=quota)"
unfolding summarize_upstream_error beq trim_space parse safe_error_attributes join attributes_of
    safe_error_attribute sprint get_field object_field every is_attribute_char itoa
quota_summary = refl

normalize_upstream_error_body-Envelops_example :
    Envelops parse marshal
      (redact_token_like_text (codes "d"))
      400
      (normalize_upstream_error_body parse marshal (codes "d") 400)
normalize_upstream_error_body-Envelops_example =
    normalize_upstream_error_body-Envelops parse marshal (codes "d") 400
