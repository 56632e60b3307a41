-- ===== src/Normalize/Tests.antt =====
-- Concrete runs of the normalization of a request body.
use codex_auth_broker.Prelude.Json.{Fields, Items, arr, cons, end, field, nil, obj, str}
use codex_auth_broker.Normalize.{
  demote_system_roles, normalize_responses_body, other_params, token_params,
}
use codex_auth_broker.Body.{get_field, set_field, string_field}
use codex_auth_broker.Prelude.Text.{Bytes, beq, codes, trim_space}
use codex_auth_broker.Normalize.Accepted.{normalize_responses_body-IsAccepted}
use codex_auth_broker.Models.{one_of}
use codex_auth_broker.Models.Tier.{IsTiered, alias_key}
use codex_auth_broker.Routing.{ClientRequest}
use codex_auth_broker.Prelude.{[], none, refl, true, ◌≡◌, ◌⊎◌}

abbrev no_headers : ClientRequest
no_headers name = []

abbrev body : Fields
body =
    field (codes "model") (str (codes "gpt-5.5")) (
      field (codes "user") (str (codes "u"))
        (field (codes "service_tier") (str (codes "fast")) end))

normalize_responses_body-IsAccepted_example :
    let (b, info) = normalize_responses_body [] no_headers body in
    ((key : Bytes)
      → (one_of key token_params ≡ true) ⊎ (one_of key other_params ≡ true)
      → get_field key b ≡ none)
    × (get_field alias_key b ≡ none)
    × IsTiered info.normalized_model b info.service_tier
normalize_responses_body-IsAccepted_example = normalize_responses_body-IsAccepted [] no_headers body

abbrev role : Bytes → Items
role r = cons (obj (field (codes "role") (str r) end)) nil

demoted : demote_system_roles (role (codes "system")) ≡ role (codes "developer")
unfolding demote_system_roles beq string_field trim_space get_field set_field
demoted = refl

abbrev system_body : Fields
system_body = field (codes "input") (arr (role (codes "system"))) end
