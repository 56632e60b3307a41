-- ===== src/Dispatch/Wire.antt =====
-- The body that `dispatchUpstream` of proxy.go sends to the account it picked.
use codex_auth_broker.Prelude.{
  Bool, Bool-cases, List, Option, Option-cases, arith, false, inl, inr, none, not, refl, some, true,
  ◌&&◌, ◌∙◌, ◌≡◌, ◌≢◌, ◌⊎◌,
}
use codex_auth_broker.Tiers.Listing.{Answers, Lacks, Lists, account_supports_tier-Answers}
use codex_auth_broker.Dispatch.{Env, wire_body}
use codex_auth_broker.Body.{
  delete_field, get_field, get_field-delete, get_field-delete_other, get_field-set,
  get_field-set_other, set_field, string_field,
}
use codex_auth_broker.Tiers.{UpstreamModel, account_supports_tier}
use codex_auth_broker.Prelude.Json.{Fields, bool}
use codex_auth_broker.Prelude.Text.{Bytes, beq, beq-ne, beq_iff, codes}
use mathlib.Core.Path.{subst}

abbrev pub tier_key : Bytes
tier_key = codes "service_tier"

abbrev pub stream_key : Bytes
stream_key = codes "stream"

-- The body without the tier, streamed.
abbrev stripped : Fields → Fields
stripped body = set_field stream_key (bool true) (delete_field tier_key body)

tier_key-stream_key : tier_key ≢ stream_key
tier_key-stream_key e = cc

stripped-tier : (body : Fields) → get_field tier_key (stripped body) ≡ none
stripped-tier body =
    get_field-set_other tier_key stream_key (bool true) (delete_field tier_key body)
      tier_key-stream_key
    ∙ get_field-delete tier_key body

stripped-other :
    (body : Fields) (key : Bytes)
    → key ≢ tier_key
    → key ≢ stream_key
    → get_field key (stripped body) ≡ get_field key body
stripped-other body key ne ne' =
    get_field-set_other key stream_key (bool true) (delete_field tier_key body) ne'
    ∙ get_field-delete_other key tier_key body ne

-- The body without the tier, streamed, and with every other field as it was.
abbrev pub IsStripped : Fields → Fields → Type 0
IsStripped body wire =
    (get_field tier_key wire ≡ none)
    × (get_field stream_key wire ≡ some (bool true))
    × ((key : Bytes) → key ≢ tier_key → key ≢ stream_key → get_field key wire ≡ get_field key body)

stripped-IsStripped : (body : Fields) → IsStripped body (stripped body)
stripped-IsStripped body = (
  stripped-tier body,
  get_field-set stream_key (bool true) (delete_field tier_key body),
  stripped-other body,
)

-- The two ways to send a body to an account: as it is, if it does not ask for the priority tier or
-- the account's catalog lists that, or else stripped and encoded anew. Nothing is sent only if the
-- stripped body cannot be encoded.
abbrev pub Sends :
    Env → Option (List UpstreamModel) → Fields → Bytes → Option (Fields × Bytes) → Type 0
Sends env catalog body encoded none =
    let tier = string_field body tier_key in
    (tier ≡ codes "priority")
    × Lacks env.is_date catalog env.info.normalized_model tier
    × (wire : Fields) × IsStripped body wire
    × (env.marshal wire ≡ none)
Sends env catalog body encoded (some (wire, wire_encoded)) =
    let tier = string_field body tier_key in
    ((wire ≡ body)
      × (wire_encoded ≡ encoded)
      × ((tier ≢ codes "priority") ⊎ Lists env.is_date catalog env.info.normalized_model tier))
    ⊎ ((tier ≡ codes "priority")
        × Lacks env.is_date catalog env.info.normalized_model tier
        × IsStripped body wire
        × (env.marshal wire ≡ some wire_encoded))

-- The body that goes to an account asks for the priority tier only if the request did and the
-- account's catalog could not be had, or lists the tier in the model's entry: the first that has the
-- model's name, or if there is none the first that the model is a dated snapshot of. Where the
-- catalog has no such entry, or an entry without the tier, the tier is taken out and the body encoded
-- again, with `stream` set and every other field as it was; only if that cannot be encoded, there is
-- no body to send.
pub wire_body-Sends :
    (env : Env) (catalog : Option (List UpstreamModel)) (body : Fields) (encoded : Bytes)
    → Sends env catalog body encoded (wire_body env catalog body encoded)
unfolding wire_body
wire_body-Sends env catalog body encoded =
    elim (Bool-cases (beq tier (codes "priority") && not supported)) [
      | inr as_is ↦ rw (as_is, wire_body) (inl (refl, refl, why as_is))
      | inl strip ↦ elim (Option-cases (env.marshal (stripped body))) [
        | inl e ↦
            rw (strip, e, wire_body)
              (priority strip, lacks strip, stripped body, stripped-IsStripped body, e)
        | inr (bytes, e) ↦
            rw (strip, e, wire_body)
              (inr (priority strip, lacks strip, stripped-IsStripped body, e))
      ]
    ]
  where
    tier : Bytes
    tier = string_field body tier_key

    supported : Bool
    supported = account_supports_tier env.is_date catalog env.info.normalized_model tier

    says :
        tier ≡ codes "priority"
        → Answers env.is_date catalog env.info.normalized_model tier supported
    says = account_supports_tier-Answers env.is_date catalog env.info.normalized_model tier

    priority : (beq tier (codes "priority") && not supported) ≡ true → tier ≡ codes "priority"
    priority h' = (beq_iff tier (codes "priority")).0 (ground arith)

    lacks :
        (beq tier (codes "priority") && not supported) ≡ true
        → Lacks env.is_date catalog env.info.normalized_model tier
    lacks h' =
        let refused : supported ≡ false = ground arith in
        subst (Answers env.is_date catalog env.info.normalized_model tier) refused
          (says (priority h'))

    why :
        (beq tier (codes "priority") && not supported) ≡ false
        → (tier ≢ codes "priority") ⊎ Lists env.is_date catalog env.info.normalized_model tier
    why h' = elim (Bool-cases (beq tier (codes "priority"))) [
      | inr other ↦ inl (beq-ne tier (codes "priority") other)
      | inl same ↦
          let good : supported ≡ true = ground arith in
          inr (
            subst (Answers env.is_date catalog env.info.normalized_model tier) good
              (says ((beq_iff tier (codes "priority")).0 same)))
    ]
