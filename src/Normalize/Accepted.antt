-- ===== src/Normalize/Accepted.antt =====
-- What upstream gets from `normalizeResponsesBody` of proxy.go, whatever the client sent.
use codex_auth_broker.Body.{get_field}
use codex_auth_broker.Models.{normalize_service_tier, one_of}
use codex_auth_broker.Models.Tier.{IsTiered, alias_key, normalize_service_tier-IsTiered, tier_key}
use codex_auth_broker.Normalize.{
  default_field, fill_defaults, normalize_input, normalize_model, normalize_responses_body,
  other_params, remove_unsupported_params, set_cache_key, stable_prompt_cache_key, token_params,
}
use codex_auth_broker.Normalize.Params.{
  IsApart, default_field-other, later-other, one_of-IsApart, remove_unsupported_params-in,
  remove_unsupported_params-other, written,
}
use codex_auth_broker.Routing.{ClientRequest}
use codex_auth_broker.Prelude.Json.{Fields, bool}
use codex_auth_broker.Prelude.{
  Bool, Bool-cases, List, [], arith, false, inl, inr, none, not, refl, true, ◌&&◌, ◌++◌, ◌∙◌, ◌∷◌,
  ◌≡◌, ◌⊎◌,
}
use codex_auth_broker.Prelude.Text.{Bytes, beq, beq_iff, codes}

abbrev options_key : Bytes
options_key = codes "prompt_cache_options"

-- No key of the one list is in the other, as a test.
none_in : List Bytes → List Bytes → Bool
none_in [] others = true
none_in (k ∷ keys) others = not (one_of k others) && none_in keys others

none_in-IsApart :
    (key : Bytes) (keys others : List Bytes)
    → none_in keys others ≡ true
    → one_of key keys ≡ true
    → IsApart key others
unfolding none_in one_of
none_in-IsApart key [] others h k = cc
none_in-IsApart key (x ∷ keys) others h k = elim (Bool-cases (beq key x)) [
  | inl same ↦ let e = (beq_iff key x).0 same in rw e (one_of-IsApart x others (ground arith))
  | inr other ↦ none_in-IsApart key keys others (ground arith) (rw other at k)
]

tokens_apart : none_in token_params (options_key ∷ written) ≡ true
unfolding none_in one_of beq
tokens_apart = refl

others_apart : none_in other_params (options_key ∷ written) ≡ true
unfolding none_in one_of beq
others_apart = refl

-- The two keys of the tier, and all keys that are written or removed behind it.
tiers_apart :
    none_in
      (tier_key ∷ alias_key ∷ [])
      (codes "store" ∷ options_key ∷ (token_params ++ (other_params ++ written)))
    ≡ true
unfolding none_in one_of beq
tiers_apart = refl

IsApart-append :
    (key : Bytes) (xs ys : List Bytes) → IsApart key (xs ++ ys) → IsApart key xs × IsApart key ys
IsApart-append key [] ys h = (tt, h)
IsApart-append key (x ∷ xs) ys h = let (hx, hy) = IsApart-append key xs ys h.1 in ((h.0, hx), hy)

-- The body behind the tier, as it leaves.
abbrev sent : Fields → Bytes → Bytes → Bytes → Fields
sent body model stable configured =
    (set_cache_key
      (fill_defaults (
        normalize_input
          (remove_unsupported_params (default_field (codes "store") (bool false) body) model)))
      stable configured).0

sent-removed :
    (key : Bytes) (body : Fields) (model stable configured : Bytes)
    → (one_of key token_params ≡ true) ⊎ (one_of key other_params ≡ true)
    → get_field key (sent body model stable configured) ≡ none
sent-removed key body model stable configured h =
    let (options, later) = apart h in
    later-other key _ stable configured later ∙ remove_unsupported_params-in key model _ h options
  where
    apart :
        (one_of key token_params ≡ true) ⊎ (one_of key other_params ≡ true)
        → IsApart key (options_key ∷ written)
    apart (inl k) = none_in-IsApart key token_params (options_key ∷ written) tokens_apart k
    apart (inr k) = none_in-IsApart key other_params (options_key ∷ written) others_apart k

sent-tier :
    (key : Bytes) (body : Fields) (model stable configured : Bytes)
    → one_of key (tier_key ∷ alias_key ∷ []) ≡ true
    → get_field key (sent body model stable configured) ≡ get_field key body
sent-tier key body model stable configured h =
    let (store, (options, rest)) =
      none_in-IsApart key (tier_key ∷ alias_key ∷ []) _ tiers_apart h in
    let (tokens, rest') = IsApart-append key token_params (other_params ++ written) rest in
    let (others, later) = IsApart-append key other_params written rest' in
    later-other key _ stable configured later
    ∙ remove_unsupported_params-other key model _ tokens others options
    ∙ default_field-other key (codes "store") (bool false) body store

-- Whatever body a client sends, the normalized body has none of the parameters that upstream
-- rejects (token limits, session and user ids, retention and stream options, log probabilities), in
-- either spelling, no `serviceTier`, and no service tier but `priority`, `flex` or, for a
-- normalized model that serves it, `ultrafast`; the tier it carries is the one that is logged.
pub normalize_responses_body-IsAccepted :
    (configured : Bytes) (r : ClientRequest) (body : Fields)
    → let (b, info) = normalize_responses_body configured r body in
      ((key : Bytes)
        → (one_of key token_params ≡ true) ⊎ (one_of key other_params ≡ true)
        → get_field key b ≡ none)
      × (get_field alias_key b ≡ none)
      × IsTiered info.normalized_model b info.service_tier
unfolding normalize_responses_body
normalize_responses_body-IsAccepted configured r body =
    let (b1, _, model, _) = normalize_model body in
    let (b2, tier) = normalize_service_tier b1 model in
    let stable = stable_prompt_cache_key r (default_field (codes "store") (bool false) b2) in
    let (tiered, alias, _) = normalize_service_tier-IsTiered b1 model in
    let kept = sent-tier tier_key b2 model stable configured is_tier in
    (
      λ key h. sent-removed key b2 model stable configured h,
      sent-tier alias_key b2 model stable configured is_alias ∙ alias,
      elim tiered [ inl (e, w) ↦ inl (kept ∙ e, w) | inr (e, w) ↦ inr (kept ∙ e, w) ],
    )
  where
    is_tier : one_of tier_key (tier_key ∷ alias_key ∷ []) ≡ true
    is_tier = unfold one_of beq in refl

    is_alias : one_of alias_key (tier_key ∷ alias_key ∷ []) ≡ true
    is_alias = unfold one_of beq in refl
