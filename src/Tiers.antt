-- ===== src/Tiers.antt =====
-- service_tiers.go and pricing.go: whether an account's catalog lists a service tier for a model.
-- The catalog is what `accountTierModels` returned; `is_date` tells whether time.Parse accepts a
-- text of ten characters as a date.
pub mod Listing
use codex_auth_broker.Prelude.{
  Bool, List, Option, [], false, if◌then◌else◌, length, none, not, some, true, ◌&&◌, ◌++◌, ◌==◌,
  ◌||◌, ◌∷◌,
}
use codex_auth_broker.Prelude.Text.{Bytes, beq, codes, cut_prefix, to_lower, trim_space}

-- An entry of the catalog, with the ids of its service tiers.
pub record UpstreamModel : Type 0 where
  pub slug : Bytes
  pub service_tiers : List Bytes

unfoldable pub is_dated_model_snapshot : (Bytes → Bool) → Bytes → Bytes → Bool
is_dated_model_snapshot is_date model candidate = elim (cut_prefix (candidate ++ codes "-") model) [
  | none ↦ false
  | some date ↦ length date == 10 && is_date date
]

-- The first entry that passes a test.
unfoldable pub find_model : (UpstreamModel → Bool) → List UpstreamModel → Option UpstreamModel
find_model test [] = none
find_model test (m ∷ models) = let rest = find_model test models in if test m then some m else rest

-- `selected`: the entry of the model, or else of the model that it is a snapshot of.
unfoldable pub select_model : (Bytes → Bool) → Bytes → List UpstreamModel → Option UpstreamModel
select_model is_date model models = elim (find_model (λ m. beq (to_lower m.slug) model) models) [
  | some m ↦ some m
  | none ↦ find_model (λ m. is_dated_model_snapshot is_date model (to_lower m.slug)) models
]

unfoldable pub lists_tier : Bytes → List Bytes → Bool
lists_tier tier [] = false
lists_tier tier (id ∷ ids) = beq id tier || lists_tier tier ids

-- A catalog that could not be fetched is `none`.
unfoldable pub account_supports_tier :
    (Bytes → Bool) → Option (List UpstreamModel) → Bytes → Bytes → Bool
account_supports_tier is_date catalog model tier =
    if not (beq tier (codes "priority")) then true else elim catalog [
      | none ↦ true
      | some models ↦ elim (select_model is_date (to_lower (trim_space model)) models) [
        | none ↦ false
        | some m ↦ lists_tier tier m.service_tiers
      ]
    ]
