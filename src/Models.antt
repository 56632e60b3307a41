-- ===== src/Models.antt =====
-- proxy.go and pricing.go, names of models, efforts and service tiers as clients write them.
pub mod Tier
mod Tests
use codex_auth_broker.Body.{delete_field, set_field, string_field}
use codex_auth_broker.Prelude.Json.{Fields, str}
use codex_auth_broker.Prelude.{
  Bool, List, Option, [], drop, false, if◌then◌else◌, leb, length, none, not, some, take, true, ℕ,
  ◌&&◌, ◌++◌, ◌+◌, ◌-◌, ◌==◌, ◌||◌, ◌∷◌,
}
use codex_auth_broker.Prelude.Text.{Bytes, beq, codes, cut_prefix, has_prefix, to_lower, trim_space}
use mathlib.Core.List.{reverse}

-- strings.HasSuffix
unfoldable pub has_suffix : Bytes → Bytes → Bool
unfolding cut_prefix
has_suffix suffix s = has_prefix (reverse suffix) (reverse s)

-- strings.TrimPrefix
unfoldable pub trim_prefix : Bytes → Bytes → Bytes
trim_prefix p s = elim (cut_prefix p s) [ none ↦ s | some rest ↦ rest ]

unfoldable pub one_of : Bytes → List Bytes → Bool
one_of name [] = false
one_of name (x ∷ xs) = beq name x || one_of name xs

-- s[:len(s)-n]
abbrev pub drop_last : ℕ → Bytes → Bytes
drop_last n s = take (length s - n) s

unfoldable pub normalize_reasoning_effort : Bytes → Bytes
normalize_reasoning_effort value =
    let v = to_lower (trim_space value) in
    if beq v (codes "minimal")
    then codes "low"
    else if one_of v
        (codes "low" ∷ codes "medium" ∷ codes "high" ∷ codes "xhigh" ∷ codes "max" ∷ [])
    then v
    else if beq v (codes "ultra")
    then codes "max"
    else []

-- The loop of `splitServiceTierSuffix` over the aliases.
unfoldable pub split_alias : Bytes → Bytes → List Bytes → Bytes × Bytes
split_alias model trimmed [] = (model, [])
split_alias model trimmed (alias ∷ aliases) =
    let rest = split_alias model trimmed aliases in
    let suffix = codes "(" ++ (alias ++ codes ")") in
    if has_suffix suffix (to_lower trimmed)
    then (trim_space (drop_last (length suffix) trimmed), codes "ultrafast")
    else rest

unfoldable pub split_service_tier_suffix : Bytes → Bytes × Bytes
split_service_tier_suffix model =
    split_alias model (trim_space model)
      (codes "ultrafast" ∷ codes "ultra-fast" ∷ codes "ultra_fast" ∷ [])

-- strings.LastIndex of a character, from an index on.
unfoldable pub last_index : ℕ → ℕ → Bytes → Option ℕ
last_index sep i [] = none
last_index sep i (c ∷ s) =
    let later = last_index sep (i + 1) s in
    elim later [ some j ↦ some j | none ↦ if c == sep then some i else none ]

-- The effort in parentheses behind a model's name.
unfoldable pub split_effort : Bytes → Bytes × Bytes
split_effort model = elim (last_index b'(' 0 model) [
  | none ↦ (model, [])
  | some open_at ↦
      let inside = drop (open_at + 1) model in
      let candidate = to_lower (trim_space (drop_last 1 inside)) in
      let effort = normalize_reasoning_effort candidate in
      if has_suffix (codes ")") model
        && (not (beq effort []) || beq candidate (codes "off") || beq candidate (codes "none"))
      then (trim_space (take open_at model), effort)
      else (model, [])
]

-- The loop over the suffixes, with the effort found before.
unfoldable pub cut_suffixes : Bytes → Bytes → List Bytes → Bytes × Bytes
cut_suffixes model effort [] = (model, effort)
cut_suffixes model effort (suffix ∷ suffixes) =
    let rest = cut_suffixes model effort suffixes in
    if has_suffix suffix (to_lower model)
    then (
      trim_space (drop_last (length suffix) model),
      if beq suffix (codes "-non-reasoning")
          then effort
          else normalize_reasoning_effort (trim_prefix (codes "-") suffix),
    )
    else rest

abbrev effort_suffixes : List Bytes
effort_suffixes =
    codes "-non-reasoning"
    ∷ codes "-ultra"
    ∷ codes "-xhigh"
    ∷ codes "-high"
    ∷ codes "-medium"
    ∷ codes "-low"
    ∷ codes "-max"
    ∷ []

unfoldable pub normalize_factory_model : Bytes → Bytes × Bytes
normalize_factory_model raw =
    let m1 = trim_prefix (codes "openai-codex/") (trim_space raw) in
    let m2 = if has_prefix (codes "custom:") (to_lower m1) then trim_space (drop 7 m1) else m1 in
    let (m3, effort) = split_effort m2 in
    let (m4, effort') = cut_suffixes m3 effort effort_suffixes in
    (elim (cut_prefix (codes "GPT-") m4) [ none ↦ m4 | some rest ↦ codes "gpt-" ++ rest ], effort')

-- The loop of `supportsUltrafast` over the models that serve the tier.
unfoldable pub serves_ultrafast : Bytes → List Bytes → Bool
serves_ultrafast model [] = false
serves_ultrafast model (m ∷ ms) =
    beq model m || has_prefix (m ++ codes "-") model || serves_ultrafast model ms

unfoldable pub supports_ultrafast : Bytes → Bool
supports_ultrafast model =
    serves_ultrafast (to_lower (trim_space model)) (codes "gpt-6-astra" ∷ codes "gpt-6.1-sol" ∷ [])

-- The tier a request asks for, lower case, and with one spelling of ultrafast.
unfoldable pub requested_tier : Fields → Bytes
requested_tier body =
    let first = string_field body (codes "service_tier") in
    let raw = if beq first [] then string_field body (codes "serviceTier") else first in
    let t = to_lower (trim_space raw) in
    if beq t (codes "ultra-fast") || beq t (codes "ultra_fast") then codes "ultrafast" else t

-- The body and the tier by the last switch of `normalizeServiceTier`.
unfoldable pub apply_tier : Fields → Bytes → Bytes → Fields × Bytes
apply_tier body model t =
    let key = codes "service_tier" in
    if beq t (codes "fast")
    then (set_field key (str (codes "priority")) body, codes "priority")
    else if beq t (codes "ultrafast")
    then (if supports_ultrafast model
        then (set_field key (str t) body, t)
        else (delete_field key body, []))
    else if beq t (codes "priority") || beq t (codes "flex")
    then (set_field key (str t) body, t)
    else if beq t (codes "auto") || beq t (codes "default")
    then (delete_field key body, t)
    else (delete_field key body, [])

unfoldable pub normalize_service_tier : Fields → Bytes → Fields × Bytes
normalize_service_tier body model =
    let (b, t) = apply_tier body model (requested_tier body) in
    (delete_field (codes "serviceTier") b, t)

-- `minor` of `isGPT6Model`: the text up to the first dash.
unfoldable pub before_dash : Bytes → Bytes
before_dash [] = []
before_dash (c ∷ s) = let rest = before_dash s in if c == b'-' then [] else c ∷ rest

unfoldable pub all_digits : Bytes → Bool
all_digits [] = true
all_digits (c ∷ s) = leb b'0' c && leb c b'9' && all_digits s

unfoldable pub is_gpt_6_model : Bytes → Bool
is_gpt_6_model model =
    if beq model (codes "gpt-6") || has_prefix (codes "gpt-6-") model
    then true
    else elim (cut_prefix (codes "gpt-6.") model) [
      | none ↦ false
      | some rest ↦ not (beq (before_dash rest) []) && all_digits (before_dash rest)
    ]
