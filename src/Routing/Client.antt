-- ===== src/Routing/Client.antt =====
-- `normalizeCodexRoutingHint` of proxy.go: the routing hint that a WebSocket client supplies.
use mathlib.Core.Path.{subst}
use codex_auth_broker.Routing.Hint.{Carries, build_codex_routing_hint-Carries}
use codex_auth_broker.Models.{
  has_suffix, normalize_factory_model, one_of, split_alias, split_service_tier_suffix,
  supports_ultrafast,
}
use codex_auth_broker.Routing.{build_codex_routing_hint}
use codex_auth_broker.Prelude.{
  Bool, Bool-cases, List, Option, Option-cases, [], ap, arith, false, if◌then◌else◌, inr, length,
  ltb, none, not, refl, some, sym, true, ◌&&◌, ◌++◌, ◌==◌, ◌∷◌, ◌≡◌, ◌⊎◌, inl,
}
use codex_auth_broker.Prelude.Text.{Bytes, beq, beq_iff, codes, to_lower, trim_space}

-- strings.Split at semicolons, behind the part read before.
unfoldable pub split_parts : Bytes → Bytes → List Bytes
split_parts part [] = part ∷ []
split_parts part (c ∷ s) =
    let later = split_parts [] s in
    let on = split_parts (part ++ (c ∷ [])) s in if c == b';' then part ∷ later else on

-- strings.Cut at the first equals sign.
unfoldable pub cut_equals : Bytes → Option (Bytes × Bytes)
cut_equals [] = none
cut_equals (c ∷ s) =
    let later = cut_equals s in
    if c == b'='
    then some ([], s)
    else elim later [ none ↦ none | some (key, value) ↦ some (c ∷ key, value) ]

-- The tier that a `tier` parameter stands for; `none` refuses the hint.
unfoldable pub hint_tier : Bytes → Option Bytes
hint_tier component =
    let t = to_lower (trim_space component) in
    if one_of t (codes "fast" ∷ codes "priority" ∷ [])
    then some (codes "priority")
    else if one_of t (codes "ultrafast" ∷ codes "ultra-fast" ∷ codes "ultra_fast" ∷ [])
    then some (codes "ultrafast")
    else if beq t (codes "flex")
    then some (codes "flex")
    else if one_of t (codes "auto" ∷ codes "default" ∷ [])
    then some []
    else none

-- A part of the hint that has a key, with the model and the tier found before.
unfoldable pub read_pair : Bytes → Bytes → Bytes → Bytes → Option (Bytes × Bytes)
read_pair key component model tier =
    let (name, suffix_tier) = split_service_tier_suffix component in
    if beq key (codes "model")
    then (if not (beq model [])
        then none
        else some (
          (normalize_factory_model name).0,
          if not (beq suffix_tier []) && beq tier [] then suffix_tier else tier,
        ))
    else if beq key (codes "tier")
    then (if not (beq tier []) then none else with_tier model (hint_tier component))
    else none
  where
    with_tier : Bytes → Option Bytes → Option (Bytes × Bytes)
    with_tier m none = none
    with_tier m (some t) = some (m, t)

unfoldable pub read_part : Bytes → Bytes × Bytes → Option (Bytes × Bytes)
read_part part (model, tier) = elim (cut_equals (trim_space part)) [
  | none ↦ none
  | some (key, component) ↦ read_pair key component model tier
]

unfoldable pub read_parts : List Bytes → Bytes × Bytes → Option (Bytes × Bytes)
read_parts [] found = some found
read_parts (part ∷ parts) found = elim (read_part part found) [
  | none ↦ none
  | some found' ↦ read_parts parts found'
]

unfoldable pub normalize_codex_routing_hint : Bytes → Bytes
normalize_codex_routing_hint value =
    let parts = split_parts [] (trim_space value) in
    if ltb 2 (length parts) then [] else elim (read_parts parts ([], [])) [
      | none ↦ []
      | some (model, tier) ↦
          build_codex_routing_hint model
            (if beq tier (codes "ultrafast") && not (supports_ultrafast model) then [] else tier)
    ]

-- A tier that may stand in a hint for the model.
abbrev pub IsHintTier : Bytes → Bytes → Type 0
IsHintTier model t =
    (t ≡ [])
    ⊎ (t ≡ codes "priority")
    ⊎ (t ≡ codes "flex")
    ⊎ ((t ≡ codes "ultrafast") × (supports_ultrafast model ≡ true))

-- A tier that the parts may have named.
abbrev IsNamed : Bytes → Type 0
IsNamed t = (t ≡ []) ⊎ (t ≡ codes "priority") ⊎ (t ≡ codes "flex") ⊎ (t ≡ codes "ultrafast")

hint_tier-IsNamed : (component t : Bytes) → hint_tier component ≡ some t → IsNamed t
unfolding hint_tier
hint_tier-IsNamed component t h = ground arith

split_alias-IsNamed :
    (model trimmed : Bytes) (aliases : List Bytes) → IsNamed (split_alias model trimmed aliases).1
unfolding split_alias
split_alias-IsNamed model trimmed [] = inl refl
split_alias-IsNamed model trimmed (alias ∷ aliases) =
    elim (Bool-cases (has_suffix (codes "(" ++ (alias ++ codes ")")) (to_lower trimmed))) [
      | inl found ↦ rw found (inr (inr (inr refl)))
      | inr other ↦ rw other (split_alias-IsNamed model trimmed aliases)
    ]

read_pair-IsNamed :
    (key component model tier model' tier' : Bytes)
    → IsNamed tier
    → read_pair key component model tier ≡ some (model', tier')
    → IsNamed tier'
unfolding read_pair
read_pair-IsNamed key component model tier model' tier' n h =
    elim (Bool-cases (beq key (codes "model"))) [
      | inl is_model ↦ elim (Bool-cases (beq model [])) [
        | inr again ↦ let gone : none ≡ some (model', tier') = rw (is_model, again) at h in cc
        | inl first ↦
            let same : some
                  ((normalize_factory_model (split_service_tier_suffix component).0).0, chosen)
                ≡ some (model', tier') =
              rw (is_model, first) at h in
            let tier_is : chosen ≡ tier' = cc in rw (← tier_is) chosen-IsNamed
      ]
      | inr other ↦ elim (Bool-cases (beq key (codes "tier"))) [
        | inr unknown ↦ let gone : none ≡ some (model', tier') = rw (other, unknown) at h in cc
        | inl is_tier ↦ elim (Bool-cases (beq tier [])) [
          | inr again ↦
              let gone : none ≡ some (model', tier') = rw (other, is_tier, again) at h in cc
          | inl first ↦ elim (Option-cases (hint_tier component)) [
            | inl bad ↦
                let gone : none ≡ some (model', tier') = rw (other, is_tier, first, bad) at h in cc
            | inr (t, good) ↦
                let same : some (model, t) ≡ some (model', tier') =
                  rw (other, is_tier, first, good) at h in
                let tier_is : t ≡ tier' = cc in rw (← tier_is) (hint_tier-IsNamed component t good)
          ]
        ]
      ]
    ]
  where
    suffix_tier : Bytes
    suffix_tier = (split_service_tier_suffix component).1

    chosen : Bytes
    chosen = if not (beq suffix_tier []) && beq tier [] then suffix_tier else tier

    suffix-IsNamed : IsNamed suffix_tier
    suffix-IsNamed =
        unfold split_service_tier_suffix in split_alias-IsNamed component (trim_space component) _

    chosen-IsNamed : IsNamed chosen
    chosen-IsNamed = elim (Bool-cases (not (beq suffix_tier []) && beq tier [])) [
      | inl suffixed ↦ rw suffixed suffix-IsNamed
      | inr plain ↦ rw plain n
    ]

read_part-IsNamed :
    (part model tier model' tier' : Bytes)
    → IsNamed tier
    → read_part part (model, tier) ≡ some (model', tier')
    → IsNamed tier'
unfolding read_part
read_part-IsNamed part model tier model' tier' n h =
    elim (Option-cases (cut_equals (trim_space part))) [
      | inl e ↦ let gone : none ≡ some (model', tier') = rw (e, read_part) at h in cc
      | inr ((key, component), e) ↦
          read_pair-IsNamed key component model tier model' tier' n (rw (e, read_part) at h)
    ]

read_parts-IsNamed :
    (parts : List Bytes) (model tier model' tier' : Bytes)
    → IsNamed tier
    → read_parts parts (model, tier) ≡ some (model', tier')
    → IsNamed tier'
unfolding read_parts
read_parts-IsNamed [] model tier model' tier' n h = let same : tier ≡ tier' = cc in rw (← same) n
read_parts-IsNamed (part ∷ parts) model tier model' tier' n h =
    elim (Option-cases (read_part part (model, tier))) [
      | inl e ↦ let gone : none ≡ some (model', tier') = rw (e, read_parts) at h in cc
      | inr ((m, t), e) ↦
          read_parts-IsNamed parts m t model' tier' (read_part-IsNamed part model tier m t n e)
            (rw (e, read_parts) at h)
    ]

-- The hint that goes upstream for a WebSocket client's hint is absent, or carries no more than one
-- model and at most one tier, which is `priority`, `flex` or, for a model that serves it,
-- `ultrafast`, whatever the client has written.
pub normalize_codex_routing_hint-Carries :
    (value : Bytes)
    → let hint = normalize_codex_routing_hint value in
      (hint ≡ [])
      ⊎ ((model : Bytes) × (tier : Bytes) × IsHintTier model tier
          × Carries (trim_space model) (trim_space tier) hint)
unfolding normalize_codex_routing_hint
normalize_codex_routing_hint-Carries value =
    elim (Bool-cases (ltb 2 (length (split_parts [] (trim_space value))))) [
      | inl many ↦ rw many (inl refl)
      | inr few ↦ elim (Option-cases (read_parts (split_parts [] (trim_space value)) ([], []))) [
        | inl e ↦ rw (few, e, normalize_codex_routing_hint) (inl refl)
        | inr ((model, tier), e) ↦
            rw (few, e, normalize_codex_routing_hint)
              (elim (build_codex_routing_hint-Carries model (kept model tier)) [
                | inl absent ↦ inl absent
                | inr carries ↦ inr (
                  model,
                  kept model tier,
                  kept-IsHintTier model tier (read_parts-IsNamed _ [] [] model tier (inl refl) e),
                  carries,
                )
              ])
      ]
    ]
  where
    kept : Bytes → Bytes → Bytes
    kept model tier =
        if beq tier (codes "ultrafast") && not (supports_ultrafast model) then [] else tier

    kept-IsHintTier : (model tier : Bytes) → IsNamed tier → IsHintTier model (kept model tier)
    kept-IsHintTier model tier n =
        elim (Bool-cases (beq tier (codes "ultrafast") && not (supports_ultrafast model))) [
          | inl refused ↦
              subst (IsHintTier model) (sym (ap (λ (b : Bool). if b then [] else tier) refused))
                (inl refl)
          | inr fine ↦
              subst (IsHintTier model) (sym (ap (λ (b : Bool). if b then [] else tier) fine))
                (hinted n fine)
        ]
      where
        hinted :
            IsNamed tier
            → (beq tier (codes "ultrafast") && not (supports_ultrafast model)) ≡ false
            → IsHintTier model tier
        hinted (inl e) f = inl e
        hinted (inr (inl e)) f = inr (inl e)
        hinted (inr (inr (inl e))) f = inr (inr (inl e))
        hinted (inr (inr (inr e))) f =
            let named : beq tier (codes "ultrafast") ≡ true =
              (beq_iff tier (codes "ultrafast")).1 e in
            inr (inr (inr (e, ground arith)))
