-- ===== src/Models/Tier.antt =====
-- The service tier that `normalizeServiceTier` of proxy.go leaves in a body.
use mathlib.Core.Path.{subst}
use codex_auth_broker.Models.{
  apply_tier, normalize_service_tier, requested_tier, supports_ultrafast,
}
use codex_auth_broker.Body.{
  delete_field, get_field, get_field-delete, get_field-delete_other, get_field-set,
  get_field-set_other, set_field,
}
use codex_auth_broker.Prelude.Json.{Fields, str}
use codex_auth_broker.Prelude.{
  Bool-cases, [], arith, inl, inr, none, refl, some, sym, true, ◌||◌, ◌∙◌, ◌≡◌, ◌≢◌, ◌⊎◌,
}
use codex_auth_broker.Prelude.Text.{Bytes, beq, beq_iff, codes}

abbrev pub tier_key : Bytes
tier_key = codes "service_tier"

abbrev pub alias_key : Bytes
alias_key = codes "serviceTier"

-- A tier that upstream takes for the model.
abbrev pub IsWireTier : Bytes → Bytes → Type 0
IsWireTier model t =
    (t ≡ codes "priority")
    ⊎ (t ≡ codes "flex")
    ⊎ ((t ≡ codes "ultrafast") × (supports_ultrafast model ≡ true))

-- The body carries the tier, which upstream takes, or none; then the tier that is kept for the log
-- is empty, or one of the two that mean the standard tier.
abbrev pub IsTiered : Bytes → Fields → Bytes → Type 0
IsTiered model body t =
    ((get_field tier_key body ≡ some (str t)) × IsWireTier model t)
    ⊎ ((get_field tier_key body ≡ none) × ((t ≡ []) ⊎ (t ≡ codes "auto") ⊎ (t ≡ codes "default")))

-- Every field but the tier is as it was.
abbrev pub KeepsOthers : Fields → Fields → Type 0
KeepsOthers body body' =
    (key : Bytes) → key ≢ tier_key → key ≢ alias_key → get_field key body' ≡ get_field key body

-- A tier that is set, and one that is taken out.
tier_set :
    (model t : Bytes) (body : Fields)
    → IsWireTier model t
    → IsTiered model (set_field tier_key (str t) body) t
      × KeepsOthers body (set_field tier_key (str t) body)
tier_set model t body w = (
  inl (get_field-set tier_key (str t) body, w),
  λ key ne ne'. get_field-set_other key tier_key (str t) body ne,
)

tier_gone :
    (model t : Bytes) (body : Fields)
    → (t ≡ []) ⊎ (t ≡ codes "auto") ⊎ (t ≡ codes "default")
    → IsTiered model (delete_field tier_key body) t × KeepsOthers body (delete_field tier_key body)
tier_gone model t body w = (
  inr (get_field-delete tier_key body, w),
  λ key ne ne'. get_field-delete_other key tier_key body ne,
)

apply_tier-IsTiered :
    (body : Fields) (model t : Bytes)
    → let (b, t') = apply_tier body model t in IsTiered model b t' × KeepsOthers body b
unfolding apply_tier
apply_tier-IsTiered body model t = elim (Bool-cases (beq t (codes "fast"))) [
  | inl fast ↦ rw fast (tier_set model (codes "priority") body (inl refl))
  | inr e1 ↦ elim (Bool-cases (beq t (codes "ultrafast"))) [
    | inl ultra ↦ elim (Bool-cases (supports_ultrafast model)) [
      | inl served ↦
          at (set_field tier_key (str t) body, t) (rw (e1, ultra, served) refl)
            (tier_set model t body (inr (inr ((beq_iff t _).0 ultra, served))))
      | inr other ↦
          at (delete_field tier_key body, []) (rw (e1, ultra, other) refl)
            (tier_gone model [] body (inl refl))
    ]
    | inr e2 ↦ elim (Bool-cases (beq t (codes "priority") || beq t (codes "flex"))) [
      | inl named ↦ rw (e1, e2, named) (tier_set model t body (wire named))
      | inr e3 ↦ elim (Bool-cases (beq t (codes "auto") || beq t (codes "default"))) [
        | inl standard ↦ rw (e1, e2, e3, standard) (tier_gone model t body (inr (plain standard)))
        | inr unknown ↦ rw (e1, e2, e3, unknown) (tier_gone model [] body (inl refl))
      ]
    ]
  ]
]
  where
    at :
        (r : Fields × Bytes)
        → apply_tier body model t ≡ r
        → IsTiered model r.0 r.1 × KeepsOthers body r.0
        → IsTiered model (apply_tier body model t).0 (apply_tier body model t).1
          × KeepsOthers body (apply_tier body model t).0
    at r e h =
        subst (λ (x : Fields × Bytes). IsTiered model x.0 x.1 × KeepsOthers body x.0) (sym e) h

    wire : (beq t (codes "priority") || beq t (codes "flex")) ≡ true → IsWireTier model t
    wire h = elim (Bool-cases (beq t (codes "priority"))) [
      | inl p ↦ inl ((beq_iff t _).0 p)
      | inr p ↦ inr (inl ((beq_iff t _).0 (ground arith)))
    ]

    plain :
        (beq t (codes "auto") || beq t (codes "default")) ≡ true
        → (t ≡ codes "auto") ⊎ (t ≡ codes "default")
    plain h = elim (Bool-cases (beq t (codes "auto"))) [
      | inl p ↦ inl ((beq_iff t _).0 p)
      | inr p ↦ inr ((beq_iff t _).0 (ground arith))
    ]

tier_key-alias_key : tier_key ≢ alias_key
tier_key-alias_key e = cc

-- Whatever a client writes for a service tier, the normalized body has no `serviceTier`, and its
-- `service_tier` is absent or `priority`, `flex` or, for a model that serves it, `ultrafast`, in
-- which case it is the tier that is logged; an absent one is logged as none, auto or default. All
-- other fields are as they were.
pub normalize_service_tier-IsTiered :
    (body : Fields) (model : Bytes)
    → let (b, t) = normalize_service_tier body model in
      IsTiered model b t × (get_field alias_key b ≡ none) × KeepsOthers body b
unfolding normalize_service_tier
normalize_service_tier-IsTiered body model =
    let a = apply_tier body model (requested_tier body) in
    let (tiered, others) = apply_tier-IsTiered body model (requested_tier body) in
    let kept = get_field-delete_other tier_key alias_key a.0 tier_key-alias_key in
    (
      elim tiered [ inl (e, w) ↦ inl (kept ∙ e, w) | inr (e, w) ↦ inr (kept ∙ e, w) ],
      get_field-delete alias_key a.0,
      λ key ne ne'. get_field-delete_other key alias_key a.0 ne' ∙ others key ne ne',
    )
