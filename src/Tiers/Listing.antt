-- ===== src/Tiers/Listing.antt =====
-- service_tiers.go, `accountSupportsTier`: what it means that a catalog lists a tier for a model.
use codex_auth_broker.Tiers.{
  UpstreamModel, account_supports_tier, find_model, is_dated_model_snapshot, lists_tier,
  select_model,
}
use codex_auth_broker.Prelude.{
  All, Bool, Bool-cases, List, Option, Option-cases, [], arith, false, inr, length, none, refl,
  some, true, ◌&&◌, ◌++◌, ◌==◌, ◌∷◌, ◌≡◌, ◌≢◌, ◌⊎◌, inl,
}
use codex_auth_broker.Prelude.Text.{
  Bytes, append-cut_prefix, beq, beq-ne, beq_iff, codes, cut_prefix, cut_prefix-append, to_lower,
  trim_space,
}

-- The model's name is another one with a date behind it.
abbrev pub IsSnapshot : (Bytes → Bool) → Bytes → Bytes → Type 0
IsSnapshot is_date model name =
    (date : Bytes) × (model ≡ (name ++ codes "-") ++ date)
    × (length date ≡ 10)
    × (is_date date ≡ true)

-- The first entry of a list with a property.
abbrev pub IsFirst : (UpstreamModel → Type 0) → List UpstreamModel → UpstreamModel → Type 0
IsFirst P [] m = ⊥
IsFirst P (x ∷ xs) m = (P x × (m ≡ x)) ⊎ (¬ (P x) × IsFirst P xs m)

-- The entry of a model: the first with its name, in any case of its letters, or if there is none the
-- first that the model is a dated snapshot of.
abbrev pub IsEntry : (Bytes → Bool) → Bytes → List UpstreamModel → UpstreamModel → Type 0
IsEntry is_date model models m =
    IsFirst (λ x. to_lower x.slug ≡ model) models m
    ⊎ (All (λ x. to_lower x.slug ≢ model) models
        × IsFirst (λ x. IsSnapshot is_date model (to_lower x.slug)) models m)

abbrev pub IsAmong : Bytes → List Bytes → Type 0
IsAmong tier [] = ⊥
IsAmong tier (id ∷ ids) = (id ≡ tier) ⊎ IsAmong tier ids

-- A catalog that could not be had is taken to list every tier for every model; another lists the
-- tiers of the model's entry.
abbrev pub Lists : (Bytes → Bool) → Option (List UpstreamModel) → Bytes → Bytes → Type 0
Lists is_date none model tier = Unit {0}
Lists is_date (some models) model tier =
    (m : UpstreamModel) × IsEntry is_date (to_lower (trim_space model)) models m
    × IsAmong tier m.service_tiers

-- No entry, or an entry without the tier.
abbrev pub Lacks : (Bytes → Bool) → Option (List UpstreamModel) → Bytes → Bytes → Type 0
Lacks is_date none model tier = ⊥
Lacks is_date (some models) model tier =
    let name = to_lower (trim_space model) in
    (All (λ x. to_lower x.slug ≢ name) models
      × All (λ x. ¬ (IsSnapshot is_date name (to_lower x.slug))) models)
    ⊎ ((m : UpstreamModel) × IsEntry is_date name models m × ¬ (IsAmong tier m.service_tiers))

-- A test that tells whether a property holds.
abbrev Tells : (UpstreamModel → Bool) → (UpstreamModel → Type 0) → Type 0
Tells test P = (x : UpstreamModel) → (test x ≡ true → P x) × (test x ≡ false → ¬ (P x))

find_model-IsFirst :
    (test : UpstreamModel → Bool) (P : UpstreamModel → Type 0) (models : List UpstreamModel)
    (m : UpstreamModel)
    → Tells test P
    → find_model test models ≡ some m
    → IsFirst P models m
unfolding find_model
find_model-IsFirst test P [] m tells h = cc
find_model-IsFirst test P (x ∷ xs) m tells h = elim (Bool-cases (test x)) [
  | inl hit ↦ let same : some x ≡ some m = rw (hit, find_model) at h in inl ((tells x).0 hit, cc)
  | inr miss ↦
      let later : find_model test xs ≡ some m = rw (miss, find_model) at h in
      inr ((tells x).1 miss, find_model-IsFirst test P xs m tells later)
]

find_model-none :
    (test : UpstreamModel → Bool) (P : UpstreamModel → Type 0) (models : List UpstreamModel)
    → Tells test P
    → find_model test models ≡ none
    → All (λ x. ¬ (P x)) models
unfolding find_model
find_model-none test P [] tells h = tt
find_model-none test P (x ∷ xs) tells h = elim (Bool-cases (test x)) [
  | inl hit ↦ let gone : some x ≡ none = rw (hit, find_model) at h in absurd (ground (arith, gone))
  | inr miss ↦
      let later : find_model test xs ≡ none = rw (miss, find_model) at h in
      ((tells x).1 miss, find_model-none test P xs tells later)
]

tells_name :
    (model : Bytes) → Tells (λ m. beq (to_lower m.slug) model) (λ x. to_lower x.slug ≡ model)
tells_name model x = ((beq_iff _ _).0, beq-ne _ _)

is_dated_model_snapshot-Tells :
    (is_date : Bytes → Bool) (model name : Bytes)
    → (is_dated_model_snapshot is_date model name ≡ true → IsSnapshot is_date model name)
      × (is_dated_model_snapshot is_date model name ≡ false → ¬ (IsSnapshot is_date model name))
unfolding is_dated_model_snapshot
is_dated_model_snapshot-Tells is_date model name = (dated_of, none_of)
  where
    dated_of : is_dated_model_snapshot is_date model name ≡ true → IsSnapshot is_date model name
    dated_of h = elim (Option-cases (cut_prefix (name ++ codes "-") model)) [
      | inl e ↦
          let gone : false ≡ true = rw (e, is_dated_model_snapshot) at h in
          absurd (ground (arith, gone))
      | inr (date, e) ↦
          let ok : (length date == 10 && is_date date) ≡ true =
            rw (e, is_dated_model_snapshot) at h in
          (date, append-cut_prefix (name ++ codes "-") model date e, ground arith, ground arith)
    ]

    none_of : is_dated_model_snapshot is_date model name ≡ false → ¬ (IsSnapshot is_date model name)
    none_of h (date, is_model, ten, dated) =
        let e : cut_prefix (name ++ codes "-") model ≡ some date =
          rw is_model (cut_prefix-append (name ++ codes "-") date) in
        let bad : (length date == 10 && is_date date) ≡ false =
          rw (e, is_dated_model_snapshot) at h in
        ground (arith, ten, dated, bad)

lists_tier-IsAmong :
    (tier : Bytes) (ids : List Bytes) → lists_tier tier ids ≡ true → IsAmong tier ids
unfolding lists_tier
lists_tier-IsAmong tier [] h = cc
lists_tier-IsAmong tier (id ∷ ids) h = elim (Bool-cases (beq id tier)) [
  | inl here ↦ inl ((beq_iff _ _).0 here)
  | inr there ↦ inr (lists_tier-IsAmong tier ids (ground arith))
]

lists_tier-none :
    (tier : Bytes) (ids : List Bytes) → lists_tier tier ids ≡ false → ¬ (IsAmong tier ids)
unfolding lists_tier
lists_tier-none tier [] h e = e
lists_tier-none tier (id ∷ ids) h (inl here) = beq-ne id tier (ground arith) here
lists_tier-none tier (id ∷ ids) h (inr there) = lists_tier-none tier ids (ground arith) there

tells-IsSnapshot :
    (is_date : Bytes → Bool) (model : Bytes)
    → Tells
        (λ m. is_dated_model_snapshot is_date model (to_lower m.slug))
        (λ x. IsSnapshot is_date model (to_lower x.slug))
tells-IsSnapshot is_date model x = is_dated_model_snapshot-Tells is_date model (to_lower x.slug)

-- The entry that the code selects, if there is one.
abbrev Selects : (Bytes → Bool) → Bytes → List UpstreamModel → Option UpstreamModel → Type 0
Selects is_date model models none =
    All (λ x. to_lower x.slug ≢ model) models
    × All (λ x. ¬ (IsSnapshot is_date model (to_lower x.slug))) models
Selects is_date model models (some m) = IsEntry is_date model models m

select_model-Selects :
    (is_date : Bytes → Bool) (model : Bytes) (models : List UpstreamModel)
    → Selects is_date model models (select_model is_date model models)
unfolding select_model
select_model-Selects is_date model models =
    by_name (find_model (λ m. beq (to_lower m.slug) model) models) refl
  where
    by_date :
        All (λ x. to_lower x.slug ≢ model) models
        → (o : Option UpstreamModel)
        → find_model (λ m. is_dated_model_snapshot is_date model (to_lower m.slug)) models ≡ o
        → Selects is_date model models o
    by_date unnamed none e =
        (unnamed, find_model-none _ _ models (tells-IsSnapshot is_date model) e)
    by_date unnamed (some m) e =
        inr (unnamed, find_model-IsFirst _ _ models m (tells-IsSnapshot is_date model) e)

    by_name :
        (o : Option UpstreamModel)
        → find_model (λ m. beq (to_lower m.slug) model) models ≡ o
        → Selects is_date model models (elim o [
          | some m ↦ some m
          | none ↦ find_model (λ m. is_dated_model_snapshot is_date model (to_lower m.slug)) models
        ])
    by_name none e = by_date (find_model-none _ _ models (tells_name model) e) _ refl
    by_name (some m) e = inl (find_model-IsFirst _ _ models m (tells_name model) e)

-- What the answer for the priority tier means.
abbrev pub Answers : (Bytes → Bool) → Option (List UpstreamModel) → Bytes → Bytes → Bool → Type 0
Answers is_date catalog model tier true = Lists is_date catalog model tier
Answers is_date catalog model tier false = Lacks is_date catalog model tier

pub account_supports_tier-Answers :
    (is_date : Bytes → Bool) (catalog : Option (List UpstreamModel)) (model tier : Bytes)
    → tier ≡ codes "priority"
    → Answers is_date catalog model tier (account_supports_tier is_date catalog model tier)
unfolding account_supports_tier
account_supports_tier-Answers is_date none model tier is_priority =
    rw ((beq_iff tier (codes "priority")).1 is_priority) tt
account_supports_tier-Answers is_date (some models) model tier is_priority =
    rw ((beq_iff tier (codes "priority")).1 is_priority)
      (selected (select_model is_date name models) (select_model-Selects is_date name models))
  where
    name : Bytes
    name = to_lower (trim_space model)

    listed :
        (m : UpstreamModel)
        → IsEntry is_date name models m
        → (b : Bool) → lists_tier tier m.service_tiers ≡ b
        → Answers is_date (some models) model tier b
    listed m entry true e = (m, entry, lists_tier-IsAmong tier m.service_tiers e)
    listed m entry false e = inr (m, entry, lists_tier-none tier m.service_tiers e)

    selected :
        (o : Option UpstreamModel)
        → Selects is_date name models o
        → Answers is_date
            (some models)
            model
            tier
            (elim o [ none ↦ false | some m ↦ lists_tier tier m.service_tiers ])
    selected none nothing = inl nothing
    selected (some m) entry = listed m entry _ refl
