-- ===== src/Routing/Hint.antt =====
-- The routing hint of proxy.go: what a reader of the header finds in it.
use codex_auth_broker.Routing.{
  build_codex_routing_hint, hint_chars, valid_codex_routing_hint_component,
}
use codex_auth_broker.Redact.{every}
use codex_auth_broker.Redact.Trim.{every-append}
use codex_auth_broker.Prelude.{
  Bool, Bool-cases, Option, [], arith, false, if◌then◌else◌, inl, inr, ltb, none, not, refl, some,
  true, ℕ, ◌&&◌, ◌++◌, ◌==◌, ◌∷◌, ◌≡◌, ◌≢◌, ◌⊎◌,
}
use codex_auth_broker.Prelude.Text.{Bytes, beq, beq-ne, beq_iff, codes, trim_space}

-- What a reader does who splits the hint: the text up to the first `;`, and what follows.
pub cut_at : ℕ → Bytes → Bytes × Option Bytes
cut_at sep [] = ([], none)
cut_at sep (c ∷ s) =
    let (word, rest) = cut_at sep s in if c == sep then ([], some s) else (c ∷ word, rest)

abbrev pub is_inner : ℕ → Bool
is_inner c = not (c == b';')

-- Visible ASCII: no blank, no line break, no control character.
abbrev pub is_visible : ℕ → Bool
is_visible c = ltb 32 c && ltb c 0x7F

cut_at-inner : (m s : Bytes) → every is_inner m ≡ true → cut_at b';' (m ++ (b';' ∷ s)) ≡ (m, some s)
unfolding cut_at every
cut_at-inner [] s h = refl
cut_at-inner (c ∷ m) s h =
    let other : (c == b';') ≡ false = ground arith in
    rw (other, cut_at-inner m s (ground arith)) refl

cut_at-all : (m : Bytes) → every is_inner m ≡ true → cut_at b';' m ≡ (m, none)
unfolding cut_at every
cut_at-all [] h = refl
cut_at-all (c ∷ m) h =
    let other : (c == b';') ≡ false = ground arith in rw (other, cut_at-all m (ground arith)) refl

hint_chars-inner :
    (m : Bytes) → hint_chars m ≡ true → (every is_inner m ≡ true) × (every is_visible m ≡ true)
unfolding hint_chars every
hint_chars-inner [] h = (refl, refl)
hint_chars-inner (c ∷ m) h =
    let (inner, visible) = hint_chars-inner m (ground arith) in
    let first : is_inner c ≡ true = ground arith in
    let seen : is_visible c ≡ true = ground arith in (ground arith, ground arith)

-- A component that is taken.
valid-inner :
    (m : Bytes)
    → valid_codex_routing_hint_component m ≡ true
    → (every is_inner m ≡ true) × (every is_visible m ≡ true) × (m ≢ [])
unfolding valid_codex_routing_hint_component
valid-inner m h =
    let (inner, visible) = hint_chars-inner m (ground arith) in
    (inner, visible, beq-ne m [] (ground arith))

-- A hint that carries no more than the two texts.
abbrev pub Carries : Bytes → Bytes → Bytes → Type 0
Carries m t hint =
    (m ≢ [])
    × (every is_visible hint ≡ true)
    × (((t ≡ []) × (cut_at b';' hint ≡ (codes "model=" ++ m, none)))
        ⊎ ((cut_at b';' hint ≡ (codes "model=" ++ m, some (codes "tier=" ++ t)))
            × (cut_at b';' (codes "tier=" ++ t) ≡ (codes "tier=" ++ t, none))))

-- A routing hint is absent, or a header value of visible ASCII in which whoever splits it at `;`
-- finds the trimmed model as the one `model` parameter and, if a tier was given, the trimmed tier
-- as the one `tier` parameter behind it: neither text can add a parameter or break the header.
pub build_codex_routing_hint-Carries :
    (model service_tier : Bytes)
    → let hint = build_codex_routing_hint model service_tier in
      (hint ≡ []) ⊎ Carries (trim_space model) (trim_space service_tier) hint
unfolding build_codex_routing_hint
build_codex_routing_hint-Carries model service_tier =
    elim (Bool-cases (valid_codex_routing_hint_component m)) [
      | inr bad ↦ rw bad (inl refl)
      | inl good ↦ elim (Bool-cases (beq t [])) [
        | inl no_tier ↦
            rw (good, no_tier) (inr (alone (valid-inner m good) ((beq_iff t []).0 no_tier)))
        | inr tier ↦ elim (Bool-cases (valid_codex_routing_hint_component t)) [
          | inr bad ↦ rw (good, bad, tier) (inl refl)
          | inl good_t ↦
              rw (good, good_t, tier) (inr (both (valid-inner m good) (valid-inner t good_t)))
        ]
      ]
    ]
  where
    m : Bytes
    m = trim_space model

    t : Bytes
    t = trim_space service_tier

    visible_model : every is_visible (codes "model=") ≡ true
    visible_model = unfold every in refl

    inner_model : every is_inner (codes "model=") ≡ true
    inner_model = unfold every in refl

    inner_tier : every is_inner (codes "tier=") ≡ true
    inner_tier = unfold every in refl

    visible_tier : every is_visible (codes ";tier=") ≡ true
    visible_tier = unfold every in refl

    alone :
        (every is_inner m ≡ true) × (every is_visible m ≡ true) × (m ≢ [])
        → t ≡ []
        → Carries m t (codes "model=" ++ m)
    alone (inner, visible, full) e = (
      full,
      every-append is_visible (codes "model=") m visible_model visible,
      inl (
        e,
        cut_at-all (codes "model=" ++ m)
            (every-append is_inner (codes "model=") m inner_model inner),
      ),
    )

    both :
        (every is_inner m ≡ true) × (every is_visible m ≡ true) × (m ≢ [])
        → (every is_inner t ≡ true) × (every is_visible t ≡ true) × (t ≢ [])
        → Carries m t (codes "model=" ++ (m ++ (codes ";tier=" ++ t)))
    both (inner, visible, full) (inner', visible', _) = (
      full,
      every-append is_visible (codes "model=") (m ++ (codes ";tier=" ++ t)) visible_model (
          every-append is_visible m (codes ";tier=" ++ t) visible
            (every-append is_visible (codes ";tier=") t visible_tier visible')),
      inr (
        cut_at-inner (codes "model=" ++ m) (codes "tier=" ++ t)
            (every-append is_inner (codes "model=") m inner_model inner),
        cut_at-all (codes "tier=" ++ t) (every-append is_inner (codes "tier=") t inner_tier inner'),
      ),
    )
