-- ===== src/Cooldown/Bounds.antt =====
-- Every cooldown of accounts.go lies between 30 seconds and 8 days.
use codex_auth_broker.Cooldown.{
  Best, Parsers, better, clamp_cooldown, clamp_until, coerce_reset, default_cooldown_from_body,
  derive_cooldown, explicit_reset, first_reset, is_reset_key, look, numeric_reset,
  parse_reset_value, reset_from_body, sub_time, walk, walk_fields, walk_items, add_time,
  header_reset, reset_headers,
}
use codex_auth_broker.Prelude.Json.{
  Fields, Float64, Items, Value, arr, at_least, bool, cons, end, field, nil, nonpositive, null, num,
  obj, str,
}
use codex_auth_broker.Prelude.{
  Bool-cases, List, Option, Option-cases, [], arith, if◌then◌else◌, inl, inr, ltb, none, refl, some,
  ◌*◌, ◌+◌, ◌==◌, ◌||◌, ◌∷◌, ◌≡◌, ◌≤◌, ◌⊎◌,
}
use codex_auth_broker.Prelude.Int.{neg_part, pos_part, ℤ, ◌+ℤ◌}
use codex_auth_broker.Prelude.Clock.{Time, day, second}
use codex_auth_broker.Prelude.Text.{Bytes, beq, codes, trim_space}

abbrev pub Within : Time → Time → Type 0
Within now until = (now + 30 * second ≤ until) × (until ≤ now + 8 * day)

clamp_cooldown_parts :
    (d : ℤ)
    → (30 * second ≤ pos_part (clamp_cooldown d))
      × (pos_part (clamp_cooldown d) ≤ 8 * day)
      × (neg_part (clamp_cooldown d) ≡ 0)
unfolding clamp_cooldown
clamp_cooldown_parts d = ground arith

clamped-Within : (now : Time) (d : ℤ) → Within now (add_time now (clamp_cooldown d))
unfolding ◌+ℤ◌
clamped-Within now d = ground (arith, clamp_cooldown_parts d)

clamp_until-Within : (now : Time) (t : ℤ) → Within now (clamp_until now t)
unfolding clamp_until
clamp_until-Within now t = clamped-Within now (sub_time t now)

-- A result, if there is one, within the bounds.
abbrev pub WithinIf : Time → Option Time → Type 0
WithinIf now none = Unit
WithinIf now (some until) = Within now until

numeric_reset-Within : (n : Float64) (now : Time) → WithinIf now (numeric_reset n now)
unfolding numeric_reset
numeric_reset-Within n now = elim (Bool-cases (nonpositive n)) [
  | inl e ↦ rw e tt
  | inr e ↦ elim (Bool-cases (at_least 1_000_000_000 n)) [
    | inl big ↦ rw (e, big) (clamp_until-Within now _)
    | inr small ↦ rw (e, small) (clamped-Within now _)
  ]
]

parse_reset_value-Within :
    (ps : Parsers) (v : Bytes) (now : Time) → WithinIf now (parse_reset_value ps v now)
unfolding parse_reset_value
parse_reset_value-Within ps v now = elim (Bool-cases (beq (trim_space v) [])) [
  | inl e ↦ rw e tt
  | inr e ↦ rw e (number (ps.parse_float (trim_space v)))
]
  where
    date :
        (a b : Option ℤ)
        → WithinIf now (elim a [
          | some t ↦ some (clamp_until now t)
          | none ↦ elim b [ some t ↦ some (clamp_until now t) | none ↦ none ]
        ])
    date (some t) b = clamp_until-Within now t
    date none (some t) = clamp_until-Within now t
    date none none = tt

    number :
        (f : Option Float64)
        → WithinIf now (elim f [
          | some x ↦ numeric_reset x now
          | none ↦ elim (ps.parse_http_time (trim_space v)) [
            | some t ↦ some (clamp_until now t)
            | none ↦ elim (ps.parse_rfc_3339 (trim_space v)) [
              | some t ↦ some (clamp_until now t)
              | none ↦ none
            ]
          ]
        ])
    number (some x) = numeric_reset-Within x now
    number none = date _ _

pub coerce_reset-Within :
    (ps : Parsers) (v : Value) (now : Time) → WithinIf now (coerce_reset ps v now)
unfolding coerce_reset
coerce_reset-Within ps (num f) now = numeric_reset-Within f now
coerce_reset-Within ps (str s) now = parse_reset_value-Within ps s now
coerce_reset-Within ps _ now = tt

-- The best reset so far is none, or within the bounds.
abbrev BestWithin : Time → Best → Type 0
BestWithin now best = (best.time ≡ 0) ⊎ Within now best.time

better-Within :
    (now : Time) (best : Best) (k : Bytes) (o : Option Time)
    → WithinIf now o
    → BestWithin now best
    → BestWithin now (better best k o)
unfolding better
better-Within now best k none h b = b
better-Within now best k (some until) h b =
    elim (Bool-cases (best.time == 0 || ltb until best.time)) [
      | inl e ↦ rw e (inr h)
      | inr e ↦ rw e b
    ]

look-Within :
    (ps : Parsers) (now : Time) (best : Best) (k : Bytes) (v : Value)
    → BestWithin now best
    → BestWithin now (look ps now best k v)
unfolding look
look-Within ps now best k v b = elim (Bool-cases (is_reset_key k)) [
  | inl e ↦ rw e (better-Within now best k _ (coerce_reset-Within ps v now) b)
  | inr e ↦ rw e b
]

mutual
  unfolding walk

  walk-Within :
      (ps : Parsers) (now : Time) (best : Best) (v : Value)
      → BestWithin now best
      → BestWithin now (walk ps now best v)
  walk-Within ps now best null b = b
  walk-Within ps now best (bool x) b = b
  walk-Within ps now best (num n) b = b
  walk-Within ps now best (str s) b = b
  walk-Within ps now best (arr xs) b = walk_items-Within ps now best xs b
  walk-Within ps now best (obj fs) b = walk_fields-Within ps now best fs b

  walk_items-Within :
      (ps : Parsers) (now : Time) (best : Best) (xs : Items)
      → BestWithin now best
      → BestWithin now (walk_items ps now best xs)
  walk_items-Within ps now best nil b = b
  walk_items-Within ps now best (cons v xs) b =
      walk_items-Within ps now _ xs (walk-Within ps now best v b)

  walk_fields-Within :
      (ps : Parsers) (now : Time) (best : Best) (fs : Fields)
      → BestWithin now best
      → BestWithin now (walk_fields ps now best fs)
  walk_fields-Within ps now best end b = b
  walk_fields-Within ps now best (field k v fs) b =
      walk_fields-Within ps now _ fs (walk-Within ps now _ v (look-Within ps now best k v b))

pub reset_from_body-Within :
    (ps : Parsers) (body : Bytes) (now : Time) (best : Best)
    → reset_from_body ps body now ≡ some best
    → Within now best.time
unfolding reset_from_body
reset_from_body-Within ps body now best e = go (ps.unmarshal body) refl
  where
    first : Best
    first = record { time = 0; key = [] }

    found :
        (w : Best)
        → BestWithin now w
        → (if w.time == 0 then none else some w) ≡ some best
        → Within now best.time
    found w (inl z) e' = ground arith
    found w (inr h) e' = ground arith

    go : (o : Option Value) → ps.unmarshal body ≡ o → Within now best.time
    go none q = let bad : reset_from_body ps body now ≡ none = rw (q, reset_from_body) refl in cc
    go (some v) q =
        found (walk ps now first v) (walk-Within ps now first v (inl refl))
          (rw (q, reset_from_body) at e)

header_reset-Within :
    (ps : Parsers) (header : Bytes → Bytes) (now : Time) (key : Bytes)
    → WithinIf now (header_reset ps header now key)
header_reset-Within ps header now key = elim (Bool-cases (beq (trim_space (header key)) [])) [
  | inl e ↦ rw e tt
  | inr e ↦ rw e (parse_reset_value-Within ps _ now)
]

abbrev SourcedWithin : Time → Option (Time × Bytes) → Type 0
SourcedWithin now none = Unit
SourcedWithin now (some (until, source)) = Within now until

first_reset-Within :
    (ps : Parsers) (header : Bytes → Bytes) (now : Time) (keys : List Bytes)
    → SourcedWithin now (first_reset ps header now keys)
unfolding first_reset
first_reset-Within ps header now [] = tt
first_reset-Within ps header now (key ∷ keys) =
    elim (Option-cases (header_reset ps header now key)) [
      | inl e ↦ rw (e, first_reset) (first_reset-Within ps header now keys)
      | inr (until, e) ↦ rw (e, first_reset) (rw e at (header_reset-Within ps header now key))
    ]

explicit_reset-Within :
    (ps : Parsers) (resp : Option (Bytes → Bytes)) (now : Time)
    → SourcedWithin now (explicit_reset ps resp now)
unfolding explicit_reset
explicit_reset-Within ps none now = tt
explicit_reset-Within ps (some header) now =
    elim (Option-cases (header_reset ps header now (codes "Retry-After"))) [
      | inr (until, e) ↦
          rw (e, explicit_reset) (rw e at (header_reset-Within ps header now (codes "Retry-After")))
      | inl e ↦ elim (Option-cases (first_reset ps header now reset_headers)) [
        | inl none_found ↦ rw (e, none_found, explicit_reset) tt
        | inr (found, at) ↦
            rw (e, at, explicit_reset) (rw at at (first_reset-Within ps header now reset_headers))
      ]
    ]

default-Within :
    (body : Bytes) (now : Time) → Within now (add_time now (default_cooldown_from_body body))
unfolding default_cooldown_from_body ◌+ℤ◌
default-Within body now = ground arith

-- Whatever a 429 response carries, headers and body, and however its values parse, the account is
-- benched for at least 30 seconds and at most 8 days.
pub derive_cooldown-Within :
    (ps : Parsers) (resp : Option (Bytes → Bytes)) (body : Bytes) (now : Time)
    → Within now (derive_cooldown ps resp body now).until
unfolding derive_cooldown
derive_cooldown-Within ps resp body now = elim (Option-cases (explicit_reset ps resp now)) [
  | inr (found, e) ↦ rw (e, derive_cooldown) (rw e at (explicit_reset-Within ps resp now))
  | inl e ↦ elim (Option-cases (reset_from_body ps body now)) [
    | inr (best, b) ↦ rw (e, b, derive_cooldown) (reset_from_body-Within ps body now best b)
    | inl b ↦ rw (e, b, derive_cooldown) (default-Within body now)
  ]
]
