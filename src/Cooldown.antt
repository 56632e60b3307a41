-- ===== src/Cooldown.antt =====
-- accounts.go, from `deriveCooldown` on: how long an account is benched after a 429, read from the
-- response. A duration is an integer of nanoseconds. What the standard library parses, numbers,
-- dates and JSON, enters as functions; `ParseFloat` gives a float64, a date is in nanoseconds since
-- Go's zero time.
pub mod Bounds
pub mod Earliest
mod Tests
use codex_auth_broker.Prelude.Json.{
  Fields, Float64, Items, Value, arr, at_least, bool, cons, end, field, nil, nonpositive, null, num,
  obj, str, to_int_64,
}
use codex_auth_broker.Prelude.{
  Bool, List, Option, [], if◌then◌else◌, ltb, none, some, ◌*◌, ◌++◌, ◌-◌, ◌==◌, ◌^◌, ◌||◌, ◌∷◌,
}
use codex_auth_broker.Prelude.Int.{
  leb_ℤ, ltb_ℤ, negsuc, pos, pos_part, wrap_64, ℤ, ◌*ℤ◌, ◌+ℤ◌, ◌-ℤ◌,
}
use codex_auth_broker.Prelude.Clock.{Time, day, hour, minute, second}
use codex_auth_broker.Prelude.Text.{Bytes, beq, codes, contains, to_lower, trim_space}

abbrev pub min_cooldown : ℤ
min_cooldown = pos (30 * second)

abbrev pub max_cooldown_dur : ℤ
max_cooldown_dur = pos (8 * day)

abbrev default_short_cooldown : ℤ
default_short_cooldown = pos (60 * second)

abbrev default_usage_cooldown : ℤ
default_usage_cooldown = pos (5 * hour)

abbrev default_weekly_cooldown : ℤ
default_weekly_cooldown = pos (7 * day)

pub record Parsers : Type 0 where
  pub parse_float : Bytes → Option Float64
  pub parse_http_time : Bytes → Option ℤ
  pub parse_rfc_3339 : Bytes → Option ℤ
  pub unmarshal : Bytes → Option Value

unfoldable pub clamp_cooldown : ℤ → ℤ
clamp_cooldown d =
    if ltb_ℤ d min_cooldown
    then min_cooldown
    else if ltb_ℤ max_cooldown_dur d
    then max_cooldown_dur
    else d

-- t.Sub(now), which saturates.
unfoldable pub sub_time : ℤ → Time → ℤ
sub_time t now =
    let d = t -ℤ pos now in
    if leb_ℤ (pos (2 ^ 63)) d
    then pos (2 ^ 63 - 1)
    else if ltb_ℤ d (negsuc (2 ^ 63 - 1))
    then negsuc (2 ^ 63 - 1)
    else d

-- now.Add(d)
abbrev add_time : Time → ℤ → Time
add_time now d = pos_part (pos now +ℤ d)

unfoldable pub clamp_until : Time → ℤ → Time
unfolding ◌+ℤ◌
clamp_until now t = add_time now (clamp_cooldown (sub_time t now))

-- time.Unix(n, 0). The seconds since the zero time wrap like any `int64`.
abbrev unix_time : ℤ → ℤ
unix_time n = wrap_64 (n +ℤ pos 62_135_596_800) *ℤ pos second

unfoldable pub numeric_reset : Float64 → Time → Option Time
unfolding ◌+ℤ◌
numeric_reset n now =
    if nonpositive n
    then none
    else if at_least 1_000_000_000 n
    then some (clamp_until now (unix_time (to_int_64 n)))
    else some (add_time now (clamp_cooldown (wrap_64 (to_int_64 n *ℤ pos second))))

abbrev or_else {ℓ} : {A : Type ℓ} → Option A → Option A → Option A
or_else none o = o
or_else (some a) o = some a

module _ (ps : Parsers) where
  unfoldable pub parse_reset_value : Bytes → Time → Option Time
  parse_reset_value v now =
      let v' = trim_space v in
      if beq v' [] then none else elim (ps.parse_float v') [
        | some f ↦ numeric_reset f now
        | none ↦ elim (ps.parse_http_time v') [
          | some t ↦ some (clamp_until now t)
          | none ↦ elim (ps.parse_rfc_3339 v') [ some t ↦ some (clamp_until now t) | none ↦ none ]
        ]
      ]

  -- A decoded number is a float64, so `json.Number` does not occur.
  unfoldable pub coerce_reset : Value → Time → Option Time
  coerce_reset (num f) now = numeric_reset f now
  coerce_reset (str s) now = parse_reset_value s now
  coerce_reset _ now = none

-- `best` and `bestKey` of `resetFromBody`; the zero time says that nothing was found.
pub record Best : Type 0 where
  pub time : Time
  pub key : Bytes

unfoldable pub is_reset_key : Bytes → Bool
is_reset_key k =
    let lk = to_lower k in
    contains (codes "reset") lk
    || contains (codes "retry") lk
    || contains (codes "seconds_until") lk
    || contains (codes "cooldown") lk
    || contains (codes "resets_in") lk
    || contains (codes "resets_at") lk

unfoldable pub better : Best → Bytes → Option Time → Best
better best k none = best
better best k (some until) =
    if best.time == 0 || ltb until best.time
    then record { time = until; key = codes "body:" ++ k }
    else best

-- The look at one field, before the walk goes on into its value.
unfoldable pub look : Parsers → Time → Best → Bytes → Value → Best
look ps now best k v = if is_reset_key k then better best k (coerce_reset ps v now) else best

-- Go visits the fields of an object in an order of its own; here it is the list's.
unfoldable mutual
  pub walk : Parsers → Time → Best → Value → Best
  walk ps now best null = best
  walk ps now best (bool b) = best
  walk ps now best (num n) = best
  walk ps now best (str s) = best
  walk ps now best (arr xs) = walk_items ps now best xs
  walk ps now best (obj fs) = walk_fields ps now best fs

  pub walk_items : Parsers → Time → Best → Items → Best
  walk_items ps now best nil = best
  walk_items ps now best (cons v xs) = walk_items ps now (walk ps now best v) xs

  pub walk_fields : Parsers → Time → Best → Fields → Best
  walk_fields ps now best end = best
  walk_fields ps now best (field k v fs) =
      walk_fields ps now (walk ps now (look ps now best k v) v) fs

unfoldable pub reset_from_body : Parsers → Bytes → Time → Option Best
reset_from_body ps body now = elim (ps.unmarshal body) [
  | none ↦ none
  | some parsed ↦
      let best = walk ps now (record { time = 0; key = [] }) parsed in
      if best.time == 0 then none else some best
]

unfoldable pub classify_window : ℤ → Bytes → Bytes
classify_window d body =
    let text = to_lower body in
    if contains (codes "week") text || leb_ℤ (pos (48 * hour)) d
    then codes "weekly"
    else if leb_ℤ (pos (90 * minute)) d
        || contains (codes "5h") text
        || contains (codes "5-hour") text
        || contains (codes "5 hour") text
    then codes "5h"
    else if leb_ℤ (pos (2 * minute)) d
    then codes "windowed"
    else codes "short"

unfoldable pub default_cooldown_from_body : Bytes → ℤ
default_cooldown_from_body body =
    let text = to_lower body in
    if contains (codes "week") text
    then default_weekly_cooldown
    else if contains (codes "usage limit") text
        || contains (codes "quota") text
        || contains (codes "5 hour") text
        || contains (codes "5-hour") text
    then default_usage_cooldown
    else default_short_cooldown

pub record Cooldown : Type 0 where
  pub until : Time
  pub window : Bytes
  pub source : Bytes

abbrev reset_headers : List Bytes
reset_headers =
    codes "x-codex-primary-reset-after-seconds"
    ∷ codes "x-codex-reset-after-seconds"
    ∷ codes "x-ratelimit-reset-requests"
    ∷ codes "x-ratelimit-reset-tokens"
    ∷ codes "x-ratelimit-reset"
    ∷ []

-- A header that is missing reads as the empty text.
abbrev header_reset : Parsers → (Bytes → Bytes) → Time → Bytes → Option Time
header_reset ps header now key =
    let v = trim_space (header key) in if beq v [] then none else parse_reset_value ps v now

-- The first of the headers that parses, with its name.
unfoldable pub first_reset : Parsers → (Bytes → Bytes) → Time → List Bytes → Option (Time × Bytes)
first_reset ps header now [] = none
first_reset ps header now (key ∷ keys) =
    let rest = first_reset ps header now keys in
    elim (header_reset ps header now key) [ some until ↦ some (until, key) | none ↦ rest ]

-- `resp` is nil (`none`) or its headers.
unfoldable pub explicit_reset : Parsers → Option (Bytes → Bytes) → Time → Option (Time × Bytes)
explicit_reset ps none now = none
explicit_reset ps (some header) now = elim (header_reset ps header now (codes "Retry-After")) [
  | some until ↦ some (until, codes "retry-after")
  | none ↦ elim (first_reset ps header now reset_headers) [
    | some (until, key) ↦ some (until, codes "header:" ++ key)
    | none ↦ none
  ]
]

unfoldable pub derive_cooldown : Parsers → Option (Bytes → Bytes) → Bytes → Time → Cooldown
unfolding explicit_reset first_reset reset_from_body
derive_cooldown ps resp body now = elim (explicit_reset ps resp now) [
  | some (until, source) ↦ record {
    until = until;
    window = classify_window (sub_time (pos until) now) body;
    source = source;
  }
  | none ↦ elim (reset_from_body ps body now) [
    | some best ↦ record {
      until = best.time;
      window = classify_window (sub_time (pos best.time) now) body;
      source = best.key;
    }
    | none ↦
        let d = default_cooldown_from_body body in
        record { until = add_time now d; window = classify_window d body; source = codes "default" }
  ]
]
