-- ===== src/Cooldown/Tests.antt =====
-- accounts.go: cooldowns read from concrete responses, and the theorems at them.
use codex_auth_broker.Cooldown.{
  Parsers, better, clamp_cooldown, classify_window, coerce_reset, derive_cooldown, is_reset_key,
  look, numeric_reset, parse_reset_value, reset_from_body, sub_time, walk,
}
use codex_auth_broker.Cooldown.Bounds.{Within, derive_cooldown-Within}
use codex_auth_broker.Cooldown.Earliest.{EarliestAt, reset_from_body-Earliest}
use codex_auth_broker.Prelude.Json.{
  AllFields, Float64, Value, at_least, end, field, fin, nonpositive, num, obj, str, to_int_64,
}
use codex_auth_broker.Prelude.{[], false, if◌then◌else◌, none, refl, some, ℕ, ◌*◌, ◌+◌, ◌≡◌}
use codex_auth_broker.Prelude.Int.{wrap_64, ◌*ℤ◌, ◌-ℤ◌}
use codex_auth_broker.Prelude.Clock.{second}
use codex_auth_broker.Prelude.Text.{beq, codes, contains, to_lower, trim_space}

-- The float64 of a whole number: the exponent is biased by 1074.
abbrev whole : ℕ → Float64
whole n = fin false n 1074

abbrev body_value : Value
body_value = obj (
    field (codes "error")
      (obj (
        field (codes "resets_in") (num (whole 7200))
          (field (codes "retry_at") (str (codes "90")) (field (codes "plan") (num (whole 5)) end))))
      end)

-- Numbers of two digits parse, dates do not, and one body is JSON.
abbrev ps : Parsers
ps = record {
  parse_float = λ s. if beq s (codes "90") then some (whole 90) else none;
  parse_http_time = λ s. none;
  parse_rfc_3339 = λ s. none;
  unmarshal = λ s. if beq s (codes "{}") then some body_value else none;
}

-- The body's earlier reset is the text of 90 seconds.
from_body :
    derive_cooldown ps none (codes "{}") 1000
    ≡ record { until = 90 * second + 1000; window = codes "short"; source = codes "body:retry_at" }
unfolding derive_cooldown beq is_reset_key contains to_lower better look walk coerce_reset
    numeric_reset parse_reset_value trim_space nonpositive at_least to_int_64 wrap_64 clamp_cooldown
    sub_time classify_window ◌-ℤ◌ ◌*ℤ◌
from_body = refl

-- A header outranks the body.
from_header :
    (derive_cooldown ps
      (some (λ k. if beq k (codes "Retry-After") then codes " 90 " else []))
      (codes "weekly limit")
      0).window
    ≡ codes "weekly"
unfolding derive_cooldown beq contains to_lower numeric_reset parse_reset_value trim_space
    nonpositive at_least to_int_64 wrap_64 clamp_cooldown sub_time classify_window ◌-ℤ◌ ◌*ℤ◌
from_header = refl

derive_cooldown-Within_example : Within 1000 (derive_cooldown ps none (codes "{}") 1000).until
derive_cooldown-Within_example = derive_cooldown-Within ps none (codes "{}") 1000

parsed : ps.unmarshal (codes "{}") ≡ some body_value
unfolding beq
parsed = refl

reset_from_body-Earliest_example :
    AllFields
      (EarliestAt ps 1000
        (elim (reset_from_body ps (codes "{}") 1000) [ some best ↦ best.time | none ↦ 0 ]))
      body_value
reset_from_body-Earliest_example = reset_from_body-Earliest ps (codes "{}") 1000 body_value parsed
