-- ===== src/Usage.antt =====
-- proxy.go and auth.go, the token counts of an upstream response: `tokenUsage`, and how its fields
-- are read from the object under "usage".
use codex_auth_broker.Body.{get_field, string_field}
use codex_auth_broker.Prelude.Json.{Fields, Float64, num, obj, to_int_64}
use codex_auth_broker.Prelude.{Bool, List, Option, [], none, some, ◌||◌, ◌∷◌}
use codex_auth_broker.Prelude.Int.{pos, ℤ}
use codex_auth_broker.Prelude.Clock.{second}
use codex_auth_broker.Prelude.Text.{Bytes, codes, is_some, to_lower, trim_space}

-- `m[key]` as a number; a literal that is out of a float64's range is none.
unfoldable pub numeric_field : Fields → Bytes → Option Float64
numeric_field m key = elim (get_field key m) [ some (num f) ↦ some f | _ ↦ none ]

unfoldable pub first_numeric_int_field : Fields → List Bytes → Option ℤ
first_numeric_int_field m [] = none
first_numeric_int_field m (key ∷ keys) =
    let rest = first_numeric_int_field m keys in
    elim (numeric_field m key) [ some f ↦ some (to_int_64 f) | none ↦ rest ]

-- int64Value
unfoldable pub int_64_value : Option ℤ → ℤ
int_64_value none = pos 0
int_64_value (some n) = n

pub record TokenUsage : Type 0 where
  pub input_tokens : Option ℤ
  pub output_tokens : Option ℤ
  pub cached_tokens : Option ℤ
  pub cache_write_tokens : Option ℤ
  pub reasoning_tokens : Option ℤ
  pub total_tokens : Option ℤ

abbrev pub no_usage : TokenUsage
no_usage = record {
  input_tokens = none;
  output_tokens = none;
  cached_tokens = none;
  cache_write_tokens = none;
  reasoning_tokens = none;
  total_tokens = none;
}

unfoldable pub has_any : TokenUsage → Bool
has_any u =
    is_some u.input_tokens
    || is_some u.output_tokens
    || is_some u.cached_tokens
    || is_some u.cache_write_tokens
    || is_some u.reasoning_tokens
    || is_some u.total_tokens

-- `m[key].(map[string]any)`: nil if it is not an object.
unfoldable pub object_field : Fields → Bytes → Option Fields
object_field m key = elim (get_field key m) [ some (obj fs) ↦ some fs | _ ↦ none ]

-- `m[first]` as an object, or `m[second]`.
abbrev pub object_of_two : Fields → Bytes → Bytes → Option Fields
object_of_two m first second = elim (object_field m first) [
  | some fs ↦ some fs
  | none ↦ object_field m second
]

abbrev pub detail : Option Fields → Bytes → Option ℤ
detail none key = none
detail (some fs) key = first_numeric_int_field fs (key ∷ [])

unfoldable pub usage_of_object : Fields → TokenUsage
usage_of_object usage =
    let details =
      object_of_two usage (codes "input_tokens_details") (codes "prompt_tokens_details") in
    let output_details =
      object_of_two usage (codes "output_tokens_details") (codes "completion_tokens_details") in
    record {
      input_tokens =
          first_numeric_int_field usage (codes "input_tokens" ∷ codes "prompt_tokens" ∷ []);
      output_tokens =
          first_numeric_int_field usage (codes "output_tokens" ∷ codes "completion_tokens" ∷ []);
      cached_tokens = detail details (codes "cached_tokens");
      cache_write_tokens = detail details (codes "cache_write_tokens");
      reasoning_tokens = detail output_details (codes "reasoning_tokens");
      total_tokens = first_numeric_int_field usage (codes "total_tokens" ∷ []);
    }

unfoldable pub extract_token_usage : Fields → TokenUsage
extract_token_usage response = elim (object_field response (codes "usage")) [
  | some usage ↦ usage_of_object usage
  | none ↦ no_usage
]

unfoldable pub extract_service_tier : Fields → Bytes
extract_service_tier response = to_lower (trim_space (string_field response (codes "service_tier")))
