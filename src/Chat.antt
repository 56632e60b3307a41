-- ===== src/Chat.antt =====
-- chat_completions.go, what its parts share: the identifiers of a completion, its finish reason and
-- its usage object. The clock is an argument.
pub mod Stream
pub mod Request
mod Tests
use codex_auth_broker.Body.{get_field, string_field, text_of}
use codex_auth_broker.Models.{trim_prefix}
use codex_auth_broker.Usage.{TokenUsage, int_64_value, numeric_field}
use codex_auth_broker.Prelude.Json.{Fields, to_int_64}
use codex_auth_broker.Prelude.Text.{Bytes, beq, codes, has_prefix}
use codex_auth_broker.Prelude.{
  Bool, Option, [], false, if◌then◌else◌, ltb, none, not, some, suc, true, zero, ℕ, ◌%◌, ◌++◌, ◌+◌,
  ◌/◌, ◌||◌, ◌∷◌,
}
use codex_auth_broker.Prelude.Int.{negsuc, pos, wrap_64, ℤ, ◌+ℤ◌}

-- The time when something runs: its Unix seconds, and its nanoseconds written in base 36.
pub record Moment : Type 0 where
  pub seconds : ℤ
  pub nanos_36 : Bytes

unfoldable pub chat_payload_string : Fields → Bytes → Bytes
chat_payload_string m key = text_of (get_field key m)

unfoldable pub chat_completion_id : Moment → Bytes → Bytes
chat_completion_id now upstream_id =
    if has_prefix (codes "chatcmpl-") upstream_id
    then upstream_id
    else if has_prefix (codes "resp_") upstream_id
    then codes "chatcmpl-" ++ trim_prefix (codes "resp_") upstream_id
    else if not (beq upstream_id [])
    then codes "chatcmpl-" ++ upstream_id
    else codes "chatcmpl-" ++ now.nanos_36

unfoldable pub chat_completion_created : Moment → Fields → ℤ
chat_completion_created now response = elim (numeric_field response (codes "created_at")) [
  | some f ↦ to_int_64 f
  | none ↦ elim (numeric_field response (codes "created")) [
    | some f ↦ to_int_64 f
    | none ↦ now.seconds
  ]
]

unfoldable pub chat_finish_reason : Fields → Bool → Bytes
chat_finish_reason response has_tool_calls =
    if beq (string_field response (codes "status")) (codes "incomplete")
    then codes "length"
    else if has_tool_calls
    then codes "tool_calls"
    else codes "stop"

-- `status == "failed" || status == "cancelled"`
abbrev pub has_failed : Fields → Bool
has_failed response =
    let status = string_field response (codes "status") in
    beq status (codes "failed") || beq status (codes "cancelled")

-- The usage object; a detail that is none is left out, and so is an object of details without any.
pub record UsageObject : Type 0 where
  pub prompt_tokens : ℤ
  pub completion_tokens : ℤ
  pub total : ℤ
  pub cached : Option ℤ
  pub cache_write : Option ℤ
  pub reasoning : Option ℤ

unfoldable pub chat_usage_object : TokenUsage → UsageObject
chat_usage_object usage = record {
  prompt_tokens = int_64_value usage.input_tokens;
  completion_tokens = int_64_value usage.output_tokens;
  total = elim usage.total_tokens [
    | some n ↦ n
    | none ↦ wrap_64 (int_64_value usage.input_tokens +ℤ int_64_value usage.output_tokens)
  ];
  cached = usage.cached_tokens;
  cache_write = usage.cache_write_tokens;
  reasoning = usage.reasoning_tokens;
}

abbrev digit : ℕ → ℕ
digit n = b'0' + n % 10

-- The decimal digits of a number, in front of those in hand. A round takes one digit off, so as
-- many rounds as the number says are enough.
unfoldable pub digits_before : ℕ → ℕ → Bytes → Bytes
digits_before zero n after = digit n ∷ after
digits_before (suc rounds) n after = elim (ltb n 10) [
  | true ↦ digit n ∷ after
  | false ↦ digits_before rounds (n / 10) (digit n ∷ after)
]

-- strconv.Itoa
unfoldable pub itoa : ℤ → Bytes
unfolding digits_before
itoa (pos n) = digits_before n n []
itoa (negsuc n) = b'-' ∷ digits_before (suc n) (suc n) []
