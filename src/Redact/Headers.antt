-- ===== src/Redact/Headers.antt =====
-- `diagnosticUpstreamHeaders` of proxy.go: which upstream headers are kept, and what of them. A
-- header map is the list of its names, in the order of the iteration, with their values.
use codex_auth_broker.Redact.{elem, every, is_digit, redact_token_like_text}
use codex_auth_broker.Prelude.{
  Bool, List, Option, [], false, get_elem?, if◌then◌else◌, leb, length, ltb, none, not, some, suc,
  take, true, zero, ℕ, ◌&&◌, ◌++◌, ◌==◌, ◌||◌, ◌∷◌,
}
use codex_auth_broker.Prelude.Text.{Bytes, beq, codes, contains, to_lower, trim_space}

-- The tables of the standard library: utf8.ValidString, the runes of a text, unicode.IsLetter or
-- IsNumber, and whether strconv.ParseFloat succeeds.
pub record Tables : Type 0 where
  pub is_utf8 : Bytes → Bool
  pub runes : Bytes → List ℕ
  pub is_letter_or_number : ℕ → Bool
  pub is_float : Bytes → Bool

abbrev opaque_headers : List Bytes
opaque_headers =
    codes "x-request-id"
    ∷ codes "request-id"
    ∷ codes "openai-request-id"
    ∷ codes "cf-ray"
    ∷ codes "openai-model"
    ∷ []

abbrev numeric_headers : List Bytes
numeric_headers =
    codes "openai-processing-ms"
    ∷ codes "x-envoy-upstream-service-time"
    ∷ codes "x-codex-primary-used-percent"
    ∷ codes "x-codex-primary-window-minutes"
    ∷ codes "x-codex-primary-reset-after-seconds"
    ∷ codes "x-codex-secondary-used-percent"
    ∷ codes "x-codex-secondary-window-minutes"
    ∷ codes "x-codex-secondary-reset-after-seconds"
    ∷ codes "x-codex-primary-over-secondary-limit-percent"
    ∷ codes "x-codex-reset-after-seconds"
    ∷ codes "x-ratelimit-limit-requests"
    ∷ codes "x-ratelimit-remaining-requests"
    ∷ codes "x-ratelimit-limit-tokens"
    ∷ codes "x-ratelimit-remaining-tokens"
    ∷ []

unfoldable pub one_of : Bytes → List Bytes → Bool
one_of name [] = false
one_of name (x ∷ xs) = beq name x || one_of name xs

-- `diagnosticHeaderNames`: whether the header is a number, or none if it is not allowed.
unfoldable pub diagnostic_header : Bytes → Option Bool
diagnostic_header name =
    if one_of name opaque_headers
    then some false
    else if one_of name numeric_headers
    then some true
    else none

abbrev mark : Bytes
mark = codes "[redacted]"

unfoldable pub redact_diagnostic_header_value : Tables → Bytes → Bool → Bytes
redact_diagnostic_header_value t value numeric =
    let lower = to_lower value in
    if beq value mark || beq value (codes "[redacted-token]") || beq value (codes "[redacted-jwt]")
    then value
    else if not (t.is_utf8 value)
        || contains (codes "bearer") lower
        || contains (codes "sk-") lower
        || contains (codes "eyj") lower
    then mark
    else if not (beq (redact_token_like_text value) value)
    then mark
    else if numeric
    then (if not (every (λ r. is_digit r || r == b'.') (t.runes value)) || not (t.is_float value)
        then mark
        else value)
    else if not (every (λ r. t.is_letter_or_number r || elem r (codes "-_.:")) (t.runes value))
    then mark
    else value

-- strings.EqualFold
abbrev pub equal_fold : Bytes → Bytes → Bool
equal_fold a b = beq (to_lower a) (to_lower b)

-- strings.Split at commas, behind the part read before.
unfoldable pub split_commas : Bytes → Bytes → List Bytes
split_commas part [] = part ∷ []
split_commas part (c ∷ s) =
    let later = split_commas [] s in
    let on = split_commas (part ++ (c ∷ [])) s in if c == b',' then part ∷ later else on

unfoldable pub names_field : Bytes → List Bytes → Bool
names_field lower [] = false
names_field lower (f ∷ fs) = equal_fold (trim_space f) lower || names_field lower fs

unfoldable pub nominates : Bytes → List Bytes → Bool
nominates lower [] = false
nominates lower (connection ∷ rest) =
    names_field lower (split_commas [] connection) || nominates lower rest

-- `hopByHop`: some Connection header names the field.
unfoldable pub hop_by_hop : Bytes → List (Bytes × List Bytes) → Bool
hop_by_hop lower [] = false
hop_by_hop lower ((name, connections) ∷ header) =
    (equal_fold name (codes "connection") && nominates lower connections) || hop_by_hop lower header

-- utf8.RuneStart: no continuation byte.
unfoldable pub rune_start : ℕ → Bool
rune_start b = not (leb 0x80 b && leb b 0xBF)

-- `for !utf8.RuneStart(value[end]) { end-- }`; the source would fail below 0, which no text that
-- begins with a rune reaches.
unfoldable pub rune_end : Bytes → ℕ → ℕ
rune_end value zero = zero
rune_end value (suc end) =
    let before = rune_end value end in
    elim (get_elem? value (suc end)) [
      | none ↦ suc end
      | some b ↦ if rune_start b then suc end else before
    ]

unfoldable pub shorten : Bytes → Bytes
shorten value = if ltb 256 (length value) then take (rune_end value 256) value else value

-- `out[lower]`: a second value for a name takes the place of the first, redacted.
unfoldable pub put : Bytes → Bytes → List (Bytes × Bytes) → List (Bytes × Bytes)
put lower value [] = (lower, value) ∷ []
put lower value ((name, old) ∷ out) =
    let rest = put lower value out in
    if beq name lower then (name, mark) ∷ out else (name, old) ∷ rest

-- What a header keeps of its values: the value, if there is one of at most 4096 bytes that is not
-- blank, redacted and shortened.
unfoldable pub kept_value : Tables → Bool → List Bytes → Option Bytes
kept_value t numeric [] = none
kept_value t numeric (v ∷ []) =
    let value = trim_space v in
    if ltb 4096 (length v)
    then none
    else if beq value []
    then none
    else some (shorten (redact_diagnostic_header_value t value numeric))
kept_value t numeric (_ ∷ (_ ∷ _)) = none

-- One round of the loop, over the whole header.
unfoldable pub keep :
    Tables
    → List (Bytes × List Bytes)
    → List (Bytes × Bytes)
    → Bytes
    → List Bytes
    → List (Bytes × Bytes)
keep t header out key values =
    let lower = to_lower key in
    elim (diagnostic_header lower) [
      | none ↦ out
      | some numeric ↦ elim (kept_value t numeric values) [
        | none ↦ out
        | some value ↦ if hop_by_hop lower header then out else put lower value out
      ]
    ]

unfoldable pub keep_from :
    Tables
    → List (Bytes × List Bytes)
    → List (Bytes × Bytes)
    → List (Bytes × List Bytes)
    → List (Bytes × Bytes)
keep_from t header out [] = out
keep_from t header out ((key, values) ∷ rest) =
    keep_from t header (keep t header out key values) rest

-- `diagnosticUpstreamHeaders`; a nil map is `none`.
unfoldable pub diagnostic_upstream_headers :
    Tables → List (Bytes × List Bytes) → Option (List (Bytes × Bytes))
diagnostic_upstream_headers t header =
    let out = keep_from t header [] header in if length out == 0 then none else some out
