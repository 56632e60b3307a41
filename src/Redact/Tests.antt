-- ===== src/Redact/Tests.antt =====
-- Concrete runs of the redaction.
use codex_auth_broker.Redact.{
  count_char, elem, every, fields, fields_from, is_digit, is_jwt, is_token, join,
  redact_token_like_text, redact_word, replace_first, trim_left_set, trim_set,
}
use codex_auth_broker.Prelude.Text.{
  Bytes, beq, codes, contains, cut_prefix, is_space, to_lower, trim_space,
}
use codex_auth_broker.Redact.Headers.{
  Tables, diagnostic_header, diagnostic_upstream_headers, hop_by_hop, keep, keep_from, kept_value,
  names_field, nominates, one_of, put, redact_diagnostic_header_value, shorten, split_commas,
}
use codex_auth_broker.Redact.Words.{IsHarmless, redact_token_like_text-IsHarmless}
use codex_auth_broker.Redact.Bounds.{AreNamedApart, IsKept, diagnostic_upstream_headers-IsKept}
use codex_auth_broker.Prelude.{All, List, [], refl, some, true, ◌∷◌, ◌≡◌, ◌≢◌}
use mathlib.Core.List.{map}

abbrev secret : Bytes
secret = codes "key='aaaaaaaaaaaaaaaaaaaa.bbbbbbbbbbbbbbbbbbbb.cc' ok"

redact_run : redact_token_like_text secret ≡ codes "[redacted-jwt]' ok"
unfolding redact_token_like_text join fields_from is_space beq redact_word is_jwt count_char
    trim_set trim_left_set elem replace_first cut_prefix is_token
redact_run = refl

redact_token_like_text-IsHarmless_example :
    All IsHarmless (fields (redact_token_like_text secret))
    × (fields (redact_token_like_text secret) ≡ map redact_word (fields secret))
redact_token_like_text-IsHarmless_example = redact_token_like_text-IsHarmless secret

-- Tables for ASCII.
abbrev ascii : Tables
ascii = record {
  is_utf8 = λ s. true;
  runes = λ s. s;
  is_letter_or_number = λ c. true;
  is_float = λ s. true;
}

abbrev header : List (Bytes × List Bytes)
header =
    (codes "X-Request-Id", codes " r1 " ∷ [])
    ∷ (codes "Set-Cookie", codes "s" ∷ [])
    ∷ (codes "Cf-Ray", codes "c1" ∷ [])
    ∷ (codes "Connection", codes "close, cf-ray" ∷ [])
    ∷ []

abbrev kept_headers : List (Bytes × Bytes)
kept_headers = (codes "x-request-id", codes "r1") ∷ []

header_run : diagnostic_upstream_headers ascii header ≡ some kept_headers
unfolding diagnostic_upstream_headers keep_from keep diagnostic_header one_of beq to_lower
    kept_value trim_space hop_by_hop nominates names_field split_commas put shorten
    redact_diagnostic_header_value contains cut_prefix every elem redact_token_like_text join
    fields_from is_space redact_word is_jwt count_char trim_set trim_left_set is_token is_digit
header_run = refl

diagnostic_upstream_headers-IsKept_example :
    All (IsKept header) kept_headers × AreNamedApart kept_headers × (kept_headers ≢ [])
diagnostic_upstream_headers-IsKept_example =
    diagnostic_upstream_headers-IsKept ascii header kept_headers header_run
