-- ===== src/Relay/Envelope.antt =====
-- proxy.go, how the body of an upstream error is relayed: `summarizeUpstreamError` for the log, and
-- `normalizeUpstreamErrorBody` for clients. JSON decoding and encoding are arguments.
use codex_auth_broker.Prelude.Text.{Bytes, beq, beq-ne, beq_iff, codes, is_some, trim_space}
use codex_auth_broker.Body.{get_field, get_field-set, get_field-set_other, set_field, string_field}
use codex_auth_broker.Relay.{safe_error_attributes}
use codex_auth_broker.Chat.{itoa}
use codex_auth_broker.Redact.{redact_token_like_text}
use codex_auth_broker.Usage.{object_field}
use codex_auth_broker.Prelude.Int.{pos, ℤ}
use codex_auth_broker.Prelude.Json.{Fields, Float64, Value, end, field, fin, num, obj, str}
use codex_auth_broker.Prelude.{
  Bool-cases, Option, Option-cases, [], arith, false, if◌then◌else◌, inl, inr, none, refl, some, ℕ,
  ◌++◌, ◌∙◌, ◌≡◌, ◌≢◌, ◌⊎◌,
}

abbrev pub upstream_returned : ℤ → Bytes
upstream_returned status = codes "upstream returned " ++ itoa status

-- parsed["error"] as an object, or the whole.
abbrev error_body_of : Fields → Fields
error_body_of parsed = elim (object_field parsed (codes "error")) [
  | some error_body ↦ error_body
  | none ↦ parsed
]

-- The summary of an error body that is logged.
unfoldable pub summarize_upstream_error :
    (Float64 → Bytes) → (Bytes → Option Fields) → Bytes → ℤ → Bytes
summarize_upstream_error print parse body status =
    let summary = upstream_returned status in
    if beq (trim_space body) [] then summary ++ codes " with an empty body" else elim (parse body) [
      | none ↦ summary
      | some parsed ↦
          let attributes = safe_error_attributes print (error_body_of parsed) in
          if beq attributes []
          then summary
          else summary ++ (codes " (" ++ (attributes ++ codes ")"))
    ]

abbrev pub error_key : Bytes
error_key = codes "error"

abbrev pub first_given : Bytes → Bytes → Bytes
first_given a b = if beq a [] then b else a

abbrev pub error_message : Fields → ℤ → Bytes
error_message parsed status =
    first_given (string_field parsed (codes "detail"))
      (first_given (string_field parsed (codes "message")) (upstream_returned status))

abbrev pub error_object : Bytes → ℕ → Fields
error_object message status = field (codes "message") (str message) (
    field (codes "type") (str (codes "upstream_error"))
      (field (codes "code") (num (fin false status 1074)) end))

-- The fields of the body are put beside the envelope's error; the iteration over a Go map has no
-- order, and this one ends with the first field.
unfoldable pub put_beside : Fields → Fields → Fields
put_beside end envelope = envelope
put_beside (field key value fs) envelope =
    let rest = put_beside fs envelope in
    if beq key error_key then rest else set_field key value rest

abbrev pub envelope_of : Fields → ℕ → Fields
envelope_of parsed status =
    put_beside parsed
      (field error_key (obj (error_object (error_message parsed (pos status)) status)) end)

-- `normalizeUpstreamErrorBody` for a status of HTTP.
unfoldable pub normalize_upstream_error_body :
    (Bytes → Option Fields) → (Fields → Option Bytes) → Bytes → ℕ → Bytes
normalize_upstream_error_body parse marshal body status =
    let redacted = redact_token_like_text body in
    elim (parse redacted) [
      | none ↦ redacted
      | some parsed ↦
          if is_some (get_field error_key parsed)
          then redacted
          else elim (marshal (envelope_of parsed status)) [
            | none ↦ redacted
            | some encoded ↦ encoded
          ]
    ]

-- The message of an error body: its detail, or else its message, or else one with the status.
abbrev pub IsMessage : Fields → ℕ → Bytes → Type 0
IsMessage parsed status told =
    let own = string_field parsed (codes "detail") in
    let other = string_field parsed (codes "message") in
    ((own ≢ []) × (told ≡ own))
    ⊎ ((own ≡ []) × (other ≢ []) × (told ≡ other))
    ⊎ ((own ≡ []) × (other ≡ []) × (told ≡ codes "upstream returned " ++ itoa (pos status)))

-- The envelope: its error has such a message, the type and the status, and every other field is that
-- of the body.
pub record IsEnvelope (parsed : Fields) (status : ℕ) (envelope : Fields) : Type 0 where
  pub message : Bytes
  pub error : Fields
  pub told : IsMessage parsed status message
  pub enclosed : get_field error_key envelope ≡ some (obj error)
  pub has_message : get_field (codes "message") error ≡ some (str message)
  pub has_type : get_field (codes "type") error ≡ some (str (codes "upstream_error"))
  pub has_code : get_field (codes "code") error ≡ some (num (fin false status 1074))
  pub kept : (key : Bytes) → key ≢ error_key → get_field key envelope ≡ get_field key parsed

get_field-put_error :
    (fs envelope : Fields)
    → get_field error_key (put_beside fs envelope) ≡ get_field error_key envelope
unfolding put_beside
get_field-put_error end envelope = refl
get_field-put_error (field name v fs) envelope = elim (Bool-cases (beq name error_key)) [
  | inl same ↦ rw (same, put_beside) (get_field-put_error fs envelope)
  | inr other ↦
      rw (other, put_beside)
        (get_field-set_other error_key name v (put_beside fs envelope)
            (ground (arith, beq_iff name error_key))
          ∙ get_field-put_error fs envelope)
]

get_field-put :
    (key : Bytes) (fs envelope : Fields)
    → key ≢ error_key
    → get_field key envelope ≡ none
    → get_field key (put_beside fs envelope) ≡ get_field key fs
unfolding put_beside get_field
get_field-put key end envelope ne free = free
get_field-put key (field name v fs) envelope ne free = elim (Bool-cases (beq key name)) [
  | inl same ↦
      let same' : key ≡ name = (beq_iff key name).0 same in
      let far : beq name error_key ≡ false = ground (arith, beq_iff name error_key) in
      rw (same, far, put_beside, same') (get_field-set name v (put_beside fs envelope))
  | inr differs ↦
      let far : key ≢ name = ground (arith, beq_iff key name) in
      let rest = get_field-put key fs envelope ne free in
      elim (Bool-cases (beq name error_key)) [
        | inl skipped ↦ rw (skipped, differs, put_beside, get_field) rest
        | inr put ↦
            rw (put, differs, put_beside, get_field)
              (get_field-set_other key name v (put_beside fs envelope) far ∙ rest)
      ]
]

error_message-IsMessage :
    (parsed : Fields) (status : ℕ) → IsMessage parsed status (error_message parsed (pos status))
error_message-IsMessage parsed status =
    elim (Bool-cases (beq (string_field parsed (codes "detail")) [])) [
      | inr given ↦ rw given (inl (beq-ne _ _ given, refl))
      | inl bare ↦ elim (Bool-cases (beq (string_field parsed (codes "message")) [])) [
        | inr given ↦ rw (bare, given) (inr (inl ((beq_iff _ _).0 bare, beq-ne _ _ given, refl)))
        | inl none_left ↦
            rw (bare, none_left) (inr (inr ((beq_iff _ _).0 bare, (beq_iff _ _).0 none_left, refl)))
      ]
    ]

-- A field of the body beside an envelope that has only its error.
field_beside :
    (key : Bytes) (parsed : Fields) (v : Value)
    → key ≢ error_key
    → get_field key (put_beside parsed (field error_key v end)) ≡ get_field key parsed
unfolding get_field
field_beside key parsed v ne = get_field-put key parsed (field error_key v end) ne alone
  where
    alone : get_field key (field error_key v end) ≡ none
    alone =
        let miss : beq key error_key ≡ false = ground (arith, beq_iff key error_key) in rw miss refl

envelope_of-IsEnvelope :
    (parsed : Fields) (status : ℕ) → IsEnvelope parsed status (envelope_of parsed status)
unfolding get_field beq
envelope_of-IsEnvelope parsed status = record {
  message = error_message parsed (pos status);
  error = error_object (error_message parsed (pos status)) status;
  told = error_message-IsMessage parsed status;
  enclosed = get_field-put_error parsed _;
  has_message = refl;
  has_type = refl;
  has_code = refl;
  kept = λ key ne. field_beside key parsed _ ne;
}

-- What a client reads for a redacted body.
pub data Envelops (parse : Bytes → Option Fields) (marshal : Fields → Option Bytes)
    (redacted : Bytes) (status : ℕ) : Bytes → Type 0 where
  not_an_object : parse redacted ≡ none → Envelops parse marshal redacted status redacted
  own_error :
      (parsed : Fields) (v : Value)
      → parse redacted ≡ some parsed
      → get_field error_key parsed ≡ some v
      → Envelops parse marshal redacted status redacted
  not_encoded :
      (parsed envelope : Fields)
      → parse redacted ≡ some parsed
      → get_field error_key parsed ≡ none
      → IsEnvelope parsed status envelope
      → marshal envelope ≡ none
      → Envelops parse marshal redacted status redacted
  encloses :
      (parsed envelope : Fields) (encoded : Bytes)
      → parse redacted ≡ some parsed
      → get_field error_key parsed ≡ none
      → IsEnvelope parsed status envelope
      → marshal envelope ≡ some encoded
      → Envelops parse marshal redacted status encoded

-- The body of an upstream error that a client reads is the redacted body, whose words are joined by
-- single blanks, where that is no JSON object, has an error of its own or cannot be encoded again.
-- Else it is the encoding of an envelope: its error has the type `upstream_error`, the status, and
-- the detail of the redacted body as its message, or else the message of that body, or else one that
-- tells the status; and every other field is that of the redacted body.
pub normalize_upstream_error_body-Envelops :
    (parse : Bytes → Option Fields) (marshal : Fields → Option Bytes) (body : Bytes) (status : ℕ)
    → Envelops parse marshal
        (redact_token_like_text body)
        status
        (normalize_upstream_error_body parse marshal body status)
unfolding normalize_upstream_error_body
normalize_upstream_error_body-Envelops parse marshal body status =
    let redacted = redact_token_like_text body in
    elim (Option-cases (parse redacted)) [
      | inl e ↦ rw (e, normalize_upstream_error_body) (Envelops.not_an_object e)
      | inr (parsed, e) ↦ elim (Option-cases (get_field error_key parsed)) [
        | inr (v, own) ↦
            rw (e, own, normalize_upstream_error_body) (Envelops.own_error parsed v e own)
        | inl free ↦ elim (Option-cases (marshal (envelope_of parsed status))) [
          | inl m ↦
              rw (e, free, m, normalize_upstream_error_body)
                (Envelops.not_encoded parsed (envelope_of parsed status) e free
                  (envelope_of-IsEnvelope parsed status) m)
          | inr (encoded, m) ↦
              rw (e, free, m, normalize_upstream_error_body)
                (Envelops.encloses parsed (envelope_of parsed status) encoded e free
                  (envelope_of-IsEnvelope parsed status) m)
        ]
      ]
    ]
