-- ===== src/Relay/Loggable.antt =====
-- proxy.go, `safeErrorAttributes`: what is kept of an upstream error is safe to log.
use codex_auth_broker.Relay.{
  attributes_of, is_attribute_char, safe_error_attribute, safe_error_attributes, sprint, get_field,
}
use codex_auth_broker.Redact.{elem, every, join}
use codex_auth_broker.Prelude.Json.{Fields, Float64, Value}
use codex_auth_broker.Prelude.{
  Bool, Option, [], arith, false, if◌then◌else◌, length, length-append, ltb, refl, true, ℕ, ◌++◌,
  ◌||◌, ◌∷◌, ◌≡◌, ◌≤◌,
}
use codex_auth_broker.Prelude.Text.{Bytes, beq, codes, trim_space}

abbrev pub is_log_char : ℕ → Bool
is_log_char c = is_attribute_char c || elem c (codes " ()=")

-- Letters, digits and a few marks, and not many.
abbrev pub IsLoggable : Bytes → Type 0
IsLoggable e = (every is_log_char e ≡ true) × (length e ≤ 166)

pub every-append :
    (test : ℕ → Bool) (a b : Bytes)
    → every test a ≡ true
    → every test b ≡ true
    → every test (a ++ b) ≡ true
unfolding every
every-append test [] b ha hb = hb
every-append test (c ∷ a) b ha hb = ground (arith, every-append test a b)

attribute_chars : (s : Bytes) → every is_attribute_char s ≡ true → every is_log_char s ≡ true
unfolding every
attribute_chars [] h = refl
attribute_chars (c ∷ s) h = ground (arith, attribute_chars s)

-- A value that is kept.
IsAttribute : Bytes → Type 0
IsAttribute s = (every is_log_char s ≡ true) × (length s ≤ 64)

kept-IsAttribute :
    (text : Bytes)
    → IsAttribute (
        if beq text [] || ltb 64 (length text)
        then []
        else if every is_attribute_char text
        then text
        else [])
unfolding IsAttribute every
kept-IsAttribute text = ground (arith, attribute_chars text)

safe_error_attribute-IsAttribute :
    (print : Float64 → Bytes) (value : Option Value)
    → IsAttribute (safe_error_attribute print value)
unfolding safe_error_attribute
safe_error_attribute-IsAttribute print value = kept-IsAttribute (trim_space (sprint print value))

abbrev IsBrief : Bytes → Type 0
IsBrief s = (every is_log_char s ≡ true) × (length s ≤ 139)

-- The attributes, by which of the two values are empty.
pair-IsBrief :
    (p q : Bool) (a b : Bytes)
    → IsAttribute a
    → IsAttribute b
    → let second = if q then [] else (codes "code" ++ (b'=' ∷ b)) ∷ [] in
      IsBrief (join (if p then second else (codes "type" ++ (b'=' ∷ a)) ∷ second))
unfolding every elem is_attribute_char IsAttribute join
pair-IsBrief true true a b ha hb = (refl, omega arith)
pair-IsBrief true false a b ha hb = (hb.0, omega (arith, hb.1))
pair-IsBrief false true a b ha hb = (ha.0, omega (arith, ha.1))
pair-IsBrief false false a b ha hb =
    let rest = b' ' ∷ (codes "code" ++ (b'=' ∷ b)) in
    (every-append is_log_char a rest ha.0 hb.0, omega (arith, ha.1, hb.1, length-append a rest))

pub safe_error_attributes-IsBrief :
    (print : Float64 → Bytes) (error_body : Fields)
    → IsBrief (safe_error_attributes print error_body)
unfolding safe_error_attributes attributes_of
safe_error_attributes-IsBrief print error_body =
    let kind = safe_error_attribute print (get_field (codes "type") error_body) in
    let code = safe_error_attribute print (get_field (codes "code") error_body) in
    pair-IsBrief (beq kind []) (beq code []) kind code
      (safe_error_attribute-IsAttribute print (get_field (codes "type") error_body))
      (safe_error_attribute-IsAttribute print (get_field (codes "code") error_body))
