-- ===== src/Relay.antt =====
-- proxy.go, `safeErrorAttributes`: what of an upstream error may be logged.
-- The printing of numbers is an argument.
pub mod Loggable
pub mod Envelope
mod Tests
use codex_auth_broker.Redact.{every, join}
use codex_auth_broker.Body.{get_field}
use codex_auth_broker.Prelude.Json.{Fields, Float64, Value, arr, bool, null, num, obj, str}
use codex_auth_broker.Prelude.{
  Bool, List, Option, [], false, if◌then◌else◌, leb, length, ltb, none, some, true, ℕ, ◌&&◌, ◌++◌,
  ◌==◌, ◌||◌, ◌∷◌,
}
use codex_auth_broker.Prelude.Text.{Bytes, beq, codes, trim_space}

-- `fmt.Sprint` of a value. An array and an object are printed with their brackets first, which is
-- all that is used of them here.
unfoldable pub sprint : (Float64 → Bytes) → Option Value → Bytes
sprint print none = codes "<nil>"
sprint print (some null) = codes "<nil>"
sprint print (some (bool true)) = codes "true"
sprint print (some (bool false)) = codes "false"
sprint print (some (num f)) = print f
sprint print (some (str s)) = s
sprint print (some (arr _)) = codes "[]"
sprint print (some (obj _)) = codes "map[]"

unfoldable pub is_attribute_char : ℕ → Bool
is_attribute_char c =
    (leb b'a' c && leb c b'z')
    || (leb b'A' c && leb c b'Z')
    || (leb b'0' c && leb c b'9')
    || c == b'-'
    || c == b'_'
    || c == b'.'

unfoldable pub safe_error_attribute : (Float64 → Bytes) → Option Value → Bytes
safe_error_attribute print value =
    let text = trim_space (sprint print value) in
    if beq text [] || ltb 64 (length text)
    then []
    else if every is_attribute_char text
    then text
    else []

-- `key=value` for each of the keys that has a safe value.
unfoldable pub attributes_of : (Float64 → Bytes) → Fields → List Bytes → List Bytes
attributes_of print error_body [] = []
attributes_of print error_body (key ∷ keys) =
    let rest = attributes_of print error_body keys in
    let value = safe_error_attribute print (get_field key error_body) in
    if beq value [] then rest else (key ++ (b'=' ∷ value)) ∷ rest

unfoldable pub safe_error_attributes : (Float64 → Bytes) → Fields → Bytes
safe_error_attributes print error_body =
    join (attributes_of print error_body (codes "type" ∷ codes "code" ∷ []))
