-- ===== src/Body.antt =====
-- util.go and proxy.go, the request body: a Go map of JSON values as the list of its fields, where
-- a name stands once.
use codex_auth_broker.Prelude.Json.{Fields, Value, end, field, str}
use codex_auth_broker.Prelude.{
  Bool-cases, Option, [], arith, false, if◌then◌else◌, inl, inr, none, refl, some, true, ◌≡◌, ◌≢◌,
}
use codex_auth_broker.Prelude.Text.{Bytes, beq, beq_iff, trim_space}

-- body[key]
unfoldable pub get_field : Bytes → Fields → Option Value
get_field key end = none
get_field key (field name v fs) =
    let rest = get_field key fs in if beq key name then some v else rest

-- delete(body, key)
unfoldable pub delete_field : Bytes → Fields → Fields
delete_field key end = end
delete_field key (field name v fs) =
    let rest = delete_field key fs in if beq key name then rest else field name v rest

-- body[key] = value
unfoldable pub set_field : Bytes → Value → Fields → Fields
set_field key value end = field key value end
set_field key value (field name v fs) =
    let rest = set_field key value fs in
    if beq key name then field name value fs else field name v rest

-- `m[key].(string)`, or the empty text.
abbrev pub text_of : Option Value → Bytes
text_of (some (str s)) = s
text_of _ = []

unfoldable pub string_field : Fields → Bytes → Bytes
string_field m key = trim_space (text_of (get_field key m))

unfoldable pub value_or : Bytes → Bytes → Bytes
value_or value fallback = if beq (trim_space value) [] then fallback else value

pub beq_self : (a : Bytes) → beq a a ≡ true
beq_self a = (beq_iff a a).1 refl

pub get_field-delete : (key : Bytes) (fs : Fields) → get_field key (delete_field key fs) ≡ none
unfolding get_field delete_field
get_field-delete key end = refl
get_field-delete key (field name v fs) = elim (Bool-cases (beq key name)) [
  | inl same ↦ rw same (get_field-delete key fs)
  | inr other ↦ rw (other, other) (get_field-delete key fs)
]

pub get_field-delete_other :
    (key other : Bytes) (fs : Fields)
    → key ≢ other
    → get_field key (delete_field other fs) ≡ get_field key fs
unfolding get_field delete_field
get_field-delete_other key other end ne = refl
get_field-delete_other key other (field name v fs) ne = elim (Bool-cases (beq other name)) [
  | inl gone ↦
      let miss : beq key name ≡ false = ground (arith, beq_iff key name, beq_iff other name) in
      rw (gone, miss) (get_field-delete_other key other fs ne)
  | inr stays ↦ elim (Bool-cases (beq key name)) [
    | inl hit ↦ rw (stays, hit, get_field) refl
    | inr miss ↦ rw (stays, miss, get_field) (get_field-delete_other key other fs ne)
  ]
]

pub get_field-set :
    (key : Bytes) (v : Value) (fs : Fields) → get_field key (set_field key v fs) ≡ some v
unfolding get_field set_field
get_field-set key v end = rw (beq_self key) refl
get_field-set key v (field name w fs) = elim (Bool-cases (beq key name)) [
  | inl same ↦ rw (same, same, get_field) refl
  | inr other ↦ rw (other, other, get_field) (get_field-set key v fs)
]

pub get_field-set_other :
    (key other : Bytes) (v : Value) (fs : Fields)
    → key ≢ other
    → get_field key (set_field other v fs) ≡ get_field key fs
unfolding get_field set_field
get_field-set_other key other v end ne =
    let miss : beq key other ≡ false = ground (arith, beq_iff key other) in rw miss refl
get_field-set_other key other v (field name w fs) ne = elim (Bool-cases (beq other name)) [
  | inl here ↦
      let miss : beq key name ≡ false = ground (arith, beq_iff key name, beq_iff other name) in
      rw (here, miss, get_field) refl
  | inr there ↦ elim (Bool-cases (beq key name)) [
    | inl hit ↦ rw (there, hit, get_field) refl
    | inr miss ↦ rw (there, miss, get_field) (get_field-set_other key other v fs ne)
  ]
]
