-- ===== src/Normalize/Roles.antt =====
-- The roles of input items that `normalizeInput` of proxy.go lets through.
use codex_auth_broker.Body.{get_field, get_field-set, set_field, string_field}
use codex_auth_broker.Normalize.{
  any_item, demote_system_roles, input_of, items_of, normalize_input, user_message,
}
use codex_auth_broker.Prelude.Json.{Fields, Items, Value, arr, bool, cons, nil, null, num, obj, str}
use codex_auth_broker.Prelude.{
  Bool, Bool-cases, Option, [], false, if◌then◌else◌, inl, inr, none, refl, some, true, ◌≡◌,
}
use codex_auth_broker.Prelude.Text.{Bytes, beq, codes, trim_space}

abbrev pub is_system : Fields → Bool
is_system item = beq (string_field item (codes "role")) (codes "system")

developer_item :
    (item : Fields) → is_system (set_field (codes "role") (str (codes "developer")) item) ≡ false
unfolding string_field
developer_item item = rw (get_field-set (codes "role") (str (codes "developer")) item) other
  where
    other : beq (trim_space (codes "developer")) (codes "system") ≡ false
    other = unfold beq trim_space in refl

demote_system_roles-none : (items : Items) → any_item is_system (demote_system_roles items) ≡ false
unfolding any_item demote_system_roles
demote_system_roles-none nil = refl
demote_system_roles-none (cons (obj item) items) = elim (Bool-cases (is_system item)) [
  | inl system ↦ rw (system, developer_item item) (demote_system_roles-none items)
  | inr other ↦ rw (other, other) (demote_system_roles-none items)
]
demote_system_roles-none (cons null items) = demote_system_roles-none items
demote_system_roles-none (cons (bool b) items) = demote_system_roles-none items
demote_system_roles-none (cons (num n) items) = demote_system_roles-none items
demote_system_roles-none (cons (str s) items) = demote_system_roles-none items
demote_system_roles-none (cons (arr xs) items) = demote_system_roles-none items

message_item : (s : Bytes) → any_item is_system (cons (user_message s) nil) ≡ false
unfolding any_item string_field get_field beq trim_space
message_item s = refl

-- The input field, as it is and as it becomes.
abbrev of_input : Fields → Items
of_input body = items_of (get_field (codes "input") body)

input_of-none :
    (o : Option Value) (body : Fields)
    → get_field (codes "input") body ≡ o
    → any_item is_system (of_input (input_of o body)) ≡ false
input_of-none none body h = rw h (unfold any_item in refl)
input_of-none (some (str s)) body h =
    rw
      (get_field-set (codes "input") (arr (if beq s [] then nil else cons (user_message s) nil))
        body)
      (text (beq s []))
  where
    text : (b : Bool) → any_item is_system (if b then nil else cons (user_message s) nil) ≡ false
    text true = unfold any_item in refl
    text false = message_item s
input_of-none (some (arr items)) body h =
    rw (get_field-set (codes "input") (arr (demote_system_roles items)) body)
      (demote_system_roles-none items)
input_of-none (some null) body h = rw h (unfold any_item in refl)
input_of-none (some (bool b)) body h = rw h (unfold any_item in refl)
input_of-none (some (num n)) body h = rw h (unfold any_item in refl)
input_of-none (some (obj fs)) body h = rw h (unfold any_item in refl)

-- Of the input that `normalizeInput` leaves, a list or a text made into one, no item has the role
-- `system`, which upstream rejects.
pub no_system_roles :
    (body : Fields)
    → any_item is_system (items_of (get_field (codes "input") (normalize_input body))) ≡ false
unfolding normalize_input
no_system_roles body = input_of-none (get_field (codes "input") body) body refl
