-- ===== src/Keys.antt =====
-- keys.go and the gate of dashboard.go: named client keys, their file and its reloads, and who is
-- let in. Decoding JSON is an argument, the clock and what reading the file gives are arguments of
-- each call; the texts of errors are left out.
pub mod Parse
pub mod Resolve
pub mod Reload
pub mod Access
mod Tests
use codex_auth_broker.Prelude.{
  Bool, List, Option, [], false, get_elem?, if◌then◌else◌, leb, length, ltb, none, not, refl, some,
  ℕ, ◌&&◌, ◌*◌, ◌+◌, ◌==◌, ◌||◌, ◌∷◌, ◌≡◌,
}
use codex_auth_broker.Prelude.Clock.{Time, second}
use codex_auth_broker.Prelude.Text.{Bytes, beq, codes, is_some, to_lower, trim_space}

abbrev pub role_admin : Bytes
role_admin = codes "admin"

abbrev pub role_client : Bytes
role_client = codes "client"

abbrev pub implicit_client_name : Bytes
implicit_client_name = codes "default"

abbrev pub key_registry_stat_interval : ℕ
key_registry_stat_interval = 2 * second

pub record ClientKey : Type 0 where
  pub name : Bytes
  pub key : Bytes
  pub role : Bytes
  pub disabled : Bool

pub record ClientIdentity : Type 0 where
  pub name : Bytes
  pub role : Bytes

unfoldable pub admin : ClientIdentity → Bool
admin id = beq id.role role_admin

abbrev pub nobody : ClientIdentity
nobody = record { name = []; role = [] }

-- Why a keys file is refused, with the entry's index, its name or both.
pub data KeysError : Type 0 where
  unreadable invalid_json : KeysError
  name_required : ℕ → KeysError
  key_required bad_role : ℕ → Bytes → KeysError
  duplicate_name reserved_name implicit_key : Bytes → KeysError
  duplicate_key : Bytes → Bytes → KeysError

pub data Checked {ℓ} (A : Type ℓ) : Type ℓ where
  passed : A → Checked A
  rejected : KeysError → Checked A

-- The next test runs on what the test before it has passed.
infixl 5 ◌also◌
abbrev pub ◌also◌ {ℓ κ} : {B : Type κ} {A : Type ℓ} → Checked A → (A → Checked B) → Checked B
rejected why also next = rejected why
passed x also next = next x

-- Both tests have passed where their chain has.
pub also-passed {ℓ κ} :
    {B : Type κ} {A : Type ℓ} (first : Checked A) (next : A → Checked B) {y : B}
    → (first also next) ≡ passed y
    → (x : A) × (first ≡ passed x) × (next x ≡ passed y)
also-passed (rejected why) next h = cc
also-passed (passed x) next h = (x, refl, h)

unfoldable pub implicit_client_key : Bytes → Option ClientKey
implicit_client_key api_key =
    let key = trim_space api_key in
    if beq key []
    then none
    else some
        (record { name = implicit_client_name; key = key; role = role_admin; disabled = false })

-- An entry with its texts trimmed, before the default role.
unfoldable pub trimmed : ClientKey → ClientKey
trimmed e = record e {
  name = trim_space e.name;
  key = trim_space e.key;
  role = to_lower (trim_space e.role);
}

unfoldable pub with_role : ClientKey → ClientKey
with_role e = record e { role = if beq e.role [] then role_client else e.role }

-- `seen[name]`
unfoldable pub seen_name : Bytes → List ClientKey → Bool
seen_name name [] = false
seen_name name (e ∷ seen) = beq e.name name || seen_name name seen

-- `seenKeys[key]`: the name of the entry that has the key, or the empty text.
unfoldable pub seen_key : Bytes → List ClientKey → Bytes
seen_key key [] = []
seen_key key (e ∷ seen) = if beq e.key key then e.name else seen_key key seen

-- One round of the loop: the entry as it is kept. `seen` are the entries kept before, newest first,
-- which `seen` and `seenKeys` of the source index.
unfoldable pub check_entry : ℕ → List ClientKey → ClientKey → Checked ClientKey
check_entry i seen entry =
    let t = trimmed entry in
    let e = with_role t in
    if beq t.name []
    then rejected (name_required i)
    else if beq (trim_space t.key) []
    then rejected (key_required i t.name)
    else if not (beq e.role role_admin) && not (beq e.role role_client)
    then rejected (bad_role i t.name)
    else if seen_name t.name seen
    then rejected (duplicate_name t.name)
    else if not (beq (seen_key t.key seen) [])
    then rejected (duplicate_key t.name (seen_key t.key seen))
    else passed e

unfoldable pub check_entries : ℕ → List ClientKey → List ClientKey → Checked (List ClientKey)
check_entries i seen [] = passed []
check_entries i seen (entry ∷ entries) = check_entry i seen entry also λ e.
    check_entries (i + 1) (e ∷ seen) entries also λ rest. passed (e ∷ rest)

unfoldable pub parse_keys_file :
    (Bytes → Option (List ClientKey)) → Bytes → Checked (List ClientKey)
parse_keys_file unmarshal raw = elim (unmarshal raw) [
  | none ↦ rejected invalid_json
  | some entries ↦ check_entries 0 [] entries
]

unfoldable pub collides : ClientKey → List ClientKey → Option KeysError
collides implicit [] = none
collides implicit (e ∷ entries) =
    let rest = collides implicit entries in
    if beq e.name implicit.name
    then some (reserved_name implicit.name)
    else if beq e.key implicit.key
    then some (implicit_key e.name)
    else rest

unfoldable pub reject_implicit_key_collision : Option ClientKey → List ClientKey → Option KeysError
unfolding collides
reject_implicit_key_collision none entries = none
reject_implicit_key_collision (some implicit) entries = collides implicit entries

pub record Registry : Type 0 where
  pub implicit : Option ClientKey
  pub path : Bytes
  pub entries : List ClientKey
  pub mtime : Time
  pub size : ℕ
  pub checked : Time
  pub stat_interval : ℕ

-- What `readPrivateFile` gives: an error, or the contents with modification time and size.
pub data FileRead : Type 0 where
  failed : FileRead
  contents : Bytes → Time → ℕ → FileRead

abbrev pub all_keys : Option ClientKey → List ClientKey → List ClientKey
all_keys none entries = entries
all_keys (some implicit) entries = implicit ∷ entries

-- The registry before it has read its file.
abbrev pub new_registry : Bytes → Bytes → Registry
new_registry api_key keys_file = record {
  implicit = implicit_client_key api_key;
  path = trim_space keys_file;
  entries = [];
  mtime = 0;
  size = 0;
  checked = 0;
  stat_interval = key_registry_stat_interval;
}

module _ (unmarshal : Bytes → Option (List ClientKey)) where
  -- The entries of a file that is accepted beside an implicit key.
  unfoldable pub accept_file : Option ClientKey → Bytes → Checked (List ClientKey)
  accept_file implicit raw = parse_keys_file unmarshal raw also λ entries.
      elim (reject_implicit_key_collision implicit entries) [
        | none ↦ passed entries
        | some e ↦ rejected e
      ]

  unfoldable pub first_load : Registry → FileRead → Time → Checked Registry
  first_load reg failed now = rejected unreadable
  first_load reg (contents raw mtime size) now = accept_file reg.implicit raw also λ entries.
      passed (record reg { entries = entries; mtime = mtime; size = size; checked = now })

  unfoldable pub new_key_registry : Bytes → Bytes → FileRead → Time → Checked Registry
  new_key_registry api_key keys_file file now =
      let reg = new_registry api_key keys_file in
      if beq reg.path [] then passed reg else first_load reg file now

  -- What a stat that is due does to the registry.
  unfoldable pub reload : Registry → FileRead → Time → Registry
  reload reg failed now = record reg { checked = now }
  reload reg (contents raw mtime size) now =
      if mtime == reg.mtime && size == reg.size
      then record reg { checked = now }
      else elim (accept_file reg.implicit raw) [
        | rejected e ↦ record reg { checked = now }
        | passed entries ↦ record reg {
          entries = entries;
          mtime = mtime;
          size = size;
          checked = now;
        }
      ]

  unfoldable pub current_entries : Registry → FileRead → Time → Registry × List ClientKey
  current_entries reg file now =
      let due = not (beq reg.path []) && leb (reg.checked + reg.stat_interval) now in
      let reg' = if due then reload reg file now else reg in
      (reg', all_keys reg'.implicit reg'.entries)

-- `enabled`; a nil registry is `none`.
unfoldable pub enabled : Option Registry → Bool
enabled none = false
enabled (some reg) = is_some reg.implicit || not (beq reg.path []) || ltb 0 (length reg.entries)

-- The loop of `resolve` over all entries: the index of the first match that is not disabled.
unfoldable pub match_from : Bytes → ℕ → Option ℕ → List ClientKey → Option ℕ
match_from token i matched [] = matched
match_from token i matched (e ∷ entries) =
    match_from token (i + 1)
      (if beq token e.key && not e.disabled && not (is_some matched) then some i else matched)
      entries

abbrev pub identity_of : Option ClientKey → Option ClientIdentity
identity_of none = none
identity_of (some e) = some (record { name = e.name; role = e.role })

abbrev pub identity_at : List ClientKey → Option ℕ → Option ClientIdentity
identity_at entries none = none
identity_at entries (some i) = identity_of (get_elem? entries i)

-- `resolve` on the entries that `currentEntries` returned; `none` is a refusal.
unfoldable pub resolve_in : List ClientKey → Bytes → Option ClientIdentity
unfolding match_from
resolve_in entries token = identity_at entries (match_from token 0 none entries)
