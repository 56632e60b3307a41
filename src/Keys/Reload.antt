-- ===== src/Keys/Reload.antt =====
-- The registry of keys.go over its life: which entries it holds, and that each key is of one
-- client.
use codex_auth_broker.Prelude.{
  All, All-get, Bool-cases, List, Option, Option-cases, [], ap, arith, false, get_elem?, inl, inr,
  leb, none, not, refl, some, suc, sym, zero, ℕ, ◌&&◌, ◌+◌, ◌<◌, ◌==◌, ◌∙◌, ◌∷◌, ◌≡◌, ◌≢◌, ◌≤◌, ◌⊎◌,
}
use codex_auth_broker.Prelude.Text.{Bytes, beq, beq-ne, beq_iff, trim_space}
use codex_auth_broker.Keys.{
  Checked, ClientKey, FileRead, Registry, accept_file, all_keys, also-passed, collides, contents,
  current_entries, failed, first_load, implicit_client_key, implicit_client_name, new_key_registry,
  new_registry, parse_keys_file, passed, reject_implicit_key_collision, rejected, reload,
}
use codex_auth_broker.Keys.Parse.{AreDistinct, IsFresh, IsValidEntry, parse_keys_file-ok}
use codex_auth_broker.Prelude.Clock.{Time}

-- The implicit key and the entries together: each is valid, no name and no key stands twice.
abbrev pub IsSound : Option ClientKey → List ClientKey → Type 0
IsSound implicit entries =
    All IsValidEntry (all_keys implicit entries) × AreDistinct (all_keys implicit entries)

collides-IsFresh :
    (implicit : ClientKey) (entries : List ClientKey)
    → collides implicit entries ≡ none
    → IsFresh implicit entries
unfolding collides
collides-IsFresh implicit [] h = (tt, tt)
collides-IsFresh implicit (e ∷ entries) h =
    let name : beq e.name implicit.name ≡ false = ground arith in
    let key : beq e.key implicit.key ≡ false = ground arith in
    let later : collides implicit entries ≡ none = ground arith in
    let (names, keys) = collides-IsFresh implicit entries later in
    ((beq-ne _ _ name, names), (beq-ne _ _ key, keys))

accept_file-IsSound :
    (unmarshal : Bytes → Option (List ClientKey)) (implicit : Option ClientKey) (raw : Bytes)
    (entries : List ClientKey)
    → IsSound implicit []
    → accept_file unmarshal implicit raw ≡ passed entries
    → IsSound implicit entries
unfolding accept_file reject_implicit_key_collision
accept_file-IsSound unmarshal none raw entries own h =
    let (parsed, is_parsed, same) =
      also-passed (parse_keys_file unmarshal raw) (λ es. passed es) h in
    parse_keys_file-ok unmarshal raw entries cc
accept_file-IsSound unmarshal (some implicit) raw entries own h =
    let (parsed, is_parsed, later) = also-passed (parse_keys_file unmarshal raw) _ h in
    elim (Option-cases (collides implicit parsed)) [
      | inl free ↦
          let same : parsed ≡ entries = ground arith in
          let (valid, distinct) = parse_keys_file-ok unmarshal raw parsed is_parsed in
          rw (← same) ((own.0.0, valid), (collides-IsFresh implicit parsed free, distinct))
      | inr (e, taken) ↦ ground arith
    ]

-- A registry that the broker can hold.
abbrev pub IsWellKept : Registry → Type 0
IsWellKept reg = IsSound reg.implicit reg.entries × IsSound reg.implicit []

implicit_named : beq implicit_client_name [] ≡ false
unfolding beq
implicit_named = refl

implicit_client_key-IsSound : (api_key : Bytes) → IsSound (implicit_client_key api_key) []
unfolding implicit_client_key
implicit_client_key-IsSound api_key = elim (Bool-cases (beq (trim_space api_key) [])) [
  | inl absent ↦ rw absent (tt, tt)
  | inr given ↦
      rw given (((beq-ne _ _ implicit_named, beq-ne _ _ given, inl refl), tt), ((tt, tt), tt))
]

first_load-IsWellKept :
    (unmarshal : Bytes → Option (List ClientKey)) (start : Registry) (file : FileRead) (now : Time)
    (reg : Registry)
    → IsSound start.implicit []
    → first_load unmarshal start file now ≡ passed reg
    → IsWellKept reg
unfolding first_load
first_load-IsWellKept unmarshal start failed now reg own h = cc
first_load-IsWellKept unmarshal start (contents raw mtime size) now reg own h =
    let (entries, accepted, is_reg) = also-passed (accept_file unmarshal start.implicit raw) _ h in
    let loaded : Registry = record start {
      entries = entries;
      mtime = mtime;
      size = size;
      checked = now;
    } in
    let same : loaded ≡ reg = cc in
    rw (← same) (accept_file-IsSound unmarshal start.implicit raw entries own accepted, own)

pub new_key_registry-IsWellKept :
    (unmarshal : Bytes → Option (List ClientKey)) (api_key keys_file : Bytes) (file : FileRead)
    (now : Time) (reg : Registry)
    → new_key_registry unmarshal api_key keys_file file now ≡ passed reg
    → IsWellKept reg
unfolding new_key_registry
new_key_registry-IsWellKept unmarshal api_key keys_file file now reg h =
    let own = implicit_client_key-IsSound api_key in
    elim (Bool-cases (beq (trim_space keys_file) [])) [
      | inl unnamed ↦ let same : new_registry api_key keys_file ≡ reg = cc in rw (← same) (own, own)
      | inr named ↦
          let loads : first_load unmarshal (new_registry api_key keys_file) file now ≡ passed reg =
            cc in
          first_load-IsWellKept unmarshal (new_registry api_key keys_file) file now reg own loads
    ]

-- What a stat does with a file that could be read: nothing but note the time, if the file's time and
-- size are those of the last one that was accepted, or if the file is not accepted; else take it
-- over whole.
abbrev pub Takes :
    (Bytes → Option (List ClientKey)) → Registry → Bytes → Time → ℕ → Time → Registry → Type 0
Takes unmarshal reg raw mtime size now reg' =
    ((mtime ≡ reg.mtime) × (size ≡ reg.size) × (reg' ≡ record reg { checked = now }))
    ⊎ (((mtime ≢ reg.mtime) ⊎ (size ≢ reg.size))
        × (e : _) × (accept_file unmarshal reg.implicit raw ≡ rejected e)
        × (reg' ≡ record reg { checked = now }))
    ⊎ (((mtime ≢ reg.mtime) ⊎ (size ≢ reg.size))
        × (entries : List ClientKey) × (accept_file unmarshal reg.implicit raw ≡ passed entries)
        × (reg' ≡ record reg { entries = entries; mtime = mtime; size = size; checked = now }))

-- A file that could not be read is as one that did not change.
abbrev pub Reloads :
    (Bytes → Option (List ClientKey)) → Registry → FileRead → Time → Registry → Type 0
Reloads unmarshal reg failed now reg' = reg' ≡ record reg { checked = now }
Reloads unmarshal reg (contents raw mtime size) now reg' =
    Takes unmarshal reg raw mtime size now reg'

reload-Reloads :
    (unmarshal : Bytes → Option (List ClientKey)) (reg : Registry) (file : FileRead) (now : Time)
    → Reloads unmarshal reg file now (reload unmarshal reg file now)
unfolding reload
reload-Reloads unmarshal reg failed now = refl
reload-Reloads unmarshal reg (contents raw mtime size) now =
    elim (Bool-cases (mtime == reg.mtime && size == reg.size)) [
      | inl unchanged ↦ rw unchanged (inl (ground arith, ground arith, refl))
      | inr changed ↦
          rw changed (taken (differs changed) (accept_file unmarshal reg.implicit raw) refl)
    ]
  where
    differs :
        (mtime == reg.mtime && size == reg.size) ≡ false → (mtime ≢ reg.mtime) ⊎ (size ≢ reg.size)
    differs changed = elim (Bool-cases (mtime == reg.mtime)) [
      | inl same ↦ inr (ground arith)
      | inr other ↦ inl (ground arith)
    ]

    taken :
        (mtime ≢ reg.mtime) ⊎ (size ≢ reg.size)
        → (r : Checked (List ClientKey)) → accept_file unmarshal reg.implicit raw ≡ r
        → Takes unmarshal reg raw mtime size now (elim r [
          | rejected e ↦ record reg { checked = now }
          | passed entries ↦ record reg {
            entries = entries;
            mtime = mtime;
            size = size;
            checked = now;
          }
        ])
    taken new (rejected e) h = inr (inl (new, e, h, refl))
    taken new (passed entries) h = inr (inr (new, entries, h, refl))

reload-IsWellKept :
    (unmarshal : Bytes → Option (List ClientKey)) (reg : Registry) (file : FileRead) (now : Time)
    → IsWellKept reg
    → IsWellKept (reload unmarshal reg file now)
reload-IsWellKept unmarshal reg failed now kept = rw (reload-Reloads unmarshal reg failed now) kept
reload-IsWellKept unmarshal reg (contents raw mtime size) now kept =
    elim (reload-Reloads unmarshal reg (contents raw mtime size) now) [
      | inl (_, _, noted) ↦ rw noted kept
      | inr (inl (_, _, _, noted)) ↦ rw noted kept
      | inr (inr (_, entries, accepted, is_reg)) ↦
          rw is_reg (accept_file-IsSound unmarshal reg.implicit raw entries kept.1 accepted, kept.1)
    ]

-- The registry after a number of lookups, each with what reading the file gave and the time.
unfoldable pub serve :
    (Bytes → Option (List ClientKey)) → Registry → List (FileRead × Time) → Registry
serve unmarshal reg [] = reg
serve unmarshal reg ((file, now) ∷ lookups) =
    serve unmarshal (current_entries unmarshal reg file now).0 lookups

current_entries-IsWellKept :
    (unmarshal : Bytes → Option (List ClientKey)) (reg : Registry) (file : FileRead) (now : Time)
    → IsWellKept reg
    → IsWellKept (current_entries unmarshal reg file now).0
unfolding current_entries
current_entries-IsWellKept unmarshal reg file now kept =
    elim (Bool-cases (not (beq reg.path []) && leb (reg.checked + reg.stat_interval) now)) [
      | inl due ↦ rw due (reload-IsWellKept unmarshal reg file now kept)
      | inr early ↦ rw early kept
    ]

serve-IsWellKept :
    (unmarshal : Bytes → Option (List ClientKey)) (reg : Registry)
    (lookups : List (FileRead × Time))
    → IsWellKept reg
    → IsWellKept (serve unmarshal reg lookups)
unfolding serve
serve-IsWellKept unmarshal reg [] kept = kept
serve-IsWellKept unmarshal reg ((file, now) ∷ lookups) kept =
    serve-IsWellKept unmarshal (current_entries unmarshal reg file now).0 lookups
      (current_entries-IsWellKept unmarshal reg file now kept)

current_entries-entries :
    (unmarshal : Bytes → Option (List ClientKey)) (reg : Registry) (file : FileRead) (now : Time)
    → let (reg', entries) = current_entries unmarshal reg file now in
      entries ≡ all_keys reg'.implicit reg'.entries
unfolding current_entries
current_entries-entries unmarshal reg file now = refl

-- No two of the entries, at different places, have the same key.
abbrev pub HasOneClientPerKey : List ClientKey → Type 0
HasOneClientPerKey entries =
    (i j : ℕ) (e e' : ClientKey)
    → get_elem? entries i ≡ some e
    → get_elem? entries j ≡ some e'
    → e.key ≡ e'.key
    → i ≡ j

AreDistinct-one : (entries : List ClientKey) → AreDistinct entries → HasOneClientPerKey entries
AreDistinct-one [] d i j e e' ati atj same = cc
AreDistinct-one (x ∷ entries) d zero zero e e' ati atj same = refl
AreDistinct-one (x ∷ entries) d zero (suc j) e e' ati atj same =
    let first : e ≡ x = cc in
    absurd (All-get _ entries j e' d.0.1 atj (sym same ∙ ap (λ (y : ClientKey). y.key) first))
AreDistinct-one (x ∷ entries) d (suc i) zero e e' ati atj same =
    let first : e' ≡ x = cc in
    absurd (All-get _ entries i e d.0.1 ati (same ∙ ap (λ (y : ClientKey). y.key) first))
AreDistinct-one (x ∷ entries) d (suc i) (suc j) e e' ati atj same =
    ap suc (AreDistinct-one entries d.1 i j e e' ati atj same)

-- A registry that started holds at every later lookup, whatever its file was meanwhile, valid
-- entries only (name, key, role admin or client), and no two of them, the implicit key among them,
-- share a key: a token is never of two clients.
pub one_client_per_key :
    (unmarshal : Bytes → Option (List ClientKey)) (api_key keys_file : Bytes) (file : FileRead)
    (start : Time) (reg : Registry) (lookups : List (FileRead × Time)) (file' : FileRead)
    (now : Time)
    → new_key_registry unmarshal api_key keys_file file start ≡ passed reg
    → let entries = (current_entries unmarshal (serve unmarshal reg lookups) file' now).1 in
      All IsValidEntry entries × HasOneClientPerKey entries
one_client_per_key unmarshal api_key keys_file file start reg lookups file' now h =
    let kept = current_entries-IsWellKept unmarshal (serve unmarshal reg lookups) file' now (
      serve-IsWellKept unmarshal reg lookups
        (new_key_registry-IsWellKept unmarshal api_key keys_file file start reg h)) in
    rw (current_entries-entries unmarshal (serve unmarshal reg lookups) file' now)
      (kept.0.0, AreDistinct-one _ kept.0.1)

-- A lookup looks at the file exactly if the registry has one and the stat interval is over. It then
-- takes the file over whole, if its time or size changed and it is accepted beside the implicit
-- key; in every other case, a file that cannot be read or is rejected among them, the registry keeps
-- its entries. The lookup answers from the entries it ends with.
pub current_entries-Reloads :
    (unmarshal : Bytes → Option (List ClientKey)) (reg : Registry) (file : FileRead) (now : Time)
    → let (reg', entries) = current_entries unmarshal reg file now in
      (entries ≡ all_keys reg'.implicit reg'.entries)
      × ((((reg.path ≡ []) ⊎ (now < reg.checked + reg.stat_interval)) × (reg' ≡ reg))
          ⊎ ((reg.path ≢ [])
              × (reg.checked + reg.stat_interval ≤ now)
              × Reloads unmarshal reg file now reg'))
unfolding current_entries
current_entries-Reloads unmarshal reg file now = elim (Bool-cases (beq reg.path [])) [
  | inl unnamed ↦ rw unnamed (refl, inl (inl ((beq_iff _ _).0 unnamed), refl))
  | inr named ↦ elim (Bool-cases (leb (reg.checked + reg.stat_interval) now)) [
    | inl due ↦
        rw (named, due)
          (refl, inr (beq-ne _ _ named, ground arith, reload-Reloads unmarshal reg file now))
    | inr early ↦ rw (named, early) (refl, inl (inr (ground arith), refl))
  ]
]
