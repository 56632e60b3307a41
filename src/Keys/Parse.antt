-- ===== src/Keys/Parse.antt =====
-- `parseKeysFile` of keys.go: what an accepted file is like.
use codex_auth_broker.Keys.{
  ClientKey, also-passed, check_entries, check_entry, invalid_json, parse_keys_file, passed,
  rejected, role_admin, role_client, seen_key, seen_name, trimmed, with_role,
}
use codex_auth_broker.Prelude.{
  All, All-imp, Bool-cases, List, Option, Option-cases, [], ap, arith, false, inl, inr, refl, sym,
  true, ℕ, ◌+◌, ◌∙◌, ◌∷◌, ◌≡◌, ◌≢◌, ◌⊎◌,
}
use codex_auth_broker.Prelude.Text.{Bytes, beq, beq-ne, beq_iff, trim_space}

abbrev pub IsValidEntry : ClientKey → Type 0
IsValidEntry e = (e.name ≢ []) × (e.key ≢ []) × ((e.role ≡ role_admin) ⊎ (e.role ≡ role_client))

-- No entry of the list has this one's name or key.
abbrev pub IsFresh : ClientKey → List ClientKey → Type 0
IsFresh e entries = All (λ s. s.name ≢ e.name) entries × All (λ s. s.key ≢ e.key) entries

abbrev pub AreDistinct : List ClientKey → Type 0
AreDistinct [] = Unit
AreDistinct (e ∷ entries) = IsFresh e entries × AreDistinct entries

seen_name-All :
    (name : Bytes) (seen : List ClientKey)
    → seen_name name seen ≡ false
    → All (λ s. s.name ≢ name) seen
unfolding seen_name
seen_name-All name [] h = tt
seen_name-All name (e ∷ seen) h =
    (ground (arith, beq_iff e.name name), seen_name-All name seen (ground arith))

seen_key-All :
    (key : Bytes) (seen : List ClientKey)
    → All IsValidEntry seen
    → seen_key key seen ≡ []
    → All (λ s. s.key ≢ key) seen
unfolding seen_key
seen_key-All key [] v h = tt
seen_key-All key (e ∷ seen) v h = elim (Bool-cases (beq e.key key)) [
  | inl same ↦ absurd (v.0.0 (rw same at h))
  | inr other ↦ (
    λ same. ground (arith, (beq_iff e.key key).1 same),
    seen_key-All key seen v.1 (rw other at h),
  )
]

trim_space-nil : trim_space [] ≡ []
unfolding trim_space
trim_space-nil = refl

-- The tests that an accepted entry has passed.
check_entry_passes :
    (i : ℕ) (seen : List ClientKey) (entry e : ClientKey)
    → check_entry i seen entry ≡ passed e
    → let t = trimmed entry in
      (e ≡ with_role t)
      × (beq t.name [] ≡ false)
      × (beq (trim_space t.key) [] ≡ false)
      × ((beq e.role role_admin ≡ true) ⊎ (beq e.role role_client ≡ true))
      × (seen_name t.name seen ≡ false)
      × (beq (seen_key t.key seen) [] ≡ true)
unfolding check_entry
check_entry_passes i seen entry e h =
    let t = trimmed entry in
    (ground arith, ground arith, ground arith, ground arith, ground arith, ground arith)

check_entry-passed :
    (i : ℕ) (seen : List ClientKey) (entry e : ClientKey)
    → All IsValidEntry seen
    → check_entry i seen entry ≡ passed e
    → IsValidEntry e × IsFresh e seen
check_entry-passed i seen entry e v h =
    rw (name_is, key_is)
      (
        (beq-ne _ _ named, keyed, role),
        (seen_name-All _ seen new_name, seen_key-All _ seen v ((beq_iff _ _).0 new_key)),
      )
  where
    t : ClientKey
    t = trimmed entry

    passes :
        (e ≡ with_role t)
        × (beq t.name [] ≡ false)
        × (beq (trim_space t.key) [] ≡ false)
        × ((beq e.role role_admin ≡ true) ⊎ (beq e.role role_client ≡ true))
        × (seen_name t.name seen ≡ false)
        × (beq (seen_key t.key seen) [] ≡ true)
    passes = check_entry_passes i seen entry e h

    name_is : e.name ≡ t.name
    name_is = unfold with_role in ap (λ (x : ClientKey). x.name) passes.0

    key_is : e.key ≡ t.key
    key_is = unfold with_role in ap (λ (x : ClientKey). x.key) passes.0

    named : beq t.name [] ≡ false
    named = passes.1

    keyed : t.key ≢ []
    keyed none' = beq-ne _ _ passes.2 (ap trim_space none' ∙ trim_space-nil)

    role : (e.role ≡ role_admin) ⊎ (e.role ≡ role_client)
    role = elim passes.3 [ inl a ↦ inl ((beq_iff _ _).0 a) | inr c ↦ inr ((beq_iff _ _).0 c) ]

    new_name : seen_name t.name seen ≡ false
    new_name = passes.4

    new_key : beq (seen_key t.key seen) [] ≡ true
    new_key = passes.5

-- What the loop keeps, on top of the entries kept before.
abbrev Kept : List ClientKey → List ClientKey → Type 0
Kept seen entries =
    All IsValidEntry entries × AreDistinct entries × All (λ e. IsFresh e seen) entries

check_entries-passed :
    (i : ℕ) (entries seen kept : List ClientKey)
    → All IsValidEntry seen
    → check_entries i seen entries ≡ passed kept
    → Kept seen kept
unfolding check_entries
check_entries-passed i [] seen kept v h =
    let none_kept : kept ≡ [] = cc in rw none_kept (tt, tt, tt)
check_entries-passed i (entry ∷ entries) seen kept v h =
    let (e, kept_e, later) = also-passed (check_entry i seen entry) _ h in
    let (rest, kept_rest, all_kept) =
      also-passed (check_entries (i + 1) (e ∷ seen) entries) (λ rest. passed (e ∷ rest)) later in
    let (valid, fresh) = check_entry-passed i seen entry e v kept_e in
    let (valids, distinct, others) =
      check_entries-passed (i + 1) entries (e ∷ seen) rest (valid, v) kept_rest in
    let is_kept : kept ≡ e ∷ rest = cc in
    let apart : IsFresh e rest = (
      All-imp (λ x. IsFresh x (e ∷ seen)) _ rest (λ x f same. f.0.0 (sym same)) others,
      All-imp (λ x. IsFresh x (e ∷ seen)) _ rest (λ x f same. f.1.0 (sym same)) others,
    ) in
    let still : All (λ x. IsFresh x seen) rest =
      All-imp (λ x. IsFresh x (e ∷ seen)) _ rest (λ x f. (f.0.1, f.1.1)) others in
    rw is_kept ((valid, valids), (apart, distinct), (fresh, still))

-- A keys file that is accepted holds entries with a name, a key and the role admin or client, and
-- no two of them share a name or a key.
pub parse_keys_file-ok :
    (unmarshal : Bytes → Option (List ClientKey)) (raw : Bytes) (entries : List ClientKey)
    → parse_keys_file unmarshal raw ≡ passed entries
    → All IsValidEntry entries × AreDistinct entries
unfolding parse_keys_file
parse_keys_file-ok unmarshal raw entries h = elim (Option-cases (unmarshal raw)) [
  | inl e ↦
      let refused : parse_keys_file unmarshal raw ≡ rejected invalid_json =
        rw (e, parse_keys_file) refl in
      cc
  | inr (decoded, e) ↦
      let (valid, distinct, _) =
        check_entries-passed 0 decoded [] entries tt (rw (e, parse_keys_file) at h) in
      (valid, distinct)
]
