-- ===== src/Cooldown/Earliest.antt =====
-- `resetFromBody` of accounts.go finds the earliest reset in a 429 body.
use native.Mathlib.Nat.{le_refl}
use codex_auth_broker.Cooldown.{
  Best, Parsers, better, coerce_reset, is_reset_key, look, reset_from_body, walk, walk_fields,
  walk_items,
}
use codex_auth_broker.Prelude.Json.{
  AllFields, AllFieldsIn, AllFieldsOf, Fields, Items, Value, arr, bool, cons, end, field, nil, null,
  num, obj, str,
}
use codex_auth_broker.Cooldown.Bounds.{Within, coerce_reset-Within}
use codex_auth_broker.Prelude.{
  Bool-cases, Option, [], arith, if◌then◌else◌, inl, inr, ltb, none, refl, some, true, ◌==◌, ◌||◌,
  ◌≡◌, ◌≢◌, ◌≤◌, ◌⊎◌,
}
use codex_auth_broker.Prelude.Clock.{Time}
use codex_auth_broker.Prelude.Text.{Bytes}

-- `r` is not later than a reset found earlier, if there was one.
abbrev NotAfter : Time → Time → Type 0
NotAfter r t = (t ≡ 0) ⊎ ((r ≢ 0) × (r ≤ t))

-- `r` is not later than the reset that a field carries, if its name marks one and its value parses.
abbrev pub EarliestAt : Parsers → Time → Time → Bytes → Value → Type 0
EarliestAt ps now r k v =
    (until : Time)
    → is_reset_key k ≡ true
    → coerce_reset ps v now ≡ some until
    → (r ≢ 0) × (r ≤ until)

better-NotAfter :
    (r : Time) (best : Best) (k : Bytes) (o : Option Time)
    → ((until : Time) → o ≡ some until → until ≢ 0)
    → NotAfter r (better best k o).time
    → NotAfter r best.time × ((until : Time) → o ≡ some until → (r ≢ 0) × (r ≤ until))
unfolding better
better-NotAfter r best k none nz h = (h, λ until e. cc)
better-NotAfter r best k (some u) nz h =
    let some_u : u ≢ 0 = nz u refl in
    let both : NotAfter r best.time × ((r ≢ 0) × (r ≤ u)) = split some_u in
    (both.0, λ until e. let same : u ≡ until = cc in ((both.1).0, rw (← same) (both.1).1))
  where
    split : u ≢ 0 → NotAfter r best.time × ((r ≢ 0) × (r ≤ u))
    split some_u = elim (Bool-cases (best.time == 0 || ltb u best.time)) [
      | inl e ↦ let h' : NotAfter r u = rw e at h in ground arith
      | inr e ↦ let h' : NotAfter r best.time = rw e at h in ground arith
    ]

coerced-ne-zero :
    (ps : Parsers) (v : Value) (now until : Time) → coerce_reset ps v now ≡ some until → until ≢ 0
coerced-ne-zero ps v now until e =
    let w : Within now until = rw e at (coerce_reset-Within ps v now) in omega arith

look-NotAfter :
    (ps : Parsers) (now r : Time) (best : Best) (k : Bytes) (v : Value)
    → NotAfter r (look ps now best k v).time
    → NotAfter r best.time × EarliestAt ps now r k v
unfolding look
look-NotAfter ps now r best k v h = elim (Bool-cases (is_reset_key k)) [
  | inr e ↦ (rw (e, look) at h, λ until yes' found. cc)
  | inl e ↦
      let (old, this) =
        better-NotAfter r best k (coerce_reset ps v now) (λ u. coerced-ne-zero ps v now u)
          (rw (e, look) at h) in
      (old, λ until _ found. this until found)
]

mutual
  unfolding walk

  walk-NotAfter :
      (ps : Parsers) (now r : Time) (best : Best) (v : Value)
      → NotAfter r (walk ps now best v).time
      → NotAfter r best.time × AllFields (EarliestAt ps now r) v
  walk-NotAfter ps now r best null h = (h, tt)
  walk-NotAfter ps now r best (bool x) h = (h, tt)
  walk-NotAfter ps now r best (num n) h = (h, tt)
  walk-NotAfter ps now r best (str s) h = (h, tt)
  walk-NotAfter ps now r best (arr xs) h = walk_items-NotAfter ps now r best xs h
  walk-NotAfter ps now r best (obj fs) h = walk_fields-NotAfter ps now r best fs h

  walk_items-NotAfter :
      (ps : Parsers) (now r : Time) (best : Best) (xs : Items)
      → NotAfter r (walk_items ps now best xs).time
      → NotAfter r best.time × AllFieldsOf (EarliestAt ps now r) xs
  walk_items-NotAfter ps now r best nil h = (h, tt)
  walk_items-NotAfter ps now r best (cons v xs) h =
      let (after, rest) = walk_items-NotAfter ps now r (walk ps now best v) xs h in
      let (before, this) = walk-NotAfter ps now r best v after in (before, (this, rest))

  walk_fields-NotAfter :
      (ps : Parsers) (now r : Time) (best : Best) (fs : Fields)
      → NotAfter r (walk_fields ps now best fs).time
      → NotAfter r best.time × AllFieldsIn (EarliestAt ps now r) fs
  walk_fields-NotAfter ps now r best end h = (h, tt)
  walk_fields-NotAfter ps now r best (field k v fs) h =
      let seen = look ps now best k v in
      let (after, rest) = walk_fields-NotAfter ps now r (walk ps now seen v) fs h in
      let (before, inside) = walk-NotAfter ps now r seen v after in
      let (old, this) = look-NotAfter ps now r best k v before in (old, (this, inside, rest))

-- `resetFromBody` never over-cools: the reset that it reports is no later than that of any reset
-- field at any depth of the body, and where it reports none, no such field has a value that parses.
pub reset_from_body-Earliest :
    (ps : Parsers) (body : Bytes) (now : Time) (parsed : Value)
    → ps.unmarshal body ≡ some parsed
    → AllFields
        (EarliestAt ps now
          (elim (reset_from_body ps body now) [ some best ↦ best.time | none ↦ 0 ]))
        parsed
unfolding reset_from_body
reset_from_body-Earliest ps body now parsed e =
    rw (e, reset_from_body) (cases (walk ps now first parsed) refl)
  where
    first : Best
    first = record { time = 0; key = [] }

    cases :
        (w : Best)
        → walk ps now first parsed ≡ w
        → AllFields
            (EarliestAt ps now
              (elim (if w.time == 0 then none else some w) [ some best ↦ best.time | none ↦ 0 ]))
            parsed
    cases w same = elim (Bool-cases (w.time == 0)) [
      | inl z ↦ rw z (walk-NotAfter ps now 0 first parsed (inl (rw same (ground arith)))).1
      | inr nz ↦
          rw nz
            (walk-NotAfter ps now w.time first parsed (inr (ground arith, rw same (le_refl _)))).1
    ]
