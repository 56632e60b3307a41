-- ===== src/Live/Store.antt =====
-- The registry of live calls (realtime.go) over any order of its operations.
use codex_auth_broker.Live.{
  Calls, LiveCall, LiveCallStore, delete_call, empty_store, finish, get_call, lookup,
  max_live_calls, put_call, reserve, unexpired,
}
use codex_auth_broker.Prelude.{
  Bool-cases, Option-cases, [], arith, false, inl, inr, length, ltb, refl, true, ℕ, ◌+◌, ◌-◌, ◌∙◌,
  ◌∷◌, ◌≡◌, ◌≤◌,
}
use codex_auth_broker.Prelude.Clock.{Time}
use codex_auth_broker.Prelude.Text.{Bytes, beq}

-- The store, and the reservations that have not been finished.
pub record System : Type 0 where
  pub store : LiveCallStore
  pub open_calls : ℕ

abbrev pub start : System
start = record { store = empty_store; open_calls = 0 }

pub data Step (s : System) : System → Type 0 where
  reserves :
      (now : Time)
      → (reserve s.store now).1 ≡ true
      → Step s (record { store = (reserve s.store now).0; open_calls = s.open_calls + 1 })
  is_full :
      (now : Time)
      → (reserve s.store now).1 ≡ false
      → Step s (record { store = (reserve s.store now).0; open_calls = s.open_calls })
  finishes :
      (n : ℕ) (id : Bytes) (call : LiveCall)
      → s.open_calls ≡ n + 1
      → Step s (record { store = finish s.store id call; open_calls = n })
  looks_up :
      (id : Bytes) (owner : ℕ) (now : Time)
      → Step s (record { store = (lookup s.store id owner now).0; open_calls = s.open_calls })

pub data Run (s : System) : System → Type 0 where
  no_step : Run s s
  one_more : {t u : System} → Run s t → Step t u → Run s u

-- `pending` counts the open reservations, and with the calls they are no more than the limit.
abbrev pub IsBounded : System → Type 0
IsBounded s =
    (s.store.pending ≡ s.open_calls) × (length s.store.calls + s.store.pending ≤ max_live_calls)

unexpired-le : (now : Time) (calls : Calls) → length (unexpired now calls) ≤ length calls
unfolding unexpired
unexpired-le now [] = omega arith
unexpired-le now ((id, call) ∷ calls) = ground (arith, unexpired-le now calls)

put_call-le :
    (id : Bytes) (call : LiveCall) (calls : Calls)
    → length (put_call id call calls) ≤ length calls + 1
unfolding put_call
put_call-le id call [] = omega arith
put_call-le id call ((i, c) ∷ calls) = elim (Bool-cases (beq id i)) [
  | inl same ↦ rw same (omega arith)
  | inr other ↦ rw other (omega (arith, put_call-le id call calls))
]

delete_call-le : (id : Bytes) (calls : Calls) → length (delete_call id calls) ≤ length calls
unfolding delete_call
delete_call-le id [] = omega arith
delete_call-le id ((i, c) ∷ calls) = elim (Bool-cases (beq id i)) [
  | inl same ↦ rw same (omega (arith, delete_call-le id calls))
  | inr other ↦ rw other (omega (arith, delete_call-le id calls))
]

lookup-le :
    (s : LiveCallStore) (id : Bytes) (owner : ℕ) (now : Time)
    → ((lookup s id owner now).0.pending ≡ s.pending)
      × (length (lookup s id owner now).0.calls ≤ length s.calls)
unfolding lookup
lookup-le s id owner now = elim (Option-cases (get_call id s.calls)) [
  | inl e ↦ rw (e, lookup) (refl, omega arith)
  | inr (call, e) ↦ elim (Bool-cases (ltb call.expires now)) [
    | inl late ↦ rw (e, late, lookup) (refl, delete_call-le id s.calls)
    | inr live ↦ rw (e, live, lookup) (refl, omega arith)
  ]
]

finish-le :
    (s : LiveCallStore) (id : Bytes) (call : LiveCall)
    → length (finish s id call).calls ≤ length s.calls + 1
unfolding finish
finish-le s id call = ground (arith, put_call-le id call s.calls)

finish-pending :
    (s : LiveCallStore) (id : Bytes) (call : LiveCall) → (finish s id call).pending ≡ s.pending - 1
unfolding finish
finish-pending s id call = refl

Step-IsBounded : {s t : System} → Step s t → IsBounded s → IsBounded t
unfolding reserve
Step-IsBounded {s} (reserves now h) (count, within) =
    (ground arith, ground (arith, unexpired-le now s.store.calls))
Step-IsBounded {s} (is_full now h) (count, within) =
    (ground arith, ground (arith, unexpired-le now s.store.calls))
Step-IsBounded {s} (finishes n id call h) (count, within) =
    let counts = finish-pending s.store id call in
    (omega (arith, counts), omega (arith, counts, finish-le s.store id call))
Step-IsBounded {s} (looks_up id owner now) (count, within) =
    let (same, fewer) = lookup-le s.store id owner now in (same ∙ count, omega arith)

Run-IsBounded : {s t : System} → IsBounded s → Run s t → IsBounded t
Run-IsBounded v no_step = v
Run-IsBounded v (one_more r st) = Step-IsBounded st (Run-IsBounded v r)

-- In every order of reservations, finishes and lookups in which a reservation is finished once, the
-- registry's `pending` is the number of open reservations, and the stored calls and the open
-- reservations together are at most 256: a finish never takes the registry over its limit.
pub calls_within_limit : {t : System} → Run start t → IsBounded t
calls_within_limit r = Run-IsBounded (refl, omega arith) r
