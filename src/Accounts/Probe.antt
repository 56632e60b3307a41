-- ===== src/Accounts/Probe.antt =====
-- Probes of a fully benched pool (accounts.go): how often one account is probed.
use codex_auth_broker.Accounts.Pick.{
  AllCooling, IsValid, Picks, on_account-IsValid, pick-IsValid, pick-Picks,
}
use codex_auth_broker.Accounts.{
  Account, Pool, available, clear_at, clear_cooldown, cool, cool_at, holds_at, is_available, is_due,
  on_account, pick, probe_due, probe_interval, reserve, scan,
}
use codex_auth_broker.Prelude.{
  All, All-get, All-of_get, List, Option-cases, [], ap, arith, false, get_elem?, get_elem?-set,
  get_elem?-set_ne, get_elem?-set_self, get_of_lt, inl, inr, length, lt_of_get, none, refl, set,
  some, sym, true, ℕ, ◌+◌, ◌<◌, ◌∷◌, ◌≡◌, ◌≢◌, ◌≤◌, ◌⊎◌,
}
use codex_auth_broker.Prelude.Clock.{Time}
use mathlib.Core.Path.{subst}

-- What happens to a pool after a request was served: later picks, cooldowns and successes.
pub data Call : Type 0 where
  picks : Time → Call
  cools : ℕ → Time → Time → Call
  clears : ℕ → Call

unfoldable pub step : Pool → Call → Pool
step p (picks now) = (pick p now).0
step p (cools i now until) = cool_at i now until p
step p (clears i) = clear_at i p

unfoldable pub run : Pool → List Call → Pool
run p [] = p
run p (c ∷ cs) = run (step p c) cs

-- No success of account `i` among the calls.
abbrev pub NoClear : ℕ → List Call → Type 0
NoClear i [] = Unit {0}
NoClear i (clears j ∷ cs) = (i ≢ j) × NoClear i cs
NoClear i (picks _ ∷ cs) = NoClear i cs
NoClear i (cools _ _ _ ∷ cs) = NoClear i cs

-- Account `i` is not to be probed before `bound`.
abbrev pub Reserved : ℕ → Time → List Account → Type 0
Reserved i bound accounts = (a : Account) → get_elem? accounts i ≡ some a → bound ≤ a.next_probe

-- A write that lowers the next probe of no account but one that is not `i`.
set-Reserved :
    (i j : ℕ) (bound : Time) (accounts : List Account) (old new : Account)
    → get_elem? accounts j ≡ some old
    → (i ≢ j) ⊎ (old.next_probe ≤ new.next_probe)
    → Reserved i bound accounts
    → Reserved i bound (set accounts j new)
set-Reserved i j bound accounts old new at ok r a e = elim (get_elem?-set accounts j i new a e) [
  | inr (_, e') ↦ r a e'
  | inl (same, is_new) ↦ elim ok [
    | inl other ↦ absurd (other (sym same))
    | inr grows ↦
        let before = r old (rw (← same) at) in
        let now_is : new.next_probe ≡ a.next_probe = ap (λ x. x.next_probe) is_new in omega arith
  ]
]

probe_due-grows : (a : Account) (now : Time) → a.next_probe ≤ (probe_due a now).0.next_probe
unfolding probe_due
probe_due-grows a now = ground arith

cool-grows : (a : Account) (now until : Time) → a.next_probe ≤ (cool a now until).next_probe
unfolding cool
cool-grows a now until = ground arith

reserve-Reserved :
    (i j : ℕ) (bound now : Time) (accounts : List Account)
    → Reserved i bound accounts
    → Reserved i bound (reserve now accounts j)
unfolding reserve
reserve-Reserved i j bound now accounts r = elim (Option-cases (get_elem? accounts j)) [
  | inl e ↦ rw (e, reserve) r
  | inr (a, e) ↦
      rw (e, reserve)
        (set-Reserved i j bound accounts a (probe_due a now).0 e (inr (probe_due-grows a now)) r)
]

pick-Reserved :
    (i : ℕ) (bound now : Time) (p : Pool)
    → Reserved i bound p.accounts
    → Reserved i bound (pick p now).0.accounts
unfolding pick
pick-Reserved i bound now p r =
    elim (Option-cases (scan (is_available now) p (length p.accounts) 0)) [
      | inr (j, e) ↦ rw (e, pick) r
      | inl e ↦ elim (Option-cases (scan (is_due now) p (length p.accounts) 0)) [
        | inr (j, d) ↦ rw (e, d, pick) (reserve-Reserved i j bound now p.accounts r)
        | inl d ↦ rw (e, d, pick) r
      ]
    ]

on_account-Reserved :
    (f : Account → Account) (i j : ℕ) (bound : Time) (p : Pool)
    → (i ≢ j) ⊎ ((a : Account) → a.next_probe ≤ (f a).next_probe)
    → Reserved i bound p.accounts
    → Reserved i bound (on_account f j p).accounts
on_account-Reserved f i j bound p ok r = elim (Option-cases (get_elem? p.accounts j)) [
  | inl e ↦ rw (e, on_account) r
  | inr (a, e) ↦ rw (e, on_account) (set-Reserved i j bound p.accounts a (f a) e (at_a a ok) r)
]
  where
    at_a :
        (a : Account)
        → (i ≢ j) ⊎ ((x : Account) → x.next_probe ≤ (f x).next_probe)
        → (i ≢ j) ⊎ (a.next_probe ≤ (f a).next_probe)
    at_a a (inl other) = inl other
    at_a a (inr grows) = inr (grows a)

run-Reserved :
    (i : ℕ) (bound : Time) (cs : List Call) (p : Pool)
    → NoClear i cs
    → Reserved i bound p.accounts
    → Reserved i bound (run p cs).accounts
unfolding run step cool_at clear_at
run-Reserved i bound [] p h r = r
run-Reserved i bound (picks now ∷ cs) p h r =
    run-Reserved i bound cs (pick p now).0 h (pick-Reserved i bound now p r)
run-Reserved i bound (cools j now until ∷ cs) p h r =
    run-Reserved i bound cs (cool_at j now until p) h (
      on_account-Reserved (λ a. cool a now until) i j bound p (inr (λ a. cool-grows a now until)) r)
run-Reserved i bound (clears j ∷ cs) p h r =
    run-Reserved i bound cs (clear_at j p) h.1
      (on_account-Reserved clear_cooldown i j bound p (inl h.0) r)

run-IsValid : (cs : List Call) (p : Pool) → IsValid p → IsValid (run p cs)
unfolding run step cool_at clear_at
run-IsValid [] p v = v
run-IsValid (picks now ∷ cs) p v = run-IsValid cs _ (pick-IsValid p now v)
run-IsValid (cools j now until ∷ cs) p v = run-IsValid cs _ (on_account-IsValid _ j p v)
run-IsValid (clears j ∷ cs) p v = run-IsValid cs _ (on_account-IsValid _ j p v)

-- A probe reserves the next one.
reserve_self :
    (now : Time) (accounts : List Account) (i : ℕ)
    → holds_at (is_due now) (get_elem? accounts i) ≡ true
    → Reserved i (now + probe_interval) (reserve now accounts i)
unfolding reserve
reserve_self now accounts i due = elim (Option-cases (get_elem? accounts i)) [
  | inl e ↦ cc
  | inr (a, e) ↦
      rw (e, reserve)
        λ b at.
          let same : get_elem? (set accounts i (probe_due a now).0) i ≡ some (probe_due a now).0 =
            get_elem?-set_self accounts i _ (lt_of_get accounts i a e) in
          let is_b : (probe_due a now).0 ≡ b = cc in
          let is_due' : (probe_due a now).1 ≡ true = rw e at due in
          subst (λ (x : Account). now + probe_interval ≤ x.next_probe) is_b (probed a is_due')
]
  where
    probed :
        (a : Account)
        → (probe_due a now).1 ≡ true
        → now + probe_interval ≤ (probe_due a now).0.next_probe
    probed a h = unfold probe_due in ground arith

not_due :
    (accounts : List Account) (i : ℕ) (bound later : Time)
    → Reserved i bound accounts
    → later < bound
    → holds_at (is_due later) (get_elem? accounts i) ≡ false
not_due accounts i bound later r h = elim (Option-cases (get_elem? accounts i)) [
  | inl e ↦ rw e refl
  | inr (a, e) ↦ rw e (early a (r a e))
]
  where
    early : (a : Account) → bound ≤ a.next_probe → (probe_due a later).1 ≡ false
    early a k = unfold probe_due in ground arith

-- A pool in which every account cools names an account only as a probe.
pick_due :
    (p : Pool) (now : Time) {q : Pool} {i : ℕ}
    → IsValid p
    → AllCooling now p
    → pick p now ≡ (q, some i)
    → (holds_at (is_due now) (get_elem? p.accounts i) ≡ true)
      × (q.accounts ≡ reserve now p.accounts i)
pick_due p now {q} {i} v cooling e = elim spec.2 [
  | inl (first, _) ↦
      let (a, at) = get_of_lt p.accounts i spec.1 in
      let benched = All-get _ p.accounts i a cooling at in
      let up : available a now ≡ true = rw at at first.passes in cc
  | inr (_, first, is_q) ↦ (first.passes, is_q)
]
  where
    spec : Picks p now (q, some i)
    spec = rw e at (pick-Picks p now v)

-- An account that was picked as a probe is not picked as a probe again within five minutes,
-- whatever other requests do to the pool in between, unless one of them succeeded on it.
pub probe_spacing :
    (p : Pool) (now later : Time) (q : Pool) (i : ℕ) (cs : List Call)
    → IsValid p
    → AllCooling now p
    → pick p now ≡ (q, some i)
    → NoClear i cs
    → AllCooling later (run q cs)
    → later < now + probe_interval
    → (pick (run q cs) later).1 ≢ some i
probe_spacing p now later q i cs v cooling e h cooling' soon again =
    let (due, is_q) = pick_due p now {q = q} {i = i} v cooling e in
    let first = rw (← is_q) at (reserve_self now p.accounts i due) in
    let kept = run-Reserved i (now + probe_interval) cs q h first in
    let w = run-IsValid cs q (rw e at (pick-IsValid p now v)) in
    let (due', _) =
      pick_due (run q cs) later {q = (pick (run q cs) later).0} {i = i} w cooling' (cc) in
    let refused = not_due (run q cs).accounts i (now + probe_interval) later kept soon in cc

reserve-Cooling :
    (now : Time) (accounts : List Account) (i : ℕ)
    → All (λ a. available a now ≡ false) accounts
    → All (λ a. available a now ≡ false) (reserve now accounts i)
unfolding reserve
reserve-Cooling now accounts i cooling = elim (Option-cases (get_elem? accounts i)) [
  | inl e ↦ rw (e, reserve) cooling
  | inr (a, e) ↦
      rw (e, reserve)
        (All-of_get _ (set accounts i (probe_due a now).0) λ j b at.
          elim (get_elem?-set accounts i j (probe_due a now).0 b at) [
            | inr (_, e') ↦ All-get _ accounts j b cooling e'
            | inl (_, is_b) ↦ rw (← is_b) (same_deadline a (All-get _ accounts i a cooling e))
          ])
]
  where
    same_deadline :
        (a : Account) → available a now ≡ false → available (probe_due a now).0 now ≡ false
    same_deadline a h = unfold available probe_due in ground arith

reserve-other :
    (now : Time) (accounts : List Account) (i j : ℕ)
    → i ≢ j
    → get_elem? (reserve now accounts i) j ≡ get_elem? accounts j
unfolding reserve
reserve-other now accounts i j other = elim (Option-cases (get_elem? accounts i)) [
  | inl e ↦ rw (e, reserve) refl
  | inr (a, e) ↦ rw (e, reserve) (get_elem?-set_ne accounts i j _ other)
]

-- The probe interval is one for each account, not one for the pool: if all accounts cool and two
-- of them have a probe due, then a probe leaves the other due, and a second request at the same
-- instant is let through too, to another account.
pub second_probe :
    (p : Pool) (now : Time) (q : Pool) (i j : ℕ)
    → IsValid p
    → AllCooling now p
    → pick p now ≡ (q, some i)
    → i ≢ j
    → holds_at (is_due now) (get_elem? p.accounts j) ≡ true
    → ((pick q now).1 ≢ none) × ((pick q now).1 ≢ some i)
second_probe p now q i j v cooling e other due' = (through, elsewhere)
  where
    spec :
        (holds_at (is_due now) (get_elem? p.accounts i) ≡ true)
        × (q.accounts ≡ reserve now p.accounts i)
    spec = pick_due p now {q = q} {i = i} v cooling e

    still : AllCooling now q
    still = rw spec.1 (reserve-Cooling now p.accounts i cooling)

    w : IsValid q
    w = rw e at (pick-IsValid p now v)

    lives : holds_at (is_due now) (get_elem? q.accounts j) ≡ true
    lives = rw (spec.1, reserve-other now p.accounts i j other) due'

    at_j : (a : Account) × (get_elem? q.accounts j ≡ some a)
    at_j = elim (Option-cases (get_elem? q.accounts j)) [
      | inl e' ↦ let no_one : holds_at (is_due now) none ≡ true = rw e' at lives in cc
      | inr found ↦ found
    ]

    through : (pick q now).1 ≢ none
    through refused =
        let whole : pick q now ≡ ((pick q now).0, none) = cc in
        let outcome : Picks q now ((pick q now).0, none) = rw whole at (pick-Picks q now w) in
        let (a, at) = at_j in
        let idle = All-get _ q.accounts j a outcome.2 at in
        let asked : is_due now a ≡ true = rw at at lives in cc

    elsewhere : (pick q now).1 ≢ some i
    elsewhere again =
        let whole : pick q now ≡ ((pick q now).0, some i) = cc in
        let (due, _) = pick_due q now {q = (pick q now).0} {i = i} w still whole in
        let kept = rw (← spec.1) at (reserve_self now p.accounts i spec.0) in
        let refused = not_due q.accounts i (now + probe_interval) now kept (omega arith) in cc
