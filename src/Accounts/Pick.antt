-- ===== src/Accounts/Pick.antt =====
-- What `pick` of accounts.go promises.
use native.Mathlib.Nat.{mod-eq_of_lt}
use codex_auth_broker.Accounts.{
  Account, Pool, available, holds_at, is_available, is_due, on_account, pick, reserve, scan, slot,
}
use codex_auth_broker.Accounts.Rotation.{IsFirst, round_of, scan-hit, scan-none, scan-some, slot-lt}
use codex_auth_broker.Prelude.{
  All, All-of_get, Bool, List, Option, Option-cases, [], ap, arith, false, get_elem?, inl, inr,
  length, length-set, lt_of_get, none, refl, some, true, ℕ, ◌+◌, ◌<◌, ◌∷◌, ◌≡◌, ◌⊎◌,
}
use codex_auth_broker.Prelude.Clock.{Time}

-- The active index is in range; an empty pool has none.
abbrev pub IsValid : Pool → Type 0
IsValid p = (p.active < length p.accounts) ⊎ (p.accounts ≡ [])

module _ (test : Account → Bool) (p : Pool) where
  scan_fails :
      IsValid p → scan test p (length p.accounts) 0 ≡ none → All (λ a. test a ≡ false) p.accounts
  scan_fails (inr empty) e = rw empty tt
  scan_fails (inl valid) e = All-of_get _ p.accounts λ j a at.
      let (k, within, same) = round_of p j valid (lt_of_get p.accounts j a at) in
      let failed = scan-none test p (length p.accounts) 0 e k (omega arith) (omega arith) in
      rw (same, at) at failed

  IsFirst-lt : {i : ℕ} → IsFirst test p (length p.accounts) 0 i → i < length p.accounts
  IsFirst-lt f = rw f.found_is (slot-lt p f.round (omega (arith, f.within)))

abbrev pub AllCooling : Time → Pool → Type 0
AllCooling now p = All (λ a. available a now ≡ false) p.accounts

-- What a call of `pick` may do. It names the first available account in rotation order from the
-- active one, and moves there; if all are cooling, the first whose probe is due, and reserves its
-- next probe; and it fails, with the pool unchanged, only if no account is available and no probe
-- is due.
abbrev pub Picks : Pool → Time → Pool × Option ℕ → Type 0
Picks p now (q, some i) =
    (q.active ≡ i)
    × (i < length p.accounts)
    × ((IsFirst (is_available now) p (length p.accounts) 0 i × (q.accounts ≡ p.accounts))
        ⊎ (AllCooling now p
            × IsFirst (is_due now) p (length p.accounts) 0 i
            × (q.accounts ≡ reserve now p.accounts i)))
Picks p now (q, none) = (q ≡ p) × AllCooling now p × All (λ a. is_due now a ≡ false) p.accounts

-- From a pool whose active index is in range, `pick` names, and makes active, the first available
-- account in rotation order from the active one; if all are cooling, the first in that order whose
-- probe is due, whose next probe it reserves; and else none, with the pool as it was.
pub pick-Picks : (p : Pool) (now : Time) → IsValid p → Picks p now (pick p now)
unfolding pick
pick-Picks p now v = elim (Option-cases (scan (is_available now) p (length p.accounts) 0)) [
  | inr (i, e) ↦
      let first = scan-some (is_available now) p (length p.accounts) 0 e in
      rw (e, pick) (refl, IsFirst-lt (is_available now) p first, inl (first, refl))
  | inl e ↦ elim (Option-cases (scan (is_due now) p (length p.accounts) 0)) [
    | inr (i, d) ↦
        let first = scan-some (is_due now) p (length p.accounts) 0 d in
        rw (e, d, pick)
          (
            refl,
            IsFirst-lt (is_due now) p first,
            inr (scan_fails (is_available now) p v e, first, refl),
          )
    | inl d ↦
        rw (e, d, pick) (refl, scan_fails (is_available now) p v e, scan_fails (is_due now) p v d)
  ]
]

-- Selection is sticky: while the active account is available every request stays on it, and the
-- pool does not change.
pub pick_sticky :
    (p : Pool) (now : Time) (a : Account)
    → get_elem? p.accounts p.active ≡ some a
    → available a now ≡ true
    → pick p now ≡ (p, some p.active)
unfolding pick
pick_sticky p now a at h =
    let within = lt_of_get p.accounts p.active a at in
    let zeroth : slot p 0 ≡ p.active =
      let e : p.active + 0 ≡ p.active = omega arith in rw e (mod-eq_of_lt within) in
    let passes : holds_at (is_available now) (get_elem? p.accounts (slot p 0)) ≡ true =
      rw (zeroth, at) h in
    let found = scan-hit (is_available now) p (length p.accounts) 0 (omega arith) passes in
    rw (found, pick) (rw zeroth refl)

length-reserve :
    (now : Time) (accounts : List Account) (i : ℕ)
    → length (reserve now accounts i) ≡ length accounts
unfolding reserve
length-reserve now accounts i = elim (Option-cases (get_elem? accounts i)) [
  | inl e ↦ rw (e, reserve) refl
  | inr (a, e) ↦ rw (e, reserve) (length-set accounts i _)
]

length-zero : (xs : List Account) → length xs ≡ 0 → xs ≡ []
length-zero [] h = refl
length-zero (x ∷ xs) h = absurd (omega arith)

IsValid-length :
    (p q : Pool)
    → length q.accounts ≡ length p.accounts
    → q.active ≡ p.active
    → IsValid p
    → IsValid q
IsValid-length p q same at (inl lt) = inl (omega arith)
IsValid-length p q same at (inr empty) =
    inr (length-zero q.accounts (omega (arith, ap length empty)))

pub pick-IsValid : (p : Pool) (now : Time) → IsValid p → IsValid (pick p now).0
pick-IsValid p now v = go (pick p now) (pick-Picks p now v)
  where
    go : (r : Pool × Option ℕ) → Picks p now r → IsValid r.0
    go (q, some i) (at, lt, inl (_, same)) = inl (rw (at, same) lt)
    go (q, some i) (at, lt, inr (_, _, same)) =
        inl (omega (arith, ap length same, length-reserve now p.accounts i))
    go (q, none) (same, _, _) = rw same v

pub on_account-IsValid :
    (f : Account → Account) (i : ℕ) (p : Pool) → IsValid p → IsValid (on_account f i p)
on_account-IsValid f i p v = IsValid-length p (on_account f i p) same refl v
  where
    same : length (on_account f i p).accounts ≡ length p.accounts
    same = elim (Option-cases (get_elem? p.accounts i)) [
      | inl e ↦ rw (e, on_account) refl
      | inr (a, e) ↦ rw (e, on_account) (length-set p.accounts i (f a))
    ]
