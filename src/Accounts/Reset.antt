-- ===== src/Accounts/Reset.antt =====
-- Cooldowns in the pool (accounts.go): `soonestReset`, `availability`, `cool` and `clearCooldown`.
use native.Mathlib.Decide.{ℕ_discrete}
use codex_auth_broker.Accounts.{
  Account, Pool, available, clear_cooldown, cool, probe_due, probe_interval, sooner, soonest_from,
  soonest_reset,
}
use codex_auth_broker.Prelude.{
  All, List, [], arith, false, get_elem?, inl, inr, refl, some, suc, true, ℕ, ◌+◌, ◌<◌, ◌∙◌, ◌∷◌,
  ◌≡◌, ◌≢◌, ◌≤◌, ◌⊎◌,
}
use codex_auth_broker.Prelude.Clock.{Time}

-- A deadline `t`, if one is set at all, is not before `r`.
abbrev pub Covers : Time → Time → Type 0
Covers r t = (t ≡ 0) ⊎ ((r ≢ 0) × (r ≤ t))

-- `r` is what was found before, or the deadline of one of the accounts.
abbrev pub IsFrom : Time → List Account → Time → Type 0
IsFrom before accounts r =
    (r ≡ before)
    ⊎ ((i : ℕ) × (a : Account) × (get_elem? accounts i ≡ some a) × (r ≡ a.cooldown_until))

sooner-Covers :
    (r before until : Time) → Covers r (sooner before until) → Covers r before × Covers r until
unfolding sooner
sooner-Covers r before until c = ground arith

sooner-cases :
    (before until : Time) → (sooner before until ≡ before) ⊎ (sooner before until ≡ until)
unfolding sooner
sooner-cases before until = ground arith

soonest_from-Covers :
    (before : Time) (accounts : List Account)
    → Covers (soonest_from before accounts) before
      × All (λ a. Covers (soonest_from before accounts) a.cooldown_until) accounts
unfolding soonest_from
soonest_from-Covers before [] = (keep (ℕ_discrete before 0), tt)
  where
    keep : Dec (before ≡ 0) → Covers before before
    keep (yes z) = inl z
    keep (no nz) = inr (nz, omega arith)
soonest_from-Covers before (a ∷ rest) =
    let (first, others) = soonest_from-Covers (sooner before a.cooldown_until) rest in
    let (old, this) = sooner-Covers _ before a.cooldown_until first in (old, (this, others))

soonest_from-IsFrom :
    (before : Time) (accounts : List Account)
    → IsFrom before accounts (soonest_from before accounts)
unfolding soonest_from
soonest_from-IsFrom before [] = inl refl
soonest_from-IsFrom before (a ∷ rest) =
    elim (soonest_from-IsFrom (sooner before a.cooldown_until) rest) [
      | inr (i, b, at, is_b) ↦ inr (suc i, b, at, is_b)
      | inl same ↦ elim (sooner-cases before a.cooldown_until) [
        | inl old ↦ inl (same ∙ old)
        | inr this ↦ inr (0, a, refl, same ∙ this)
      ]
    ]

-- `soonestReset` is the earliest of the deadlines that are set: none of them is before it, it is
-- one of them or the zero time, and it is zero only if none is set.
pub soonest_reset_lem :
    (p : Pool)
    → All (λ a. Covers (soonest_reset p) a.cooldown_until) p.accounts
      × IsFrom 0 p.accounts (soonest_reset p)
unfolding soonest_reset
soonest_reset_lem p = ((soonest_from-Covers 0 p.accounts).1, soonest_from-IsFrom 0 p.accounts)

-- A cooldown that is written again is never shortened, and holds the account back for its whole
-- length and from its next probe for five minutes; a success ends it at once.
pub cool_holds :
    (a : Account) (now until later : Time)
    → ((later < until) ⊎ (later < a.cooldown_until) → available (cool a now until) later ≡ false)
      × (later < now + probe_interval → (probe_due (cool a now until) later).1 ≡ false)
      × (available (clear_cooldown (cool a now until)) later ≡ true)
unfolding cool available probe_due clear_cooldown
cool_holds a now until later = (held, early, ground arith)
  where
    held : (later < until) ⊎ (later < a.cooldown_until) → available (cool a now until) later ≡ false
    held (inl h) = ground arith
    held (inr h) = ground arith

    early : later < now + probe_interval → (probe_due (cool a now until) later).1 ≡ false
    early h = ground arith
