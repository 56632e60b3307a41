-- ===== src/Accounts/Rotation.antt =====
-- The loops of `pick` (accounts.go): `scan` finds the first account in rotation order that passes.
use native.Mathlib.Decide.{ℕ_discrete, dec_le}
use native.Mathlib.Nat.{mod-eq_of_lt, mod-eq-sub-mod}
use codex_auth_broker.Accounts.{Account, Pool, holds_at, scan, slot}
use codex_auth_broker.Prelude.{
  Bool, Bool-cases, arith, false, get_elem?, inl, inr, length, none, some, suc, true, zero, ℕ, ◌%◌,
  ◌+◌, ◌-◌, ◌<◌, ◌∙◌, ◌≡◌, ◌≤◌,
}

pub slot-lt : (p : Pool) (i : ℕ) → 0 < length p.accounts → slot p i < length p.accounts
slot-lt p i h = omega arith

-- Round `k` is the first, from `i` on and among `rounds`, whose account passes the test.
pub record IsFirst (test : Account → Bool) (p : Pool) (rounds i found : ℕ) : Type 0 where
  pub round : ℕ
  pub from : i ≤ round
  pub within : round < i + rounds
  pub found_is : found ≡ slot p round
  pub passes : holds_at test (get_elem? p.accounts found) ≡ true
  pub earlier :
      (j : ℕ) → i ≤ j → j < round → holds_at test (get_elem? p.accounts (slot p j)) ≡ false

module _ (test : Account → Bool) (p : Pool) where
  pub scan-some :
      (rounds i : ℕ) {found : ℕ} → scan test p rounds i ≡ some found → IsFirst test p rounds i found
  unfolding scan
  scan-some zero i e = cc
  scan-some (suc rounds) i {found} e =
      elim (Bool-cases (holds_at test (get_elem? p.accounts (slot p i)))) [
        | inl hit ↦
            let here : found ≡ slot p i = ground arith in
            record {
              round = i;
              from = omega arith;
              within = omega arith;
              found_is = here;
              passes = rw here hit;
              earlier = λ j h k. absurd (omega arith);
            }
        | inr miss ↦
            let later = scan-some rounds (i + 1) {found = found} (ground arith) in
            record {
              round = later.round;
              from = omega (arith, later.from);
              within = omega (arith, later.within);
              found_is = later.found_is;
              passes = later.passes;
              earlier = λ j h k. elim (ℕ_discrete i j) [
                | yes same ↦ rw (← same) miss
                | no other ↦ later.earlier j (omega arith) k
              ];
            }
      ]

  pub scan-none :
      (rounds i : ℕ)
      → scan test p rounds i ≡ none
      → (j : ℕ) → i ≤ j
      → j < i + rounds
      → holds_at test (get_elem? p.accounts (slot p j)) ≡ false
  unfolding scan
  scan-none zero i e j h k = absurd (omega arith)
  scan-none (suc rounds) i e j h k =
      elim (Bool-cases (holds_at test (get_elem? p.accounts (slot p i)))) [
        | inl hit ↦ cc
        | inr miss ↦ elim (ℕ_discrete i j) [
          | yes same ↦ rw (← same) miss
          | no other ↦ scan-none rounds (i + 1) (ground arith) j (omega arith) (omega arith)
        ]
      ]

  pub scan-hit :
      (rounds i : ℕ)
      → 0 < rounds
      → holds_at test (get_elem? p.accounts (slot p i)) ≡ true
      → scan test p rounds i ≡ some (slot p i)
  unfolding scan
  scan-hit zero i h e = elim h [ ]
  scan-hit (suc rounds) i h e = rw e

add-mod_self : (j n : ℕ) → j < n → (j + n) % n ≡ j
add-mod_self j n h =
    let less : (j + n) - n ≡ j = omega arith in
    mod-eq-sub-mod (omega arith) ∙ rw less (mod-eq_of_lt h)

-- From a valid active index every account has its round.
pub round_of :
    (p : Pool) (j : ℕ)
    → p.active < length p.accounts
    → j < length p.accounts
    → (k : ℕ) × (k < length p.accounts) × (slot p k ≡ j)
round_of p j a h = elim (dec_le p.active j) [
  | yes le ↦
      let back : p.active + (j - p.active) ≡ j = omega arith in
      (j - p.active, omega arith, rw back (mod-eq_of_lt h))
  | no gt ↦
      let n = length p.accounts in
      let round : p.active + (j + n - p.active) ≡ j + n = omega arith in
      (j + n - p.active, omega arith, rw round (add-mod_self j n h))
]
