-- ===== src/Accounts.antt =====
-- accounts.go, the pool: an account's cooldown state, and the choice of the account that serves the
-- next request. A pointer to an account is its index in the pool. Each method holds the locks of
-- what it touches, so a call is one step; the time is an argument.
pub mod Rotation
pub mod Pick
pub mod Probe
pub mod Reset
mod Tests
use codex_auth_broker.Prelude.{
  Bool, List, Option, [], false, get_elem?, if◌then◌else◌, length, ltb, none, not, set, some, suc,
  true, zero, ℕ, ◌%◌, ◌*◌, ◌+◌, ◌==◌, ◌||◌, ◌∷◌,
}
use codex_auth_broker.Prelude.Clock.{Time, minute}
use codex_auth_broker.Prelude.Text.{Bytes}

abbrev pub probe_interval : ℕ
probe_interval = 5 * minute

pub record Account : Type 0 where
  pub label : Bytes
  pub cooldown_until : Time
  pub next_probe : Time

unfoldable pub available : Account → Time → Bool
available a now = not (ltb now a.cooldown_until)

unfoldable pub cool : Account → Time → Time → Account
cool a now until = record a {
  cooldown_until = if ltb a.cooldown_until until then until else a.cooldown_until;
  next_probe =
      if ltb a.next_probe (now + probe_interval) then now + probe_interval else a.next_probe;
}

unfoldable pub probe_due : Account → Time → Account × Bool
probe_due a now =
    if not (ltb now a.cooldown_until)
    then (a, false)
    else if ltb now a.next_probe
    then (a, false)
    else (record a { next_probe = now + probe_interval }, true)

unfoldable pub clear_cooldown : Account → Account
clear_cooldown a = record a { cooldown_until = 0; next_probe = 0 }

pub record Pool : Type 0 where
  pub accounts : List Account
  pub active : ℕ

unfoldable pub size : Pool → ℕ
size p = length p.accounts

-- A test of the account at an index; there is none out of range.
abbrev pub holds_at : (Account → Bool) → Option Account → Bool
holds_at test none = false
holds_at test (some a) = test a

-- The index that round `i` of a loop of `pick` looks at.
abbrev pub slot : Pool → ℕ → ℕ
slot p i = (p.active + i) % length p.accounts

-- `for i := …; i < n; i++`: the first index in rotation order, from round `i` on, whose account
-- passes the test.
unfoldable pub scan : (Account → Bool) → Pool → ℕ → ℕ → Option ℕ
scan test p zero i = none
scan test p (suc rounds) i =
    let rest = scan test p rounds (i + 1) in
    if holds_at test (get_elem? p.accounts (slot p i)) then some (slot p i) else rest

abbrev pub is_due : Time → Account → Bool
is_due now a = (probe_due a now).1

abbrev pub is_available : Time → Account → Bool
is_available now a = available a now

-- What `probeDue` leaves of the account at an index: it reserves the next slot.
unfoldable pub reserve : Time → List Account → ℕ → List Account
reserve now accounts i = elim (get_elem? accounts i) [
  | none ↦ accounts
  | some a ↦ set accounts i (probe_due a now).0
]

-- `none` is `errAllCoolingDown`.
unfoldable pub pick : Pool → Time → Pool × Option ℕ
unfolding scan reserve
pick p now = elim (scan (is_available now) p (length p.accounts) 0) [
  | some i ↦ (record p { active = i }, some i)
  | none ↦ elim (scan (is_due now) p (length p.accounts) 0) [
    | some i ↦ (record { accounts = reserve now p.accounts i; active = i }, some i)
    | none ↦ (p, none)
  ]
]

-- `preferred`: whom `pick` names, or else the active account, if there is any.
unfoldable pub preferred : Pool → Time → Pool × Option ℕ
preferred p now =
    let (q, choice) = pick p now in
    elim choice [
      | some i ↦ (q, some i)
      | none ↦ (q, if length q.accounts == 0 then none else some q.active)
    ]

-- One round of the loop of `soonestReset`.
unfoldable pub sooner : Time → Time → Time
sooner soonest until =
    if until == 0 then soonest else if soonest == 0 || ltb until soonest then until else soonest

unfoldable pub soonest_from : Time → List Account → Time
soonest_from soonest [] = soonest
soonest_from soonest (a ∷ rest) = soonest_from (sooner soonest a.cooldown_until) rest

-- `soonestReset`; the zero time says that no account has a cooldown.
unfoldable pub soonest_reset : Pool → Time
unfolding soonest_from
soonest_reset p = soonest_from 0 p.accounts

unfoldable pub count_available : Time → List Account → ℕ
count_available now [] = 0
count_available now (a ∷ rest) = (if available a now then 1 else 0) + count_available now rest

unfoldable pub availability : Pool → Time → ℕ × ℕ
unfolding count_available
availability p now = (length p.accounts, count_available now p.accounts)

-- What the rest of the program does to one account of the pool: `cool` after a 429 or a failed
-- token refresh, `clearCooldown` after a success.
abbrev pub on_account : (Account → Account) → ℕ → Pool → Pool
on_account f i p = record p {
  accounts = elim (get_elem? p.accounts i) [ none ↦ p.accounts | some a ↦ set p.accounts i (f a) ];
}

unfoldable pub cool_at : ℕ → Time → Time → Pool → Pool
cool_at i now until p = on_account (λ a. cool a now until) i p

unfoldable pub clear_at : ℕ → Pool → Pool
clear_at i p = on_account clear_cooldown i p
