-- ===== src/Dispatch/Relay.antt =====
-- `writeDispatchFailure` of proxy.go: the Retry-After header of a failure that is relayed.
use codex_auth_broker.Failure.{DispatchFailure}
use codex_auth_broker.Accounts.{probe_interval}
use codex_auth_broker.Prelude.{
  Bool, Bool-cases, Option, arith, false, if◌then◌else◌, inl, inr, ltb, none, some, ℕ, ◌&&◌, ◌*◌,
  ◌+◌, ◌-◌, ◌/◌, ◌<◌, ◌==◌, ◌≡◌, ◌≢◌, ◌≤◌, ◌⊎◌,
}
use codex_auth_broker.Prelude.Clock.{Time, second}

-- The wait of a 429 is cut to the probe interval.
abbrev pub cuts : DispatchFailure → Time → Bool
cuts fail now = fail.status == 429 && ltb probe_interval (fail.retry_after - now)

-- The seconds of the Retry-After header, if there is one; the wait to a time that is past is none.
unfoldable pub retry_after_header : DispatchFailure → Time → Option ℕ
retry_after_header fail now =
    if fail.retry_after == 0
    then none
    else let wait = fail.retry_after - now in
      let capped = if cuts fail now then probe_interval else wait in
      if ltb 0 (capped / second) then some (capped / second) else none

-- What a client is told by a failure at a time.
abbrev pub Tells : DispatchFailure → Time → Option ℕ → Type 0
Tells fail now none = fail.retry_after < now + second
Tells fail now (some secs) =
    (1 ≤ secs)
    × (now + secs * second ≤ fail.retry_after)
    × (fail.status ≡ 429 → secs ≤ 300)
    × ((fail.status ≢ 429) ⊎ (fail.retry_after ≤ now + probe_interval)
        → fail.retry_after < now + (secs + 1) * second)

-- A Retry-After header is sent unless the time to retry is less than a second away. It is at least
-- one second, never reaches beyond the failure's own retry time, and for status 429 never beyond
-- five minutes; where that bound does not cut it, it names the whole seconds to the retry time.
pub retry_after_header-Tells :
    (fail : DispatchFailure) (now : Time) → Tells fail now (retry_after_header fail now)
unfolding retry_after_header
retry_after_header-Tells fail now = elim (Bool-cases (fail.retry_after == 0)) [
  | inl unset ↦ rw unset (ground arith)
  | inr given ↦ rw given (elim (Bool-cases (cuts fail now)) [
    | inl cut ↦
        let limit : fail.status ≡ 429 = ground arith in
        let far : probe_interval < fail.retry_after - now = ground arith in
        rw cut
          (omega arith, omega arith, λ _. omega arith, λ uncut. absurd (unless limit far uncut))
    | inr free ↦ rw free (elim (Bool-cases (ltb 0 ((fail.retry_after - now) / second))) [
      | inl whole ↦
          rw whole (ground arith, ground arith, λ limit. near limit free, λ _. ground arith)
      | inr less ↦ rw less (ground arith)
    ])
  ])
]
  where
    unless :
        fail.status ≡ 429
        → probe_interval < fail.retry_after - now
        → ¬ ((fail.status ≢ 429) ⊎ (fail.retry_after ≤ now + probe_interval))
    unless limit far (inl other) = other limit
    unless limit far (inr near') = omega arith

    near : fail.status ≡ 429 → cuts fail now ≡ false → (fail.retry_after - now) / second ≤ 300
    near limit free =
        let close : fail.retry_after - now ≤ probe_interval = ground arith in omega arith
