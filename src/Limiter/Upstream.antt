-- ===== src/Limiter/Upstream.antt =====
-- `acquireUpstreamSlot` of limiter.go: what a caller of `acquire` that was refused relays.
use codex_auth_broker.Prelude.{
  Bool-cases, arith, inl, inr, ltb, refl, ℕ, ◌++◌, ◌+◌, ◌-◌, ◌<◌, ◌≡◌, ◌≤◌, ◌⊎◌,
}
use codex_auth_broker.Prelude.Text.{codes}
use codex_auth_broker.Prelude.Clock.{Time}
use codex_auth_broker.Failure.{DispatchFailure, failure}
use codex_auth_broker.Limiter.{
  AcquireError, Caller, Limiter, Wake, context_done, context_ended, holding,
  queue_timeout_retry_after, queue_wait_exceeded, refused, slot_free, timer_fired, waiting, wake,
}

pub acquire_upstream_slot : Time → AcquireError → DispatchFailure
acquire_upstream_slot now queue_wait_exceeded =
    record (failure 429
      (codes "broker concurrency limit reached and queue wait exceeded" ++ codes "; retry later")) {
        retry_after = now + queue_timeout_retry_after;
      }
acquire_upstream_slot now (context_ended e) =
    failure 408 (codes "request canceled while waiting for an upstream slot: " ++ e)

-- A caller that left the queue with this failure, and took no slot.
abbrev pub IsTurnedAway : Time → Limiter → Limiter × Caller → ℕ → Time → Type 0
IsTurnedAway now l (m, c) status retry_after =
    (m.in_flight ≡ l.in_flight)
    × (m.queued ≡ l.queued - 1)
    × (e : AcquireError) × (c ≡ refused e)
    × ((acquire_upstream_slot now e).status ≡ status)
    × ((acquire_upstream_slot now e).retry_after ≡ retry_after)

-- What a waiting caller is told, by what it was woken with: by a free slot, that it holds it, which
-- the limiter then counts, or to go on waiting if all slots are taken, with nothing changed; by the
-- timer, 429 with a hint 30 seconds ahead; by the end of its context, 408 with none.
abbrev pub Relays : Time → Wake → Limiter → Limiter × Caller → Type 0
Relays now slot_free l (m, c) =
    ((l.in_flight < l.max)
      × (c ≡ holding)
      × (m.in_flight ≡ l.in_flight + 1)
      × (m.in_flight ≤ m.max)
      × (m.queued ≡ l.queued - 1))
    ⊎ ((l.max ≤ l.in_flight) × (c ≡ waiting) × (m ≡ l))
Relays now timer_fired l out = IsTurnedAway now l out 429 (now + 30_000_000_000)
Relays now (context_done e) l out = IsTurnedAway now l out 408 0

-- Whatever wakes a waiting caller, the limiter and the answer agree. A free slot goes to the caller
-- exactly if the capacity is not used up, and is then counted; otherwise it waits on. A caller whose
-- timer fired is told 429 with a retry time 30 seconds ahead, and one whose context ended 408
-- without one; both leave the queue and hold nothing.
pub wake-Relays : (now : Time) (w : Wake) (l : Limiter) → Relays now w l (wake w l)
unfolding wake acquire_upstream_slot
wake-Relays now slot_free l = elim (Bool-cases (ltb l.in_flight l.max)) [
  | inl free ↦ rw free (inl (ground arith, refl, refl, ground arith, refl))
  | inr full ↦ rw full (inr (ground arith, refl, refl))
]
wake-Relays now timer_fired l = (refl, refl, queue_wait_exceeded, refl, refl, refl)
wake-Relays now (context_done e) l = (refl, refl, context_ended e, refl, refl, refl)
