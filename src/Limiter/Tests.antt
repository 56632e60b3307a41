-- ===== src/Limiter/Tests.antt =====
-- limiter.go on concrete inputs: two callers compete for one slot, and the theorems at these
-- inputs.
use codex_auth_broker.Limiter.{
  Limiter, enter, holding, new_concurrency_limiter, release, slot_free, waiting, wake,
}
use codex_auth_broker.Limiter.System.{
  IsCounted, Reach, System, entered, enters, here, next, no_slot_leaks, released, releases,
  run-IsCounted, start, wakes, woken,
}
use codex_auth_broker.Limiter.Upstream.{Relays, wake-Relays}
use codex_auth_broker.Prelude.{[], arith, none, refl, some, ◌∷◌, ◌≡◌}
use codex_auth_broker.Prelude.Int.{pos}

abbrev one_slot : Limiter
one_slot = record { max = 1; queue_wait = 5; in_flight = 0; queued = 0 }

built : new_concurrency_limiter (pos 1) (pos 5) ≡ some one_slot
unfolding new_concurrency_limiter
built = refl

unlimited : new_concurrency_limiter (pos 0) (pos 5) ≡ none
unfolding new_concurrency_limiter
unlimited = refl

abbrev contended : System
contended = entered (entered (start one_slot 2) 0) 1

contended-Reach : Reach (start one_slot 2) contended
unfolding enter
contended-Reach = next (next here (enters 0 refl)) (enters 1 refl)

contended_callers : contended.callers ≡ holding ∷ waiting ∷ []
unfolding enter
contended_callers = refl

run-IsCounted_example : IsCounted contended
run-IsCounted_example = run-IsCounted (pos 1) (pos 5) one_slot 2 built contended-Reach

abbrev handed_over : System
handed_over = released (woken (released contended 0) 1 slot_free) 1

handed_over-Reach : Reach (start one_slot 2) handed_over
unfolding enter wake release
handed_over-Reach =
    next (next (next contended-Reach (releases 0 refl)) (wakes 1 slot_free refl)) (releases 1 refl)

no_slot_leaks_example : (enter (some handed_over.limiter)).1 ≡ holding
unfolding enter wake release
no_slot_leaks_example =
    (no_slot_leaks (pos 1) (pos 5) one_slot 2 built handed_over-Reach (omega arith) (omega arith)).1

wake-Relays_example : Relays 7 slot_free one_slot (wake slot_free one_slot)
wake-Relays_example = wake-Relays 7 slot_free one_slot
