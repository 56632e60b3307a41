-- ===== src/Limiter.antt =====
-- limiter.go: the semaphore round upstream calls. The channel of capacity `max` is the number of
-- slots in it. `acquire` is two atomic steps, since other goroutines run while it waits: `enter`
-- (the first `select`, and `queued.Add(1)`) and `wake` (the second `select`, and the deferred
-- `queued.Add(-1)`). A nil limiter is `none`.
pub mod System
pub mod Upstream
mod Tests
use codex_auth_broker.Prelude.{Option, if◌then◌else◌, ltb, none, some, ℕ, ◌*◌, ◌+◌, ◌-◌}
use codex_auth_broker.Prelude.Clock.{second}
use codex_auth_broker.Prelude.Int.{leb_ℤ, pos, pos_part, ℤ}
use codex_auth_broker.Prelude.Text.{Bytes}

abbrev pub default_queue_wait : ℕ
default_queue_wait = 120 * second

abbrev pub queue_timeout_retry_after : ℕ
queue_timeout_retry_after = 30 * second

pub record Limiter : Type 0 where
  pub max : ℕ
  pub queue_wait : ℕ
  pub in_flight : ℕ
  pub queued : ℕ

-- newConcurrencyLimiter
unfoldable pub new_concurrency_limiter : ℤ → ℤ → Option Limiter
new_concurrency_limiter max queue_wait =
    if leb_ℤ max (pos 0)
    then none
    else some (record {
      max = pos_part max;
      queue_wait = if leb_ℤ queue_wait (pos 0) then default_queue_wait else pos_part queue_wait;
      in_flight = 0;
      queued = 0;
    })

-- `errQueueWaitExceeded`, or `ctx.Err()` with its text.
pub data AcquireError : Type 0 where
  queue_wait_exceeded : AcquireError
  context_ended : Bytes → AcquireError

-- Where a caller of `acquire` stands: it returned nil, it waits, or it returned an error.
pub data Caller : Type 0 where
  outside holding waiting : Caller
  refused : AcquireError → Caller

-- What the second `select` receives first.
pub data Wake : Type 0 where
  slot_free timer_fired : Wake
  context_done : Bytes → Wake

unfoldable pub enter : Option Limiter → Option Limiter × Caller
enter none = (none, holding)
enter (some l) =
    if ltb l.in_flight l.max
    then (some (record l { in_flight = l.in_flight + 1 }), holding)
    else (some (record l { queued = l.queued + 1 }), waiting)

-- A send on the channel is received only where the channel has room: otherwise the caller goes on
-- waiting.
unfoldable pub wake : Wake → Limiter → Limiter × Caller
wake slot_free l =
    if ltb l.in_flight l.max
    then (record l { in_flight = l.in_flight + 1; queued = l.queued - 1 }, holding)
    else (l, waiting)
wake timer_fired l = (record l { queued = l.queued - 1 }, refused queue_wait_exceeded)
wake (context_done e) l = (record l { queued = l.queued - 1 }, refused (context_ended e))

unfoldable pub release : Option Limiter → Option Limiter
release none = none
release (some l) = some (record l { in_flight = l.in_flight - 1 })

pub record Stats : Type 0 where
  pub max_concurrent : ℕ
  pub in_flight : ℕ
  pub queued : ℕ

unfoldable pub stats : Option Limiter → Stats
stats none = record { max_concurrent = 0; in_flight = 0; queued = 0 }
stats (some l) = record { max_concurrent = l.max; in_flight = l.in_flight; queued = l.queued }
