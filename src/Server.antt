-- ===== src/Server.antt =====
-- server.go, admission and draining of requests: `serverRequests`. Each method holds the lock from
-- its first test to its last write, so a call is one step.
pub mod Drain
mod Tests
use codex_auth_broker.Prelude.{Bool, false, if◌then◌else◌, true, ℕ, ◌&&◌, ◌+◌, ◌-◌, ◌==◌}

-- `done` is a channel that is only ever closed: the number of times that it was.
pub record ServerRequests : Type 0 where
  pub draining : Bool
  pub active : ℕ
  pub closed : ℕ

abbrev pub fresh : ServerRequests
fresh = record { draining = false; active = 0; closed = 0 }

-- What `wrap` does before the handler: whether the request is let in. One that is not gets status
-- 503 and a Retry-After header of one second.
unfoldable pub admit : ServerRequests → ServerRequests × Bool
admit s = if s.draining then (s, false) else (record s { active = s.active + 1 }, true)

-- The deferred part of `wrap`. The count of the source would go below 0 here where this one stops.
unfoldable pub leave : ServerRequests → ServerRequests
leave s =
    let active = s.active - 1 in
    record s {
      active = active;
      closed = if s.draining && active == 0 then s.closed + 1 else s.closed;
    }

unfoldable pub drain : ServerRequests → ServerRequests
drain s =
    if s.draining
    then s
    else record s { draining = true; closed = if s.active == 0 then s.closed + 1 else s.closed }
