-- ===== src/Server/Drain.antt =====
-- Runs of the server's admission (server.go): requests that come, handlers that end, and drains, in
-- any order.
use codex_auth_broker.Server.{ServerRequests, admit, drain, fresh, leave}
use codex_auth_broker.Prelude.{
  arith, false, if◌then◌else◌, refl, true, ℕ, ◌&&◌, ◌+◌, ◌==◌, ◌≡◌, ◌≤◌,
}

-- The server and the number of handlers that run.
pub record System : Type 0 where
  pub server : ServerRequests
  pub running : ℕ

abbrev pub start : System
start = record { server = fresh; running = 0 }

pub data Step (s : System) : System → Type 0 where
  arrives :
      (admit s.server).1 ≡ true
      → Step s (record { server = (admit s.server).0; running = s.running + 1 })
  is_refused :
      (admit s.server).1 ≡ false
      → Step s (record { server = (admit s.server).0; running = s.running })
  ends : (n : ℕ) → s.running ≡ n + 1 → Step s (record { server = leave s.server; running = n })
  drains : Step s (record { server = drain s.server; running = s.running })

pub data Run (s : System) : System → Type 0 where
  no_step : Run s s
  one_more : {t u : System} → Run s t → Step t u → Run s u

-- The counter counts the handlers, and the channel is closed once if the server drains and no
-- handler runs, and else not at all.
abbrev pub IsOrderly : System → Type 0
IsOrderly s =
    (s.server.active ≡ s.running)
    × (s.server.closed ≡ (if s.server.draining && s.server.active == 0 then 1 else 0))

Step-IsOrderly : {s t : System} → Step s t → IsOrderly s → IsOrderly t
unfolding admit leave drain
Step-IsOrderly (arrives h) (count, once) = (ground arith, ground arith)
Step-IsOrderly (is_refused h) (count, once) = (ground arith, ground arith)
Step-IsOrderly (ends n h) (count, once) = (ground arith, ground arith)
Step-IsOrderly drains (count, once) = (ground arith, ground arith)

Run-IsOrderly : {s t : System} → IsOrderly s → Run s t → IsOrderly t
Run-IsOrderly v no_step = v
Run-IsOrderly v (one_more r st) = Step-IsOrderly st (Run-IsOrderly v r)

-- However requests, ends of handlers and drains interleave, the counter is the number of handlers
-- that run, and the channel that the shutdown waits for is closed exactly once if the server drains
-- and no handler runs, and not closed otherwise: no handler is left behind, and none closes it
-- again.
pub drained_once : {t : System} → Run start t → IsOrderly t
drained_once r = Run-IsOrderly (refl, refl) r

Step-draining :
    {s t : System}
    → Step s t
    → s.server.draining ≡ true
    → (t.server.draining ≡ true) × (t.running ≤ s.running)
unfolding admit leave drain
Step-draining (arrives h) d = (ground arith, ground arith)
Step-draining (is_refused h) d = (ground arith, ground arith)
Step-draining (ends n h) d = (ground arith, ground arith)
Step-draining drains d = (ground arith, ground arith)

-- From a drain on, every request is refused and the number of running handlers never grows.
pub no_late_adds :
    (s : System) {t : System}
    → Run (record { server = drain s.server; running = s.running }) t
    → ((admit t.server).1 ≡ false) × (t.running ≤ s.running)
no_late_adds s r = let (still, fewer) = go r in (unfold admit in ground arith, fewer)
  where
    first : (drain s.server).draining ≡ true
    first = unfold drain in ground arith

    go :
        {u : System}
        → Run (record { server = drain s.server; running = s.running }) u
        → (u.server.draining ≡ true) × (u.running ≤ s.running)
    go no_step = (first, omega arith)
    go (one_more r' st) =
        let (d, fewer) = go r' in let (d', less) = Step-draining st d in (d', omega arith)
