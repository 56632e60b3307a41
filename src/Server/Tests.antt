-- ===== src/Server/Tests.antt =====
-- Concrete runs of the server's admission.
use codex_auth_broker.Server.{admit, drain, fresh, leave}
use codex_auth_broker.Server.Drain.{
  IsOrderly, Run, System, arrives, drained_once, drains, ends, no_late_adds, no_step, one_more,
  start,
}
use codex_auth_broker.Prelude.{false, refl, true, ◌≡◌, ◌≤◌}

-- A request is running when the server drains.
abbrev one_running : System
one_running = record { server = (admit fresh).0; running = 1 }

abbrev draining : System
draining = record { server = drain one_running.server; running = 1 }

abbrev over : System
over = record { server = leave draining.server; running = 0 }

lets_in : Run start one_running
unfolding admit
lets_in = one_more no_step (arrives refl)

drained_by_now : Run start over
drained_by_now = one_more (one_more lets_in drains) (ends 0 refl)

over_run : over.server ≡ record { draining = true; active = 0; closed = 1 }
unfolding admit leave drain
over_run = refl

drained_once_example : IsOrderly over
drained_once_example = drained_once drained_by_now

no_late_adds_example : ((admit over.server).1 ≡ false) × (0 ≤ 1)
no_late_adds_example = no_late_adds one_running {t = over} (one_more no_step (ends 0 refl))
