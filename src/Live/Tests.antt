-- ===== src/Live/Tests.antt =====
-- Concrete runs of the registry of live calls.
use codex_auth_broker.Live.{LiveCall, empty_store, finish, reserve, unexpired}
use codex_auth_broker.Live.Store.{
  IsBounded, Run, System, calls_within_limit, finishes, no_step, one_more, reserves, start,
}
use codex_auth_broker.Prelude.{refl}
use codex_auth_broker.Prelude.Text.{codes}

abbrev call : LiveCall
call = record { account = 1; owner = 7; expires = 100 }

abbrev reserved : System
reserved = record { store = (reserve empty_store 5).0; open_calls = 1 }

abbrev placed : System
placed = record { store = finish reserved.store (codes "c1") call; open_calls = 0 }

placing : Run start placed
unfolding reserve unexpired
placing = one_more (one_more no_step (reserves 5 refl)) (finishes 0 (codes "c1") call refl)

calls_within_limit_example : IsBounded placed
calls_within_limit_example = calls_within_limit placing
